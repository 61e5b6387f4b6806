-- ===== src/Arena/Setup/Clean.antt =====
-- The outcomes of `initialize` of src/memory/arena.cpp, failures included, in terms of the
-- objects of the driver.
use parallax_runtime.Prelude.{
  ℕ, ◌+◌, ◌≡◌, refl, ◌≢◌, inl, inr, Bool, false, [], ◌∷◌, ◌++◌, arith, ◌==◌, Bool-cases,
  Option-cases, align_up,
}
use parallax_runtime.Vulkan.{
  Trace, create, buffer, no_type, find_memory_type, device_local, host_visible, host_coherent,
}
use parallax_runtime.Arena.{Arena, default_alignment}
use parallax_runtime.Arena.Setup.{
  Answers, uma_type, destroy, fail, ready, setup_uma, setup_staging, setup_discrete, initialize,
  arena_size,
}
use parallax_runtime.Arena.Setup.Accounts.{
  IsIdle, IsLegal, Accounts, HasBuffer, HasMemory, held-empty, destroy-IsIdle, destroy-Accounts,
  uma_none, uma_unmapped, uma_mapped, staging_created, staging_backed, requested, device_backed,
  not_uma, staging_mapped, rebased, buffer_created,
}

-- The outcome of a setup: its commands account for the arena, which is idle if the setup failed.
abbrev pub Outcome : Bool × Arena × Trace → Type 0
Outcome (ok, r, t) = Accounts t r × (ok ≡ false → IsIdle r)

pub fail-Outcome : (r : Arena) (t : Trace) → Accounts t r → Outcome (fail r t)
unfolding fail
fail-Outcome r t a = (
  record {
    balance = λ k h.
        omega (arith, destroy-Accounts t r a k h, held-empty k h (destroy r).0 (destroy-IsIdle r));
  },
  λ e. destroy-IsIdle r,
)

ready-Outcome : (a : Answers) (r : Arena) (t : Trace) → Accounts t r → Outcome (ready a r t)
unfolding ready
ready-Outcome a r t h = (rebased r t _ 0 0 h, λ e. cc)

setup_uma-Outcome :
    (a : Answers) (r : Arena) (t : Trace)
    → IsLegal a
    → HasBuffer r
    → Accounts t r
    → Outcome (setup_uma a r t)
unfolding setup_uma
setup_uma-Outcome a r t l b h = elim (Option-cases a.new_memory) [
  | inl e ↦ rw (e, setup_uma) (fail-Outcome _ _ (uma_none r t a.buffer_size (uma_type a) b h))
  | inr (m, e) ↦ elim (Option-cases a.mapped) [
    | inl f ↦
        rw (e, setup_uma)
          (rw f (
            fail-Outcome _ _
              (uma_unmapped r t a.buffer_size (uma_type a) m (l.memory_handle m e) b h)))
    | inr (p, f) ↦
        rw (e, setup_uma)
          (rw f (
            ready-Outcome a _ _ (
              uma_mapped r t a.buffer_size (uma_type a) m p (l.memory_handle m e)
                (l.mapped_pointer p f) b h)))
  ]
]

has_memory : (r : Arena) (m : ℕ) → HasBuffer r → HasMemory (record r { uma = false; memory = m })
has_memory r m b = record {
  own = b.own;
  uma = refl;
  unmapped = b.unmapped;
  no_staging_buffer = b.no_staging_buffer;
  no_staging_memory = b.no_staging_memory;
  no_pool = b.no_pool;
  no_fence = b.no_fence;
}

resized : (r : Arena) (c : ℕ) → IsIdle r → IsIdle (record r { capacity = c })
resized r c i = record {
  own = i.own;
  unmapped = i.unmapped;
  no_buffer = i.no_buffer;
  no_memory = i.no_memory;
  no_staging_buffer = i.no_staging_buffer;
  no_staging_memory = i.no_staging_memory;
  no_pool = i.no_pool;
  no_fence = i.no_fence;
}

has_buffer :
    (r : Arena) (c b : ℕ) → b ≢ 0 → IsIdle r → HasBuffer (record r { capacity = c; buffer = b })
has_buffer r c b bz i = record {
  own = i.own;
  unmapped = i.unmapped;
  some_buffer = bz;
  no_memory = i.no_memory;
  no_staging_buffer = i.no_staging_buffer;
  no_staging_memory = i.no_staging_memory;
  no_pool = i.no_pool;
  no_fence = i.no_fence;
}

pub idle_Accounts : (r : Arena) → IsIdle r → Accounts [] r
idle_Accounts r i = record { balance = λ k h. omega (arith, held-empty k h r i) }

module _ (a : Answers) (l : IsLegal a) where
  stage_type : ℕ
  stage_type = find_memory_type a.types a.staging_bits (host_visible + host_coherent)

  setup_staging-Outcome :
      (r : Arena) (t : Trace) → HasMemory r → Accounts t r → Outcome (setup_staging a r t)
  unfolding setup_staging stage_type
  setup_staging-Outcome r t b h = elim (Option-cases a.new_staging_buffer) [
    | inl e ↦ rw (e, setup_staging) (fail-Outcome r t h)
    | inr (s, e) ↦
        let h1 = staging_created r t s (l.staging_handle s e) b h in
        elim (Bool-cases (stage_type == no_type)) [
          | inl f ↦ rw (e, setup_staging) (rw f (fail-Outcome _ _ h1))
          | inr f ↦ elim (Option-cases a.new_staging_memory) [
            | inl g ↦
                rw (e, setup_staging)
                  (rw (f, g) (fail-Outcome _ _ (requested _ _ a.staging_size stage_type h1)))
            | inr (m, g) ↦
                let r1 = record r { staging_buffer = s } in
                let r2 = record r1 { staging_memory = m } in
                let h2 =
                  staging_backed r1 (t ++ create buffer s ∷ []) a.staging_size stage_type m
                    (l.staging_memory_handle m g) b.unmapped b.no_staging_memory h1 in
                elim (Option-cases a.mapped) [
                  | inl z ↦ rw (e, setup_staging) (rw (f, g) (rw z (fail-Outcome _ _ h2)))
                  | inr (p, z) ↦
                      rw (e, setup_staging)
                        (rw (f, g)
                          (rw z (
                            ready-Outcome a _ _ (
                              staging_mapped r2 _ p a.new_pool a.new_cmd a.new_fence
                                (l.mapped_pointer p z) b.own b.uma b.unmapped b.no_pool b.no_fence
                                h2))))
                ]
          ]
        ]
  ]

  dev_type : ℕ
  dev_type = find_memory_type a.types a.buffer_bits device_local

  setup_discrete-Outcome :
      (r : Arena) (t : Trace) → HasBuffer r → Accounts t r → Outcome (setup_discrete a r t)
  unfolding setup_discrete dev_type
  setup_discrete-Outcome r t b h =
      let h0 = not_uma r t b.unmapped h in
      elim (Bool-cases (dev_type == no_type)) [
        | inl f ↦ rw (f, setup_discrete) (fail-Outcome _ _ h0)
        | inr f ↦ elim (Option-cases a.new_memory) [
          | inl e ↦
              rw (f, setup_discrete)
                (rw e (fail-Outcome _ _ (requested _ _ a.buffer_size dev_type h0)))
          | inr (m, e) ↦
              rw (f, setup_discrete)
                (rw e (
                  setup_staging-Outcome _ _ (has_memory r m b) (
                    device_backed (record r { uma = false }) t a.buffer_size dev_type m
                      (l.memory_handle m e) b.unmapped b.no_memory h0)))
        ]
      ]

  -- A failed setup leaves the arena with no object of the driver, and its commands destroy all
  -- that they created; a setup that succeeds leaves what it created in the arena's members.
  pub initialize-Outcome : (r : Arena) (capacity : ℕ) → IsIdle r → Outcome (initialize a r capacity)
  unfolding initialize
  initialize-Outcome r capacity i = elim (Bool-cases (a.device == 0)) [
    | inl d ↦ rw d (idle_Accounts r i, λ _. i)
    | inr d ↦ elim (Option-cases a.new_buffer) [
      | inl e ↦ rw (d, e) (idle_Accounts _ (resized r _ i), λ _. resized r _ i)
      | inr (b, e) ↦
          let bz = l.buffer_handle b e in
          let h =
            buffer_created r (align_up (arena_size a.arena_megabytes capacity) default_alignment) b
              bz i in
          let have = has_buffer r _ b bz i in
          elim (Bool-cases (uma_type a == no_type)) [
            | inl u ↦ rw (d, e) (rw u (setup_discrete-Outcome _ _ have h))
            | inr u ↦ rw (d, e) (rw u (setup_uma-Outcome a _ _ l have h))
          ]
    ]
  ]
