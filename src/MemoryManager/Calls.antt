-- ===== src/MemoryManager/Calls.antt =====
-- The objects of the driver before and after each call of the MemoryManager of
-- src/memory/unified_buffer.cpp.
use parallax_runtime.Prelude.{
  ℕ, ◌≡◌, refl, sym, ◌∙◌, inl, inr, Bool, true, ◌||◌, none, some, [], ◌∷◌, ◌++◌, arith, ◌==◌,
  Bool-cases, Option-cases, Map, find, insert, All, All-insert, All-erase, All-find,
}
use parallax_runtime.Vulkan.{
  Kind, Command, Trace, flush_mapped, host_copy, creations, destructions, IsBalanced,
  creations-append, destructions-append,
}
use parallax_runtime.UnifiedBuffer.{
  UnifiedBuffer, DirtyBlock, needs_host_to_device, init_dirty_tracking, mark_all_dirty_on_device,
}
use parallax_runtime.MemoryManager.{
  Manager, Answers, construct, any, create_buffer, tracked, allocate, release, deallocate, transfer,
  transfer_dirty_blocks, sync_before_kernel, sync_after_kernel, register_external_buffer,
  destructor_release, release_all, destructor,
}
use parallax_runtime.MemoryManager.Accounts.{
  objects, held_all, held_all-insert, held_all-replace, held_all-erase, IsWhole, IsLegal,
  weigh_pool, Accounts, create_buffer-failed, create_buffer-made, create_buffer-counts,
}

-- A table with a new buffer under a new pointer.
added :
    (t : Trace) (mm : Manager) (a : Answers) (b m p q size : ℕ)
    → IsLegal a
    → find q mm.buffers ≡ none
    → (create_buffer a).0 ≡ some (b, m, p)
    → Accounts t mm
    → Accounts
        (t ++ (create_buffer a).1)
        (record mm { buffers = insert q (tracked q b m size) mm.buffers })
unfolding tracked init_dirty_tracking objects
added t mm a b m p q size l new e h = record {
  whole =
      All-insert IsWhole q (tracked q b m size) mm.buffers
        (
          refl,
          l.buffer_handle b (create_buffer-made a b m p e).0,
          l.memory_handle m (create_buffer-made a b m p e).1,
        )
        h.whole;
  balance = λ k j. omega (
    arith,
    h.balance k j,
    create_buffer-counts k j a b m p e,
    creations-append k j t (create_buffer a).1,
    destructions-append k j t (create_buffer a).1,
    held_all-insert k j q (tracked q b m size) mm.buffers new,
  );
}

unchanged :
    (t : Trace) (mm : Manager) (a : Answers)
    → (create_buffer a).0 ≡ none
    → Accounts t mm
    → Accounts (t ++ (create_buffer a).1) mm
unchanged t mm a e h = record {
  whole = h.whole;
  balance = λ k j. omega (
    arith,
    h.balance k j,
    create_buffer-failed a e k j,
    creations-append k j t (create_buffer a).1,
    destructions-append k j t (create_buffer a).1,
  );
}

-- Commands that neither create nor destroy anything.
pub idle :
    (t s : Trace) (mm : Manager)
    → ((k : Kind) (h : ℕ) → (creations k h s ≡ 0) × (destructions k h s ≡ 0))
    → Accounts t mm
    → Accounts (t ++ s) mm
idle t s mm z a = record {
  whole = a.whole;
  balance = λ k h.
      omega (arith, a.balance k h, z k h, creations-append k h t s, destructions-append k h t s);
}

mapped_where : (a : Answers) (b m p : ℕ) → (create_buffer a).0 ≡ some (b, m, p) → a.mapped ≡ some p
unfolding create_buffer
mapped_where a b m p e = ground arith

-- A new buffer is asked for; the driver does not map it where a buffer of the table is mapped.
pub allocate-Accounts :
    (t : Trace) (a : Answers) (mm : Manager) (size : ℕ)
    → IsLegal a
    → ((p : ℕ) → a.mapped ≡ some p → find p mm.buffers ≡ none)
    → Accounts t mm
    → Accounts (t ++ (allocate a mm size).2) (allocate a mm size).1
unfolding allocate
allocate-Accounts t a mm size l new h = elim (Option-cases (create_buffer a).0) [
  | inl e ↦ rw (e, allocate) (unchanged t mm a e h)
  | inr ((b, m, p), e) ↦
      rw (e, allocate) (added t mm a b m p p size l (new p (mapped_where a b m p e)) e h)
]

release_counts :
    (k : Kind) (h : ℕ) (u : UnifiedBuffer)
    → u.is_mapped ≡ true
    → (creations k h (release u) ≡ 0) × (destructions k h (release u) ≡ objects k h u)
unfolding release objects
release_counts k h u e = ground arith

pub deallocate-Accounts :
    (t : Trace) (mm : Manager) (ptr : ℕ)
    → Accounts t mm
    → Accounts (t ++ (deallocate mm ptr).1) (deallocate mm ptr).0
unfolding deallocate
deallocate-Accounts t mm ptr a = elim (Option-cases (find ptr mm.buffers)) [
  | inl e ↦ rw (e, deallocate) (idle t [] mm (λ k h. (refl, refl)) a)
  | inr (u, e) ↦
      rw (e, deallocate)
        (record {
          whole = All-erase IsWhole ptr mm.buffers a.whole;
          balance = λ k h. omega (
            arith,
            a.balance k h,
            release_counts k h u (All-find IsWhole ptr u mm.buffers e a.whole).0,
            creations-append k h t (release u),
            destructions-append k h t (release u),
            held_all-erase k h ptr u mm.buffers e,
          );
        })
]

-- The first contents of a registered buffer.
uploaded :
    (t s : Trace) (p q size : ℕ) (mm : Manager)
    → Accounts (t ++ s) mm
    → Accounts (t ++ (s ++ host_copy p q size ∷ [])) mm
uploaded t s p q size mm a = record {
  whole = a.whole;
  balance = λ k h.
      simp (creations-append, destructions-append)
        (omega (arith, a.balance k h, creations-append k h t s, destructions-append k h t s));
}

pub register-Accounts :
    (t : Trace) (a : Answers) (mm : Manager) (ptr size : ℕ)
    → IsLegal a
    → Accounts t mm
    → Accounts
        (t ++ (register_external_buffer a mm ptr size).2)
        (register_external_buffer a mm ptr size).1
unfolding register_external_buffer
register-Accounts t a mm ptr size l h = elim (Bool-cases (ptr == 0 || size == 0)) [
  | inl z ↦ rw (z, register_external_buffer) (idle t [] mm (λ k j. (refl, refl)) h)
  | inr z ↦ elim (Option-cases (find ptr mm.buffers)) [
    | inr (u, f) ↦ rw (z, register_external_buffer) (rw f (idle t [] mm (λ k j. (refl, refl)) h))
    | inl f ↦ elim (Option-cases (create_buffer a).0) [
      | inl e ↦ rw (z, register_external_buffer) (rw (f, e) (unchanged t mm a e h))
      | inr ((b, m, p), e) ↦
          rw (z, register_external_buffer)
            (rw (f, e)
              (uploaded t (create_buffer a).1 p ptr size _ (added t mm a b m p ptr size l f e h)))
    ]
  ]
]

replaced :
    (t s : Trace) (mm : Manager) (ptr : ℕ) (u w : UnifiedBuffer)
    → find ptr mm.buffers ≡ some w
    → (u.buffer ≡ w.buffer) × (u.memory ≡ w.memory) × (u.is_mapped ≡ w.is_mapped)
    → ((k : Kind) (h : ℕ) → (creations k h s ≡ 0) × (destructions k h s ≡ 0))
    → Accounts t mm
    → Accounts (t ++ s) (record mm { buffers = insert ptr u mm.buffers })
unfolding objects
replaced t s mm ptr u w e same z a = record {
  whole =
      All-insert IsWhole ptr u mm.buffers
        (let old = All-find IsWhole ptr w mm.buffers e a.whole in
          (same.2 ∙ old.0, λ n. old.1 (sym same.0 ∙ n), λ n. old.2 (sym same.1 ∙ n)))
        a.whole;
  balance = λ k h. omega (
    arith,
    a.balance k h,
    z k h,
    creations-append k h t s,
    destructions-append k h t s,
    held_all-replace k h ptr u w mm.buffers e (rw (same.0, same.1) refl),
  );
}

transfer_same :
    (needs : DirtyBlock → Bool) (c : Command) (u : UnifiedBuffer)
    → ((transfer needs c u).0.buffer ≡ u.buffer)
      × ((transfer needs c u).0.memory ≡ u.memory)
      × ((transfer needs c u).0.is_mapped ≡ u.is_mapped)
unfolding transfer
transfer_same needs c u = ground arith

transfer_counts :
    (needs : DirtyBlock → Bool) (c : Command) (u : UnifiedBuffer) (k : Kind) (h : ℕ)
    → (creations k h (c ∷ []) ≡ 0) × (destructions k h (c ∷ []) ≡ 0)
    → (creations k h (transfer needs c u).1 ≡ 0) × (destructions k h (transfer needs c u).1 ≡ 0)
unfolding transfer
transfer_counts needs c u k h z = elim (Bool-cases (any needs u.blocks)) [
  | inl e ↦ rw (e, transfer) z
  | inr e ↦ rw (e, transfer) (refl, refl)
]

pub sync_before_kernel-Accounts :
    (t : Trace) (mm : Manager) (ptr : ℕ)
    → Accounts t mm
    → Accounts (t ++ (sync_before_kernel mm ptr).1) (sync_before_kernel mm ptr).0
unfolding sync_before_kernel transfer_dirty_blocks
sync_before_kernel-Accounts t mm ptr a = elim (Option-cases (find ptr mm.buffers)) [
  | inl e ↦ rw (e, sync_before_kernel) (idle t [] mm (λ k h. (refl, refl)) a)
  | inr (u, e) ↦
      rw (e, sync_before_kernel)
        (replaced t _ mm ptr _ u e (transfer_same needs_host_to_device (flush_mapped u.memory) u)
          (λ k h. transfer_counts needs_host_to_device (flush_mapped u.memory) u k h (refl, refl))
          a)
]

pub sync_after_kernel-Accounts :
    (t : Trace) (mm : Manager) (ptr : ℕ) → Accounts t mm → Accounts t (sync_after_kernel mm ptr)
unfolding sync_after_kernel mark_all_dirty_on_device objects
sync_after_kernel-Accounts t mm ptr a = elim (Option-cases (find ptr mm.buffers)) [
  | inl e ↦ rw (e, sync_after_kernel) a
  | inr (u, e) ↦
      rw (e, sync_after_kernel)
        (record {
          whole =
              All-insert IsWhole ptr (mark_all_dirty_on_device u) mm.buffers
                (All-find IsWhole ptr u mm.buffers e a.whole) a.whole;
          balance = λ k h. omega (
            arith,
            a.balance k h,
            held_all-replace k h ptr (mark_all_dirty_on_device u) u mm.buffers e refl,
          );
        })
]

release_all_counts :
    (k : Kind) (h : ℕ) (m : Map UnifiedBuffer)
    → All IsWhole m
    → (creations k h (release_all m) ≡ 0) × (destructions k h (release_all m) ≡ held_all k h m)
unfolding release_all held_all objects destructor_release
release_all_counts k h [] w = (refl, refl)
release_all_counts k h ((p, u) ∷ m) w =
    let rest = release_all_counts k h m w.1 in
    simp (creations-append, destructions-append) (ground (arith, rest, w.0))

-- Over the life of a manager every object of the driver is created as often as it is destroyed.
pub destructor-Accounts :
    (t : Trace) (mm : Manager) → Accounts t mm → IsBalanced (t ++ destructor mm)
unfolding destructor weigh_pool
destructor-Accounts t mm a k h =
    simp (creations-append, destructions-append)
      (ground (arith, a.balance k h, release_all_counts k h mm.buffers a.whole))

pub construct-Accounts : (pool : ℕ) → Accounts (construct pool).1 (construct pool).0
unfolding construct weigh_pool held_all
construct-Accounts pool = record { whole = tt; balance = λ k h. ground arith }
