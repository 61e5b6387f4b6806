-- ===== src/Runtime/Laws.antt =====
-- The states of the globals of src/memory/unified_allocator.cpp between calls, and lemmas on each
-- entry point.
use parallax_runtime.Prelude.{
  ℕ, ◌≡◌, refl, sym, ap, ◌∙◌, ◌≢◌, inl, inr, Bool, true, false, Option, none, some, [], ◌++◌, arith,
  if◌then◌else◌, Bool-cases, Option-cases,
}
use mathlib.Core.Path.{subst}
use parallax_runtime.Vulkan.{Trace, IsBalanced, creations-append, destructions-append}
use parallax_runtime.Backend.{Backend, fresh, cleanup, initialize as initialize_backend}
use parallax_runtime.MemoryManager.{Manager, construct, Answers as BufferAnswers}
use parallax_runtime.Arena.{Arena, empty, default_capacity}
use parallax_runtime.Arena.Setup.{destroy, initialize as initialize_arena, Answers as ArenaAnswers}
use parallax_runtime.Arena.Setup.Accounts.{
  empty-IsIdle, IsIdle, IsLegal, Accounts, destroy-Accounts, held-empty,
}
use parallax_runtime.Arena.Setup.Clean.{initialize-Outcome}
use parallax_runtime.Arena.Import.{initialize_from_pool}
use parallax_runtime.Arena.Import.Laws.{initialize_from_pool-Outcome, IsLegal as IsLegalImport}
use parallax_runtime.Runtime.{
  Globals, World, SystemHeap, ensure_initialized, import_answers, arena_answers, build_arena,
  create_arena, get_global_arena, get_global_memory_manager, serve, umalloc,
}

-- Between two calls no build is under way, and what is there was built in order.
pub record IsConsistent (g : Globals) : Type 0 where
  pub quiet : g.initializing ≡ false
  pub arena_quiet : g.arena_initializing ≡ false
  pub ready :
      g.initialized ≡ true
      → ((v : Backend) × (g.backend ≡ some v)) × ((m : Manager) × (g.memory_manager ≡ some m))
  pub unready :
      g.initialized ≡ false → (g.backend ≡ none) × (g.memory_manager ≡ none) × (g.arena ≡ none)

true≢false : true ≢ false
true≢false e = ground arith

ready_run :
    (w : World) (g : Globals) → g.initialized ≡ true → ensure_initialized w g ≡ (true, g, [])
unfolding ensure_initialized
ready_run w g e = rw e refl

module _ (w : World) (g : Globals) where
  built : Globals
  built = record g {
    backend = some (initialize_backend w.for_backend fresh).1;
    memory_manager = some (construct w.new_pool).0;
    initialized = true;
    initializing = false;
  }

  built_run :
      g.initialized ≡ false
      → g.initializing ≡ false
      → (initialize_backend w.for_backend fresh).0 ≡ true
      → ensure_initialized w g
        ≡ (true, built, (initialize_backend w.for_backend fresh).2 ++ (construct w.new_pool).1)
  unfolding ensure_initialized built
  built_run e f ok = rw (e, f) (rw ok refl)

  unbuilt : Globals
  unbuilt = record g { backend = none; initializing = false }

  unbuilt_run :
      g.initialized ≡ false
      → g.initializing ≡ false
      → (initialize_backend w.for_backend fresh).0 ≡ false
      → ensure_initialized w g ≡ (
        false,
        unbuilt,
        (initialize_backend w.for_backend fresh).2
            ++ (cleanup (initialize_backend w.for_backend fresh).1).1,
      )
  unfolding ensure_initialized unbuilt
  unbuilt_run e f ok = rw (e, f) (rw ok refl)

-- What a call of `ensure_initialized` has come to.
abbrev pub Settled : Globals → Bool × Globals × Trace → Type 0
Settled g (ok, g', t) = IsConsistent g' × (ok ≡ g'.initialized) × (g'.arena ≡ g.arena)

-- `ensure_initialized` reports whether the runtime is there, leaves the globals consistent and the
-- arena as it was.
pub ensure_initialized-IsConsistent :
    (w : World) (g : Globals) → IsConsistent g → Settled g (ensure_initialized w g)
unfolding built unbuilt
ensure_initialized-IsConsistent w g c = elim (Bool-cases g.initialized) [
  | inl e ↦ subst (Settled g) (sym (ready_run w g e)) (c, sym e, refl)
  | inr e ↦ elim (Bool-cases (initialize_backend w.for_backend fresh).0) [
    | inl ok ↦ subst (Settled g) (sym (built_run w g e c.quiet ok)) (
      record {
        quiet = refl;
        arena_quiet = c.arena_quiet;
        ready = λ _. ((_, refl), (_, refl));
        unready = λ z. absurd (true≢false z);
      },
      refl,
      refl,
    )
    | inr ok ↦ subst (Settled g) (sym (unbuilt_run w g e c.quiet ok)) (
      record {
        quiet = refl;
        arena_quiet = c.arena_quiet;
        ready = λ z. absurd (true≢false (sym z ∙ e));
        unready = λ z. (refl, (c.unready z).1, (c.unready z).2);
      },
      sym e,
      refl,
    )
  ]
]

-- An allocation that the driver makes while the runtime is built finds it not ready, and changes
-- and asks for nothing: it is served by the system's allocator.
pub umalloc_reentrant :
    {L : Type 0} (system : SystemHeap L) (w : World) (a : BufferAnswers) (g : Globals) (l : L)
    (size : ℕ)
    → g.initialized ≡ false
    → g.initializing ≡ true
    → umalloc system w a g l size ≡ ((system.malloc l size).0, g, (system.malloc l size).1, [])
unfolding umalloc serve ensure_initialized
umalloc_reentrant system w a g l size e f = ground (arith, e, f)

idle-IsBalanced : (t : Trace) (r : Arena) → IsIdle r → Accounts t r → IsBalanced t
idle-IsBalanced t r i a k h = omega (arith, a.balance k h, held-empty k h r i)

after_balanced : (s t : Trace) (r : Arena) → IsBalanced s → Accounts t r → Accounts (s ++ t) r
after_balanced s t r b a = record {
  balance = λ k h.
      omega (arith, b k h, a.balance k h, creations-append k h s t, destructions-append k h s t);
}

-- What a new arena has cost: the commands account for it, or nothing is left of them.
abbrev pub Paid : Option Arena × Trace → Type 0
Paid (some r, t) = Accounts t r
Paid (none, t) = IsBalanced t

-- The second setup, on the arena that the first has left.
fallback-Paid :
    (a : ArenaAnswers) (r : Arena) (t : Trace)
    → IsLegal a
    → IsIdle r
    → IsBalanced t
    → let (ok', r', t') = initialize_arena a r default_capacity in
      Paid (if ok' then (some r', t ++ t') else (none, t ++ t' ++ (destroy r').1))
fallback-Paid a r t l i b =
    let (counts, idle) = initialize-Outcome a l r default_capacity i in
    let (ok', r', t') = initialize_arena a r default_capacity in
    elim (Bool-cases ok') [
      | inl e ↦ rw e (after_balanced t t' r' b counts)
      | inr e ↦ rw e (destroy-Accounts (t ++ t') r' (after_balanced t t' r' b counts))
    ]

-- What `build_arena` creates it keeps in the arena that it returns; if it returns none, it has
-- destroyed all that it created. The driver does not answer with null handles.
pub build_arena-Paid :
    (w : World) (v : Backend)
    → IsLegalImport (import_answers w v)
    → IsLegal (arena_answers w v)
    → Paid (build_arena w v)
unfolding build_arena
build_arena-Paid w v li la = elim (Bool-cases w.force_legacy) [
  | inl e ↦
      rw (e, build_arena) (fallback-Paid (arena_answers w v) empty [] la empty-IsIdle (λ k h. refl))
  | inr e ↦
      let (counts, idle) =
        initialize_from_pool-Outcome (import_answers w v) empty li empty-IsIdle in
      let (ok, r, t) = initialize_from_pool (import_answers w v) empty in
      elim (Bool-cases ok) [
        | inl f ↦ rw (e, build_arena) (rw f counts)
        | inr f ↦
            rw (e, build_arena)
              (rw f (
                fallback-Paid (arena_answers w v) r t la (idle f)
                  (idle-IsBalanced t r (idle f) counts)))
      ]
]

present_run :
    (w : World) (g : Globals) (r : Arena)
    → g.arena ≡ some r
    → get_global_arena w g ≡ (some r, g, [])
unfolding get_global_arena
present_run w g r e = rw e refl

absent_run :
    (w : World) (g : Globals)
    → g.arena ≡ none
    → g.arena_initializing ≡ false
    → get_global_arena w g ≡ create_arena w (ensure_initialized w g)
unfolding get_global_arena
absent_run w g e f =
    let bare : Globals = record g { arena = none; arena_initializing = false } in
    let same : bare ≡ g = λ i. record g { arena = sym e i; arena_initializing = sym f i } in
    subst (λ x. get_global_arena w x ≡ create_arena w (ensure_initialized w x)) same refl

-- What a call of `get_global_arena` has come to.
abbrev pub Provided : Option Arena × Globals × Trace → Type 0
Provided (o, g, t) = IsConsistent g × (g.arena ≡ o)

create_arena-Provided :
    (w : World) (ok : Bool) (g : Globals) (t : Trace)
    → IsConsistent g
    → ok ≡ g.initialized
    → g.arena ≡ none
    → Provided (create_arena w (ok, g, t))
unfolding create_arena
create_arena-Provided w false g t c e n = (c, n)
create_arena-Provided w true g t c e n =
    let (v, there) = (c.ready (sym e)).0 in
    rw (there, create_arena)
      (
        record {
          quiet = c.quiet;
          arena_quiet = refl;
          ready = λ _. ((v, there), (c.ready (sym e)).1);
          unready = λ z. absurd (true≢false (e ∙ z));
        },
        refl,
      )

-- `get_global_arena` leaves the globals consistent and remembers just the arena that it returns.
pub get_global_arena-Provided :
    (w : World) (g : Globals) → IsConsistent g → Provided (get_global_arena w g)
get_global_arena-Provided w g c = elim (Option-cases g.arena) [
  | inr (r, e) ↦ subst Provided (sym (present_run w g r e)) (c, e)
  | inl e ↦
      let (still, same, kept) = ensure_initialized-IsConsistent w g c in
      let (ok, g', t) = ensure_initialized w g in
      subst Provided (sym (absent_run w g e c.arena_quiet))
        (create_arena-Provided w ok g' t still same (kept ∙ e))
]

-- The arena is built at most once: after a call that has returned an arena, every further call
-- returns the same one, whatever the environment answers, and changes and asks for nothing.
pub get_global_arena_twice :
    (w w' : World) (g : Globals) (r : Arena)
    → IsConsistent g
    → (get_global_arena w g).0 ≡ some r
    → get_global_arena w' (get_global_arena w g).1 ≡ (some r, (get_global_arena w g).1, [])
get_global_arena_twice w w' g r c e =
    present_run w' (get_global_arena w g).1 r ((get_global_arena-Provided w g c).1 ∙ e)

-- A runtime that is there is not built again.
pub ensured_manager :
    (w : World) (g : Globals)
    → g.initialized ≡ true
    → get_global_memory_manager w g ≡ (g.memory_manager, g, [])
unfolding get_global_memory_manager
ensured_manager w g e = ap (λ r. (r.1.memory_manager, r.1, r.2)) (ready_run w g e)
