-- ===== src/Runtime/Returns.antt =====
-- `parallax_umalloc` and `parallax_ufree` of src/memory/unified_allocator.cpp, one after the other.
use parallax_runtime.Prelude.{
  ℕ, ◌≡◌, refl, sym, ap, ◌∙◌, ◌⊎◌, inl, inr, Bool, true, false, none, some, [], ◌++◌, find,
}
use mathlib.Core.Path.{subst}
use parallax_runtime.Vulkan.{Trace}
use parallax_runtime.MemoryManager.{
  Manager, create_buffer, allocate, deallocate, Answers as BufferAnswers,
}
use parallax_runtime.MemoryManager.Returns.{given_back, deallocate-allocate}
use parallax_runtime.Runtime.{Globals, World, SystemHeap, ensure_initialized, serve, umalloc, ufree}
use parallax_runtime.Runtime.Laws.{IsConsistent, ensure_initialized-IsConsistent}

-- The pointer is not in the table of buffers, where there is one.
abbrev pub IsNew : Globals → ℕ → Type 0
IsNew g p = (mm : Manager) → g.memory_manager ≡ some mm → find p mm.buffers ≡ none

-- What a call of `parallax_umalloc` has come to, from the globals `g` that initialisation has left, and
-- what `parallax_ufree` makes of its pointer.
abbrev pub Routed :
    {L : Type 0}
    → SystemHeap L
    → BufferAnswers
    → L
    → ℕ
    → Bool
    → Globals
    → ℕ × Globals × L × Trace
    → Type 0
Routed system a l size true g (p, g', l', t) =
    (((create_buffer a).0 ≡ none) × (p ≡ 0) × (g' ≡ g) × (l' ≡ l))
    ⊎ ((b : ℕ) × (m : ℕ) × ((create_buffer a).0 ≡ some (b, m, p))
        × (l' ≡ l)
        × (ufree system g' l' p ≡ (g, l, given_back b m)))
Routed system a l size false g (p, g', l', t) =
    (p ≡ (system.malloc l size).0)
    × (g' ≡ g)
    × (ufree system g' l' p ≡ (g, system.free (system.malloc l size).1 p, []))

module _ {L : Type 0} (system : SystemHeap L) (a : BufferAnswers) (l : L) (size : ℕ) (g : Globals)
    (t : Trace) where
  serve_ready :
      (mm : Manager)
      → g.memory_manager ≡ some mm
      → serve system a l size (true, g, t) ≡ (
          let (p, mm', s) = allocate a mm size in
          (p, record g { memory_manager = some mm' }, l, t ++ s))
  unfolding serve
  serve_ready mm e = rw (serve, e) refl

  same_globals :
      (mm : Manager) → g.memory_manager ≡ some mm → record g { memory_manager = some mm } ≡ g
  same_globals mm e = ap (λ o. record g { memory_manager = o }) (sym e)

  ready-Routed :
      (mm : Manager)
      → g.memory_manager ≡ some mm
      → find (allocate a mm size).0 mm.buffers ≡ none
      → Routed system a l size true g (
          let (p, mm', s) = allocate a mm size in
          (p, record g { memory_manager = some mm' }, l, t ++ s))
  unfolding ufree
  ready-Routed mm e new = elim (deallocate-allocate a mm size new) [
    | inl (failed, null, same) ↦ inl (
      failed,
      null,
      ap (λ x. record g { memory_manager = some x }) same ∙ same_globals mm e,
      refl,
    )
    | inr (b, m, made, back) ↦ inr (
      b,
      m,
      made,
      refl,
      ap (λ r. (record g { memory_manager = some r.0 }, l, r.1)) back
          ∙ ap (λ x. (x, l, given_back b m)) (same_globals mm e),
    )
  ]

  ufree_gone :
      (l' : L) (p : ℕ) → g.memory_manager ≡ none → ufree system g l' p ≡ (g, system.free l' p, [])
  unfolding ufree
  ufree_gone l' p e =
      ap
        (λ o. elim o as (λ x. Globals × L × Trace) [
          | none ↦ (g, system.free l' p, [])
          | some mm ↦
              (let (mm', s) = deallocate mm p in (record g { memory_manager = some mm' }, l', s))
        ])
        e

  serve-Routed :
      (ok : Bool)
      → IsConsistent g
      → ok ≡ g.initialized
      → IsNew g (serve system a l size (ok, g, t)).0
      → Routed system a l size ok g (serve system a l size (ok, g, t))
  unfolding serve
  serve-Routed true c e new =
      let (mm, there) = (c.ready (sym e)).1 in
      let run = serve_ready mm there in
      subst (Routed system a l size true g) (sym run)
        (ready-Routed mm there (ap (λ r. find r.0 mm.buffers) (sym run) ∙ new mm there))
  serve-Routed false c e new =
      let gone = (c.unready (sym e)).1 in
      (refl, refl, ufree_gone (system.malloc l size).1 (system.malloc l size).0 gone)

-- From consistent globals, for a pointer that is not yet in the table of buffers: where the runtime is
-- there after the call, parallax_umalloc has either failed, with a null pointer and nothing changed, or
-- has made a buffer with its memory, mapped at the pointer that it returns, and parallax_ufree unmaps
-- and destroys just these, and leaves the globals and the table as they were before, and the system's
-- heap untouched; where the runtime is not there, the pointer is malloc's, and goes back to free.
pub umalloc-ufree :
    {L : Type 0} (system : SystemHeap L) (w : World) (a : BufferAnswers) (g : Globals) (l : L)
    (size : ℕ)
    → IsConsistent g
    → IsNew (ensure_initialized w g).1 (umalloc system w a g l size).0
    → Routed system a l size
        (ensure_initialized w g).0
        (ensure_initialized w g).1
        (umalloc system w a g l size)
unfolding umalloc
umalloc-ufree system w a g l size c new =
    let (still, same, kept) = ensure_initialized-IsConsistent w g c in
    let (ok, g', t) = ensure_initialized w g in serve-Routed system a l size g' t ok still same new
