-- ===== src/MemoryManager/Returns.antt =====
-- A buffer that `MemoryManager::allocate` (src/memory/unified_buffer.cpp) has made, given back.
use parallax_runtime.Prelude.{
  ℕ, ◌≡◌, refl, sym, ap, ◌∙◌, inl, inr, ◌⊎◌, none, some, [], ◌∷◌, Option-cases, find, insert, erase,
  Map, arith, ◌==◌, Bool-cases,
}
use mathlib.Core.Path.{subst}
use parallax_runtime.Vulkan.{Trace, destroy, mapping, buffer, memory}
use parallax_runtime.UnifiedBuffer.{UnifiedBuffer, init_dirty_tracking}
use parallax_runtime.MemoryManager.{
  Manager, Answers, create_buffer, tracked, allocate, release, deallocate,
}

find-insert_self :
    (k : ℕ) (v : UnifiedBuffer) (m : Map UnifiedBuffer) → find k (insert k v m) ≡ some v
unfolding find insert
find-insert_self k v [] = ground arith
find-insert_self k v ((j, w) ∷ m) = ground (arith, find-insert_self k v m)

erase-insert :
    (k : ℕ) (v : UnifiedBuffer) (m : Map UnifiedBuffer)
    → find k m ≡ none
    → erase k (insert k v m) ≡ m
unfolding find insert erase
erase-insert k v [] e = ground arith
erase-insert k v ((j, w) ∷ m) e = elim (Bool-cases (j == k)) [
  | inl same ↦ absurd (ground (arith, same))
  | inr other ↦
      let below : find k m ≡ none = ground (arith, other) in
      let rest = erase-insert k v m below in rw (other, other) (ap (λ l. (j, w) ∷ l) rest)
]

-- The commands that give back a mapped buffer with its memory.
abbrev pub given_back : ℕ → ℕ → Trace
given_back b m = destroy mapping m ∷ destroy buffer b ∷ destroy memory m ∷ []

release-tracked : (p b m size : ℕ) → release (tracked p b m size) ≡ given_back b m
unfolding release tracked init_dirty_tracking
release-tracked p b m size = refl

deallocate-insert :
    (mm : Manager) (p b m size : ℕ)
    → find p mm.buffers ≡ none
    → deallocate (record mm { buffers = insert p (tracked p b m size) mm.buffers }) p
      ≡ (mm, given_back b m)
unfolding deallocate
deallocate-insert mm p b m size e =
    rw
      (
        deallocate,
        find-insert_self p (tracked p b m size) mm.buffers,
        erase-insert p (tracked p b m size) mm.buffers e,
        release-tracked p b m size,
      )
      refl

allocate_failed :
    (a : Answers) (mm : Manager) (size : ℕ)
    → (create_buffer a).0 ≡ none
    → allocate a mm size ≡ (0, mm, (create_buffer a).1)
unfolding allocate
allocate_failed a mm size e = rw (allocate, e) refl

allocate_made :
    (a : Answers) (mm : Manager) (size b m p : ℕ)
    → (create_buffer a).0 ≡ some (b, m, p)
    → allocate a mm size
      ≡ (p, record mm { buffers = insert p (tracked p b m size) mm.buffers }, (create_buffer a).1)
unfolding allocate
allocate_made a mm size b m p e = rw (allocate, e) refl

-- What an allocation comes to, with the table before it: it has failed, with a null pointer and the
-- table as it was, or it has made a buffer with its memory, mapped at the pointer, and what destroys
-- these leaves the table as it was.
abbrev pub Returns : Answers → Manager → ℕ × Manager × Trace → Type 0
Returns a mm (p, mm', t) =
    (((create_buffer a).0 ≡ none) × (p ≡ 0) × (mm' ≡ mm))
    ⊎ ((b : ℕ) × (m : ℕ) × ((create_buffer a).0 ≡ some (b, m, p))
        × (deallocate mm' p ≡ (mm, given_back b m)))

pub deallocate-allocate :
    (a : Answers) (mm : Manager) (size : ℕ)
    → find (allocate a mm size).0 mm.buffers ≡ none
    → Returns a mm (allocate a mm size)
deallocate-allocate a mm size new = elim (Option-cases (create_buffer a).0) [
  | inl e ↦ subst (Returns a mm) (sym (allocate_failed a mm size e)) (inl (e, refl, refl))
  | inr ((b, m, p), e) ↦
      let made = allocate_made a mm size b m p e in
      let fresh : find p mm.buffers ≡ none = ap (λ r. find r.0 mm.buffers) (sym made) ∙ new in
      subst (Returns a mm) (sym made) (inr (b, m, e, deallocate-insert mm p b m size fresh))
]
