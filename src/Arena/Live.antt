-- ===== src/Arena/Live.antt =====
-- The blocks of `live_` of src/memory/arena.cpp, and how `allocate` and `deallocate` change them.
use parallax_runtime.Prelude.{
  ℕ, ◌≡◌, [], ◌∷◌, some, true, false, arith, All, All-insert, All-erase, All-find, Map, find,
  insert, erase, ◌==◌, if◌then◌else◌, ◌⊎◌, inl, inr,
}
use mathlib.Core.Path.{subst}
use parallax_runtime.Arena.{Block}
use parallax_runtime.Arena.Fit.{Apart, Apart-sym}

abbrev pub LiveApart : Map Block → Block → Type 0
LiveApart m b = All (λ e. Apart b e.1) m

abbrev pub LiveSeparated : Map Block → Type 0
LiveSeparated [] = Unit
LiveSeparated ((p, b) ∷ m) = LiveApart m b × LiveSeparated m

pub LiveSeparated-insert :
    (p : ℕ) (b : Block) (m : Map Block)
    → LiveApart m b
    → LiveSeparated m
    → LiveSeparated (insert p b m)
unfolding insert
LiveSeparated-insert p b [] a s = (tt, tt)
LiveSeparated-insert p b ((q, c) ∷ m) a s =
    elim (q == p) as (λ t. LiveSeparated (if t then (p, b) ∷ m else (q, c) ∷ insert p b m)) [
      | true ↦ (a.1, s.1)
      | false ↦ (
        All-insert (λ e. Apart c e.1) p b m (Apart-sym b c a.0) s.0,
        LiveSeparated-insert p b m a.1 s.1,
      )
    ]

pub LiveSeparated-erase : (p : ℕ) (m : Map Block) → LiveSeparated m → LiveSeparated (erase p m)
unfolding erase
LiveSeparated-erase p [] s = tt
LiveSeparated-erase p ((q, c) ∷ m) s =
    elim (q == p) as (λ t. LiveSeparated (if t then m else (q, c) ∷ erase p m)) [
      | true ↦ s.1
      | false ↦ (All-erase (λ e. Apart c e.1) p m s.0, LiveSeparated-erase p m s.1)
    ]

find-cons_cases :
    (p q : ℕ) (b c : Block) (m : Map Block)
    → find p ((q, c) ∷ m) ≡ some b
    → (((q == p) ≡ true) × (c ≡ b)) ⊎ (((q == p) ≡ false) × (find p m ≡ some b))
unfolding find
find-cons_cases p q b c m e = ground arith

-- A block that leaves the map overlaps none of those that stay.
pub LiveApart-erase :
    (p : ℕ) (b : Block) (m : Map Block)
    → find p m ≡ some b
    → LiveSeparated m
    → LiveApart (erase p m) b
unfolding erase
LiveApart-erase p b [] e s = tt
LiveApart-erase p b ((q, c) ∷ m) e s = elim (find-cons_cases p q b c m e) [
  | inl h ↦ rw h.0 (subst (LiveApart m) h.1 s.0)
  | inr h ↦
      rw h.0
        (Apart-sym c b (All-find (λ e. Apart c e.1) p b m h.1 s.0), LiveApart-erase p b m h.1 s.1)
]
