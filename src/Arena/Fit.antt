-- ===== src/Arena/Fit.antt =====
-- The first-fit search of `allocate` of src/memory/arena.cpp.
use parallax_runtime.Prelude.{
  ℕ, zero, suc, ◌+◌, ◌%◌, ◌≤◌, ◌<◌, ◌≡◌, refl, ◌⊎◌, inl, inr, true, some, List, [], ◌∷◌, arith, All,
  ltb, leb, leb→le, lt→ltb, if◌then◌else◌, u64_mod, add64, sub64, align_up, IsPow2, align_up_bounds,
}
use mathlib.Core.Path.{subst, subst₂}
use parallax_runtime.Arena.{Block, block, fit}

abbrev pub Apart : Block → Block → Type 0
Apart b c = (b.offset + b.size ≤ c.offset) ⊎ (c.offset + c.size ≤ b.offset)

abbrev pub ApartFrom : List Block → Block → Type 0
ApartFrom bs b = All (Apart b) bs

-- No two blocks of the list overlap.
abbrev pub Separated : List Block → Type 0
Separated [] = Unit
Separated (b ∷ bs) = ApartFrom bs b × Separated bs

-- `c` is a part of `b`.
abbrev pub Within : Block → Block → Type 0
Within b c = (b.offset ≤ c.offset) × (c.offset + c.size ≤ b.offset + b.size)

-- Not empty, and below `limit`.
abbrev pub Fits : ℕ → Block → Type 0
Fits limit b = (0 < b.size) × (b.offset + b.size ≤ limit)

pub Apart-Within : (b c d : Block) → Within c d → Apart b c → Apart b d
Apart-Within b c d w (inl h) = inl (omega arith)
Apart-Within b c d w (inr h) = inr (omega arith)

pub Apart-sym : (b c : Block) → Apart b c → Apart c b
Apart-sym b c (inl h) = inr h
Apart-sym b c (inr h) = inl h

-- What the loop computes of one block that is large enough.
module _ (a need : ℕ) (b : Block) (pow : IsPow2 a)
    (small : b.offset + b.size + a + need < u64_mod) where
  abbrev found : ℕ
  found = align_up b.offset a

  carve :
      leb (add64 (sub64 found b.offset) need) b.size ≡ true
      → (b.offset ≤ found)
        × (found + need ≤ b.offset + b.size)
        × (found % a ≡ 0)
        × (add64 found need ≡ found + need)
        × (sub64 (sub64 b.size (sub64 found b.offset)) need + (found + need) ≡ b.offset + b.size)
  carve h =
      let bounds = align_up_bounds b.offset a pow (omega arith) in
      let room = leb→le (add64 (sub64 found b.offset) need) b.size h in
      (bounds.0, omega arith, bounds.2, omega arith, omega arith)

-- `need` bytes at `off`, a multiple of `a`, are taken from one block of the list; of that block
-- only what lies behind them stays in the list.
pub data Takes (a need : ℕ) : List Block → ℕ → List Block → Type 0 where
  whole :
      (b : Block) (bs : List Block) (off : ℕ)
      → b.offset ≤ off
      → off % a ≡ 0
      → off + need ≡ b.offset + b.size
      → Takes a need (b ∷ bs) off bs
  part :
      (b : Block) (bs : List Block) (off r : ℕ)
      → b.offset ≤ off
      → off % a ≡ 0
      → off + need + r ≡ b.offset + b.size
      → 0 < r
      → Takes a need (b ∷ bs) off (block (off + need) r ∷ bs)
  later :
      (b : Block) {bs : List Block} {off : ℕ} {rest : List Block}
      → Takes a need bs off rest
      → Takes a need (b ∷ bs) off (b ∷ rest)

module _ (a need : ℕ) (pow : IsPow2 a) where
  abbrev Small : Block → Type 0
  Small b = b.offset + b.size + a + need < u64_mod

  take_block :
      (b : Block) (bs : List Block) (r : ℕ)
      → Small b
      → leb (add64 (sub64 (align_up b.offset a) b.offset) need) b.size ≡ true
      → r ≡ sub64 (sub64 b.size (sub64 (align_up b.offset a) b.offset)) need
      → Takes a need
          (b ∷ bs)
          (align_up b.offset a)
          (if ltb 0 r then block (add64 (align_up b.offset a) need) r ∷ bs else bs)
  take_block b bs zero small h e =
      let c = carve a need b pow small h in whole b bs (align_up b.offset a) c.0 c.2 (omega arith)
  take_block b bs (suc r) small h e =
      let c = carve a need b pow small h in
      rw (c.3, lt→ltb 0 (suc r) (omega arith))
        (part b bs (align_up b.offset a) (suc r) c.0 c.2 (omega arith) (omega arith))

  fit-nil : {r : ℕ × List Block} → ¬ (fit a need [] ≡ some r)
  unfolding fit
  fit-nil e = cc

  -- One round of the loop.
  fit-cons :
      (b : Block) (bs : List Block) {off : ℕ} {rest : List Block}
      → fit a need (b ∷ bs) ≡ some (off, rest)
      → ((leb (add64 (sub64 (align_up b.offset a) b.offset) need) b.size ≡ true)
          × (align_up b.offset a ≡ off)
          × ((if ltb 0 (sub64 (sub64 b.size (sub64 (align_up b.offset a) b.offset)) need)
                then block
                    (add64 (align_up b.offset a) need)
                    (sub64 (sub64 b.size (sub64 (align_up b.offset a) b.offset)) need)
                  ∷ bs
                else bs)
              ≡ rest))
        ⊎ ((rest' : List Block) × (fit a need bs ≡ some (off, rest')) × (b ∷ rest' ≡ rest))
  unfolding fit
  fit-cons b bs e = ground arith

  -- What the loop returns is taken from the list so.
  pub fit-Takes :
      (bs : List Block) {off : ℕ} {rest : List Block}
      → All Small bs
      → fit a need bs ≡ some (off, rest)
      → Takes a need bs off rest
  fit-Takes [] small e = absurd (fit-nil e)
  fit-Takes (b ∷ bs) small e = elim (fit-cons b bs e) [
    | inl c ↦ subst₂ (Takes a need (b ∷ bs)) c.1 c.2 (take_block b bs _ small.0 c.0 refl)
    | inr c ↦ subst (Takes a need (b ∷ bs) _) c.2 (later b (fit-Takes bs small.1 c.1))
  ]

pub Takes-aligned :
    {a need : ℕ} {bs : List Block} {off : ℕ} {rest : List Block}
    → Takes a need bs off rest
    → off % a ≡ 0
Takes-aligned (whole b bs off lo m e) = m
Takes-aligned (part b bs off r lo m e pos) = m
Takes-aligned (later b t) = Takes-aligned t

-- A predicate that passes to the parts of a block passes to what is handed out and what is left.
module _ {ℓ} {need : ℕ} (pos : 0 < need) (P : Block → Type ℓ)
    (smaller : (b c : Block) → 0 < c.size → Within b c → P b → P c) where
  pub Takes-All :
      {a : ℕ} {bs : List Block} {off : ℕ} {rest : List Block}
      → Takes a need bs off rest
      → All P bs
      → P (block off need) × All P rest
  Takes-All (whole b bs off lo m e) h = (smaller b (block off need) pos (lo, omega arith) h.0, h.1)
  Takes-All (part b bs off r lo m e rpos) h = (
    smaller b (block off need) pos (lo, omega arith) h.0,
    (smaller b (block (off + need) r) rpos (omega arith) h.0, h.1),
  )
  Takes-All (later b t) h = let below = Takes-All t h.1 in (below.0, (h.0, below.1))

ApartFrom-Within : (b c : Block) (bs : List Block) → Within b c → ApartFrom bs b → ApartFrom bs c
ApartFrom-Within b c [] w h = tt
ApartFrom-Within b c (d ∷ bs) w h =
    (Apart-sym d c (Apart-Within d b c w (Apart-sym b d h.0)), ApartFrom-Within b c bs w h.1)

-- The list stays free of overlaps, and what is handed out overlaps nothing that is left.
pub Takes-Separated :
    {a need : ℕ} {bs : List Block} {off : ℕ} {rest : List Block}
    → 0 < need
    → Takes a need bs off rest
    → Separated bs
    → ApartFrom rest (block off need) × Separated rest
Takes-Separated pos (whole b bs off lo m e) h = (ApartFrom-Within b _ bs (lo, omega arith) h.0, h.1)
Takes-Separated pos (part b bs off r lo m e rpos) h = (
  (inl (omega arith), ApartFrom-Within b _ bs (lo, omega arith) h.0),
  (ApartFrom-Within b _ bs (omega arith) h.0, h.1),
)
Takes-Separated {need = need} pos (later b {off = off} t) h =
    let below = Takes-Separated pos t h.1 in
    let front = Takes-All pos (Apart b) (λ c d _ w. Apart-Within b c d w) t h.0 in
    ((Apart-sym b (block off need) front.0, below.0), (front.1, below.1))
