-- ===== src/Stdpar/Staging.antt =====
-- A kernel that works on a staging buffer, between the copy in and the copy out (the funnels of
-- include/parallax/stdpar.hpp).
use parallax_runtime.Prelude.{ℕ, ◌*◌, ◌<◌, ◌≡◌, ap, ◌∙◌, List, length}
use parallax_runtime.Stdpar.{read, write, World, memcpy}
use parallax_runtime.Stdpar.Ranges.{SameBut, length-read, write-cong, read-write_lem, write-SameBut}

-- This run replaces the `n` elements at its pointer by `g` of them.
abbrev pub Works :
    {S V : Type 0}
    → (World S V → ℕ → ℕ → World S V)
    → (List V → List V)
    → ℕ
    → World S V
    → ℕ
    → ℕ
    → Type 0
Works run g size w p n = (run w p n).memory ≡ write w.memory p size (g (read w.memory p size n))

module _ {S V : Type 0} (run : World S V → ℕ → ℕ → World S V) (g : List V → List V) (size : ℕ)
    (pos : 0 < size) (same_length : (xs : List V) → length (g xs) ≡ length xs) (w : World S V)
    (from ab n : ℕ) (law : Works run g size (memcpy w ab from size n) ab n) where
  abbrev ran : World S V
  ran = run (memcpy w ab from size n) ab n

  elements : length (read w.memory from size n) ≡ n
  elements = length-read size pos n from w.memory

  results : length (g (read w.memory from size n)) ≡ n
  results = same_length (read w.memory from size n) ∙ elements

  wrote :
      ran.memory ≡ write (memcpy w ab from size n).memory ab size (g (read w.memory from size n))
  unfolding memcpy
  wrote =
      law
      ∙ ap (λ zs. write (memcpy w ab from size n).memory ab size (g zs))
          (read-write_lem size pos n ab (read w.memory from size n) w.memory elements)

  -- The staging buffer holds the results.
  pub staged-read : read ran.memory ab size n ≡ g (read w.memory from size n)
  staged-read =
      ap (λ m. read m ab size n) wrote
      ∙ read-write_lem size pos n ab (g (read w.memory from size n))
          (memcpy w ab from size n).memory results

  -- The rest of the memory is as it was.
  pub staged-SameBut : SameBut ab (n * size) ran.memory w.memory
  unfolding memcpy
  staged-SameBut q out =
      ap (λ m. m q) wrote
      ∙ write-SameBut size pos n ab (g (read w.memory from size n)) (memcpy w ab from size n).memory
          results q out
      ∙ write-SameBut size pos n ab (read w.memory from size n) w.memory elements q out

  -- After the copy out, the range at `to` holds the results, and the rest is as it was.
  pub staged_lem :
      (to : ℕ)
      → SameBut ab
          (n * size)
          (memcpy ran to ab size n).memory
          (write w.memory to size (g (read w.memory from size n)))
  unfolding memcpy
  staged_lem to q out =
      ap (λ zs. write ran.memory to size zs q) staged-read
      ∙ write-cong size pos (g (read w.memory from size n)) to q ran.memory w.memory
          (staged-SameBut q out)
