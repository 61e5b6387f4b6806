-- ===== src/Stdpar/Simulated.antt =====
-- Entry points that do on the host what the kernels are to do, over an arena that only grows: a
-- concrete runtime for the funnels of include/parallax/stdpar.hpp, with what holds of it.
use parallax_runtime.Prelude.{
  ℕ, ◌+◌, ◌*◌, ◌≤◌, ◌<◌, inl, inr, refl, Bool, List, [], ◌∷◌, map, length, leb, Bool-cases, arith,
}
use native.Mathlib.Nat.{mul-le-mul_right}
use parallax_runtime.Stdpar.{read, write, World, Entries, Element, Functor}
use parallax_runtime.Stdpar.Ranges.{IsOutside, length-read, write-outside, read-write}
use parallax_runtime.Stdpar.Maps.{launch_each, launch2}
use parallax_runtime.Stdpar.Maps.Equal.{EachWorks, MapWorks}
use parallax_runtime.Stdpar.Folds.Sums.{total}
use parallax_runtime.Stdpar.Folds.Scans.{prefixes}
use parallax_runtime.Stdpar.Sorts.{sorted}
use parallax_runtime.Stdpar.Compactions.{Four, kept_of}
use parallax_runtime.Stdpar.Compactions.Kept.{KeepWorks}

module _ {V : Type 0} (f : V → V) (add : V → V → V) (nought : V) (lt : V → V → Bool)
    (p : V → Bool) where
  abbrev replaced : (List V → List V) → World ℕ V → ℕ → ℕ → ℕ → ℕ → ℕ → World ℕ V
  replaced g w ib ob n size out_size = record w {
    memory = write w.memory ob out_size (g (read w.memory ib size n));
  }

  -- The arena's addresses start at 1000.
  abbrev pub simulated : Entries ℕ V
  simulated = record {
    arena_contains = λ s q. leb 1000 q;
    arena_alloc = λ s bytes align. (s, s + bytes);
    arena_free = λ s q. s;
    launch = λ w k q n size. replaced (map f) w q q n size size;
    launch_with_captures = λ w k q n a b size. replaced (map f) w q q n size size;
    launch_transform2 = λ w k ib ob n size out_size. replaced (map f) w ib ob n size out_size;
    launch_transform2_captures =
        λ w k ib ob n size out_size a b. replaced (map f) w ib ob n size out_size;
    reduce = λ w k q n size r. (total add r (read w.memory q size n), w);
    scan = λ w ks ka q n size. replaced (prefixes add nought) w q q n size size;
    exclusive_scan = λ w ks ka kh ib ob n size init. w;
    sort = λ w k q n size. replaced (sorted lt) w q q n size size;
    copy_if = λ w a b c d ib ob n size is_float.
        (length (kept_of p (read w.memory ib size n)), replaced (kept_of p) w ib ob n size size);
  }

  abbrev pub plain : Functor V V
  plain = record { apply = f; is_empty = Bool.true; address = 0; bytes = 1 }

  pub simulated-EachWorks :
      (k : ℕ) (t : Element) (w : World ℕ V) (q n : ℕ) → EachWorks simulated plain k t w q n
  unfolding launch_each
  simulated-EachWorks k t w q n = refl

  pub simulated-MapWorks :
      (k : ℕ) (t u : Element) (w : World ℕ V) (ib ob n : ℕ)
      → MapWorks simulated plain k t u w ib ob n
  unfolding launch2
  simulated-MapWorks k t u w ib ob n = refl

  length-kept_of : (xs : List V) → length (kept_of p xs) ≤ length xs
  unfolding kept_of
  length-kept_of [] = omega arith
  length-kept_of (x ∷ xs) = elim (Bool-cases (p x)) [
    | inl keep ↦ rw keep (omega (arith, length-kept_of xs))
    | inr drop ↦ rw drop (omega (arith, length-kept_of xs))
  ]

  fewer-IsOutside : (size a b o q : ℕ) → a ≤ b → IsOutside o (b * size) q → IsOutside o (a * size) q
  fewer-IsOutside size a b o q h (inl before) = inl before
  fewer-IsOutside size a b o q h (inr after) = inr (omega (arith, mul-le-mul_right size h))

  pub simulated-KeepWorks :
      (four : Four) (t : Element) (is_float : Bool) (w : World ℕ V) (ib ob n : ℕ)
      → 0 < t.size
      → KeepWorks simulated p four t is_float w ib ob n
  simulated-KeepWorks four t is_float w ib ob n h =
      let ys = kept_of p (read w.memory ib t.size n) in
      (
        refl,
        read-write t.size h ys ob w.memory,
        λ q out out'. write-outside t.size h ys ob q w.memory (
            fewer-IsOutside t.size (length ys) n ob q
              (omega (
                arith,
                length-kept_of (read w.memory ib t.size n),
                length-read t.size h n ib w.memory,
              ))
              out'),
      )
