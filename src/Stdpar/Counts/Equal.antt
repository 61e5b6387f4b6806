-- ===== src/Stdpar/Counts/Equal.antt =====
-- `device_count_if` of include/parallax/stdpar.hpp against its sequential loop.
use parallax_runtime.Prelude.{
  ℕ, zero, suc, ◌+◌, ◌<◌, ◌≡◌, inl, inr, refl, ap, ◌∙◌, Bool, true, false, sym, Option, none, some,
  List, [], ◌∷◌, map, length, Bool-cases, ◌==◌, ◌||◌, if◌then◌else◌, arith,
}
use parallax_runtime.Stdpar.{Memory, read, write, World, memcpy, Entries, Element, Functor, stage}
use parallax_runtime.Stdpar.Ranges.{length-read, length-map, read-write_lem}
use parallax_runtime.Stdpar.Compactions.{kept_of}
use parallax_runtime.Stdpar.Counts.{int, host_count, count_staged, device_count_if}

-- 0 and 1 as an `int`.
pub record IsCounting {V : Type 0} (as_int : V → ℕ) (nought one : V) : Type 0 where
  pub nought_int : as_int nought ≡ 0
  pub one_int : as_int one ≡ 1

-- The sum of the numbers.
abbrev pub int_sum : {V : Type 0} → (V → ℕ) → List V → ℕ
int_sum as_int [] = 0
int_sum as_int (x ∷ xs) = as_int x + int_sum as_int xs

module _ {S V : Type 0} (es : Entries S V) (as_int : V → ℕ) (nought one : V)
    (counting : IsCounting as_int nought one) (pred : Functor V Bool) where
  abbrev pub flag_of : V → V
  flag_of x = if pred.apply x then one else nought

  host_count_lem :
      (n size input c : ℕ) (m : Memory V)
      → host_count es as_int nought pred size m input n c
        ≡ c + length (kept_of pred.apply (read m input size n))
  unfolding host_count read kept_of
  host_count_lem zero size input c m = omega arith
  host_count_lem (suc n) size input c m = elim (Bool-cases (pred.apply (m input))) [
    | inl hit ↦ rw hit (host_count_lem n size (input + size) (suc c) m ∙ omega arith)
    | inr miss ↦ rw miss (host_count_lem n size (input + size) c m)
  ]

  pub host_counts :
      (n size input : ℕ) (m : Memory V)
      → host_count es as_int nought pred size m input n 0
        ≡ length (kept_of pred.apply (read m input size n))
  host_counts n size input m = omega (arith, host_count_lem n size input 0 m)

  total_flags : (xs : List V) → int_sum as_int (map flag_of xs) ≡ length (kept_of pred.apply xs)
  unfolding kept_of
  total_flags [] = refl
  total_flags (x ∷ xs) = elim (Bool-cases (pred.apply x)) [
    | inl hit ↦ rw hit (omega (arith, total_flags xs, counting.one_int))
    | inr miss ↦ rw miss (omega (arith, total_flags xs, counting.nought_int))
  ]

  -- The state after the launch of the flag kernel.
  abbrev flags_run : ℕ → Element → World S V → ℕ → ℕ → ℕ → World S V
  flags_run kp t w ib ob n = es.launch_transform2 w kp ib ob n t.size int.size

  -- This launch of the flag kernel writes 1 for an element with the predicate, and else 0; and the run
  -- of the reduction after it stores the sum of the flags, which thus fits in an `int`.
  abbrev pub CountWorks : ℕ → ℕ → Element → World S V → ℕ → ℕ → ℕ → Type 0
  CountWorks kp kr t w ib ob n =
      let w' = flags_run kp t w ib ob n in
      (w'.memory ≡ write w.memory ob int.size (map flag_of (read w.memory ib t.size n)))
      × (as_int (es.reduce w' kr ob n int.size nought).0
          ≡ int_sum as_int (read w'.memory ob int.size n))

  -- The state and the two pointers that device_count_if launches the flag kernel with, if it launches
  -- it: for a predicate without captures, with both staging buffers.
  abbrev pub count_site : Element → World S V → ℕ → ℕ → Option (World S V × ℕ × ℕ)
  count_site t w input n =
      if pred.is_empty
      then (let (ai, w1) = stage es w t n in
          let (ao, w2) = stage es w1 int n in
          if ai == 0 || ao == 0 then none else some (memcpy w2 ai input t.size n, ai, ao))
      else none

  count_site_there :
      (t : Element) (w : World S V) (input n : ℕ)
      → pred.is_empty ≡ true
      → ((stage es w t n).0 == 0 || (stage es (stage es w t n).1 int n).0 == 0) ≡ false
      → count_site t w input n ≡ (
          let (ai, w1) = stage es w t n in
          let (ao, w2) = stage es w1 int n in some (memcpy w2 ai input t.size n, ai, ao))
  count_site_there t w input n e there = rw (e, there) refl

  module _ (kp kr : ℕ) (t : Element) (h : 0 < t.size) (input n : ℕ) where
    count_staged_lem :
        (ai ao : ℕ) (w : World S V)
        → ((ai == 0 || ao == 0) ≡ false → CountWorks kp kr t (memcpy w ai input t.size n) ai ao n)
        → (count_staged es as_int nought pred kp kr t w input n ai ao).0
          ≡ host_count es as_int nought pred t.size w.memory input n 0
    unfolding count_staged memcpy
    count_staged_lem ai ao w law = elim (Bool-cases (ai == 0 || ao == 0)) [
      | inl null ↦ rw null refl
      | inr there ↦
          let xs = read w.memory input t.size n in
          let len : length xs ≡ n = length-read t.size h n input w.memory in
          let w1 = memcpy w ai input t.size n in
          let w2 = flags_run kp t w1 ai ao n in
          let (flags, sums) = law there in
          let flagged : read w2.memory ao int.size n ≡ map flag_of xs =
            ap (λ m. read m ao int.size n)
              (flags
                ∙ ap (λ zs. write w1.memory ao int.size (map flag_of zs))
                    (read-write_lem t.size h n ai xs w.memory len))
            ∙ read-write_lem int.size (omega arith) n ao (map flag_of xs) w1.memory
                (length-map flag_of xs ∙ len) in
          rw there (
            sums
            ∙ ap (int_sum as_int) flagged
            ∙ total_flags xs
            ∙ sym (host_counts n t.size input w.memory))
    ]

    count_found :
        (w : World S V)
        → ((s : World S V × ℕ × ℕ)
            → count_site t w input n ≡ some s
            → CountWorks kp kr t s.0 s.1 s.2 n)
        → (device_count_if es as_int nought pred (some kp) (some kr) t w input n).0
          ≡ host_count es as_int nought pred t.size w.memory input n 0
    unfolding device_count_if stage count_staged
    count_found w law = elim (Bool-cases pred.is_empty) [
      | inl plain ↦
          let first = stage es w t n in
          let second = stage es first.1 int n in
          rw plain (
            count_staged_lem first.0 second.0 second.1 (λ there.
              law (memcpy second.1 first.0 input t.size n, first.0, second.0)
                (count_site_there t w input n plain there)))
      | inr captures ↦ rw captures refl
    ]

  -- Whether both kernels are found or not, and on every path: device_count_if returns how many of the
  -- range's elements have the predicate, where the launch that it makes of a flag kernel, if it makes
  -- one, writes 1 for these and else 0, and the reduction after it stores the sum.
  pub device_count_if_lem :
      (flagging reducing : Option ℕ) (t : Element) (w : World S V) (input n : ℕ)
      → 0 < t.size
      → ((kp kr : ℕ)
          → flagging ≡ some kp
          → reducing ≡ some kr
          → (s : World S V × ℕ × ℕ) → count_site t w input n ≡ some s
          → CountWorks kp kr t s.0 s.1 s.2 n)
      → (device_count_if es as_int nought pred flagging reducing t w input n).0
        ≡ length (kept_of pred.apply (read w.memory input t.size n))
  unfolding device_count_if
  device_count_if_lem (some kp) (some kr) t w input n h law =
      count_found kp kr t h input n w (law kp kr refl refl) ∙ host_counts n t.size input w.memory
  device_count_if_lem none b t w input n h law = host_counts n t.size input w.memory
  device_count_if_lem (some kp) none t w input n h law = host_counts n t.size input w.memory
