-- ===== src/Stdpar/Algorithms/Policies.antt =====
-- The algorithms of include/parallax/stdpar.hpp under every policy: `for_each`, and what `all_of`,
-- `any_of` and `none_of` make of a count.
use parallax_runtime.Prelude.{
  ℕ, zero, suc, ◌*◌, ◌≤◌, ◌<◌, ◌≡◌, ◌↔◌, inl, inr, refl, sym, ap, ◌∙◌, Bool, true, false, not,
  Option, some, List, [], ◌∷◌, length, All, Bool-cases, ◌==◌, ltb, arith,
}
use parallax_runtime.Stdpar.{Memory, read, World, Entries, Element, Functor, stage}
use parallax_runtime.Stdpar.Ranges.{SameBut, length-read}
use parallax_runtime.Stdpar.Maps.{host_each, each_on_host}
use parallax_runtime.Stdpar.Maps.Equal.{EachWorks, each_site, device_invoke_lem}
use parallax_runtime.Stdpar.Compactions.{kept_of}
use parallax_runtime.Stdpar.Counts.Equal.{
  IsCounting, CountWorks, count_site, device_count_if_lem, host_counts,
}
use parallax_runtime.Stdpar.Algorithms.{
  Policy, is_offload_policy, distance, for_each, count_if, all_of, any_of, none_of,
}

host_each_empty :
    {S V : Type 0} (es : Entries S V) (f : Functor V V) (n size first : ℕ) (m : Memory V)
    → (n == 0) ≡ true
    → host_each es f size m first n ≡ m
unfolding host_each
host_each_empty es f zero size first m e = refl
host_each_empty es f (suc n) size first m e = absurd (ground arith)

-- Under every policy, and for an empty range too: for_each leaves the memory as the sequential loop,
-- outside the staging buffer, where the launch that it makes of its kernel, if it makes one, applies the
-- functor to each element.
pub for_each_lem :
    {S V : Type 0} (es : Entries S V) (policy : Policy) (f : Functor V V) (kernel : Option ℕ)
    (t : Element) (w : World S V) (first last : ℕ)
    → 0 < t.size
    → ((k : ℕ)
        → kernel ≡ some k
        → (s : World S V × ℕ) → each_site es f t w first (distance t first last) ≡ some s
        → EachWorks es f k t s.0 s.1 (distance t first last))
    → (let n = distance t first last in
        SameBut
          (stage es w t n).0
          (n * t.size)
          (for_each es policy f kernel t w first last).memory
          (host_each es f t.size w.memory first n))
unfolding for_each each_on_host
for_each_lem es policy f kernel t w first last h law q out =
    let n = distance t first last in
    elim (Bool-cases (is_offload_policy policy)) [
      | inl offloads ↦ elim (Bool-cases (n == 0)) [
        | inl empty ↦
            rw (offloads, empty)
              (ap (λ m. m q) (sym (host_each_empty es f n t.size first w.memory empty)))
        | inr more ↦ rw (offloads, more) (device_invoke_lem es f kernel t w first n h law q out)
      ]
      | inr sequential ↦ rw sequential refl
    ]

module _ {V : Type 0} (p : V → Bool) where
  length-kept_of : (xs : List V) → length (kept_of p xs) ≤ length xs
  unfolding kept_of
  length-kept_of [] = omega arith
  length-kept_of (x ∷ xs) = elim (Bool-cases (p x)) [
    | inl keep ↦ rw keep (omega (arith, length-kept_of xs))
    | inr drop ↦ rw drop (omega (arith, length-kept_of xs))
  ]

  keep_cons :
      (x : V) (xs : List V) → p x ≡ true → length (kept_of p (x ∷ xs)) ≡ suc (length (kept_of p xs))
  unfolding kept_of
  keep_cons x xs e = rw e refl

  drop_cons :
      (x : V) (xs : List V) → p x ≡ false → length (kept_of p (x ∷ xs)) ≡ length (kept_of p xs)
  unfolding kept_of
  drop_cons x xs e = rw e refl

  kept_all : (xs : List V) → length (kept_of p xs) ≡ length xs → All (λ x. p x ≡ true) xs
  kept_all [] e = tt
  kept_all (x ∷ xs) e = elim (Bool-cases (p x)) [
    | inl keep ↦ (keep, kept_all xs (omega (arith, e, keep_cons x xs keep)))
    | inr drop ↦ absurd (omega (arith, e, drop_cons x xs drop, length-kept_of xs))
  ]

  all_kept : (xs : List V) → All (λ x. p x ≡ true) xs → length (kept_of p xs) ≡ length xs
  unfolding kept_of
  all_kept [] h = refl
  all_kept (x ∷ xs) h = rw h.0 (ap suc (all_kept xs h.1))

  kept_none : (xs : List V) → length (kept_of p xs) ≡ 0 → All (λ x. p x ≡ false) xs
  kept_none [] e = tt
  kept_none (x ∷ xs) e = elim (Bool-cases (p x)) [
    | inl keep ↦ absurd (omega (arith, e, keep_cons x xs keep))
    | inr drop ↦ (drop, kept_none xs (omega (arith, e, drop_cons x xs drop)))
  ]

  none_kept : (xs : List V) → All (λ x. p x ≡ false) xs → length (kept_of p xs) ≡ 0
  unfolding kept_of
  none_kept [] h = refl
  none_kept (x ∷ xs) h = rw h.0 (none_kept xs h.1)

same_of_test : (a b : ℕ) → (a == b) ≡ true → a ≡ b
same_of_test a b e = ground arith

test_of_same : (a b : ℕ) → a ≡ b → (a == b) ≡ true
test_of_same a b e = ground arith

above_zero : (c : ℕ) → ltb 0 c ≡ not (c == 0)
above_zero zero = refl
above_zero (suc c) = ground arith

module _ {S V : Type 0} (es : Entries S V) (policy : Policy) (as_int : V → ℕ) (nought one : V)
    (counting : IsCounting as_int nought one) (pred : Functor V Bool) (flagging reducing : Option ℕ)
    (t : Element) (w : World S V) (first last : ℕ) (h : 0 < t.size)
    (law : (kp kr : ℕ)
      → flagging ≡ some kp
      → reducing ≡ some kr
      → (s : World S V × ℕ × ℕ)
      → count_site es as_int nought one counting pred t w first (distance t first last) ≡ some s
      → CountWorks es as_int nought one counting pred kp kr t s.0 s.1 s.2
          (distance t first last)) where
  abbrev range : List V
  range = read w.memory first t.size (distance t first last)

  count_empty :
      (n : ℕ) → (n == 0) ≡ true → 0 ≡ length (kept_of pred.apply (read w.memory first t.size n))
  unfolding read kept_of
  count_empty zero e = refl
  count_empty (suc n) e = absurd (ground arith)

  count_if_lem :
      (count_if es policy as_int nought pred flagging reducing t w first last).0
      ≡ length (kept_of pred.apply range)
  unfolding count_if
  count_if_lem =
      let n = distance t first last in
      elim (Bool-cases (is_offload_policy policy)) [
        | inl offloads ↦ elim (Bool-cases (n == 0)) [
          | inl empty ↦ rw (offloads, empty) (count_empty n empty)
          | inr more ↦
              rw (offloads, more)
                (device_count_if_lem es as_int nought one counting pred flagging reducing t w first
                  n h law)
        ]
        | inr sequential ↦
            rw sequential (host_counts es as_int nought one counting pred n t.size first w.memory)
      ]

  length-range : length range ≡ distance t first last
  length-range = length-read t.size h (distance t first last) first w.memory

  -- Under every policy, whether the kernels are found or not, and on every path: all_of is true where
  -- every element of the range has the predicate, none_of where none has it, and any_of where none_of
  -- is not, where the launch that the count makes of a flag kernel, if it makes one, writes 1 for an
  -- element with the predicate and else 0, and the reduction after it stores the sum of these.
  pub quantifiers_lem :
      ((all_of es policy as_int nought pred flagging reducing t w first last).0 ≡ true
        ↔ All (λ x. pred.apply x ≡ true) range)
      × ((none_of es policy as_int nought pred flagging reducing t w first last).0 ≡ true
          ↔ All (λ x. pred.apply x ≡ false) range)
      × ((any_of es policy as_int nought pred flagging reducing t w first last).0
          ≡ not (none_of es policy as_int nought pred flagging reducing t w first last).0)
  unfolding all_of none_of any_of
  quantifiers_lem =
      let c = (count_if es policy as_int nought pred flagging reducing t w first last).0 in
      let n = distance t first last in
      (
        (
          λ e. kept_all pred.apply range (sym count_if_lem ∙ same_of_test c n e ∙ sym length-range),
          λ a. test_of_same c n (count_if_lem ∙ all_kept pred.apply range a ∙ length-range),
        ),
        (
          λ e. kept_none pred.apply range (sym count_if_lem ∙ same_of_test c 0 e),
          λ a. test_of_same c 0 (count_if_lem ∙ none_kept pred.apply range a),
        ),
        above_zero c,
      )
