-- ===== src/Stdpar/Folds/Sums.antt =====
-- `device_reduce` of include/parallax/stdpar.hpp against its sequential loop.
use parallax_runtime.Prelude.{
  ℕ, zero, suc, ◌+◌, ◌<◌, ◌≡◌, inl, inr, refl, sym, ap, ◌∙◌, Option, none, some, List, [], ◌∷◌,
  Bool-cases, ◌==◌, true, false, if◌then◌else◌,
}
use parallax_runtime.Stdpar.{Memory, read, write, World, memcpy, Entries, Element, stage}
use parallax_runtime.Stdpar.Ranges.{length-read, read-write_lem}
use parallax_runtime.Stdpar.Folds.{host_sum, reduce_staged, device_reduce}

-- Addition of the element type in exact arithmetic.
pub record IsMonoid {V : Type 0} (add : V → V → V) (nought : V) : Type 0 where
  pub assoc : (a b c : V) → add (add a b) c ≡ add a (add b c)
  pub right_nought : (a : V) → add a nought ≡ a

abbrev pub total : {V : Type 0} → (V → V → V) → V → List V → V
total add acc [] = acc
total add acc (x ∷ xs) = total add (add acc x) xs

module _ {S V : Type 0} (es : Entries S V) (add : V → V → V) (nought : V) where
  -- This run of the reduction stores the sum of the elements.
  abbrev pub SumWorks : ℕ → Element → World S V → ℕ → ℕ → Type 0
  SumWorks k t w p n =
      (es.reduce w k p n t.size nought).0 ≡ total add nought (read w.memory p t.size n)

  -- The state and the pointer that device_reduce runs the reduction with, if it runs it.
  abbrev pub sum_site : Element → World S V → ℕ → ℕ → Option (World S V × ℕ)
  sum_site t w elems n =
      if es.arena_contains w.runtime elems
      then some (w, elems)
      else (let (ab, w') = stage es w t n in
          if ab == 0 then none else some (memcpy w' ab elems t.size n, ab))

  sum_site_inside :
      (t : Element) (w : World S V) (elems n : ℕ)
      → es.arena_contains w.runtime elems ≡ true
      → sum_site t w elems n ≡ some (w, elems)
  sum_site_inside t w elems n e = rw e refl

  sum_site_outside :
      (t : Element) (w : World S V) (elems n : ℕ)
      → es.arena_contains w.runtime elems ≡ false
      → ((stage es w t n).0 == 0) ≡ false
      → sum_site t w elems n
        ≡ (let (ab, w') = stage es w t n in some (memcpy w' ab elems t.size n, ab))
  sum_site_outside t w elems n e there = rw (e, there) refl

module _ {S V : Type 0} (es : Entries S V) (add : V → V → V) (nought : V)
    (monoid : IsMonoid add nought) where
  add-total : (xs : List V) (a acc : V) → add a (total add acc xs) ≡ total add (add a acc) xs
  add-total [] a acc = refl
  add-total (x ∷ xs) a acc =
      add-total xs a (add acc x) ∙ ap (λ b. total add b xs) (sym (monoid.assoc a acc x))

  init-total : (xs : List V) (init : V) → add init (total add nought xs) ≡ total add init xs
  init-total xs init =
      add-total xs init nought ∙ ap (λ b. total add b xs) (monoid.right_nought init)

  host_sum_lem :
      (n size elems : ℕ) (m : Memory V) (acc : V)
      → host_sum es add nought size m elems n acc ≡ total add acc (read m elems size n)
  unfolding host_sum read
  host_sum_lem zero size elems m acc = refl
  host_sum_lem (suc n) size elems m acc = host_sum_lem n size (elems + size) m (add acc (m elems))

  module _ (k : ℕ) (t : Element) (h : 0 < t.size) (elems n : ℕ) (init : V) where
    sum_in_place :
        (w : World S V)
        → SumWorks es add nought k t w elems n
        → add init (es.reduce w k elems n t.size nought).0
          ≡ host_sum es add nought t.size w.memory elems n init
    sum_in_place w law =
        ap (add init) law
        ∙ init-total (read w.memory elems t.size n) init
        ∙ sym (host_sum_lem n t.size elems w.memory init)

    reduce_staged_lem :
        (ab : ℕ) (w : World S V)
        → ((ab == 0) ≡ false → SumWorks es add nought k t (memcpy w ab elems t.size n) ab n)
        → (reduce_staged es add nought k t w elems n init ab).0
          ≡ host_sum es add nought t.size w.memory elems n init
    unfolding reduce_staged memcpy
    reduce_staged_lem ab w law = elim (Bool-cases (ab == 0)) [
      | inl null ↦ rw null refl
      | inr there ↦
          let xs = read w.memory elems t.size n in
          let copied : read (write w.memory ab t.size xs) ab t.size n ≡ xs =
            read-write_lem t.size h n ab xs w.memory (length-read t.size h n elems w.memory) in
          rw there (
            ap (add init) (law there ∙ ap (total add nought) copied)
            ∙ init-total xs init
            ∙ sym (host_sum_lem n t.size elems w.memory init))
    ]

    sum_found :
        (w : World S V)
        → ((s : World S V × ℕ)
            → sum_site es add nought t w elems n ≡ some s
            → SumWorks es add nought k t s.0 s.1 n)
        → (device_reduce es add nought (some k) t w elems n init).0
          ≡ host_sum es add nought t.size w.memory elems n init
    unfolding device_reduce stage
    sum_found w law = elim (Bool-cases (es.arena_contains w.runtime elems)) [
      | inl inside ↦
          rw inside
            (sum_in_place w (law (w, elems) (sum_site_inside es add nought t w elems n inside)))
      | inr outside ↦
          let staged = stage es w t n in
          rw outside (
            reduce_staged_lem staged.0 staged.1 (λ there.
              law (memcpy staged.1 staged.0 elems t.size n, staged.0)
                (sum_site_outside es add nought t w elems n outside there)))
    ]

  -- Whether the kernel is found or not, and on every path: device_reduce returns what the sequential
  -- loop does, where addition is associative with the identity, and the run of the reduction that it
  -- makes, if it makes one, stores the sum of the elements.
  pub device_reduce_lem :
      (kernel : Option ℕ) (t : Element) (w : World S V) (elems n : ℕ) (init : V)
      → 0 < t.size
      → ((k : ℕ)
          → kernel ≡ some k
          → (s : World S V × ℕ) → sum_site es add nought t w elems n ≡ some s
          → SumWorks es add nought k t s.0 s.1 n)
      → (device_reduce es add nought kernel t w elems n init).0
        ≡ host_sum es add nought t.size w.memory elems n init
  unfolding device_reduce
  device_reduce_lem none t w elems n init h law = refl
  device_reduce_lem (some k) t w elems n init h law = sum_found k t h elems n init w (law k refl)
