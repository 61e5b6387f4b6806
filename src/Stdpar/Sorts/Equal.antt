-- ===== src/Stdpar/Sorts/Equal.antt =====
-- `device_sort` of include/parallax/stdpar.hpp against `std::sort`.
use parallax_runtime.Prelude.{
  ℕ, ◌+◌, ◌-◌, ◌*◌, ◌^◌, ◌≤◌, ◌<◌, ◌≡◌, inl, inr, refl, sym, ap, ◌∙◌, Bool, true, false,
  if◌then◌else◌, Option, none, some, List, ◌++◌, length, length-append, Bool-cases, ◌==◌, ◌&&◌,
  arith,
}
use mathlib.Core.Path.{subst}
use parallax_runtime.Stdpar.{read, write, World, memcpy, Entries, Element, stage, unstage}
use parallax_runtime.Stdpar.Ranges.{
  SameBut, length-read, read-write_lem, read-write_after, write-append, write-cong, write-SameBut,
}
use parallax_runtime.Stdpar.Sorts.{
  next_power, sorted, sort_on_host, fill_top, sort_staged, sort_padded, device_sort,
}
use parallax_runtime.Stdpar.Sorts.Padding.{
  next_power_lem, copies, length-copies, length-sorted, sorted-append, fill_top_lem,
}

module _ {S V : Type 0} (es : Entries S V) (lt : V → V → Bool) (top : V) where
  -- This call of the sort entry point returns with the `m` elements in order.
  abbrev pub SortWorks : ℕ → Element → World S V → ℕ → ℕ → Type 0
  SortWorks k t w p m =
      (es.sort w k p m t.size).memory
      ≡ write w.memory p t.size (sorted lt (read w.memory p t.size m))

  -- The elements in the staging buffer `ab`, with largest values after them up to `m`.
  abbrev padded_copy : Element → World S V → ℕ → ℕ → ℕ → ℕ → World S V
  padded_copy t w elems n m ab = record w {
    memory =
        fill_top es lt top (write w.memory ab t.size (read w.memory elems t.size n))
          (ab + n * t.size) t.size (m - n);
  }

  -- The state and the pointer that device_sort calls the sort entry point with, if it calls it.
  abbrev pub sort_site : Element → World S V → ℕ → ℕ → ℕ → Option (World S V × ℕ)
  sort_site t w elems n m =
      if m == n && es.arena_contains w.runtime elems
      then some (w, elems)
      else (let (ab, w') = stage es w t m in
          if ab == 0 then none else some (padded_copy t w' elems n m ab, ab))

  site_inside :
      (t : Element) (w : World S V) (elems n m : ℕ)
      → (m == n && es.arena_contains w.runtime elems) ≡ true
      → sort_site t w elems n m ≡ some (w, elems)
  site_inside t w elems n m e = rw e refl

  site_outside :
      (t : Element) (w : World S V) (elems n m : ℕ)
      → (m == n && es.arena_contains w.runtime elems) ≡ false
      → ((stage es w t m).0 == 0) ≡ false
      → sort_site t w elems n m
        ≡ (let (ab, w') = stage es w t m in some (padded_copy t w' elems n m ab, ab))
  site_outside t w elems n m e there = rw (e, there) refl

  module _ (largest : (x : V) → lt top x ≡ false) (k : ℕ) (t : Element) (h : 0 < t.size)
      (w : World S V) (elems n m ab : ℕ) (enough : n ≤ m)
      (law : SortWorks k t (padded_copy t w elems n m ab) ab m) where
    abbrev xs : List V
    xs = read w.memory elems t.size n

    abbrev pads : List V
    pads = copies top (m - n)

    abbrev filled : World S V
    filled = padded_copy t w elems n m ab

    abbrev ran : World S V
    ran = es.sort filled k ab m t.size

    length-xs : length xs ≡ n
    length-xs = length-read t.size h n elems w.memory

    length-padded : length (xs ++ pads) ≡ m
    length-padded = omega (arith, length-append xs pads, length-xs, length-copies top (m - n))

    filled_lem : filled.memory ≡ write w.memory ab t.size (xs ++ pads)
    filled_lem =
        fill_top_lem es lt top (m - n) (ab + n * t.size) t.size (write w.memory ab t.size xs)
        ∙ ap (λ j. write (write w.memory ab t.size xs) (ab + j * t.size) t.size pads)
            (sym length-xs)
        ∙ sym (write-append t.size h xs pads ab w.memory)

    ran_lem : ran.memory ≡ write filled.memory ab t.size (sorted lt xs ++ pads)
    ran_lem =
        law
        ∙ ap (λ mem. write filled.memory ab t.size (sorted lt (read mem ab t.size m))) filled_lem
        ∙ ap (λ zs. write filled.memory ab t.size (sorted lt zs))
            (read-write_lem t.size h m ab (xs ++ pads) w.memory length-padded)
        ∙ ap (write filled.memory ab t.size) (sorted-append lt top largest xs (m - n))

    length-results : length (sorted lt xs) ≡ n
    length-results = length-sorted lt xs ∙ length-xs

    read-ran : read ran.memory ab t.size n ≡ sorted lt xs
    read-ran =
        ap (λ mem. read mem ab t.size n)
          (ran_lem ∙ write-append t.size h (sorted lt xs) pads ab filled.memory)
        ∙ read-write_after t.size h pads n ab (ab + length (sorted lt xs) * t.size)
            (write filled.memory ab t.size (sorted lt xs))
            (subst (λ j. ab + n * t.size ≤ ab + j * t.size) (sym length-results) (omega arith))
        ∙ read-write_lem t.size h n ab (sorted lt xs) filled.memory length-results

    ran-SameBut : SameBut ab (m * t.size) ran.memory w.memory
    ran-SameBut q out =
        ap (λ mem. mem q) ran_lem
        ∙ write-SameBut t.size h m ab (sorted lt xs ++ pads) filled.memory
            (omega
              (arith, length-append (sorted lt xs) pads, length-results, length-copies top (m - n)))
            q out
        ∙ ap (λ mem. mem q) filled_lem
        ∙ write-SameBut t.size h m ab (xs ++ pads) w.memory length-padded q out

  sort_staged_lem :
      ((x : V) → lt top x ≡ false)
      → (k : ℕ) (t : Element) (w : World S V) (elems n m ab : ℕ) → 0 < t.size
      → n ≤ m
      → ((ab == 0) ≡ false → SortWorks k t (padded_copy t w elems n m ab) ab m)
      → SameBut ab
          (m * t.size)
          (sort_staged es lt top k t w elems n m ab).memory
          (sort_on_host es lt top t w elems n).memory
  unfolding sort_staged sort_on_host memcpy unstage
  sort_staged_lem largest k t w elems n m ab h enough law q out = elim (Bool-cases (ab == 0)) [
    | inl null ↦ rw null refl
    | inr there ↦ rw there (
        ap
          (λ zs.
            write (ran largest k t h w elems n m ab enough (law there)).memory elems t.size zs q)
          (read-ran largest k t h w elems n m ab enough (law there))
        ∙ write-cong t.size h (sorted lt (xs largest k t h w elems n m ab enough (law there))) elems
            q (ran largest k t h w elems n m ab enough (law there)).memory w.memory
            (ran-SameBut largest k t h w elems n m ab enough (law there) q out))
  ]

  module _ (largest : (x : V) → lt top x ≡ false) (k : ℕ) (t : Element) (h : 0 < t.size)
      (w : World S V) (elems n m : ℕ) where
    sort_in_place :
        (q : ℕ)
        → m ≡ n
        → SortWorks k t w elems m
        → (es.sort w k elems n t.size).memory q ≡ (sort_on_host es lt top t w elems n).memory q
    unfolding sort_on_host
    sort_in_place q same law = ap (λ mem. mem q) (subst (SortWorks k t w elems) same law)

    sort_padded_lem :
        n ≤ m
        → ((s : World S V × ℕ) → sort_site t w elems n m ≡ some s → SortWorks k t s.0 s.1 m)
        → SameBut
            (stage es w t m).0
            (m * t.size)
            (sort_padded es lt top k t w elems n m).memory
            (sort_on_host es lt top t w elems n).memory
    unfolding sort_padded stage sort_on_host
    sort_padded_lem enough law q out =
        elim (Bool-cases (m == n && es.arena_contains w.runtime elems)) [
          | inl inside ↦
              rw inside
                (sort_in_place q (ground arith) (law (w, elems) (site_inside t w elems n m inside)))
          | inr outside ↦
              let staged = stage es w t m in
              rw outside (
                sort_staged_lem largest k t staged.1 elems n m staged.0 h enough
                  (λ there.
                    law (padded_copy t staged.1 elems n m staged.0, staged.0)
                      (site_outside t w elems n m outside there))
                  q out)
        ]

  -- Where the staging buffer has room for a power of two of elements.
  abbrev pub SortsTo : Option (World S V) → Element → World S V → ℕ → ℕ → ℕ → Type 0
  SortsTo result t w elems n m =
      (w' : World S V) × (result ≡ some w')
      × SameBut (stage es w t m).0 (m * t.size) w'.memory
          (sort_on_host es lt top t w elems n).memory

  -- For at most 2^63 elements the doubling loop of device_sort ends at a power `m`; and where the call
  -- of the sort entry point that it makes, if the kernel is found, returns with its `m` elements in
  -- order, and no element is above the largest value, device_sort leaves the memory as `std::sort`
  -- does, outside its staging buffer of `m` elements, and so on every path.
  pub device_sort_lem :
      (kernel : Option ℕ) (t : Element) (w : World S V) (elems n : ℕ)
      → 0 < t.size
      → n ≤ 2 ^ 63
      → ((x : V) → lt top x ≡ false)
      → ((k m : ℕ)
          → kernel ≡ some k
          → next_power 64 1 n ≡ some m
          → (s : World S V × ℕ) → sort_site t w elems n m ≡ some s
          → SortWorks k t s.0 s.1 m)
      → (m : ℕ) × (next_power 64 1 n ≡ some m)
        × SortsTo (device_sort es lt top kernel t w elems n) t w elems n m
  unfolding device_sort
  device_sort_lem none t w elems n h fits largest law =
      let (m, found, next) = next_power_lem n fits in
      (m, found, (sort_on_host es lt top t w elems n, refl, λ q out. refl))
  device_sort_lem (some k) t w elems n h fits largest law =
      let (m, found, next) = next_power_lem n fits in
      (
        m,
        found,
        (
          sort_padded es lt top k t w elems n m,
          rw (found, device_sort) refl,
          sort_padded_lem largest k t h w elems n m next.enough (law k m refl found),
        ),
      )
