-- ===== src/HeapCapture/Laws.antt =====
-- Lemmas on the heap capture of src/memory/heap_capture.cpp, function by function.
use parallax_runtime.Prelude.{
  ℕ, ◌+◌, ◌*◌, ◌/◌, ◌≤◌, ◌<◌, ◌≡◌, refl, sym, ap, ◌∙◌, ◌≢◌, ◌↔◌, ◌⊎◌, inl, inr, true, false, none,
  some, arith, ◌==◌, leb, Bool-cases, mul64, u64_mod, leb→le, leb→lt, ==_iff, nonzero_of_test,
}
use mathlib.Core.Path.{subst}
use native.Mathlib.Nat.{div-mul-le_self, div-eq_of_lt-le}
use parallax_runtime.HeapPool.Interface.{PoolOps}
use parallax_runtime.HeapCapture.{
  Libc, Heap, memset, at_least_one, overflows, pool_alloc, pool_or_libc, route_free, malloc, free,
  calloc, posix_memalign, realloc, operator_new, invalid, no_memory,
}

fits_word : (n s : ℕ) → 0 < n → n * s < u64_mod → mul64 n s / n ≡ s
fits_word n s pos small =
    let same : mul64 n s ≡ n * s = omega arith in
    rw same (div-eq_of_lt-le {k = s} n (omega arith) (omega arith))

none_at_zero : (n s : ℕ) → n ≡ 0 → u64_mod ≤ n * s → ⊥
none_at_zero n s z h =
    let none_left : n * s ≡ 0 = ap (λ k. k * s) z ∙ omega arith in omega (arith, none_left)

too_small : (n s : ℕ) → mul64 n s / n ≡ s → u64_mod ≤ n * s → ⊥
too_small n s e h =
    let below : s * n ≤ mul64 n s =
      subst (λ d. d * n ≤ mul64 n s) e (div-mul-le_self (mul64 n s) n) in
    omega (arith, below)

refused : (n s : ℕ) → overflows n s ≡ true → u64_mod ≤ n * s
unfolding overflows
refused n s e = elim (Bool-cases (leb u64_mod (n * s))) [
  | inl h ↦ leb→le u64_mod (n * s) h
  | inr h ↦
      let small = leb→lt u64_mod (n * s) h in
      elim (Bool-cases (n == 0)) [
        | inl z ↦ ground (arith, z)
        | inr z ↦ ground (arith, z, fits_word n s (ground (arith, z)) small)
      ]
]

too_many : (n s : ℕ) → u64_mod ≤ n * s → overflows n s ≡ true
unfolding overflows
too_many n s h =
    let pos : (n == 0) ≡ false = elim (Bool-cases (n == 0)) [
      | inl z ↦ absurd (none_at_zero n s ((==_iff n 0).0 z) h)
      | inr z ↦ z
    ] in
    elim (Bool-cases (mul64 n s / n == s)) [
      | inl e ↦ absurd (too_small n s ((==_iff (mul64 n s / n) s).0 e) h)
      | inr e ↦ rw (pos, e) refl
    ]

true≢false : true ≢ false
true≢false e = ground arith

-- The test of `calloc` on machine words is exact: it refuses just the requests whose byte count
-- does not fit a word.
pub overflows_iff : (nmemb size : ℕ) → (overflows nmemb size ≡ true) ↔ (u64_mod ≤ nmemb * size)
unfolding overflows
overflows_iff nmemb size = (refused nmemb size, too_many nmemb size)

not_refused : (n s : ℕ) → overflows n s ≡ false → n * s < u64_mod
not_refused n s e = elim (Bool-cases (leb u64_mod (n * s))) [
  | inr h ↦ leb→lt u64_mod (n * s) h
  | inl h ↦ absurd (true≢false (sym (too_many n s (leb→le u64_mod (n * s) h)) ∙ e))
]

module _ {P L : Type 0} (ops : PoolOps P) (libc : Libc L) where
  calloc_pool :
      (h : Heap P L) (nmemb size n : ℕ)
      → mul64 nmemb size ≡ n
      → overflows nmemb size ≡ false
      → let (q, s) = ops.alloc h.pool (at_least_one n) 16 in
        (q == 0) ≡ false
        → calloc ops libc h nmemb size ≡ (q, record h { pool = s; bytes = memset h.bytes q 0 n })
  unfolding calloc pool_alloc
  calloc_pool h nmemb size n same fits e = rw (fits, same) (rw e refl)

  calloc_system :
      (h : Heap P L) (nmemb size n : ℕ)
      → mul64 nmemb size ≡ n
      → overflows nmemb size ≡ false
      → let (q, s) = ops.alloc h.pool (at_least_one n) 16 in
        let (p, l) = libc.calloc h.system nmemb size in
        (q == 0) ≡ true → calloc ops libc h nmemb size ≡ (p, record h { pool = s; system = l })
  unfolding calloc pool_alloc
  calloc_system h nmemb size n same fits e = rw (fits, same) (rw e refl)

  -- The three outcomes of `calloc`.
  abbrev pub Cleared : Heap P L → ℕ → ℕ → ℕ × Heap P L → Type 0
  Cleared h nmemb size (p, h') =
      let (q, s) = ops.alloc h.pool (at_least_one (nmemb * size)) 16 in
      ((u64_mod ≤ nmemb * size) × (p ≡ 0) × (h' ≡ h))
      ⊎ ((nmemb * size < u64_mod)
          × (q ≢ 0)
          × (p ≡ q)
          × (h'.pool ≡ s)
          × ((a : ℕ) → p ≤ a → a < p + nmemb * size → h'.bytes a ≡ 0)
          × ((a : ℕ) → (a < p) ⊎ (p + nmemb * size ≤ a) → h'.bytes a ≡ h.bytes a))
      ⊎ ((nmemb * size < u64_mod)
          × (q ≡ 0)
          × (h'.bytes ≡ h.bytes)
          × (p ≡ (libc.calloc h.system nmemb size).0))

  -- `calloc` refuses a request whose byte count does not fit a word and touches nothing; where
  -- the pool serves a request, just the bytes of the block have become zero; where it cannot,
  -- the request goes to glibc unchanged.
  pub calloc_lem :
      (h : Heap P L) (nmemb size : ℕ) → Cleared h nmemb size (calloc ops libc h nmemb size)
  unfolding calloc memset
  calloc_lem h nmemb size = elim (Bool-cases (overflows nmemb size)) [
    | inl over ↦ inl ((overflows_iff nmemb size).0 over, rw over refl, rw over refl)
    | inr fits ↦
        let small : nmemb * size < u64_mod = not_refused nmemb size fits in
        let same : mul64 nmemb size ≡ nmemb * size = omega arith in
        let q = (ops.alloc h.pool (at_least_one (nmemb * size)) 16).0 in
        elim (Bool-cases (q == 0)) [
          | inl e ↦
              subst (Cleared h nmemb size)
                (sym (calloc_system h nmemb size (nmemb * size) same fits e))
                (inr (inr (small, (==_iff q 0).0 e, refl, refl)))
          | inr e ↦
              subst (Cleared h nmemb size)
                (sym (calloc_pool h nmemb size (nmemb * size) same fits e))
                (inr (
                  inl (
                    small,
                    nonzero_of_test q e,
                    refl,
                    refl,
                    λ a lo hi. ground arith,
                    λ a out. ground arith,
                  )))
        ]
  ]

  -- `posix_memalign` stores a pointer only where it reports success, and then never null; a bad
  -- alignment is refused before anything is allocated.
  pub posix_memalign_lem :
      (h : Heap P L) (align n : ℕ)
      → let (code, out, h') = posix_memalign ops libc h align n in
        ((code ≡ invalid) × (out ≡ none) × (h' ≡ h))
        ⊎ ((8 ≤ align)
            × (code ≡ no_memory)
            × (out ≡ none)
            × ((ops.alloc h.pool (at_least_one n) align).0 ≡ 0))
        ⊎ ((8 ≤ align)
            × (code ≡ 0)
            × ((p : ℕ) × (out ≡ some p)
                × (p ≢ 0)
                × (p ≡ (ops.alloc h.pool (at_least_one n) align).0)))
  unfolding posix_memalign pool_alloc
  posix_memalign_lem h align n = ground arith

  -- `realloc` of null allocates; a block of the pool stays with the pool, and is freed at size 0;
  -- a block of glibc stays with glibc.
  pub realloc_lem :
      (h : Heap P L) (p n : ℕ)
      → ((p ≡ 0) × (realloc ops libc h p n ≡ malloc ops libc h n))
        ⊎ ((p ≢ 0)
            × (ops.contains h.pool p ≡ true)
            × (n ≡ 0)
            × (realloc ops libc h p n ≡ (0, free ops libc h p)))
        ⊎ ((p ≢ 0)
            × (ops.contains h.pool p ≡ true)
            × (n ≢ 0)
            × ((realloc ops libc h p n).1.system ≡ h.system)
            × ((realloc ops libc h p n).0 ≡ (ops.realloc h.pool p n).0))
        ⊎ ((p ≢ 0)
            × (ops.contains h.pool p ≡ false)
            × ((realloc ops libc h p n).1.pool ≡ h.pool)
            × ((realloc ops libc h p n).0 ≡ (libc.realloc h.system p n).0))
  unfolding realloc malloc free route_free
  realloc_lem h p n = elim (Bool-cases (p == 0)) [
    | inl z ↦ inl ((==_iff p 0).0 z, rw z refl)
    | inr z ↦ elim (Bool-cases (ops.contains h.pool p)) [
      | inr out ↦ inr (inr (inr (nonzero_of_test p z, out, rw z (rw out refl), rw z (rw out refl))))
      | inl own ↦ elim (Bool-cases (n == 0)) [
        | inl e ↦ inr (inl (nonzero_of_test p z, own, (==_iff n 0).0 e, rw z (rw own (rw e refl))))
        | inr e ↦ inr (
            inr (
              inl (
                nonzero_of_test p z,
                own,
                nonzero_of_test n e,
                rw z (rw own (rw e refl)),
                rw z (rw own (rw e refl)),
              )))
      ]
    ]
  ]

  -- `operator new` throws just where both allocators refuse, and never returns null.
  pub operator_new_lem :
      (h : Heap P L) (n align : ℕ)
      → ((operator_new ops libc h n align).0 ≡ none) ↔ (
          ((ops.alloc h.pool (at_least_one n) align).0 ≡ 0)
          × ((libc.malloc h.system (at_least_one n)).0 ≡ 0))
  unfolding operator_new pool_or_libc pool_alloc
  operator_new_lem h n align = ground arith
