-- ===== src/HeapCapture.antt =====
-- The link-time heap capture (src/memory/heap_capture.cpp): operator new and delete and the C
-- allocation functions, over the heap pool and glibc's own allocator, which are both arguments.
pub mod Laws
mod Tests
use parallax_runtime.Prelude.{
  ℕ, ◌+◌, ◌-◌, ◌/◌, Bool, true, false, not, ◌&&◌, ◌||◌, Option, none, some, bit_and, ◌==◌, ltb, leb,
  if◌then◌else◌, mul64, sub64,
}
use parallax_runtime.HeapPool.Interface.{PoolOps}

-- __libc_malloc, __libc_calloc, __libc_realloc and __libc_free on a state of their own.
pub record Libc {ℓ} (L : Type ℓ) : Type ℓ where
  pub malloc : L → ℕ → ℕ × L
  pub calloc : L → ℕ → ℕ → ℕ × L
  pub realloc : L → ℕ → ℕ → ℕ × L
  pub free : L → ℕ → L

-- Both allocators, and the bytes of memory.
pub record Heap {ℓ κ} (P : Type ℓ) (L : Type κ) : Type (ℓ ⊔ κ) where
  pub pool : P
  pub system : L
  pub bytes : ℕ → ℕ

-- alignof(std::max_align_t)
abbrev pub max_align : ℕ
max_align = 16

-- EINVAL and ENOMEM.
abbrev pub invalid : ℕ
invalid = 22

abbrev pub no_memory : ℕ
no_memory = 12

-- `std::memset(p, v, n)`
pub memset : (ℕ → ℕ) → ℕ → ℕ → ℕ → ℕ → ℕ
memset bytes p v n q = if leb p q && ltb q (p + n) then v else bytes q

-- `n ? n : 1`
abbrev pub at_least_one : ℕ → ℕ
at_least_one n = if n == 0 then 1 else n

-- The overflow test of `calloc`.
pub overflows : ℕ → ℕ → Bool
overflows nmemb size = not (nmemb == 0) && not (mul64 nmemb size / nmemb == size)

module _ {ℓ κ} {P : Type ℓ} {L : Type κ} (ops : PoolOps P) (libc : Libc L) where
  pub pool_alloc : Heap P L → ℕ → ℕ → ℕ × Heap P L
  pool_alloc h n align = let (p, s) = ops.alloc h.pool n align in (p, record h { pool = s })

  pub pool_or_libc : Heap P L → ℕ → ℕ → ℕ × Heap P L
  unfolding pool_alloc
  pool_or_libc h n align =
      let (p, h') = pool_alloc h (at_least_one n) align in
      if p == 0
      then (let (q, s) = libc.malloc h'.system (at_least_one n) in (q, record h' { system = s }))
      else (p, h')

  pub route_free : Heap P L → ℕ → Heap P L
  route_free h p =
      if p == 0
      then h
      else (if ops.contains h.pool p
          then record h { pool = ops.free h.pool p }
          else record h { system = libc.free h.system p })

  -- `operator new` and `operator new[]`: none is the exception.
  pub operator_new : Heap P L → ℕ → ℕ → Option ℕ × Heap P L
  unfolding pool_or_libc
  operator_new h n align =
      let (p, h') = pool_or_libc h n align in ((if p == 0 then none else some p), h')

  -- The forms that take std::nothrow.
  pub operator_new_nothrow : Heap P L → ℕ → ℕ → ℕ × Heap P L
  operator_new_nothrow = pool_or_libc

  -- All the forms of `operator delete`.
  pub operator_delete : Heap P L → ℕ → Heap P L
  operator_delete = route_free

  pub malloc : Heap P L → ℕ → ℕ × Heap P L
  malloc h n = pool_or_libc h n 16

  pub free : Heap P L → ℕ → Heap P L
  free = route_free

  pub calloc : Heap P L → ℕ → ℕ → ℕ × Heap P L
  unfolding overflows pool_alloc memset
  calloc h nmemb size =
      if overflows nmemb size
      then (0, h)
      else (let (p, h') = pool_alloc h (at_least_one (mul64 nmemb size)) 16 in
          if p == 0
          then (let (q, s) = libc.calloc h'.system nmemb size in (q, record h' { system = s }))
          else (p, record h' { bytes = memset h'.bytes p 0 (mul64 nmemb size) }))

  pub realloc : Heap P L → ℕ → ℕ → ℕ × Heap P L
  unfolding pool_or_libc
  realloc h p n =
      if p == 0
      then pool_or_libc h n 16
      else (if ops.contains h.pool p
          then (if n == 0
              then (0, record h { pool = ops.free h.pool p })
              else (let (q, s) = ops.realloc h.pool p n in (q, record h { pool = s })))
          else (let (q, s) = libc.realloc h.system p n in (q, record h { system = s })))

  -- `aligned_alloc` and `memalign`; `valloc` and `pvalloc` are this at 4096.
  pub aligned_alloc : Heap P L → ℕ → ℕ → ℕ × Heap P L
  unfolding pool_alloc
  aligned_alloc h align n = pool_alloc h (at_least_one n) align

  pub valloc : Heap P L → ℕ → ℕ × Heap P L
  unfolding pool_alloc
  valloc h n = pool_alloc h (at_least_one n) 4096

  -- The result code, and what is stored through `out`.
  pub posix_memalign : Heap P L → ℕ → ℕ → ℕ × Option ℕ × Heap P L
  unfolding pool_alloc
  posix_memalign h align n =
      if ltb align 8 || not (bit_and align (sub64 align 1) == 0)
      then (invalid, none, h)
      else (let (p, h') = pool_alloc h (at_least_one n) align in
          if p == 0 then (no_memory, none, h') else (0, some p, h'))

  pub malloc_usable_size : Heap P L → ℕ → ℕ
  malloc_usable_size h p =
      if not (p == 0) && ops.contains h.pool p then ops.usable_size h.pool p else 0
