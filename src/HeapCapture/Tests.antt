-- ===== src/HeapCapture/Tests.antt =====
-- Instances of the theorems on the heap capture: a pool that hands out addresses from 4096 on and
-- a system allocator that hands out addresses above 2^32.
use parallax_runtime.Prelude.{ℕ, ◌+◌, ◌*◌, ◌≡◌, refl, ◌&&◌, ltb, leb, if◌then◌else◌}
use parallax_runtime.HeapPool.Interface.{PoolOps}
use parallax_runtime.HeapCapture.{
  Libc, Heap, calloc, pool_or_libc, pool_alloc, operator_new_nothrow, operator_delete, route_free,
  aligned_alloc, valloc, malloc_usable_size,
}
use parallax_runtime.HeapCapture.Laws.{Cleared, calloc_lem}

-- The pool has room up to 8192.
abbrev small_pool : PoolOps ℕ
small_pool = record {
  alloc = λ s n a. if ltb (s + n) 8192 then (4096 + s, s + n) else (0, s);
  free = λ s p. s;
  realloc = λ s p n. (p, s);
  usable_size = λ s p. 0;
  contains = λ s p. leb 4096 p && ltb p 12288;
}

abbrev far_heap : Libc ℕ
far_heap = record {
  malloc = λ l n. (4294967296 + l, l + n);
  calloc = λ l k n. (4294967296 + l, l + k * n);
  realloc = λ l p n. (p, l);
  free = λ l p. l;
}

abbrev unused : Heap ℕ ℕ
unused = record { pool = 0; system = 0; bytes = λ q. 7 }

calloc_lem_example :
    Cleared small_pool far_heap unused 10 8 (calloc small_pool far_heap unused 10 8)
calloc_lem_example = calloc_lem small_pool far_heap unused 10 8

abbrev held_block : ℕ
held_block = 4200

abbrev no_bytes : ℕ
no_bytes = 0

throws_nothing : (operator_new_nothrow small_pool far_heap unused 9000 16).0 ≡ 4294967296
unfolding operator_new_nothrow pool_or_libc pool_alloc
throws_nothing = refl

deletes_null : operator_delete small_pool far_heap unused 0 ≡ unused
unfolding operator_delete route_free
deletes_null = refl

pool_only :
    ((aligned_alloc small_pool far_heap unused 64 9000).0 ≡ 0)
    × ((valloc small_pool far_heap unused 9000).0 ≡ 0)
unfolding aligned_alloc valloc pool_alloc
pool_only = (refl, refl)

sizes_nothing : malloc_usable_size small_pool far_heap unused 4294967296 ≡ 0
unfolding malloc_usable_size
sizes_nothing = refl
