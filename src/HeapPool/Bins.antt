-- ===== src/HeapPool/Bins.antt =====
-- The segregated free lists of src/memory/heap_pool.cpp: bins, allocation with a split, and freeing
-- with coalescing, on a memory of words.
mod Runs
use parallax_runtime.Prelude.{
  ℕ, zero, suc, ◌+◌, ◌-◌, ◌*◌, ◌/◌, ◌%◌, ◌^◌, Bool, bit_and, true, false, not, ◌&&◌, Option, none,
  some, min, max, ◌==◌, ltb, leb, if◌then◌else◌, sub64, mul64,
}
use parallax_runtime.HeapPool.{
  Memory, store, bsize, allocated, set_block, block_need, payload, link_back, usable_size, round_up,
  header_size, footer_size, min_bsize, min_align,
}

-- NBINS
abbrev pub bin_count : ℕ
bin_count = 44

-- The static variables of the file; `bins` is the array of list heads.
pub record Pool : Type 0 where
  pub memory : Memory
  pub base : ℕ
  pub reservation : ℕ
  pub high : ℕ
  pub init_done : Bool
  pub init_failed : Bool
  pub bins : ℕ → ℕ

-- 63 less the leading zeros of a 64-bit word that is not 0.
pub floor_log2 : ℕ → ℕ → ℕ
floor_log2 zero x = 0
floor_log2 (suc n) x = let rest = floor_log2 n (x / 2) in if ltb x 2 then 0 else rest + 1

pub bin_index : ℕ → ℕ
unfolding floor_log2
bin_index bs = min (floor_log2 63 bs - 4) (bin_count - 1)

-- `fl_next(B)` and `fl_prev(B)` lie at these addresses.
abbrev pub next_link : ℕ → ℕ
next_link b = b + header_size

abbrev pub prev_link : ℕ → ℕ
prev_link b = b + header_size + 8

pub set_bin : (ℕ → ℕ) → ℕ → ℕ → ℕ → ℕ
set_bin bins i b j = if j == i then b else bins j

pub bin_insert : Pool → ℕ → Pool
unfolding bin_index set_bin
bin_insert p b =
    let i = bin_index (bsize p.memory b) in
    let head = p.bins i in
    let m = store (store p.memory (prev_link b) 0) (next_link b) head in
    record p {
      memory = if head == 0 then m else store m (prev_link head) b;
      bins = set_bin p.bins i b;
    }

pub bin_remove : Pool → ℕ → Pool
unfolding bin_index set_bin
bin_remove p b =
    let before = p.memory (prev_link b) in
    let after = p.memory (next_link b) in
    let q : Pool =
      if before == 0
      then record p { bins = set_bin p.bins (bin_index (bsize p.memory b)) after }
      else record p { memory = store p.memory (next_link before) after } in
    if after == 0 then q else record q { memory = store q.memory (prev_link after) before }

-- The inner loop of `block_alloc`: the first block of a list that is large enough, 0 for none, on
-- as many rounds as the list may have blocks.
pub search_bin : ℕ → Memory → ℕ → ℕ → ℕ
search_bin zero m need b = 0
search_bin (suc n) m need b =
    let rest = search_bin n m need (m (next_link b)) in
    if b == 0 then 0 else (if leb need (bsize m b) then b else rest)

-- The outer loop, over the `k` bins from bin `i` on.
pub search_bins : ℕ → ℕ → Pool → ℕ → ℕ → ℕ
unfolding search_bin
search_bins zero n p need i = 0
search_bins (suc k) n p need i =
    let rest = search_bins k n p need (i + 1) in
    let hit = search_bin n p.memory need (p.bins i) in if hit == 0 then rest else hit

-- A block that was found is taken out of its bin and split if the rest is a block.
pub take_block : Pool → ℕ → ℕ → Pool
unfolding bin_remove bin_insert
take_block p b need =
    let bs = bsize p.memory b in
    let q = bin_remove p b in
    let r : Pool =
      if leb min_bsize (bs - need)
      then bin_insert
          (record q {
            memory = set_block (set_block q.memory b need true) (b + need) (bs - need) false;
          })
          (b + need)
      else record q { memory = set_block q.memory b bs true } in
    record r { high = max r.high (b - r.base + bsize r.memory b) }

-- A reservation of `n` bytes has at most n / 32 blocks.
pub block_alloc : Pool → ℕ → ℕ × Pool
unfolding bin_index search_bins take_block
block_alloc p need =
    let i = bin_index need in
    let b = search_bins (bin_count - i) (p.reservation / min_bsize + 1) p need i in
    if b == 0 then (0, p) else (b, take_block p b need)

pub block_free : Pool → ℕ → Pool
unfolding bin_remove bin_insert
block_free p b =
    let bs = bsize p.memory b in
    let next = b + bs in
    let forward : Pool × ℕ =
      if ltb next (p.base + p.reservation) && not (allocated p.memory next)
      then (bin_remove p next, bs + bsize (bin_remove p next).memory next)
      else (p, bs) in
    let (q, size) = forward in
    let prev = sub64 b (q.memory (b - footer_size)) in
    let merged : Pool × ℕ × ℕ =
      if ltb q.base b && (leb q.base prev && not (allocated q.memory prev))
      then (bin_remove q prev, prev, size + bsize (bin_remove q prev).memory prev)
      else (q, b, size) in
    let (r, start, total) = merged in
    bin_insert (record r { memory = set_block r.memory start total false }) start

-- `ensure_init_locked`, for the size in MiB that PARALLAX_HEAP_POOL gives, 0 if it gives none that
-- is positive, and the address that mmap answers with.
pub ensure_init : ℕ → Option ℕ → Pool → Bool × Pool
unfolding bin_insert
ensure_init mib mapped p =
    if p.init_done
    then (not p.init_failed, p)
    else (let res = round_up (if mib == 0 then 8589934592 else mul64 mib 1048576) 4096 in
        elim mapped [
          | none ↦ (false, record p { init_done = true; init_failed = true })
          | some b ↦
              let fresh : Pool =
                bin_insert
                  (record p {
                    init_done = true;
                    memory = set_block p.memory b res false;
                    bins = λ i. 0;
                  })
                  b in
              (true, record fresh { base = b; reservation = res })
        ])

-- `while (a < align) a <<= 1`, which ends within 60 tests from 16 on for an alignment of at most 2^63.
pub grow_align : ℕ → ℕ → ℕ → ℕ
grow_align zero a align = a
grow_align (suc n) a align =
    let rest = grow_align n (a * 2 % 2 ^ 64) align in if ltb a align then rest else a

pub pool_align : ℕ → ℕ
unfolding grow_align
pool_align align =
    let a = max align min_align in if bit_and a (a - 1) == 0 then a else grow_align 60 min_align a

-- `px_pool_alloc`
pub pool_alloc : ℕ → Option ℕ → Pool → ℕ → ℕ → ℕ × Pool
unfolding pool_align ensure_init block_alloc
pool_alloc mib mapped p size align =
    let a = pool_align align in
    let (ok, q) = ensure_init mib mapped p in
    if ok
    then (let (b, r) = block_alloc q (block_need size a) in
        if b == 0 then (0, r) else (payload b a, record r { memory = link_back r.memory b a }))
    else (0, q)

-- `px_pool_free`
pub pool_free : Pool → ℕ → Pool
unfolding block_free
pool_free p ptr = if ptr == 0 then p else block_free p (p.memory (ptr - 8))

-- `std::memcpy` of `n` words.
pub copy_words : ℕ → Memory → ℕ → ℕ → Memory
copy_words zero m dst src = m
copy_words (suc n) m dst src = copy_words n (store m dst (m src)) (dst + 8) (src + 8)

-- `px_pool_realloc`; the usable size of a block is a whole number of words.
pub pool_realloc : ℕ → Option ℕ → Pool → ℕ → ℕ → ℕ × Pool
unfolding pool_alloc pool_free copy_words
pool_realloc mib mapped p ptr new_size =
    if ptr == 0
    then pool_alloc mib mapped p new_size min_align
    else if new_size == 0
    then (0, pool_free p ptr)
    else (let old = usable_size p.memory ptr in
        if leb new_size old
        then (ptr, p)
        else (let (np, q) = pool_alloc mib mapped p new_size min_align in
            if np == 0
            then (0, q)
            else (np, pool_free (record q { memory = copy_words (old / 8) q.memory np ptr }) ptr)))
