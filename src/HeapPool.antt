-- ===== src/HeapPool.antt =====
-- The process-wide heap pool (src/memory/heap_pool.cpp, include/parallax/heap_pool.hpp): the layout
-- of its blocks and payloads on a memory of 64-bit words, and its tiling check. Every access of the
-- source is to a word at an address that is a multiple of 8, so a memory is a function of addresses.
pub mod Interface
pub mod Layout
pub mod Tiling
pub mod Blocks
pub mod Retile
pub mod Bins
mod Tests
use parallax_runtime.Prelude.{
  ℕ, zero, suc, ◌+◌, ◌-◌, Bool, true, false, not, ◌&&◌, ◌||◌, max, bit_and, bit_or, ◌==◌, ltb, leb,
  if◌then◌else◌, add64, sub64, not64, align_up, Option, none, some,
}

abbrev pub Memory : Type 0
Memory = ℕ → ℕ

pub store : Memory → ℕ → ℕ → Memory
store m a v q = if q == a then v else m q

-- ALIGN, HDR, FTR, MIN_BSIZE and ALLOC_BIT.
abbrev pub min_align : ℕ
min_align = 16

abbrev pub header_size : ℕ
header_size = 8

abbrev pub footer_size : ℕ
footer_size = 8

abbrev pub min_bsize : ℕ
min_bsize = 32

abbrev pub alloc_bit : ℕ
alloc_bit = 1

-- `round_up` is the mask of the arena's `align_up`.
abbrev pub round_up : ℕ → ℕ → ℕ
round_up = align_up

-- The size in the header of the block at `b`, and its flag.
pub bsize : Memory → ℕ → ℕ
bsize m b = bit_and (m b) (not64 alloc_bit)

pub allocated : Memory → ℕ → Bool
allocated m b = not (bit_and (m b) alloc_bit == 0)

pub set_block : Memory → ℕ → ℕ → Bool → Memory
unfolding store
set_block m b bs alloc =
    store (store m b (bit_or bs (if alloc then alloc_bit else 0))) (b + bs - footer_size) bs

-- At most `n` rounds of `check_locked` from the offset `off` on; `none` if it has not ended then. The
-- sums are words, so that they wrap.
pub check_from : ℕ → Memory → ℕ → ℕ → ℕ → Option Bool
unfolding bsize
check_from zero m base res off = if leb res off then some (off == res) else none
check_from (suc n) m base res off =
    let bs = bsize m (base + off) in
    let rest = check_from n m base res (add64 off bs) in
    if leb res off
    then some (off == res)
    else (if ltb bs min_bsize || not (bit_and bs (min_align - 1) == 0)
        then some false
        else (if ltb res (add64 off bs)
            then some false
            else (if m (sub64 (add64 (base + off) bs) footer_size) == bs
                then rest
                else some false)))

-- `check_locked`: a pool that is not set up passes. After `res` rounds an offset has come twice.
pub check_locked : Memory → ℕ → ℕ → Option Bool
unfolding check_from
check_locked m base res = if base == 0 then some true else check_from res m base res 0

-- The size of block that `px_pool_alloc` asks for, for an alignment that is a power of two.
pub block_need : ℕ → ℕ → ℕ
block_need size align =
    let payload = add64 (add64 (max size 1) align) 8 in
    max (round_up (add64 (add64 header_size payload) footer_size) min_align) min_bsize

-- The pointer that it returns into the block at `b`.
pub payload : ℕ → ℕ → ℕ
payload b align = round_up (add64 (add64 b header_size) 8) align

-- The back-pointer to the block is stored before the payload.
pub link_back : Memory → ℕ → ℕ → Memory
unfolding store payload
link_back m b align = store m (payload b align - 8) b

-- `px_pool_usable_size` of a payload.
pub usable_size : Memory → ℕ → ℕ
unfolding bsize
usable_size m ptr =
    if ptr == 0 then 0 else (let b = m (ptr - 8) in sub64 (b + bsize m b - footer_size) ptr)

-- `px_pool_contains`
pub pool_contains : ℕ → ℕ → ℕ → Bool
pool_contains base res ptr = if base == 0 then false else leb base ptr && ltb ptr (base + res)
