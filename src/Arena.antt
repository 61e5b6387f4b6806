-- ===== src/Arena.antt =====
-- UnifiedArena (include/parallax/arena.hpp, src/memory/arena.cpp): the sub-allocator of the one
-- host-mapped buffer. A pointer is a number, 0 is `nullptr` and the null handle; the mutex makes
-- each call atomic. The Vulkan side is in `Arena.Setup`, `Arena.Import` and `Arena.Migrate`.
pub mod Fit
pub mod Live
pub mod Invariant
pub mod Allocate
pub mod Grants
pub mod Exhausted
pub mod Release
pub mod Setup
pub mod Migrate
pub mod Import
pub mod Tests
use parallax_runtime.Prelude.{
  ℕ, ◌+◌, ◌≡◌, Bool, true, false, not, ◌&&◌, ◌||◌, Option, none, some, List, [], ◌∷◌, ◌++◌, max,
  ltb, leb, ◌==◌, if◌then◌else◌, add64, sub64, align_up, Map, find, insert, erase,
}
use parallax_runtime.HeapPool.Interface.{PoolOps}

-- `kDefaultCapacity`, 256 MiB, and `kDefaultAlignment`.
abbrev pub default_capacity : ℕ
default_capacity = 268435456

abbrev pub default_alignment : ℕ
default_alignment = 256

pub record Block : Type 0 where
  pub offset : ℕ
  pub size : ℕ

abbrev pub block : ℕ → ℕ → Block
block off n = record { offset = off; size = n }

-- The members, in the order of the class.
pub record Arena : Type 0 where
  pub buffer : ℕ
  pub memory : ℕ
  pub host_base : ℕ
  pub device_address : ℕ
  pub uma : Bool
  pub pool_backed : Bool
  pub staging_buffer : ℕ
  pub staging_memory : ℕ
  pub xfer_pool : ℕ
  pub xfer_cmd : ℕ
  pub xfer_fence : ℕ
  pub capacity : ℕ
  pub bump : ℕ
  pub high_water : ℕ
  pub free_list : List Block
  pub live : Map Block

-- A default-constructed arena.
abbrev pub empty : Arena
empty = record {
  buffer = 0;
  memory = 0;
  host_base = 0;
  device_address = 0;
  uma = true;
  pool_backed = false;
  staging_buffer = 0;
  staging_memory = 0;
  xfer_pool = 0;
  xfer_cmd = 0;
  xfer_fence = 0;
  capacity = 0;
  bump = 0;
  high_water = 0;
  free_list = [];
  live = [];
}

-- The first-fit loop over `free_list_`: the offset it found, and the list that is left.
pub fit : ℕ → ℕ → List Block → Option (ℕ × List Block)
fit a need [] = none
fit a need (b ∷ bs) =
    let aligned_off = align_up b.offset a in
    let pad = sub64 aligned_off b.offset in
    let remainder = sub64 (sub64 b.size pad) need in
    if leb (add64 pad need) b.size
    then some
        (aligned_off, if ltb 0 remainder then block (add64 aligned_off need) remainder ∷ bs else bs)
    else elim (fit a need bs) [ none ↦ none | some (off, rest) ↦ some (off, b ∷ rest) ]

-- `live_[p] = {off, need}; return p`
pub hand_out : Arena → ℕ → ℕ → ℕ × Arena
hand_out r off need =
    (r.host_base + off, record r { live = insert (r.host_base + off) (block off need) r.live })

pub bump_allocate : Arena → ℕ → ℕ → ℕ × Arena
unfolding hand_out
bump_allocate r a need =
    let off = align_up r.bump a in
    if ltb r.capacity (add64 off need)
    then (0, r)
    else hand_out
        (record r { bump = add64 off need; high_water = max r.high_water (add64 off need) }) off
        need

-- `allocate` of an arena that is not pool-backed.
pub allocate_own : Arena → ℕ → ℕ → ℕ × Arena
unfolding hand_out bump_allocate
allocate_own r size align =
    let a = max align default_alignment in
    let need = align_up size a in
    elim (fit a need r.free_list) [
      | none ↦ bump_allocate r a need
      | some (off, rest) ↦ hand_out (record r { free_list = rest }) off need
    ]

pub allocate : {P : Type 0} → PoolOps P → P → Arena → ℕ → ℕ → ℕ × Arena × P
allocate ops pool r size align =
    if size == 0 || r.host_base == 0
    then (0, r, pool)
    else if r.pool_backed
    then (let (p, pool') = ops.alloc pool size (max align default_alignment) in (p, r, pool'))
    else (let (p, r') = allocate_own r size align in (p, r', pool))

-- `deallocate` of an arena that is not pool-backed; an unknown pointer is ignored.
pub deallocate_own : Arena → ℕ → Arena
deallocate_own r ptr = elim (find ptr r.live) [
  | none ↦ r
  | some b ↦ record r { free_list = r.free_list ++ (b ∷ []); live = erase ptr r.live }
]

pub deallocate : {P : Type 0} → PoolOps P → P → Arena → ℕ → Arena × P
deallocate ops pool r ptr =
    if ptr == 0
    then (r, pool)
    else if r.pool_backed
    then (r, ops.free pool ptr)
    else (deallocate_own r ptr, pool)

unfoldable pub contains : Arena → ℕ → Bool
contains r ptr =
    if r.host_base == 0 || ptr == 0
    then false
    else leb r.host_base ptr && ltb ptr (r.host_base + r.capacity)

pub offset_of : Arena → ℕ → ℕ
offset_of r ptr = sub64 ptr r.host_base
