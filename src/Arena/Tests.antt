-- ===== src/Arena/Tests.antt =====
-- Runs of the arena's allocator on small inputs, and instances of its theorems.
use parallax_runtime.Prelude.{◌≡◌, ◌≢◌, refl, false, [], ◌∷◌, arith, align_up, find}
use parallax_runtime.HeapPool.Interface.{PoolOps}
use parallax_runtime.Arena.{
  Arena, block, empty, fit, bump_allocate, allocate_own, allocate, deallocate, offset_of,
}
use parallax_runtime.Arena.Invariant.{IsValid, IsRequest}
use parallax_runtime.Arena.Grants.{IsGrant, allocate-IsValid, allocate-IsGrant}
use parallax_runtime.Arena.Release.{deallocate-IsValid}
use parallax_runtime.Arena.Exhausted.{allocate_null, allocate-deallocate}

-- No pool.
abbrev pub no_pool : PoolOps (Unit {0})
no_pool = record {
  alloc = λ s n a. (0, s);
  free = λ s p. s;
  realloc = λ s p n. (0, s);
  usable_size = λ s p. 0;
  contains = λ s p. false;
}

-- 4 KiB at address 4096: two blocks are in use, the one between them is free.
abbrev busy : Arena
busy = record empty {
  host_base = 4096;
  capacity = 4096;
  bump = 1024;
  high_water = 1024;
  free_list = block 256 256 ∷ [];
  live = (4096, block 0 256) ∷ (4608, block 512 512) ∷ [];
}

busy-IsValid : IsValid busy
busy-IsValid = record {
  own = refl;
  mapped = omega arith;
  addressable = omega arith;
  small = omega arith;
  tail = omega arith;
  mark = omega arith;
  free_in = omega arith;
  live_in = omega arith;
  free_apart = omega arith;
  live_apart = omega arith;
  cross = omega arith;
}

request : IsRequest 100 16
request = record {
  asked = omega arith;
  pow = record { exponent = 8; fits = omega arith; power = refl };
  fits = omega arith;
}

reuses_gap : (allocate no_pool tt busy 100 16).0 ≡ 4352
unfolding allocate allocate_own fit align_up
reuses_gap = refl

takes_tail : (allocate no_pool tt busy 300 16).0 ≡ 5120
unfolding allocate allocate_own fit align_up
takes_tail = refl

allocate-IsValid_example : IsValid (allocate no_pool tt busy 100 16).1
allocate-IsValid_example = allocate-IsValid no_pool tt busy 100 16 busy-IsValid request

allocate-IsGrant_example :
    IsGrant busy (allocate no_pool tt busy 100 16).1 (allocate no_pool tt busy 100 16).0 100 16
unfolding allocate allocate_own fit align_up
allocate-IsGrant_example =
    allocate-IsGrant no_pool tt busy 100 16 busy-IsValid request (omega arith)

deallocate-IsValid_example : IsValid (deallocate no_pool tt busy 4096).0
deallocate-IsValid_example = deallocate-IsValid no_pool tt busy 4096 busy-IsValid

-- 3072 bytes are all that is left.
too_large : IsRequest 3500 256
too_large = record {
  asked = omega arith;
  pow = record { exponent = 8; fits = omega arith; power = refl };
  fits = omega arith;
}

allocate_null_example : allocate no_pool tt busy 3500 256 ≡ (0, busy, tt)
unfolding allocate allocate_own fit align_up bump_allocate
allocate_null_example = (allocate_null no_pool tt busy 3500 256 busy-IsValid too_large refl).2

allocate-deallocate_example :
    let d = deallocate no_pool tt busy 4096 in (allocate no_pool d.1 d.0 100 16).0 ≢ 0
unfolding find align_up
allocate-deallocate_example =
    allocate-deallocate no_pool tt busy 100 16 4096 (block 0 256) busy-IsValid request refl
      (omega arith) (omega arith)

offsets : offset_of busy 4608 ≡ 512
unfolding offset_of
offsets = refl
