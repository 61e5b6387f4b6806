-- ===== src/Arena/Migrate.antt =====
-- `copy_range`, `flush_to_device` and `invalidate_from_device` of src/memory/arena.cpp.
use parallax_runtime.Prelude.{
  ℕ, ◌+◌, ◌≤◌, ◌<◌, ◌≡◌, ◌≢◌, false, ◌||◌, some, [], ◌∷◌, ltb, ◌==◌, if◌then◌else◌, arith, All-find,
  find,
}
use parallax_runtime.Vulkan.{Trace, copy}
use parallax_runtime.Arena.{Arena, Block}
use parallax_runtime.Arena.Invariant.{IsValid, Entry}

unfoldable pub copy_range : Arena → ℕ → ℕ → ℕ → Trace
copy_range r src dst size = if size == 0 || r.xfer_cmd == 0 then [] else copy src dst size ∷ []

unfoldable pub flush_to_device : Arena → Trace
unfolding copy_range
flush_to_device r =
    if r.uma || r.high_water == 0 then [] else copy_range r r.staging_buffer r.buffer r.high_water

unfoldable pub invalidate_from_device : Arena → Trace
unfolding copy_range
invalidate_from_device r =
    if r.uma || r.high_water == 0 then [] else copy_range r r.buffer r.staging_buffer r.high_water

-- The bytes of each buffer of the device, and what a copy of a buffer's first bytes does.
abbrev pub Buffers : Type 0
Buffers = ℕ → ℕ → ℕ

pub run : Trace → Buffers → Buffers
run [] m = m
run (copy src dst size ∷ t) m =
    run t (λ b i. if b == dst then (if ltb i size then m src i else m dst i) else m b i)
run (_ ∷ t) m = run t m

-- A discrete arena: its two buffers differ, and its transfer objects were created.
pub record IsDiscrete (r : Arena) : Type 0 where
  pub staged : r.uma ≡ false
  pub command : r.xfer_cmd ≢ 0
  pub apart : r.staging_buffer ≢ r.buffer

module _ (r : Arena) (m : Buffers) (v : IsValid r) (d : IsDiscrete r) (p : ℕ) (b : Block)
    (e : find p r.live ≡ some b) (i : ℕ) (lo : b.offset ≤ i) (hi : i < b.offset + b.size) where
  used : i < r.high_water
  used = omega (arith, (All-find (Entry r.host_base r.bump) p b r.live e v.live_in).1, v.tail)

  -- After a flush the kernels see every byte that the host wrote to a live block, and the host's
  -- own bytes are as they were.
  pub flush_coherent :
      (run (flush_to_device r) m r.buffer i ≡ m r.staging_buffer i)
      × (run (flush_to_device r) m r.staging_buffer i ≡ m r.staging_buffer i)
  unfolding flush_to_device run
  flush_coherent = ground (arith, d.staged, d.command, d.apart, used)

  -- After an invalidation the host sees every byte that the kernels wrote to a live block.
  pub invalidate_coherent : run (invalidate_from_device r) m r.staging_buffer i ≡ m r.buffer i
  unfolding invalidate_from_device run
  invalidate_coherent = ground (arith, d.staged, d.command, d.apart, used)
