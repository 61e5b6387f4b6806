-- ===== src/Stdpar/Maps.antt =====
-- The funnels of include/parallax/stdpar.hpp that map a range: `device_invoke` and
-- `device_transform`. The kernel is what `parallax_kernel_lookup` found for the funnel.
pub mod Equal
pub mod Leaks
use parallax_runtime.Prelude.{
  ℕ, zero, suc, ◌+◌, ◌==◌, Bool, ◌&&◌, ◌||◌, Option, none, some, if◌then◌else◌,
}
use parallax_runtime.Stdpar.{
  Memory, update, World, memcpy, Entries, Element, Functor, stage, unstage,
}

module _ {S V : Type 0} (es : Entries S V) (f : Functor V V) where
  -- `for (i = 0; i < n; ++i) f(data[i])`
  unfoldable pub host_each : ℕ → Memory V → ℕ → ℕ → Memory V
  host_each size m elems zero = m
  host_each size m elems (suc n) =
      host_each size (update m elems (f.apply (m elems))) (elems + size) n

  -- The launch, of a functor without captures or with.
  unfoldable pub launch_each : ℕ → Element → World S V → ℕ → ℕ → World S V
  launch_each k t w p n =
      if f.is_empty
      then es.launch w k p n t.size
      else es.launch_with_captures w k p n f.address f.bytes t.size

  unfoldable pub each_on_host : Element → World S V → ℕ → ℕ → World S V
  unfolding host_each
  each_on_host t w elems n = record w { memory = host_each t.size w.memory elems n }

  -- The staging path, with the staging buffer `ab`.
  unfoldable pub each_staged : ℕ → Element → World S V → ℕ → ℕ → ℕ → World S V
  unfolding each_on_host launch_each memcpy unstage
  each_staged k t w elems n ab =
      if ab == 0
      then each_on_host t w elems n
      else (let w1 = memcpy w ab elems t.size n in
          let w2 = launch_each k t w1 ab n in
          let w3 = memcpy w2 elems ab t.size n in unstage es w3 ab)

  unfoldable pub device_invoke : Option ℕ → Element → World S V → ℕ → ℕ → World S V
  unfolding each_on_host
  device_invoke none t w elems n = each_on_host t w elems n
  device_invoke (some k) t w elems n =
      if es.arena_contains w.runtime elems
      then launch_each k t w elems n
      else (let (ab, w') = stage es w t n in each_staged k t w' elems n ab)

  -- `for (i = 0; i < n; ++i) out[i] = f(in[i])`
  unfoldable pub host_map : ℕ → ℕ → Memory V → ℕ → ℕ → ℕ → Memory V
  host_map in_size out_size m input output zero = m
  host_map in_size out_size m input output (suc n) =
      host_map in_size out_size (update m output (f.apply (m input))) (input + in_size)
        (output + out_size) n

  -- `launch2`
  unfoldable pub launch2 : ℕ → Element → Element → World S V → ℕ → ℕ → ℕ → World S V
  launch2 k t u w ib ob n =
      if f.is_empty
      then es.launch_transform2 w k ib ob n t.size u.size
      else es.launch_transform2_captures w k ib ob n t.size u.size f.address f.bytes

  unfoldable pub map_on_host : Element → Element → World S V → ℕ → ℕ → ℕ → World S V
  unfolding host_map
  map_on_host t u w input output n = record w {
    memory = host_map t.size u.size w.memory input output n;
  }

  -- With the staging buffers `ai` and `ao`; where one of them is null the other is not given back.
  unfoldable pub map_staged : ℕ → Element → Element → World S V → ℕ → ℕ → ℕ → ℕ → ℕ → World S V
  unfolding map_on_host launch2 memcpy unstage
  map_staged k t u w input output n ai ao =
      if ai == 0 || ao == 0
      then map_on_host t u w input output n
      else (let w1 = memcpy w ai input t.size n in
          let w2 = launch2 k t u w1 ai ao n in
          let w3 = memcpy w2 output ao u.size n in unstage es (unstage es w3 ao) ai)

  unfoldable pub device_transform : Option ℕ → Element → Element → World S V → ℕ → ℕ → ℕ → World S V
  unfolding map_on_host
  device_transform none t u w input output n = map_on_host t u w input output n
  device_transform (some k) t u w input output n =
      if es.arena_contains w.runtime input && es.arena_contains w.runtime output
      then launch2 k t u w input output n
      else (let (ai, w1) = stage es w t n in
          let (ao, w2) = stage es w1 u n in map_staged k t u w2 input output n ai ao)
