-- ===== src/Launcher/Scratch.antt =====
-- The scratch buffers of `launch_reduce` (src/kernel/kernel_launcher.cpp).
use parallax_runtime.Prelude.{
  ℕ, ◌+◌, ◌*◌, ◌^◌, ◌≤◌, ◌<◌, zero, suc, Bool, true, false, not, if◌then◌else◌, ltb, leb,
}
use parallax_runtime.Vulkan.{host_copy}
use parallax_runtime.Launcher.Device.{PipelineData, vk, Env, M, ◌>>=◌, ◌>>◌, pure, stop, emit}
use parallax_runtime.Launcher.Steps.{
  workgroups, require_arena, non_null, invalidate, allocate_scratch, free_scratch,
}
use parallax_runtime.Launcher.Reduce.{first_groups, scratch_size, reduce_level}

-- No size of the source's arithmetic overflows.
abbrev pub Fits : ℕ → ℕ → Type 0
Fits count elem_size = (count + 255 < 2 ^ 64) × ((first_groups count + 1) * elem_size < 2 ^ 64)

abbrev Small : ℕ → ℕ → Bool → Type 0
Small count n false = n ≤ count
Small count n true = n ≤ first_groups count

module _ {P : Type 0} (env : Env P) where
  -- The loop over scratch buffers that are kept with their byte counts, where a round that would write
  -- past the end of its buffer stops the method.
  abbrev checked_loop : ℕ → PipelineData → ℕ → ℕ × ℕ → ℕ × ℕ → ℕ → ℕ → Bool → M P ℕ
  checked_loop zero pd elem_size a b src n toggle = stop
  checked_loop (suc fuel) pd elem_size a b src n toggle =
      let dst = if toggle then b else a in
      elim (ltb 1 n) [
        | true ↦ elim (leb (workgroups n * elem_size) dst.1) [
          | true ↦
              reduce_level env pd elem_size src dst.0 n
              >> checked_loop fuel pd elem_size a b dst.0 (workgroups n) (not toggle)
          | false ↦ stop
        ]
        | false ↦ pure src
      ]

  -- The reduction with the checked loop.
  abbrev pub checked_reduce : PipelineData → ℕ → ℕ → ℕ → ℕ → M P Bool
  checked_reduce pd ptr count elem_size result = do
    require_arena
    a ← allocate_scratch env (scratch_size count elem_size false)
    b ← allocate_scratch env (scratch_size count elem_size true)
    non_null a
    non_null b
    src ←
        checked_loop (suc count) pd elem_size (a, scratch_size count elem_size false)
          (b, scratch_size count elem_size true) ptr count false
    invalidate
    emit (vk (host_copy result src elem_size))
    free_scratch env a
    free_scratch env b
    pure true
