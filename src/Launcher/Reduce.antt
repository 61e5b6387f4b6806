-- ===== src/Launcher/Reduce.antt =====
-- `launch_reduce` of src/kernel/kernel_launcher.cpp: the levels of a reduction, with two scratch
-- buffers in turn.
use parallax_runtime.Prelude.{
  ℕ, zero, suc, ◌/◌, ◌%◌, ◌^◌, Bool, true, false, not, ltb, ◌==◌, if◌then◌else◌, add64, mul64,
}
use parallax_runtime.Vulkan.{host_copy}
use parallax_runtime.Launcher.Device.{
  PipelineData, vk, host_clear, Env, M, ◌>>=◌, ◌>>◌, pure, stop, emit,
}
use parallax_runtime.Launcher.Steps.{
  workgroups, find_pipeline, require_arena, non_null, arena_span, invalidate, scoped,
  allocate_scratch, free_scratch, operand,
}
use parallax_runtime.Launcher.Dispatch.{dispatch_reduce_level}

-- The sizes of the two scratch buffers: `first_groups * elem_size` and
-- `((first_groups + 255) / 256 + 1) * elem_size`.
abbrev pub first_groups : ℕ → ℕ
first_groups count = add64 count 255 / 256

unfoldable pub scratch_size : ℕ → ℕ → Bool → ℕ
scratch_size count elem_size false = mul64 (first_groups count) elem_size
scratch_size count elem_size true = mul64 (add64 (add64 (first_groups count) 255 / 256) 1) elem_size

abbrev pub pick : ℕ → ℕ → Bool → ℕ
pick a b false = a
pick a b true = b

module _ {P : Type 0} (env : Env P) where
  -- One round of the loop, from `n` elements at `src` to one for each group at `dst`.
  unfoldable pub reduce_level : PipelineData → ℕ → ℕ → ℕ → ℕ → M P (Unit {0})
  reduce_level pd elem_size src dst n = do
    from ← operand env src (mul64 n elem_size)
    to ← arena_span dst (mul64 (workgroups n) elem_size)
    dispatch_reduce_level env pd from to (n % 2 ^ 32) (workgroups n)

  -- `while (n > 1)` over `src`, `n` and `toggle`, where the last element is left in the end.
  unfoldable pub reduce_loop : ℕ → PipelineData → ℕ → ℕ → ℕ → ℕ → ℕ → Bool → M P ℕ
  reduce_loop zero pd elem_size a b src n toggle = stop
  reduce_loop (suc fuel) pd elem_size a b src n toggle = elim (ltb 1 n) [
    | true ↦
        reduce_level pd elem_size src (pick a b toggle) n
        >> reduce_loop fuel pd elem_size a b (pick a b toggle) (workgroups n) (not toggle)
    | false ↦ pure src
  ]

  unfoldable pub reduce_many : PipelineData → ℕ → ℕ → ℕ → ℕ → M P Bool
  reduce_many pd ptr count elem_size result = do
    require_arena
    a ← allocate_scratch env (scratch_size count elem_size false)
    b ← allocate_scratch env (scratch_size count elem_size true)
    non_null a
    non_null b
    src ← reduce_loop (suc count) pd elem_size a b ptr count false
    invalidate
    emit (vk (host_copy result src elem_size))
    free_scratch env a
    free_scratch env b
    pure true

  unfoldable pub launch_reduce : ℕ → ℕ → ℕ → ℕ → ℕ → M P Bool
  launch_reduce name ptr count elem_size result = scoped false (do
    pd ← find_pipeline name
    if count == 0
        then (do emit (host_clear result elem_size); pure true)
        else if count == 1
        then (do emit (vk (host_copy result ptr elem_size)); pure true)
        else reduce_many pd ptr count elem_size result)
