-- ===== src/Launcher/Scan.antt =====
-- The prefix sums of src/kernel/kernel_launcher.cpp: `launch_scan` and `launch_exclusive_scan`.
use parallax_runtime.Prelude.{
  ℕ, zero, suc, ◌%◌, ◌^◌, Bool, true, false, ltb, leb, ◌==◌, if◌then◌else◌, mul64,
}
use parallax_runtime.Launcher.Device.{PipelineData, Span, Env, M, ◌>>=◌, ◌>>◌, pure, stop, skip}
use parallax_runtime.Launcher.Steps.{
  workgroups, find_pipeline, require, require_arena, non_null, arena_holds, arena_span,
  sync_after_kernel, scoped, allocate_scratch, free_scratch, operand,
}
use parallax_runtime.Launcher.Dispatch.{dispatch_reduce_level, dispatch_exclusive_shift}

module _ {P : Type 0} (env : Env P) where
  -- Passes 2 and 3: `again` scans the sums of the blocks, which are then added to the data.
  unfoldable pub add_offsets : PipelineData → Span → Span → ℕ → M P Bool → M P (Unit {0})
  add_offsets pd range sums count again =
      if ltb 1 (workgroups count)
      then (do
        require again
        dispatch_reduce_level env pd range sums (count % 2 ^ 32) (workgroups count))
      else skip

  -- Two elements or more; `again` is given the sums.
  unfoldable pub scan_many : PipelineData → PipelineData → ℕ → ℕ → ℕ → (ℕ → M P Bool) → M P Bool
  scan_many scan_pd add_pd ptr count elem_size again = do
    require_arena
    inside ← arena_holds ptr
    range ← operand env ptr (mul64 count elem_size)
    block_sums ← allocate_scratch env (mul64 (workgroups count) elem_size)
    non_null block_sums
    sums ← arena_span block_sums (mul64 (workgroups count) elem_size)
    dispatch_reduce_level env scan_pd range sums (count % 2 ^ 32) (workgroups count)
    add_offsets add_pd range sums count (again block_sums)
    if inside then skip else sync_after_kernel ptr
    free_scratch env block_sums
    pure true

  unfoldable pub scan_step : ℕ → ℕ → ℕ → ℕ → ℕ → (ℕ → M P Bool) → M P Bool
  scan_step scan_kernel add_kernel ptr count elem_size again = scoped false (do
    scan_pd ← find_pipeline scan_kernel
    add_pd ← find_pipeline add_kernel
    if leb count 1 then pure true else scan_many scan_pd add_pd ptr count elem_size again)

  -- The recursion, on fuel.
  unfoldable pub scan_levels : ℕ → ℕ → ℕ → ℕ → ℕ → ℕ → M P Bool
  scan_levels zero scan_kernel add_kernel ptr count elem_size = stop
  scan_levels (suc fuel) scan_kernel add_kernel ptr count elem_size =
      scan_step scan_kernel add_kernel ptr count elem_size
        (λ sums. scan_levels fuel scan_kernel add_kernel sums (workgroups count) elem_size)

  unfoldable pub launch_scan : ℕ → ℕ → ℕ → ℕ → ℕ → M P Bool
  launch_scan scan_kernel add_kernel ptr count elem_size =
      scan_levels (suc count) scan_kernel add_kernel ptr count elem_size

  unfoldable pub exclusive_many : ℕ → ℕ → PipelineData → ℕ → ℕ → ℕ → ℕ → ℕ → M P Bool
  exclusive_many scan_kernel add_kernel pd input output count elem_size init = do
    require_arena
    if ltb 1 count then require (launch_scan scan_kernel add_kernel input count elem_size) else skip
    src ← operand env input (mul64 count elem_size)
    dst ← operand env output (mul64 count elem_size)
    dispatch_exclusive_shift env pd src dst (count % 2 ^ 32) init elem_size (workgroups count)
    inside ← arena_holds output
    if inside then skip else sync_after_kernel output
    pure true

  unfoldable pub launch_exclusive_scan : ℕ → ℕ → ℕ → ℕ → ℕ → ℕ → ℕ → ℕ → M P Bool
  launch_exclusive_scan scan_kernel add_kernel shift_kernel input output count elem_size init =
      scoped false (do
        pd ← find_pipeline shift_kernel
        if count == 0
            then pure true
            else exclusive_many scan_kernel add_kernel pd input output count elem_size init)
