-- ===== src/Launcher/Compact.antt =====
-- `launch_compact` of src/kernel/kernel_launcher.cpp: flags, their prefix sums, and the scatter of the
-- elements that are kept.
use parallax_runtime.Prelude.{
  ℕ, ◌+◌, ◌-◌, ◌*◌, ◌%◌, ◌^◌, Bool, true, false, Option, none, some, leb, ◌==◌, if◌then◌else◌,
  mul64,
}
use parallax_runtime.Launcher.Device.{
  PipelineData, Span, span, Events, host_store, Env, M, ◌>>=◌, ◌>>◌, pure, skip, gets, emit,
}
use parallax_runtime.Launcher.Steps.{
  whole_size, workgroups, find_pipeline, require, require_arena, non_null, arena_holds, arena_span,
  invalidate, get_buffer, sync_after_kernel, scoped, register_external_buffer, allocate_scratch,
  free_scratch, operand,
}
use parallax_runtime.Launcher.Dispatch.{dispatch_reduce_level, dispatch_scatter}
use parallax_runtime.Launcher.Scan.{launch_scan}

-- `read_kept` is what the host reads as a number from the last element: whether it is a float,
-- whether it has 8 bytes, its address.
module _ {P : Type 0} (env : Env P) (read_kept : Events → Bool → Bool → ℕ → ℕ) where
  -- After a failure the scratch is given back before the return.
  unfoldable pub give_back : {A : Type 0} → ℕ → Option A → M P A
  give_back ptr none s = (none, (free_scratch env ptr s).1)
  give_back ptr (some a) s = (some a, s)

  unfoldable pub or_free : {A : Type 0} → ℕ → M P A → M P A
  or_free ptr m s = let (r, s1) = m s in give_back ptr r s1

  -- The output, which is not uploaded.
  unfoldable pub output_span : ℕ → ℕ → M P Span
  output_span ptr range = do
    inside ← arena_holds ptr
    if inside then arena_span ptr range else (do
      old ← get_buffer ptr
      if old == 0 then register_external_buffer env ptr range else skip
      reg ← get_buffer ptr
      non_null reg
      pure (span reg 0 whole_size))

  -- `if (out_kept) *out_kept = v`
  unfoldable pub store_kept : ℕ → ℕ → M P (Unit {0})
  store_kept out_kept v = if out_kept == 0 then skip else emit (host_store out_kept v)

  -- Steps 1 to 4, over the scratch `positions`.
  unfoldable pub compact_steps :
      ℕ → ℕ → PipelineData → PipelineData → Span → Span → ℕ → ℕ → ℕ → Bool → ℕ → M P (Unit {0})
  compact_steps scan_kernel add_kernel flags_pd scatter_pd src dst positions count elem_size
        is_float out_kept =
      do
        at ← arena_span positions (mul64 count elem_size)
        dispatch_reduce_level env flags_pd src at (count % 2 ^ 32) (workgroups count)
        require (launch_scan env scan_kernel add_kernel positions count elem_size)
        invalidate
        kept ← gets (λ s.
            read_kept s.events is_float (leb 8 elem_size) (positions + (count - 1) * elem_size))
        store_kept out_kept kept
        dispatch_scatter env scatter_pd src dst at (count % 2 ^ 32) (workgroups count)
            (kept % 2 ^ 32)

  unfoldable pub compact_many :
      ℕ → ℕ → PipelineData → PipelineData → ℕ → ℕ → ℕ → ℕ → Bool → ℕ → M P Bool
  compact_many scan_kernel add_kernel flags_pd scatter_pd input output count elem_size is_float
        out_kept =
      do
        require_arena
        inside ← arena_holds output
        src ← operand env input (mul64 count elem_size)
        dst ← output_span output (mul64 count elem_size)
        positions ← allocate_scratch env (mul64 count elem_size)
        non_null positions
        or_free positions (
            compact_steps scan_kernel add_kernel flags_pd scatter_pd src dst positions count
              elem_size is_float out_kept)
        if inside then skip else sync_after_kernel output
        free_scratch env positions
        pure true

  unfoldable pub launch_compact : ℕ → ℕ → ℕ → ℕ → ℕ → ℕ → ℕ → ℕ → Bool → ℕ → M P Bool
  launch_compact flags_kernel scan_kernel add_kernel scatter_kernel input output count elem_size
        is_float out_kept =
      scoped false (do
        flags_pd ← find_pipeline flags_kernel
        scatter_pd ← find_pipeline scatter_kernel
        store_kept out_kept 0
        if count == 0
            then pure true
            else compact_many scan_kernel add_kernel flags_pd scatter_pd input output count
                elem_size is_float out_kept)
