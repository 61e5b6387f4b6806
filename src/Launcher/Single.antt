-- ===== src/Launcher/Single.antt =====
-- The launches of one kernel over the caller's buffers (src/kernel/kernel_launcher.cpp): `launch`,
-- `launch_transform` and `launch_with_captures`, which return without a wait for the kernel.
use parallax_runtime.Prelude.{
  ℕ, Bool, true, false, not, ◌&&◌, ◌||◌, Option, none, some, [], ◌∷◌, max, ltb, ◌==◌, if◌then◌else◌,
  mul64,
}
use parallax_runtime.Vulkan.{create, destroy, host_copy, mapping}
use parallax_runtime.Launcher.Device.{
  PipelineData, Span, span, storage, uniform_at_2, push_all, write_set, Env, M, ◌>>=◌, ◌>>◌, pure,
  stop, skip, emit,
}
use parallax_runtime.Launcher.Steps.{
  whole_size, workgroups, handle, cached_set, cache_set, find_pipeline, using_uniform, arena_holds,
  arena_span, bases, get_buffer, sync_before_kernel, scoped, register_external_buffer,
  take_descriptor_set, make_uniform, submit,
}

abbrev pub or_whole : ℕ → ℕ
or_whole n = if n == 0 then whole_size else n

module _ {P : Type 0} (env : Env P) where
  -- A pointer outside of the arena: its buffer in the table, registered first if `wanted`.
  unfoldable pub table_buffer : Bool → ℕ → ℕ → M P ℕ
  table_buffer wanted ptr size = do
    old ← get_buffer ptr
    if old == 0 && not (ptr == 0) && wanted then register_external_buffer env ptr size else skip
    get_buffer ptr

  unfoldable pub data_outside : Bool → ℕ → ℕ → M P Span
  data_outside wanted ptr range = do
    buf ← table_buffer wanted ptr range
    if buf == 0 then stop else skip
    sync_before_kernel ptr
    pure (span buf 0 range)

  unfoldable pub data_span : Bool → ℕ → ℕ → M P Span
  data_span wanted ptr range = do
    inside ← arena_holds ptr
    if inside then arena_span ptr range else data_outside wanted ptr range

  unfoldable pub use_or_take : Option ℕ → PipelineData → M P ℕ
  use_or_take none pd = take_descriptor_set env pd.descriptor_set_layout
  use_or_take (some set) pd = pure set

  unfoldable pub launch : ℕ → ℕ → ℕ → ℕ → M P Bool
  launch name ptr count elem_size = scoped false (do
    pd ← find_pipeline name
    operand ← data_span true ptr (mul64 count elem_size)
    hit ← cached_set (pd.descriptor_set_layout, ptr)
    set ← use_or_take hit pd
    dummy ← using_uniform (make_uniform env 64) (λ u. do
      emit (write_set set (storage 0 operand ∷ uniform_at_2 u.0 ∷ []))
      cache_set (pd.descriptor_set_layout, ptr) set)
    submit env pd set (bases count) (workgroups count)
    pure true)

  -- vkMapMemory, memcpy and vkUnmapMemory of the captured bytes.
  unfoldable pub copy_captures : ℕ → ℕ → ℕ → M P (Unit {0})
  copy_captures mem captures size s =
      let mapped = handle (env.makes s.events mapping) in
      let t = create mapping mem ∷ host_copy mapped captures size ∷ destroy mapping mem ∷ [] in
      (some tt, record s { events = push_all t s.events })

  abbrev pub has_captures : ℕ → ℕ → Bool
  has_captures captures size = not (captures == 0) && ltb 0 size

  -- The captured bytes, where there are any, to their uniform buffer.
  unfoldable pub fill_uniform : ℕ × ℕ → ℕ → ℕ → M P (Unit {0})
  fill_uniform u captures size =
      if has_captures captures size then copy_captures u.1 captures size else skip

  -- A fresh set of `launch_with_captures`, which enters the cache.
  unfoldable pub captures_set : PipelineData → ℕ → Span → ℕ → ℕ → M P ℕ
  captures_set pd ptr operand captures size = do
    set ← take_descriptor_set env pd.descriptor_set_layout
    dummy ← using_uniform (make_uniform env (max size 64)) (λ u. do
      fill_uniform u captures size
      emit (write_set set (storage 0 operand ∷ uniform_at_2 u.0 ∷ []))
      cache_set (pd.descriptor_set_layout, ptr) set)
    pure set

  unfoldable pub cached_or_captures : Option ℕ → PipelineData → ℕ → Span → ℕ → ℕ → M P ℕ
  cached_or_captures (some set) pd ptr operand captures size = pure set
  cached_or_captures none pd ptr operand captures size = captures_set pd ptr operand captures size

  unfoldable pub launch_with_captures : ℕ → ℕ → ℕ → ℕ → ℕ → ℕ → M P Bool
  launch_with_captures name ptr count captures size elem_size = scoped false (do
    pd ← find_pipeline name
    let range = mul64 count elem_size
    operand ← data_span (ltb 0 range) ptr range
    hit ← cached_set (pd.descriptor_set_layout, ptr)
    set ←
        cached_or_captures hit pd ptr (record operand { range = or_whole operand.range }) captures
          size
    submit env pd set (bases count) (workgroups count)
    pure true)

  -- An operand of `launch_transform`; a null buffer is found out later.
  unfoldable pub transform_span : ℕ → ℕ → M P Span
  transform_span ptr size = do
    inside ← arena_holds ptr
    if inside then arena_span ptr size else (do
      buf ← table_buffer true ptr size
      if ptr == 0 then skip else sync_before_kernel ptr
      pure (span buf 0 size))

  -- A fresh set of `launch_transform`; it enters the cache unless it binds captured bytes.
  unfoldable pub transform_set : PipelineData → ℕ → Span → Span → ℕ → ℕ → M P ℕ
  transform_set pd out_ptr src dst captures size = do
    set ← take_descriptor_set env pd.descriptor_set_layout
    dummy ← using_uniform (make_uniform env (max size 64)) (λ u. do
      fill_uniform u captures size
      emit (
          write_set set (
            storage 0 (record src { range = or_whole src.range })
            ∷ storage 1 (record dst { range = or_whole dst.range })
            ∷ uniform_at_2 u.0
            ∷ []))
      if has_captures captures size
          then skip
          else cache_set (pd.descriptor_set_layout, out_ptr) set)
    pure set

  unfoldable pub cached_or_transform : Option ℕ → PipelineData → ℕ → Span → Span → ℕ → ℕ → M P ℕ
  cached_or_transform none pd out_ptr src dst captures size =
      transform_set pd out_ptr src dst captures size
  cached_or_transform (some set) pd out_ptr src dst captures size =
      if has_captures captures size
      then transform_set pd out_ptr src dst captures size
      else pure set

  unfoldable pub launch_transform : ℕ → ℕ → ℕ → ℕ → ℕ → ℕ → ℕ → ℕ → M P Bool
  launch_transform name in_ptr out_ptr count elem_size out_elem_size captures size =
      scoped false (do
        pd ← find_pipeline name
        src ← transform_span in_ptr (mul64 count elem_size)
        dst ←
            transform_span out_ptr
              (mul64 count (if out_elem_size == 0 then elem_size else out_elem_size))
        if src.of_buffer == 0 || dst.of_buffer == 0 then stop else skip
        hit ← cached_set (pd.descriptor_set_layout, out_ptr)
        set ← cached_or_transform hit pd out_ptr src dst captures size
        submit env pd set (bases count) (workgroups count)
        pure true)
