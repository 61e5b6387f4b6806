-- ===== src/Launcher/Steps.antt =====
-- The steps that the launches of src/kernel/kernel_launcher.cpp share: descriptor sets, uniform
-- buffers, the arena and the table of buffers, and the submission of one dispatch.
use parallax_runtime.Prelude.{
  ℕ, ◌+◌, ◌/◌, ◌%◌, ◌^◌, Bool, false, not, ◌&&◌, Option, none, some, List, [], ◌∷◌, ◌++◌, ◌==◌,
  if◌then◌else◌, add64, find,
}
use parallax_runtime.Vulkan.{Kind, host_visible, host_coherent, find_memory_type}
use parallax_runtime.Arena as Arena
use parallax_runtime.MemoryManager as MemoryManager
use parallax_runtime.Launcher.{enter, leave}
use parallax_runtime.Launcher.Push.{make_push_block}
use parallax_runtime.Launcher.Device.{
  PipelineData, Span, span, Push, push_bases, uniform, take_set, reset_fence, record_commands,
  submitted, refused, push_all, Env, Machine, M, ◌>>=◌, ◌>>◌, pure, stop, skip, gets, or_stop, emit,
  change, sync,
}

-- VK_WHOLE_SIZE
abbrev pub whole_size : ℕ
whole_size = 18446744073709551615

-- `(count + 255) / 256` as a `uint32_t`
unfoldable pub workgroups : ℕ → ℕ
workgroups count = add64 count 255 / 256 % 2 ^ 32

abbrev pub handle : Option ℕ → ℕ
handle none = 0
handle (some h) = h

-- The cache of descriptor sets, an `unordered_map` by layout and pointer.
unfoldable pub find_set : ℕ × ℕ → List ((ℕ × ℕ) × ℕ) → Option ℕ
find_set key [] = none
find_set key ((k, v) ∷ m) = if k.0 == key.0 && k.1 == key.1 then some v else find_set key m

unfoldable pub insert_set : ℕ × ℕ → ℕ → List ((ℕ × ℕ) × ℕ) → List ((ℕ × ℕ) × ℕ)
insert_set key v [] = (key, v) ∷ []
insert_set key v ((k, w) ∷ m) =
    if k.0 == key.0 && k.1 == key.1 then (key, v) ∷ m else (k, w) ∷ insert_set key v m

module _ {P : Type 0} where
  unfoldable pub cached_set : ℕ × ℕ → M P (Option ℕ)
  cached_set key = gets (λ s. find_set key s.launcher.descriptor_cache)

  unfoldable pub cache_set : ℕ × ℕ → ℕ → M P (Unit {0})
  cache_set key set =
      change λ l. record l { descriptor_cache = insert_set key set l.descriptor_cache }

  -- `pipelines_.find`, with the return where the kernel is not there.
  unfoldable pub find_pipeline : ℕ → M P PipelineData
  find_pipeline name = do found ← gets (λ s. find name s.launcher.pipelines); or_stop found

  -- `transient_buffers_.emplace_back`
  unfoldable pub keep_uniform : ℕ × ℕ → M P (Unit {0})
  keep_uniform u = change λ l. record l { transient_buffers = l.transient_buffers ++ u ∷ [] }

  -- After vkQueueSubmit, and where it fails.
  unfoldable pub finish_submit : M P (Unit {0})
  finish_submit = do emit submitted; change λ l. record l { fence_signaled = false }

  unfoldable pub refuse_submit : M P (Unit {0})
  refuse_submit = do emit refused; stop

  -- `if (!launch…) return false`
  unfoldable pub require : M P Bool → M P (Unit {0})
  require m = do done ← m; if done then skip else stop

  -- A method's use of a uniform buffer until `transient_buffers_` keeps it.
  unfoldable pub using_uniform : M P (ℕ × ℕ) → (ℕ × ℕ → M P (Unit {0})) → M P (ℕ × ℕ)
  using_uniform make use_it = do u ← make; use_it u; keep_uniform u; pure u

  -- The return where get_global_arena gives no valid arena.
  unfoldable pub require_arena : M P (Unit {0})
  require_arena = do
    arena ← gets (λ s. s.arena)
    r ← or_stop arena
    if r.host_base == 0 then stop else skip

  unfoldable pub non_null : ℕ → M P (Unit {0})
  non_null ptr = if ptr == 0 then stop else skip

  -- `arena && ptr && arena->contains(ptr)`
  unfoldable pub arena_holds : ℕ → M P Bool
  arena_holds ptr =
      gets (λ s. elim s.arena [ none ↦ false | some r ↦ not (ptr == 0) && Arena.contains r ptr ])

  -- A binding of the arena's buffer at the pointer's offset.
  unfoldable pub arena_span : ℕ → ℕ → M P Span
  arena_span ptr range = gets (λ s. elim s.arena [
    | none ↦ span 0 0 range
    | some r ↦ span r.buffer (Arena.offset_of r ptr) range
  ])

  -- `arena->invalidate_from_device()`
  unfoldable pub invalidate : M P (Unit {0})
  invalidate s = (
    some tt,
    elim s.arena [
      | none ↦ s
      | some r ↦ record s { events = push_all (Arena.Migrate.invalidate_from_device r) s.events }
    ],
  )

  -- The push constants of most kernels: the count with the bases of the arena.
  unfoldable pub bases : ℕ → Machine P → Push
  bases count s = push_bases (make_push_block s.arena count)

  unfoldable pub get_buffer : ℕ → M P ℕ
  get_buffer ptr = gets (λ s. MemoryManager.get_buffer s.manager ptr)

  unfoldable pub sync_before_kernel : ℕ → M P (Unit {0})
  sync_before_kernel ptr s =
      let (manager, t) = MemoryManager.sync_before_kernel s.manager ptr in
      (some tt, record s { manager = manager; events = push_all t s.events })

  unfoldable pub sync_after_kernel : ℕ → M P (Unit {0})
  sync_after_kernel ptr s =
      (some tt, record s { manager = MemoryManager.sync_after_kernel s.manager ptr })

  -- `ArenaSyncScope` around a method's body; an early return gives `failed`.
  unfoldable pub scoped : {A : Type 0} → A → M P A → M P A
  scoped failed body s =
      let (held, depth1, t1) = enter s.arena s.depth in
      let (r, s1) = body (record s { depth = depth1; events = push_all t1 s.events }) in
      let (depth2, t2) = leave held s1.arena s1.depth in
      (
        elim r [ none ↦ some failed | some a ↦ some a ],
        record s1 { depth = depth2; events = push_all t2 s1.events },
      )

module _ {P : Type 0} (env : Env P) where
  unfoldable pub register_external_buffer : ℕ → ℕ → M P (Unit {0})
  register_external_buffer ptr size s =
      let (_, manager, t) =
        MemoryManager.register_external_buffer (env.answers s.events) s.manager ptr size in
      (some tt, record s { manager = manager; events = push_all t s.events })

  unfoldable pub scratch_in : Option Arena.Arena → ℕ → M P ℕ
  scratch_in none size s = (none, s)
  scratch_in (some r) size s =
      let (ptr, r', pool') = Arena.allocate env.ops s.pool r size 256 in
      (some ptr, record s { arena = some r'; pool = pool' })

  -- `arena->allocate(size, 256)` and `arena->deallocate(ptr)`
  unfoldable pub allocate_scratch : ℕ → M P ℕ
  allocate_scratch size s = scratch_in s.arena size s

  unfoldable pub free_in : Option Arena.Arena → ℕ → M P (Unit {0})
  free_in none ptr s = (some tt, s)
  free_in (some r) ptr s =
      let (r', pool') = Arena.deallocate env.ops s.pool r ptr in
      (some tt, record s { arena = some r'; pool = pool' })

  unfoldable pub free_scratch : ℕ → M P (Unit {0})
  free_scratch ptr s = free_in s.arena ptr s

  -- vkAllocateDescriptorSets for one set of the layout.
  unfoldable pub take_descriptor_set : ℕ → M P ℕ
  take_descriptor_set layout = do
    made ← gets (λ s. env.makes s.events Kind.descriptor_set)
    set ← or_stop made
    emit (take_set layout set)
    pure set

  -- A uniform buffer with host-visible memory bound to it; failures of the driver are ignored, and
  -- leave null handles.
  unfoldable pub make_uniform : ℕ → M P (ℕ × ℕ)
  make_uniform size = do
    b ← gets (λ s. handle (env.makes s.events Kind.buffer))
    let needs = env.requirements b
    m ← gets (λ s. handle (env.makes s.events Kind.memory))
    emit (
        uniform size needs.0 (find_memory_type env.types needs.1 (host_visible + host_coherent)) b
          m)
    pure (b, m)

  -- The wait for the operation before, the recording of one dispatch, and its submission.
  unfoldable pub submit : PipelineData → ℕ → (Machine P → Push) → ℕ → M P (Unit {0})
  submit pd set push groups = do
    sync
    emit reset_fence
    constants ← gets push
    emit (record_commands pd.pipeline pd.layout set constants groups)
    accepted ← gets (λ s. env.accepts s.events)
    if accepted then finish_submit else refuse_submit

  -- A buffer of the table for a pointer outside of the arena, registered where it is not there yet,
  -- and bound as a whole.
  unfoldable pub external_span : ℕ → ℕ → M P Span
  external_span ptr size = do
    old ← get_buffer ptr
    if old == 0 then register_external_buffer ptr size else skip
    reg ← get_buffer ptr
    if reg == 0 then stop else skip
    sync_before_kernel ptr
    pure (span reg 0 whole_size)

  -- The binding of a method's operand of `range` bytes.
  unfoldable pub operand : ℕ → ℕ → M P Span
  operand ptr range = do
    inside ← arena_holds ptr
    if inside then arena_span ptr range else external_span ptr range
