-- ===== src/Launcher/Device.antt =====
-- What the kernel launcher (src/kernel/kernel_launcher.cpp) works on: its members, the events that it
-- causes, newest first, and the methods' monad. `none` is an early return that reports a failure.
use parallax_runtime.Prelude.{ℕ, Bool, true, Option, none, some, List, [], ◌∷◌, if◌then◌else◌, Map}
use parallax_runtime.Vulkan.{Kind, Command, Trace}
use parallax_runtime.Arena.{Arena}
use parallax_runtime.HeapPool.Interface.{PoolOps}
use parallax_runtime.MemoryManager.{Manager, Answers}
use parallax_runtime.Launcher.Push.{PushBlock}

-- `PipelineData`
pub record PipelineData : Type 0 where
  pub pipeline : ℕ
  pub layout : ℕ
  pub descriptor_set_layout : ℕ
  pub shader_module : ℕ

-- `KernelLauncher`; the kernels' names are numbers, a key of the cache is a layout and a pointer.
pub record KernelLauncher : Type 0 where
  pub pipelines : Map PipelineData
  pub descriptor_cache : List ((ℕ × ℕ) × ℕ)
  pub descriptor_pool : ℕ
  pub command_pool : ℕ
  pub command_buffer : ℕ
  pub fence : ℕ
  pub fence_signaled : Bool
  pub transient_buffers : List (ℕ × ℕ)

-- A part of a buffer, as a descriptor binds it.
pub record Span : Type 0 where
  pub of_buffer : ℕ
  pub offset : ℕ
  pub range : ℕ

abbrev pub span : ℕ → ℕ → ℕ → Span
span b off n = record { of_buffer = b; offset = off; range = n }

-- One entry of vkUpdateDescriptorSets: a storage buffer at a binding, or a whole uniform buffer at
-- binding 2.
pub data Binding : Type 0 where
  storage : ℕ → Span → Binding
  uniform_at_2 : ℕ → Binding

-- The bytes that vkCmdPushConstants is given.
pub data Push : Type 0 where
  push_bases : PushBlock → Push
  -- count, want_max, want_last
  push_extremum : ℕ → ℕ → ℕ → Push
  -- count, negate, value
  push_find : ℕ → ℕ → ℕ → Push
  push_count : ℕ → Push
  -- count, the initial value
  push_shift : ℕ → ℕ → Push
  -- count, k, j
  push_sort : ℕ → ℕ → ℕ → Push
  -- count, num_true
  push_scatter : ℕ → ℕ → Push

pub data Event : Type 0 where
  vk : Command → Event
  -- a uniform buffer with its memory: size, bytes and type of the request, buffer, memory
  uniform : ℕ → ℕ → ℕ → ℕ → ℕ → Event
  -- a descriptor set of a layout
  take_set : ℕ → ℕ → Event
  write_set : ℕ → List Binding → Event
  wait_fence : Event
  reset_fence : Event
  -- the command buffer, from its reset to its end: pipeline, layout, set, push constants, groups
  record_commands : ℕ → ℕ → ℕ → Push → ℕ → Event
  submitted : Event
  refused : Event
  -- memset of the host: address, byte count
  host_clear : ℕ → ℕ → Event
  -- a number that the host stores at an address
  host_store : ℕ → ℕ → Event

abbrev pub Events : Type 0
Events = List Event

-- Commands, oldest first, on top of the events.
abbrev pub push_all : Trace → Events → Events
push_all [] es = es
push_all (c ∷ t) es = push_all t (vk c ∷ es)

-- The pool's operations, what the driver answers after the events so far, and what the host reads
-- then: `n` bytes at an address as a number.
pub record Env (P : Type 0) : Type 0 where
  pub ops : PoolOps P
  pub types : List ℕ
  pub makes : Events → Kind → Option ℕ
  -- size and type bits of vkGetBufferMemoryRequirements
  pub requirements : ℕ → ℕ × ℕ
  pub answers : Events → Answers
  pub accepts : Events → Bool
  pub host_read : Events → ℕ → ℕ → ℕ

-- The launcher, and what its methods reach through `backend_`, `memory_manager_` and
-- get_global_arena; the device is 0 where it is torn down.
pub record Machine (P : Type 0) : Type 0 where
  pub launcher : KernelLauncher
  pub device : ℕ
  pub arena : Option Arena
  pub depth : ℕ
  pub pool : P
  pub manager : Manager
  pub events : Events

abbrev pub M : Type 0 → Type 0 → Type 0
M P A = Machine P → Option A × Machine P

infixl 5 ◌>>=◌ ◌>>◌
unfoldable pub ◌>>=◌ : {P A B : Type 0} → M P A → (A → M P B) → M P B
◌>>=◌ m f s = let (r, s') = m s in elim r [ none ↦ (none, s') | some a ↦ f a s' ]

unfoldable pub ◌>>◌ : {P B : Type 0} → M P (Unit {0}) → M P B → M P B
unfolding ◌>>=◌
m >> k = m >>= λ _. k

module _ {P : Type 0} where
  unfoldable pub pure : {A : Type 0} → A → M P A
  pure a s = (some a, s)

  -- An early return of `false`, or of `count` in the searches.
  unfoldable pub stop : {A : Type 0} → M P A
  stop s = (none, s)

  unfoldable pub skip : M P (Unit {0})
  skip s = (some tt, s)

  unfoldable pub gets : {A : Type 0} → (Machine P → A) → M P A
  gets f s = (some (f s), s)

  unfoldable pub or_stop : {A : Type 0} → Option A → M P A
  or_stop o s = (o, s)

  unfoldable pub emit : Event → M P (Unit {0})
  emit e s = (some tt, record s { events = e ∷ s.events })

  unfoldable pub change : (KernelLauncher → KernelLauncher) → M P (Unit {0})
  change f s = (some tt, record s { launcher = f s.launcher })

  -- `KernelLauncher::sync`
  unfoldable pub sync : M P (Unit {0})
  sync s = if s.launcher.fence_signaled then (some tt, s) else (
    some tt,
    record s {
      events = wait_fence ∷ s.events;
      launcher = record s.launcher { fence_signaled = true };
    },
  )
