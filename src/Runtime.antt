-- ===== src/Runtime.antt =====
-- The process-wide runtime (src/memory/unified_allocator.cpp): the backend, the buffer table and
-- the arena, which are built on first use, and the C entry points that allocate through them.
pub mod Laws
pub mod Returns
mod Tests
use parallax_runtime.Prelude.{
  ℕ, Bool, true, false, Option, none, some, [], ◌++◌, ◌==◌, if◌then◌else◌,
}
use parallax_runtime.Vulkan.{Trace}
use parallax_runtime.Backend.{
  Backend, fresh, cleanup, initialize as initialize_backend, Answers as BackendAnswers,
}
use parallax_runtime.MemoryManager.{
  Manager, construct, deallocate as deallocate_buffer, allocate as allocate_buffer,
  Answers as BufferAnswers,
}
use parallax_runtime.HeapPool.Interface.{PoolOps}
use parallax_runtime.Arena.{
  Arena, empty, default_capacity, contains, allocate as allocate_block,
  deallocate as deallocate_block,
}
use parallax_runtime.Arena.Setup.{destroy, initialize as initialize_arena, Answers as ArenaAnswers}
use parallax_runtime.Arena.Import.{initialize_from_pool, Answers as ImportAnswers}

-- The static variables of the file.
pub record Globals : Type 0 where
  pub backend : Option Backend
  pub memory_manager : Option Manager
  pub arena : Option Arena
  pub initialized : Bool
  pub initializing : Bool
  pub arena_initializing : Bool

-- What the environment answers while the runtime is built.
pub record World : Type 0 where
  pub for_backend : BackendAnswers
  -- the command pool of the buffer table, null if its creation fails
  pub new_pool : ℕ
  -- whether PARALLAX_FORCE_LEGACY_ARENA is set
  pub force_legacy : Bool
  pub for_import : ImportAnswers
  pub for_arena : ArenaAnswers

-- `ensure_initialized`: a backend that fails is destroyed.
pub ensure_initialized : World → Globals → Bool × Globals × Trace
ensure_initialized w g =
    if g.initialized
    then (true, g, [])
    else (if g.initializing
        then (false, g, [])
        else (let (ok, v, t) = initialize_backend w.for_backend fresh in
            if ok
            then (let (mm, s) = construct w.new_pool in
                (
                  true,
                  record g {
                    backend = some v;
                    memory_manager = some mm;
                    initialized = true;
                    initializing = false;
                  },
                  t ++ s,
                ))
            else (false, record g { backend = none; initializing = false }, t ++ (cleanup v).1)))

pub get_global_backend : World → Globals → Option Backend × Globals × Trace
unfolding ensure_initialized
get_global_backend w g = let (ok, g', t) = ensure_initialized w g in (g'.backend, g', t)

pub get_global_memory_manager : World → Globals → Option Manager × Globals × Trace
unfolding ensure_initialized
get_global_memory_manager w g =
    let (ok, g', t) = ensure_initialized w g in (g'.memory_manager, g', t)

-- What the arena's two setups read of the backend.
pub import_answers : World → Backend → ImportAnswers
import_answers w v = record (w.for_import) {
  device = v.device_handle;
  external_memory_host = v.capabilities.external_memory_host;
  buffer_device_address = v.capabilities.features.buffer_device_address;
  import_alignment = v.capabilities.min_imported_host_pointer_alignment;
}

pub arena_answers : World → Backend → ArenaAnswers
arena_answers w v = record (w.for_arena) {
  device = v.device_handle;
  buffer_device_address = v.capabilities.features.buffer_device_address;
}

-- The new arena: the pool's reservation is tried first unless it is ruled out. An arena that
-- fails both setups is destroyed.
pub build_arena : World → Backend → Option Arena × Trace
unfolding import_answers arena_answers
build_arena w v =
    let (ok, r, t) =
      if w.force_legacy
      then (false, empty, [])
      else initialize_from_pool (import_answers w v) empty in
    if ok
    then (some r, t)
    else (let (ok', r', t') = initialize_arena (arena_answers w v) r default_capacity in
        if ok' then (some r', t ++ t') else (none, t ++ t' ++ (destroy r').1))

-- What `get_global_arena` does with the result of `ensure_initialized`.
pub create_arena : World → Bool × Globals × Trace → Option Arena × Globals × Trace
unfolding build_arena
create_arena w (ok, g, t) =
    if ok
    then elim g.backend [
      | none ↦ (none, g, t)
      | some v ↦
          (let (made, s) = build_arena w v in
            (made, record g { arena = made; arena_initializing = false }, t ++ s))
    ]
    else (none, g, t)

pub get_global_arena : World → Globals → Option Arena × Globals × Trace
unfolding ensure_initialized create_arena
get_global_arena w g = elim g.arena [
  | some r ↦ (some r, g, [])
  | none ↦ if g.arena_initializing then (none, g, []) else create_arena w (ensure_initialized w g)
]

module _ {P : Type 0} (ops : PoolOps P) where
  -- `parallax_arena_alloc`
  pub arena_alloc : World → Globals → P → ℕ → ℕ → ℕ × Globals × P × Trace
  unfolding get_global_arena
  arena_alloc w g pool size align =
      let (arena, g', t) = get_global_arena w g in
      elim arena [
        | none ↦ (0, g', pool, t)
        | some r ↦
            let (p, r', pool') =
              allocate_block ops pool r size (if align == 0 then 16 else align) in
            (p, record g' { arena = some r' }, pool', t)
      ]

  -- `parallax_arena_free`
  pub arena_free : World → Globals → P → ℕ → Globals × P × Trace
  unfolding get_global_arena
  arena_free w g pool ptr =
      let (arena, g', t) = get_global_arena w g in
      elim arena [
        | none ↦ (g', pool, t)
        | some r ↦
            let (r', pool') = deallocate_block ops pool r ptr in
            (record g' { arena = some r' }, pool', t)
      ]

-- `parallax_arena_contains`
pub arena_contains : World → Globals → ℕ → Bool × Globals × Trace
unfolding get_global_arena
arena_contains w g ptr =
    let (arena, g', t) = get_global_arena w g in
    (elim arena [ none ↦ false | some r ↦ contains r ptr ], g', t)

-- std::malloc and std::free.
pub record SystemHeap (L : Type 0) : Type 0 where
  pub malloc : L → ℕ → ℕ × L
  pub free : L → ℕ → L

module _ {L : Type 0} (system : SystemHeap L) where
  -- What `parallax_umalloc` does with the result of `ensure_initialized`.
  pub serve : BufferAnswers → L → ℕ → Bool × Globals × Trace → ℕ × Globals × L × Trace
  serve a l size (ok, g, t) =
      let from_system : ℕ × Globals × L × Trace =
        (let (p, l') = system.malloc l size in (p, g, l', t)) in
      if ok
      then elim g.memory_manager [
        | none ↦ from_system
        | some mm ↦
            (let (p, mm', s) = allocate_buffer a mm size in
              (p, record g { memory_manager = some mm' }, l, t ++ s))
      ]
      else from_system

  -- `parallax_umalloc`
  pub umalloc : World → BufferAnswers → Globals → L → ℕ → ℕ × Globals × L × Trace
  unfolding ensure_initialized serve
  umalloc w a g l size = serve a l size (ensure_initialized w g)

  -- `parallax_ufree`
  pub ufree : Globals → L → ℕ → Globals × L × Trace
  ufree g l ptr = elim g.memory_manager [
    | none ↦ (g, system.free l ptr, [])
    | some mm ↦
        (let (mm', s) = deallocate_buffer mm ptr in (record g { memory_manager = some mm' }, l, s))
  ]
