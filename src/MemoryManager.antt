-- ===== src/MemoryManager.antt =====
-- MemoryManager (include/parallax/unified_buffer.hpp, src/memory/unified_buffer.cpp): the table of
-- buffers by host pointer. Each call returns what it asks of the driver.
pub mod Sync
pub mod Accounts
pub mod Calls
pub mod Lifetime
pub mod Returns
pub mod Tests
use parallax_runtime.Prelude.{
  ℕ, ◌+◌, ◌≡◌, Bool, true, false, not, ◌&&◌, ◌||◌, Option, none, some, List, [], ◌∷◌, ◌++◌, map,
  ◌==◌, if◌then◌else◌, Map, find, insert, erase,
}
use parallax_runtime.Vulkan.{
  Command, Trace, create, destroy, bind, request_memory, flush_mapped, invalidate_mapped, host_copy,
  buffer, memory, mapping, command_pool, host_visible, host_coherent, find_memory_type,
}
use parallax_runtime.UnifiedBuffer.{
  UnifiedBuffer, DirtyBlock, needs_host_to_device, needs_device_to_host, clear_dirty,
  init_dirty_tracking, mark_all_dirty_on_device,
}

pub data SyncDirection : Type 0 where
  host_to_device device_to_host : SyncDirection

pub record Manager : Type 0 where
  pub command_pool_handle : ℕ
  pub buffers : Map UnifiedBuffer

-- The device's memory types and the driver's answers to one creation.
pub record Answers : Type 0 where
  pub types : List ℕ
  pub new_buffer : Option ℕ
  pub buffer_size : ℕ
  pub buffer_bits : ℕ
  pub new_memory : Option ℕ
  pub mapped : Option ℕ

-- The buffer, its memory and the mapped pointer.
unfoldable pub create_buffer : Answers → Option (ℕ × ℕ × ℕ) × Trace
create_buffer a = elim a.new_buffer [
  | none ↦ (none, [])
  | some b ↦
      let request =
        request_memory a.buffer_size
          (find_memory_type a.types a.buffer_bits (host_visible + host_coherent)) in
      elim a.new_memory [
        | none ↦ (none, create buffer b ∷ request ∷ destroy buffer b ∷ [])
        | some m ↦ elim a.mapped [
          | none ↦ (
            none,
            create buffer b
                ∷ request
                ∷ create memory m
                ∷ bind b m
                ∷ destroy memory m
                ∷ destroy buffer b
                ∷ [],
          )
          | some p ↦ (
            some (b, m, p),
            create buffer b ∷ request ∷ create memory m ∷ bind b m ∷ create mapping m ∷ [],
          )
        ]
      ]
]

-- A mapped buffer with its tracking.
pub tracked : ℕ → ℕ → ℕ → ℕ → UnifiedBuffer
tracked p b m size = init_dirty_tracking (record {
  host_ptr = p;
  buffer = b;
  memory = m;
  size = size;
  is_mapped = true;
  blocks = [];
  num_blocks = 0;
})

pub allocate : Answers → Manager → ℕ → ℕ × Manager × Trace
unfolding create_buffer tracked
allocate a mm size =
    let (made, t) = create_buffer a in
    elim made [
      | none ↦ (0, mm, t)
      | some (b, m, p) ↦ (p, record mm { buffers = insert p (tracked p b m size) mm.buffers }, t)
    ]

-- What is asked of the driver to give a buffer back.
pub release : UnifiedBuffer → Trace
release u =
    (if u.is_mapped then destroy mapping u.memory ∷ [] else [])
    ++ destroy buffer u.buffer ∷ destroy memory u.memory ∷ []

pub deallocate : Manager → ℕ → Manager × Trace
unfolding release
deallocate mm ptr = elim (find ptr mm.buffers) [
  | none ↦ (mm, [])
  | some u ↦ (record mm { buffers = erase ptr mm.buffers }, release u)
]

pub sync : Manager → ℕ → SyncDirection → Trace
sync mm ptr direction = elim (find ptr mm.buffers) [
  | none ↦ []
  | some u ↦ elim direction [
    | host_to_device ↦ flush_mapped u.memory ∷ []
    | device_to_host ↦ invalidate_mapped u.memory ∷ []
  ]
]

pub any : (DirtyBlock → Bool) → List DirtyBlock → Bool
any p [] = false
any p (b ∷ bs) = p b || any p bs

-- The dirty flags of the blocks that pass are cleared.
pub clear_where : (DirtyBlock → Bool) → List DirtyBlock → List DirtyBlock
clear_where p bs = map (λ b. if p b then clear_dirty b else b) bs

-- `transfer_dirty_blocks` in one direction: `command` is asked for once if any block needs it.
unfoldable pub transfer : (DirtyBlock → Bool) → Command → UnifiedBuffer → UnifiedBuffer × Trace
unfolding any clear_where
transfer needs command u =
    if any needs u.blocks
    then (record u { blocks = clear_where needs u.blocks }, command ∷ [])
    else (u, [])

unfoldable pub transfer_dirty_blocks : UnifiedBuffer → SyncDirection → UnifiedBuffer × Trace
unfolding transfer
transfer_dirty_blocks u host_to_device = transfer needs_host_to_device (flush_mapped u.memory) u
transfer_dirty_blocks u device_to_host =
    transfer needs_device_to_host (invalidate_mapped u.memory) u

unfoldable pub sync_before_kernel : Manager → ℕ → Manager × Trace
unfolding transfer_dirty_blocks
sync_before_kernel mm ptr = elim (find ptr mm.buffers) [
  | none ↦ (mm, [])
  | some u ↦
      let (u', t) = transfer_dirty_blocks u host_to_device in
      (record mm { buffers = insert ptr u' mm.buffers }, t)
]

pub sync_after_kernel : Manager → ℕ → Manager
sync_after_kernel mm ptr = elim (find ptr mm.buffers) [
  | none ↦ mm
  | some u ↦ record mm { buffers = insert ptr (mark_all_dirty_on_device u) mm.buffers }
]

pub get_buffer : Manager → ℕ → ℕ
get_buffer mm ptr = elim (find ptr mm.buffers) [ none ↦ 0 | some u ↦ u.buffer ]

unfoldable pub register_external_buffer : Answers → Manager → ℕ → ℕ → Bool × Manager × Trace
unfolding create_buffer tracked
register_external_buffer a mm host_ptr size =
    if host_ptr == 0 || size == 0 then (false, mm, []) else elim (find host_ptr mm.buffers) [
      | some u ↦ (true, mm, [])
      | none ↦
          (let (made, t) = create_buffer a in
            elim made [
              | none ↦ (false, mm, t)
              | some (b, m, p) ↦ (
                true,
                record mm { buffers = insert host_ptr (tracked host_ptr b m size) mm.buffers },
                t ++ host_copy p host_ptr size ∷ [],
              )
            ])
    ]

-- The destructor leaves a null buffer handle alone.
pub destructor_release : UnifiedBuffer → Trace
destructor_release u =
    (if u.is_mapped then destroy mapping u.memory ∷ [] else [])
    ++ (if u.buffer == 0 then [] else destroy buffer u.buffer ∷ [])
    ++ destroy memory u.memory ∷ []

-- The loop of the destructor over the table.
pub release_all : Map UnifiedBuffer → Trace
unfolding destructor_release
release_all [] = []
release_all ((p, u) ∷ m) = (if u.memory == 0 then [] else destructor_release u) ++ release_all m

pub destructor : Manager → Trace
unfolding release_all
destructor mm =
    release_all mm.buffers
    ++ (if mm.command_pool_handle == 0
        then []
        else destroy command_pool mm.command_pool_handle ∷ [])

-- `MemoryManager(backend)`: the command pool that the driver answers with, null if it fails.
pub construct : ℕ → Manager × Trace
construct pool = (
  record { command_pool_handle = pool; buffers = [] },
  if pool == 0 then [] else create command_pool pool ∷ [],
)
