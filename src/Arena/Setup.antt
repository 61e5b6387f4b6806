-- ===== src/Arena/Setup.antt =====
-- `initialize` and `destroy` of src/memory/arena.cpp.
pub mod Accounts
pub mod Clean
pub mod Fresh
pub mod Tests
use parallax_runtime.Prelude.{
  ℕ, ◌+◌, ◌*◌, ◌%◌, ◌≡◌, Bool, true, false, not, ◌&&◌, ◌||◌, Option, none, some, List, [], ◌∷◌,
  ◌++◌, ltb, ◌==◌, if◌then◌else◌, mul64, align_up, bit_and,
}
use parallax_runtime.Vulkan.{
  Command, Trace, create, request_memory, destroy as destroy_object, bind, copy, buffer, memory,
  mapping, command_pool, fence, no_type, device_local, host_visible, host_coherent,
  find_memory_type,
}
use parallax_runtime.Arena.{Arena, empty, default_alignment}

-- A command for a handle that is not null.
abbrev pub close : ℕ → Command → Trace
close h c = if h == 0 then [] else c ∷ []

-- `if (!pool_backed_) vkUnmapMemory(dev, uma_ ? memory_ : staging_memory_)`
unmap : Arena → Trace
unmap r =
    if r.host_base == 0 || r.pool_backed
    then []
    else destroy_object mapping (if r.uma then r.memory else r.staging_memory) ∷ []

-- The device is not recorded: it is the same in every command.
unfoldable pub destroy : Arena → Arena × Trace
unfolding unmap
destroy r = (
  record empty { xfer_cmd = if r.xfer_pool == 0 then r.xfer_cmd else 0 },
  unmap r
      ++ close r.xfer_fence (destroy_object fence r.xfer_fence)
      ++ close r.xfer_pool (destroy_object command_pool r.xfer_pool)
      ++ close r.staging_buffer (destroy_object buffer r.staging_buffer)
      ++ close r.staging_memory (destroy_object memory r.staging_memory)
      ++ close r.buffer (destroy_object buffer r.buffer)
      ++ close r.memory (destroy_object memory r.memory),
)

-- What the environment and the driver answer to `initialize`. `none` is a call that fails.
pub record Answers : Type 0 where
  pub device : ℕ
  -- PARALLAX_ARENA_SIZE as strtoull reads it, and whether PARALLAX_FORCE_STAGING is set
  pub arena_megabytes : Option ℕ
  pub force_staging : Bool
  pub buffer_device_address : Bool
  pub types : List ℕ
  pub new_buffer : Option ℕ
  pub buffer_size : ℕ
  pub buffer_bits : ℕ
  pub new_memory : Option ℕ
  pub new_staging_buffer : Option ℕ
  pub staging_size : ℕ
  pub staging_bits : ℕ
  pub new_staging_memory : Option ℕ
  pub mapped : Option ℕ
  -- what is left in the handles by calls whose result is not checked
  pub new_pool : ℕ
  pub new_cmd : ℕ
  pub new_fence : ℕ
  pub address : ℕ

-- The size to ask for, before it is aligned.
pub arena_size : Option ℕ → ℕ → ℕ
arena_size none capacity = capacity
arena_size (some mb) capacity = if ltb 0 mb then mul64 (mul64 mb 1024) 1024 else capacity

-- `destroy(); return false;`
unfoldable pub fail : Arena → Trace → Bool × Arena × Trace
unfolding destroy
fail r t = let (r', closing) = destroy r in (false, r', t ++ closing)

-- The tail of `initialize`.
ready : Answers → Arena → Trace → Bool × Arena × Trace
ready a r t = (
  true,
  record r {
    device_address = if a.buffer_device_address then a.address else r.device_address;
    bump = 0;
    high_water = 0;
  },
  t,
)

uma_type : Answers → ℕ
uma_type a =
    if a.force_staging
    then no_type
    else find_memory_type a.types a.buffer_bits (device_local + host_visible + host_coherent)

-- The device-local memory is host-visible: it is mapped directly.
setup_uma : Answers → Arena → Trace → Bool × Arena × Trace
unfolding fail ready uma_type
setup_uma a r t = elim a.new_memory [
  | none ↦ fail (record r { uma = true }) (t ++ request_memory a.buffer_size (uma_type a) ∷ [])
  | some m ↦ elim a.mapped [
    | none ↦
        fail (record r { uma = true; memory = m })
          (t ++ request_memory a.buffer_size (uma_type a) ∷ create memory m ∷ bind r.buffer m ∷ [])
    | some p ↦
        ready a (record r { uma = true; memory = m; host_base = p })
          (t
            ++ request_memory a.buffer_size (uma_type a)
              ∷ create memory m
              ∷ bind r.buffer m
              ∷ create mapping m
              ∷ [])
  ]
]

-- The staging buffer of a discrete device: it is created, backed, and mapped.
setup_staging : Answers → Arena → Trace → Bool × Arena × Trace
unfolding fail ready
setup_staging a r t = elim a.new_staging_buffer [
  | none ↦ fail r t
  | some s ↦
      let r1 = record r { staging_buffer = s } in
      let t1 = t ++ create buffer s ∷ [] in
      let stage_type = find_memory_type a.types a.staging_bits (host_visible + host_coherent) in
      if stage_type == no_type then fail r1 t1 else elim a.new_staging_memory [
        | none ↦ fail r1 (t1 ++ request_memory a.staging_size stage_type ∷ [])
        | some m ↦
            let r2 = record r1 { staging_memory = m } in
            let t2 =
              t1 ++ request_memory a.staging_size stage_type ∷ create memory m ∷ bind s m ∷ [] in
            elim a.mapped [
              | none ↦ fail r2 t2
              | some p ↦
                  ready a
                    (record r2 {
                      host_base = p;
                      xfer_pool = a.new_pool;
                      xfer_cmd = a.new_cmd;
                      xfer_fence = a.new_fence;
                    })
                    (t2
                      ++ create mapping m ∷ []
                      ++ close a.new_pool (create command_pool a.new_pool)
                      ++ close a.new_fence (create fence a.new_fence))
            ]
      ]
]

setup_discrete : Answers → Arena → Trace → Bool × Arena × Trace
unfolding fail setup_staging
setup_discrete a r t =
    let r0 = record r { uma = false } in
    let dev_type = find_memory_type a.types a.buffer_bits device_local in
    if dev_type == no_type then fail r0 t else elim a.new_memory [
      | none ↦ fail r0 (t ++ request_memory a.buffer_size dev_type ∷ [])
      | some m ↦
          setup_staging a (record r0 { memory = m })
            (t ++ request_memory a.buffer_size dev_type ∷ create memory m ∷ bind r.buffer m ∷ [])
    ]

pub initialize : Answers → Arena → ℕ → Bool × Arena × Trace
unfolding arena_size uma_type setup_uma setup_discrete
initialize a r capacity =
    let r0 = record r {
      capacity = align_up (arena_size a.arena_megabytes capacity) default_alignment;
    } in
    if a.device == 0 then (false, r, []) else elim a.new_buffer [
      | none ↦ (false, r0, [])
      | some b ↦
          let r1 = record r0 { buffer = b } in
          if uma_type a == no_type
          then setup_discrete a r1 (create buffer b ∷ [])
          else setup_uma a r1 (create buffer b ∷ [])
    ]
