-- ===== src/Kernels.antt =====
-- The C entry points for kernels (src/kernel/cache.cpp): the registry that loads kernels on their
-- first look-up, and the functions that launch them.
pub mod Launcher
pub mod Registry
pub mod Launch
mod Tests
use parallax_runtime.Prelude.{
  ℕ, ◌+◌, ◌%◌, Bool, true, false, not, Option, none, some, ◌++◌, ◌==◌, if◌then◌else◌, Map, find,
  insert, u64_mod, mul64,
}
use parallax_runtime.Vulkan.{Trace}
use parallax_runtime.Backend.{Backend}
use parallax_runtime.MemoryManager.{
  Manager, sync_after_kernel, register_external_buffer, Answers as BufferAnswers,
}
use parallax_runtime.Runtime.{Globals, World, get_global_backend, get_global_memory_manager}
use parallax_runtime.Kernels.Launcher.{LauncherOps}

-- A kernel handle is null or points to a kernel's name; the name "kernel_<id>" is its id.
abbrev pub Handle : Type 0
Handle = Option ℕ

pub record FunnelEntry : Type 0 where
  pub spirv : ℕ
  pub words : ℕ
  pub handle : Handle
  pub loaded : Bool

-- The static variables of the file, with those of the runtime. A key is a string's number.
pub record State {ℓ} (K : Type ℓ) : Type ℓ where
  pub globals : Globals
  pub launcher : Option K
  pub counter : ℕ
  pub registry : Map FunnelEntry

-- `parallax_kernel_register`; a null key is none.
pub register {ℓ} : {K : Type ℓ} → State K → Option ℕ → ℕ → ℕ → State K
register s none spirv words = s
register s (some key) spirv words = record s {
  registry =
      insert key (record { spirv = spirv; words = words; handle = none; loaded = false })
        s.registry;
}

module _ {ℓ} {K : Type ℓ} (ops : LauncherOps K) (w : World) where
  -- `ensure_kernel_launcher_initialized`
  pub ensure_launcher : State K → Option K × State K
  ensure_launcher s = elim s.launcher [
    | some k ↦ (some k, s)
    | none ↦
        let (backend, g1, t1) = get_global_backend w s.globals in
        let (manager, g2, t2) = get_global_memory_manager w g1 in
        elim backend [
          | none ↦ (none, record s { globals = g2 })
          | some b ↦ elim manager [
            | none ↦ (none, record s { globals = g2 })
            | some m ↦ (
              some (ops.construct b m),
              record s { globals = g2; launcher = some (ops.construct b m) },
            )
          ]
        ]
  ]

  -- `parallax_kernel_load`: the counter is a 64-bit atomic.
  pub load : State K → ℕ → ℕ → Handle × State K
  unfolding ensure_launcher
  load s spirv words =
      let (launcher, s1) = ensure_launcher s in
      elim launcher [
        | none ↦ (none, s1)
        | some k ↦
            let (ok, k') = ops.load_kernel k s1.counter spirv (mul64 words 4) in
            let s2 = record s1 { counter = (s1.counter + 1) % u64_mod; launcher = some k' } in
            ((if ok then some s1.counter else none), s2)
      ]

  -- `parallax_kernel_lookup`
  pub lookup : State K → Option ℕ → Handle × State K
  unfolding load
  lookup s none = (none, s)
  lookup s (some key) = elim (find key s.registry) [
    | none ↦ (none, s)
    | some e ↦
        if e.loaded
        then (e.handle, s)
        else (let (h, s1) = load s e.spirv e.words in
            (
              h,
              record s1 {
                registry = insert key (record e { handle = h; loaded = true }) s1.registry;
              },
            ))
  ]

  -- The end of a launch that succeeded: the device is waited for, and the output's blocks are
  -- marked in the buffer table, if there is one.
  pub finish : State K → K → ℕ → State K
  finish s k out =
      let (manager, g, t) = get_global_memory_manager w s.globals in
      record s {
        launcher = some (ops.sync k);
        globals = elim manager [
          | none ↦ g
          | some m ↦ record g { memory_manager = some (sync_after_kernel m out) }
        ];
      }

  -- The shape that the launching entry points share: nothing happens for a null kernel or without
  -- a launcher, and a launch that fails marks nothing.
  pub launch_and_mark : State K → Handle → ℕ → (K → ℕ → Bool × K) → State K
  unfolding finish
  launch_and_mark s none out run = s
  launch_and_mark s (some name) out run = elim s.launcher [
    | none ↦ s
    | some k ↦
        (let (ok, k') = run k name in
          if ok then finish s k' out else record s { launcher = some k' })
  ]

  -- `parallax_kernel_launch`
  pub kernel_launch : State K → Handle → ℕ → ℕ → ℕ → State K
  unfolding launch_and_mark
  kernel_launch s kernel buffer count elem_size =
      launch_and_mark s kernel buffer (λ k name. ops.launch k name buffer count elem_size)

  -- `parallax_kernel_launch_transform`
  pub kernel_launch_transform : State K → Handle → ℕ → ℕ → ℕ → ℕ → State K
  unfolding launch_and_mark
  kernel_launch_transform s kernel in_buffer out_buffer count elem_size =
      launch_and_mark s kernel out_buffer
        (λ k name. ops.launch_transform k name in_buffer out_buffer count elem_size)

  -- `parallax_kernel_launch_transform2`
  pub kernel_launch_transform2 : State K → Handle → ℕ → ℕ → ℕ → ℕ → ℕ → State K
  unfolding launch_and_mark
  kernel_launch_transform2 s kernel in_buffer out_buffer count in_elem out_elem =
      launch_and_mark s kernel out_buffer
        (λ k name. ops.launch_transform2 k name in_buffer out_buffer count in_elem out_elem)

  -- `parallax_kernel_launch_transform2_captures`
  pub kernel_launch_transform2_captures : State K → Handle → ℕ → ℕ → ℕ → ℕ → ℕ → ℕ → ℕ → State K
  unfolding launch_and_mark
  kernel_launch_transform2_captures s kernel in_buffer out_buffer count in_elem out_elem captures
        capture_size =
      launch_and_mark s kernel out_buffer (λ k name.
        ops.launch_transform2_captures k name in_buffer out_buffer count in_elem out_elem captures
          capture_size)

  -- `parallax_kernel_launch_with_captures`
  pub kernel_launch_with_captures : State K → Handle → ℕ → ℕ → ℕ → ℕ → ℕ → State K
  unfolding launch_and_mark
  kernel_launch_with_captures s kernel buffer count captures capture_size elem_size =
      launch_and_mark s kernel buffer
        (λ k name. ops.launch_with_captures k name buffer count captures capture_size elem_size)

  -- A call of the launcher that marks nothing, and its result; without a kernel or a launcher the
  -- result is `missing`.
  pub call {κ} : {R : Type κ} → State K → Handle → R → (K → ℕ → R × K) → R × State K
  call s none missing run = (missing, s)
  call s (some name) missing run = elim s.launcher [
    | none ↦ (missing, s)
    | some k ↦ (let (r, k') = run k name in (r, record s { launcher = some k' }))
  ]

  -- `parallax_reduce`: the outcome is only logged.
  pub reduce : State K → Handle → ℕ → ℕ → ℕ → ℕ → State K
  unfolding call
  reduce s kernel data_ptr count elem_size result =
      (call s kernel false (λ k name. ops.launch_reduce k name data_ptr count elem_size result)).1

  -- `parallax_argminmax`
  pub argminmax : State K → Handle → ℕ → ℕ → ℕ → ℕ → ℕ → ℕ → ℕ × State K
  unfolding call
  argminmax s kernel data_ptr count elem_size is_float want_max want_last =
      call s kernel count (λ k name.
        ops.launch_argminmax k name data_ptr count elem_size (not (is_float == 0))
          (not (want_max == 0)) (not (want_last == 0)))

  -- `parallax_find`
  pub find_first : State K → Handle → ℕ → ℕ → ℕ → ℕ → ℕ → ℕ × State K
  unfolding call
  find_first s kernel data_ptr count elem_size negate value =
      call s kernel count
        (λ k name. ops.launch_find k name data_ptr count elem_size (not (negate == 0)) value)

  -- `parallax_mismatch`
  pub mismatch : State K → Handle → ℕ → ℕ → ℕ → ℕ → ℕ × State K
  unfolding call
  mismatch s kernel a b count elem_size =
      call s kernel count (λ k name. ops.launch_mismatch k name a b count elem_size)

  -- `parallax_scan`
  pub scan : State K → Handle → Handle → ℕ → ℕ → ℕ → State K
  unfolding call
  scan s scan_kernel none data_ptr count elem_size = s
  scan s scan_kernel (some add) data_ptr count elem_size =
      (call s scan_kernel false (λ k name. ops.launch_scan k name add data_ptr count elem_size)).1

  -- `parallax_exclusive_scan`
  pub exclusive_scan : State K → Handle → Handle → Handle → ℕ → ℕ → ℕ → ℕ → ℕ → State K
  unfolding call
  exclusive_scan s scan_kernel (some add) (some shift) input output count elem_size init =
      (call s scan_kernel false
        (λ k name. ops.launch_exclusive_scan k name add shift input output count elem_size init)).1
  exclusive_scan s scan_kernel none shift_kernel input output count elem_size init = s
  exclusive_scan s scan_kernel (some add) none input output count elem_size init = s

  -- `parallax_sort`
  pub sort : State K → Handle → ℕ → ℕ → ℕ → State K
  unfolding call
  sort s kernel data_ptr count elem_size =
      (call s kernel false (λ k name. ops.launch_sort k name data_ptr count elem_size)).1

  -- `parallax_copy_if`: the count of kept elements, 0 where the compaction fails.
  pub copy_if : State K → Handle → Handle → Handle → Handle → ℕ → ℕ → ℕ → ℕ → ℕ → ℕ × State K
  unfolding call
  copy_if s flags (some scan_name) (some add) (some scatter) input output count elem_size is_float =
      call s flags 0 (λ k name.
        let (ok, kept, k') =
          ops.launch_compact k name scan_name add scatter input output count elem_size
            (not (is_float == 0)) in
        ((if ok then kept else 0), k'))
  copy_if s flags none add scatter input output count elem_size is_float = (0, s)
  copy_if s flags (some scan_name) none scatter input output count elem_size is_float = (0, s)
  copy_if s flags (some scan_name) (some add) none input output count elem_size is_float = (0, s)

  -- `parallax_register_buffer`
  pub register_buffer : BufferAnswers → State K → ℕ → ℕ → Bool × State K × Trace
  register_buffer a s ptr size =
      let (manager, g, t) = get_global_memory_manager w s.globals in
      elim manager [
        | none ↦ (false, record s { globals = g }, t)
        | some m ↦
            let (ok, m', u) = register_external_buffer a m ptr size in
            (ok, record s { globals = record g { memory_manager = some m' } }, t ++ u)
      ]
