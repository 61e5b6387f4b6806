-- ===== src/Kernels/Tests.antt =====
-- Instances of the theorems on the kernel registry and the launches, with a launcher that counts
-- its calls.
use parallax_runtime.Prelude.{ℕ, ◌+◌, ◌≡◌, refl, true, false, none, some, [], ◌∷◌, arith, find}
use parallax_runtime.Backend.{fresh}
use parallax_runtime.Backend.Tests.{two_cards}
use parallax_runtime.MemoryManager.{Manager}
use parallax_runtime.Arena.Setup.Tests.{discrete}
use parallax_runtime.Arena.Import.Tests.{importing}
use parallax_runtime.Runtime.{World}
use parallax_runtime.Kernels.{State, register, lookup, call, exclusive_scan, copy_if}
use parallax_runtime.Kernels.Launcher.{LauncherOps}
use parallax_runtime.Kernels.Registry.{IsNamed, lookup-IsNamed}

abbrev counting : LauncherOps ℕ
counting = record {
  construct = λ b m. 0;
  load_kernel = λ k n p z. (true, k + 1);
  launch = λ k n b c e. (true, k + 1);
  launch_transform = λ k n i o c e. (false, k + 1);
  launch_transform2 = λ k n i o c e f. (true, k + 1);
  launch_transform2_captures = λ k n i o c e f p z. (true, k + 1);
  launch_with_captures = λ k n b c p z e. (true, k + 1);
  sync = λ k. k + 100;
  launch_reduce = λ k n d c e r. (true, k + 1);
  launch_argminmax = λ k n d c e f m l. (0, k + 1);
  launch_find = λ k n d c e g v. (0, k + 1);
  launch_mismatch = λ k n a b c e. (0, k + 1);
  launch_scan = λ k n a d c e. (true, k + 1);
  launch_exclusive_scan = λ k n a s i o c e z. (true, k + 1);
  launch_sort = λ k n d c e. (true, k + 1);
  launch_compact = λ k n s a x i o c e f. (true, 0, k + 1);
}

abbrev world : World
world = record {
  for_backend = two_cards;
  new_pool = 51;
  force_legacy = false;
  for_import = importing;
  for_arena = discrete;
}

-- The runtime is there, and one kernel of two is loaded.
abbrev table : Manager
table = record { command_pool_handle = 51; buffers = [] }

abbrev running : State ℕ
running = record {
  globals = record {
    backend = some fresh;
    memory_manager = some table;
    arena = none;
    initialized = true;
    initializing = false;
    arena_initializing = false;
  };
  launcher = some 0;
  counter = 1;
  registry =
      (3, record { spirv = 900; words = 10; handle = some 0; loaded = true })
      ∷ (4, record { spirv = 950; words = 20; handle = none; loaded = false })
      ∷ [];
}

running-IsNamed : IsNamed running.counter running.registry
unfolding find
running-IsNamed = record {
  past = λ k e n at name. ground arith;
  apart = λ j k e f n at at' name name'. ground arith;
}

lookup-IsNamed_example :
    let s' = (lookup counting world running (some 4)).1 in IsNamed s'.counter s'.registry
lookup-IsNamed_example =
    lookup-IsNamed counting world running (some 4) (omega arith) running-IsNamed

abbrev halted : State ℕ
halted = record running { launcher = none }

-- Without its add kernel nothing is scanned; a compaction that the launcher refuses keeps none.
scans_nothing : exclusive_scan counting world running (some 0) none (some 0) 1 2 7 3 0 ≡ running
unfolding exclusive_scan
scans_nothing = refl

keeps_none : (copy_if counting world halted (some 0) (some 0) (some 0) (some 0) 1 2 7 3 0).0 ≡ 0
unfolding copy_if call
keeps_none = refl

registers : (register running (some 9) 700 12).counter ≡ 1
unfolding register
registers = refl
