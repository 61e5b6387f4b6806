-- ===== src/Arena/Setup/Tests.antt =====
-- Instances of the theorems on the arena's setups and migrations.
use parallax_runtime.Prelude.{
  ◌+◌, ◌≤◌, ◌≡◌, refl, true, false, none, some, [], ◌∷◌, arith, find, align_up,
}
use parallax_runtime.Vulkan.{find_memory_type}
use parallax_runtime.Arena.{Arena, block, empty}
use parallax_runtime.Arena.Invariant.{IsValid}
use parallax_runtime.Arena.Setup.{
  Answers, initialize, arena_size, uma_type, setup_discrete, setup_staging, ready,
}
use parallax_runtime.Arena.Setup.Accounts.{empty-IsIdle, IsLegal}
use parallax_runtime.Arena.Setup.Clean.{Outcome, initialize-Outcome}
use parallax_runtime.Arena.Setup.Fresh.{initialize-IsValid}
use parallax_runtime.Arena.Migrate.{Buffers, IsDiscrete, run, flush_to_device, flush_coherent}

-- A discrete device whose driver answers every request but the last mapping.
abbrev pub discrete : Answers
discrete = record {
  device = 1;
  arena_megabytes = none;
  force_staging = false;
  buffer_device_address = true;
  types = 1 ∷ 6 ∷ [];
  new_buffer = some 11;
  buffer_size = 4096;
  buffer_bits = 1;
  new_memory = some 12;
  new_staging_buffer = some 13;
  staging_size = 4096;
  staging_bits = 2;
  new_staging_memory = some 14;
  mapped = none;
  new_pool = 15;
  new_cmd = 16;
  new_fence = 17;
  address = 18;
}

discrete-IsLegal : IsLegal discrete
discrete-IsLegal = record {
  buffer_handle = λ h e. ground arith;
  memory_handle = λ h e. ground arith;
  staging_handle = λ h e. ground arith;
  staging_memory_handle = λ h e. ground arith;
  mapped_pointer = λ h e. ground arith;
}

initialize-Outcome_example : Outcome (initialize discrete empty 4000)
initialize-Outcome_example = initialize-Outcome discrete discrete-IsLegal empty 4000 empty-IsIdle

-- The same, with a mapping.
abbrev pub mapping : Answers
mapping = record discrete { mapped = some 65536 }

pub mapping-IsLegal : IsLegal mapping
mapping-IsLegal = record {
  buffer_handle = λ h e. ground arith;
  memory_handle = λ h e. ground arith;
  staging_handle = λ h e. ground arith;
  staging_memory_handle = λ h e. ground arith;
  mapped_pointer = λ h e. ground arith;
}

initialize-IsValid_example :
    IsValid (initialize mapping empty 4000).1
    × (arena_size none 4000 ≤ (initialize mapping empty 4000).1.capacity)
unfolding initialize arena_size uma_type setup_discrete setup_staging ready align_up
    find_memory_type
initialize-IsValid_example =
    initialize-IsValid mapping empty 4000 refl refl refl (λ p e. ground arith) (omega arith) refl

-- A discrete arena with one live block of 256 bytes.
abbrev pub one_block : Arena
one_block = record empty {
  uma = false;
  buffer = 11;
  staging_buffer = 13;
  xfer_cmd = 16;
  host_base = 65536;
  capacity = 4096;
  bump = 256;
  high_water = 256;
  live = (65536, block 0 256) ∷ [];
}

one_block-IsValid : IsValid one_block
one_block-IsValid = record {
  own = refl;
  mapped = omega arith;
  addressable = omega arith;
  small = omega arith;
  tail = omega arith;
  mark = omega arith;
  free_in = tt;
  live_in = omega arith;
  free_apart = tt;
  live_apart = omega arith;
  cross = omega arith;
}

one_block-IsDiscrete : IsDiscrete one_block
one_block-IsDiscrete = record { staged = refl; command = omega arith; apart = omega arith }

-- Byte `i` of buffer `b` is b + i.
abbrev numbered : Buffers
numbered b i = b + i

flush_coherent_example :
    (run (flush_to_device one_block) numbered 11 100 ≡ numbered 13 100)
    × (run (flush_to_device one_block) numbered 13 100 ≡ numbered 13 100)
unfolding find
flush_coherent_example =
    flush_coherent one_block numbered one_block-IsValid one_block-IsDiscrete 65536 (block 0 256)
      refl 100 (omega arith) (omega arith)
