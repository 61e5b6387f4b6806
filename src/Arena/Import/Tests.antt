-- ===== src/Arena/Import/Tests.antt =====
-- Instances of the theorems on the adoption of the heap pool.
use parallax_runtime.Prelude.{true, some, arith}
use parallax_runtime.Arena.{empty}
use parallax_runtime.Arena.Setup.Clean.{Outcome}
use parallax_runtime.Arena.Setup.Accounts.{empty-IsIdle}
use parallax_runtime.Arena.Import.{Answers, initialize_from_pool}
use parallax_runtime.Arena.Import.Laws.{IsLegal, initialize_from_pool-Outcome}

abbrev pub importing : Answers
importing = record {
  device = 1;
  external_memory_host = true;
  buffer_device_address = true;
  import_alignment = 4096;
  pool_base = 1048576;
  pool_reservation = 65536;
  has_query = true;
  host_bits = some 4;
  new_buffer = some 21;
  buffer_bits = 6;
  new_memory = some 22;
  address = 23;
}

pub importing-IsLegal : IsLegal importing
importing-IsLegal = record {
  buffer_handle = λ h e. ground arith;
  memory_handle = λ h e. ground arith;
}

initialize_from_pool-Outcome_example : Outcome (initialize_from_pool importing empty)
initialize_from_pool-Outcome_example =
    initialize_from_pool-Outcome importing empty importing-IsLegal empty-IsIdle
