-- ===== src/Launcher/Push.antt =====
-- The push-constant block of src/kernel/kernel_launcher.cpp.
use parallax_runtime.Prelude.{ℕ, ◌%◌, ◌^◌, Option, none, some}
use parallax_runtime.Arena.{Arena}

-- `PushBlock`
pub record PushBlock : Type 0 where
  pub count : ℕ
  pub pad : ℕ
  pub host_base : ℕ
  pub dev_base : ℕ

-- `make_push_block`: the count is cut to 32 bits.
unfoldable pub make_push_block : Option Arena → ℕ → PushBlock
make_push_block none count = record { count = count % 2 ^ 32; pad = 0; host_base = 0; dev_base = 0 }
make_push_block (some r) count = record {
  count = count % 2 ^ 32;
  pad = 0;
  host_base = r.host_base;
  dev_base = r.device_address;
}
