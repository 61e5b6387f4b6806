-- ===== src/Kernels/Launcher.antt =====
-- What the C entry points call of KernelLauncher (include/parallax/kernel_launcher.hpp): its
-- operations on a state of type `K`, with kernels by name. Pointers and sizes are numbers.
use parallax_runtime.Prelude.{ℕ, Bool}
use parallax_runtime.Backend.{Backend}
use parallax_runtime.MemoryManager.{Manager}

pub record LauncherOps {ℓ} (K : Type ℓ) : Type ℓ where
  pub construct : Backend → Manager → K
  pub load_kernel : K → ℕ → ℕ → ℕ → Bool × K
  pub launch : K → ℕ → ℕ → ℕ → ℕ → Bool × K
  pub launch_transform : K → ℕ → ℕ → ℕ → ℕ → ℕ → Bool × K
  pub launch_transform2 : K → ℕ → ℕ → ℕ → ℕ → ℕ → ℕ → Bool × K
  pub launch_transform2_captures : K → ℕ → ℕ → ℕ → ℕ → ℕ → ℕ → ℕ → ℕ → Bool × K
  pub launch_with_captures : K → ℕ → ℕ → ℕ → ℕ → ℕ → ℕ → Bool × K
  pub sync : K → K
  pub launch_reduce : K → ℕ → ℕ → ℕ → ℕ → ℕ → Bool × K
  pub launch_argminmax : K → ℕ → ℕ → ℕ → ℕ → Bool → Bool → Bool → ℕ × K
  pub launch_find : K → ℕ → ℕ → ℕ → ℕ → Bool → ℕ → ℕ × K
  pub launch_mismatch : K → ℕ → ℕ → ℕ → ℕ → ℕ → ℕ × K
  pub launch_scan : K → ℕ → ℕ → ℕ → ℕ → ℕ → Bool × K
  pub launch_exclusive_scan : K → ℕ → ℕ → ℕ → ℕ → ℕ → ℕ → ℕ → ℕ → Bool × K
  pub launch_sort : K → ℕ → ℕ → ℕ → ℕ → Bool × K
  -- whether it succeeds, and what it stores in `kept`
  pub launch_compact : K → ℕ → ℕ → ℕ → ℕ → ℕ → ℕ → ℕ → ℕ → Bool → Bool × ℕ × K
