-- ===== src/Launcher/Sort.antt =====
-- `launch_sort` of src/kernel/kernel_launcher.cpp: the schedule of the bitonic stages, and their
-- dispatches.
use parallax_runtime.Prelude.{
  ℕ, zero, suc, ◌+◌, ◌-◌, ◌*◌, ◌/◌, ◌%◌, ◌^◌, Bool, true, false, Option, none, some, List, [], ◌∷◌,
  ◌++◌, leb, ◌==◌, if◌then◌else◌, mul64, bit_and,
}
use parallax_runtime.Launcher.Device.{PipelineData, Span, Env, M, ◌>>=◌, ◌>>◌, pure, stop, skip}
use parallax_runtime.Launcher.Steps.{find_pipeline, arena_holds, sync_after_kernel, scoped, operand}
use parallax_runtime.Launcher.Dispatch.{dispatch_sort_stage}

-- `for (uint32_t j = …; j > 0; j >>= 1)`, at most `fuel` rounds: the pairs (k, j).
unfoldable pub merge_stages : ℕ → ℕ → ℕ → List (ℕ × ℕ)
merge_stages zero k j = []
merge_stages (suc fuel) k j = if j == 0 then [] else (k, j) ∷ merge_stages fuel k (j / 2)

-- `for (uint32_t k = …; k <= n; k <<= 1)`; `none` if the loop has not ended after `fuel` rounds.
unfoldable pub stages : ℕ → ℕ → ℕ → Option (List (ℕ × ℕ))
stages zero k n = none
stages (suc fuel) k n =
    let rest = stages fuel (k * 2 % 2 ^ 32) n in
    if leb k n
    then elim rest [ none ↦ none | some l ↦ some (merge_stages 32 k (k / 2) ++ l) ]
    else some []

module _ {P : Type 0} (env : Env P) where
  unfoldable pub run_stages : PipelineData → Span → ℕ → List (ℕ × ℕ) → M P (Unit {0})
  run_stages pd range n [] = skip
  run_stages pd range n ((k, j) ∷ rest) =
      dispatch_sort_stage env pd range n k j ((n + 255) % 2 ^ 32 / 256)
      >> run_stages pd range n rest

  -- The stages and what follows them; `none` if the loops do not end.
  unfoldable pub after_stages :
      PipelineData → Span → Bool → ℕ → ℕ → Option (List (ℕ × ℕ)) → M P (Option Bool)
  after_stages pd range inside ptr n none = pure none
  after_stages pd range inside ptr n (some l) = do
    run_stages pd range n l
    if inside then skip else sync_after_kernel ptr
    pure (some true)

  unfoldable pub sort_many : PipelineData → ℕ → ℕ → ℕ → M P (Option Bool)
  sort_many pd ptr count elem_size = do
    if bit_and count (count - 1) == 0 then skip else stop
    inside ← arena_holds ptr
    range ← operand env ptr (mul64 count elem_size)
    after_stages pd range inside ptr (count % 2 ^ 32) (stages 33 2 (count % 2 ^ 32))

  -- What it returns, if it does.
  unfoldable pub launch_sort : ℕ → ℕ → ℕ → ℕ → M P (Option Bool)
  launch_sort name ptr count elem_size = scoped (some false) (do
    pd ← find_pipeline name
    if leb count 1 then pure (some true) else sort_many pd ptr count elem_size)
