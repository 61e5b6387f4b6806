-- ===== src/Launcher/Dispatch.antt =====
-- One dispatch of src/kernel/kernel_launcher.cpp over a fresh descriptor set, waited for:
-- `dispatch_reduce_level`, `dispatch_exclusive_shift`, `dispatch_sort_stage`, `dispatch_scatter`, and
-- the same steps inside the searches.
use parallax_runtime.Prelude.{ℕ, ◌&&◌, not, List, [], ◌∷◌, leb, ◌==◌, if◌then◌else◌}
use parallax_runtime.Launcher.Device.{
  PipelineData, Span, Binding, storage, uniform_at_2, Push, push_shift, push_sort, push_scatter,
  write_set, Env, Machine, M, ◌>>=◌, ◌>>◌, skip, emit, sync,
}
use parallax_runtime.Launcher.Steps.{
  bases, take_descriptor_set, make_uniform, using_uniform, submit,
}

module _ {P : Type 0} (env : Env P) where
  -- The bindings of the set, given the dummy uniform of 64 bytes.
  unfoldable pub dispatch_with :
      PipelineData → (ℕ → List Binding) → (Machine P → Push) → ℕ → M P (Unit {0})
  dispatch_with pd bindings push groups = do
    set ← take_descriptor_set env pd.descriptor_set_layout
    dummy ← using_uniform (make_uniform env 64) (λ u. skip)
    emit (write_set set (bindings dummy.0))
    submit env pd set push groups
    sync

  unfoldable pub dispatch_reduce_level : PipelineData → Span → Span → ℕ → ℕ → M P (Unit {0})
  dispatch_reduce_level pd src dst count groups =
      dispatch_with pd (λ u. storage 0 src ∷ storage 1 dst ∷ uniform_at_2 u ∷ []) (bases count)
        groups

  -- The first `n` bytes at a pointer, at most 8 of them, where it is not null.
  unfoldable pub value_at : ℕ → ℕ → Machine P → ℕ
  value_at ptr n s =
      if not (ptr == 0) && not (n == 0) && leb n 8 then env.host_read s.events ptr n else 0

  unfoldable pub dispatch_exclusive_shift :
      PipelineData → Span → Span → ℕ → ℕ → ℕ → ℕ → M P (Unit {0})
  dispatch_exclusive_shift pd src dst count init init_bytes groups =
      dispatch_with pd (λ u. storage 0 src ∷ storage 1 dst ∷ uniform_at_2 u ∷ [])
        (λ s. push_shift count (value_at init init_bytes s)) groups

  unfoldable pub dispatch_sort_stage : PipelineData → Span → ℕ → ℕ → ℕ → ℕ → M P (Unit {0})
  dispatch_sort_stage pd range count k j groups =
      dispatch_with pd (λ u. storage 0 range ∷ storage 1 range ∷ uniform_at_2 u ∷ [])
        (λ s. push_sort count k j) groups

  unfoldable pub dispatch_scatter : PipelineData → Span → Span → Span → ℕ → ℕ → ℕ → M P (Unit {0})
  dispatch_scatter pd src dst positions count groups num_true =
      dispatch_with pd
        (λ u. storage 0 src ∷ storage 1 dst ∷ storage 3 positions ∷ uniform_at_2 u ∷ [])
        (λ s. push_scatter count num_true) groups
