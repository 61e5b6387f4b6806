-- ===== src/Launcher/Search.antt =====
-- The searches of src/kernel/kernel_launcher.cpp: `launch_find`, `launch_mismatch` and
-- `launch_argminmax`, with the combination of the blocks' winners on the host.
use parallax_runtime.Prelude.{
  ℕ, zero, suc, ◌+◌, ◌*◌, ◌%◌, ◌^◌, Bool, ◌&&◌, ◌||◌, [], ◌∷◌, ltb, leb, ◌==◌, if◌then◌else◌, mul64,
}
use parallax_runtime.Launcher.Device.{
  Events, storage, uniform_at_2, push_extremum, push_find, push_count, Env, M, ◌>>=◌, ◌>>◌, pure,
  gets,
}
use parallax_runtime.Launcher.Steps.{
  workgroups, find_pipeline, require_arena, non_null, arena_span, invalidate, scoped,
  allocate_scratch, free_scratch, operand,
}
use parallax_runtime.Launcher.Dispatch.{dispatch_with, value_at}

-- The least winner, `winner b` for the `k` blocks from `b` on, below what is best so far.
unfoldable pub least_winner : (ℕ → ℕ) → ℕ → ℕ → ℕ → ℕ
least_winner winner zero b best = best
least_winner winner (suc k) b best =
    least_winner winner k (b + 1) (if ltb (winner b) best then winner b else best)

-- Doubles, and what the host reads as one from an element: whether it is a float, its size, its
-- address.
pub record Doubles (D : Type 0) : Type 0 where
  pub gt : D → D → Bool
  pub lt : D → D → Bool
  pub eq : D → D → Bool
  pub nought : D
  pub as_dbl : Events → Bool → ℕ → ℕ → D

module _ {D : Type 0} (dbl : Doubles D) (want_max want_last : Bool) (count : ℕ) where
  -- Whether the candidate `cand` of value `v` replaces the best so far.
  unfoldable pub better : ℕ → D → ℕ → D → Bool
  better best_idx best_val cand v =
      best_idx == count
      || ((if want_max then dbl.gt v best_val else dbl.lt v best_val)
          || dbl.eq v best_val && (if want_last then ltb best_idx cand else ltb cand best_idx))

  unfoldable pub best_winner : (ℕ → ℕ) → (ℕ → D) → ℕ → ℕ → ℕ → D → ℕ
  best_winner winner value zero b best_idx best_val = best_idx
  best_winner winner value (suc k) b best_idx best_val =
      let replace = ltb (winner b) count && better best_idx best_val (winner b) (value b) in
      best_winner winner value k (b + 1) (if replace then winner b else best_idx)
        (if replace then value b else best_val)

abbrev pub flag : Bool → ℕ
flag b = if b then 1 else 0

module _ {P : Type 0} (env : Env P) where
  -- What the host reads in an array of `uint32_t`.
  abbrev pub word_at : Events → ℕ → ℕ → ℕ
  word_at es array b = env.host_read es (array + b * 4) 4

  unfoldable pub find_body : ℕ → ℕ → ℕ → ℕ → Bool → ℕ → M P ℕ
  find_body name ptr count elem_size negate value = do
    pd ← find_pipeline name
    if count == 0 then pure 0 else (do
      require_arena
      src ← operand env ptr (mul64 count elem_size)
      out ← allocate_scratch env (mul64 (workgroups count) 4)
      non_null out
      dst ← arena_span out (mul64 (workgroups count) 4)
      dispatch_with env pd (λ u. storage 0 src ∷ storage 1 dst ∷ uniform_at_2 u ∷ [])
          (λ s. push_find (count % 2 ^ 32) (flag negate) (value_at env value elem_size s))
          (workgroups count)
      invalidate
      best ← gets (λ s. least_winner (word_at s.events out) (workgroups count) 0 count)
      free_scratch env out
      pure best)

  unfoldable pub launch_find : ℕ → ℕ → ℕ → ℕ → Bool → ℕ → M P ℕ
  launch_find name ptr count elem_size negate value =
      scoped count (find_body name ptr count elem_size negate value)

  unfoldable pub mismatch_body : ℕ → ℕ → ℕ → ℕ → ℕ → M P ℕ
  mismatch_body name a b count elem_size = do
    pd ← find_pipeline name
    if count == 0 then pure 0 else (do
      require_arena
      first ← operand env a (mul64 count elem_size)
      second ← operand env b (mul64 count elem_size)
      out ← allocate_scratch env (mul64 (workgroups count) 4)
      non_null out
      dst ← arena_span out (mul64 (workgroups count) 4)
      dispatch_with env pd
          (λ u. storage 0 first ∷ storage 1 dst ∷ uniform_at_2 u ∷ storage 3 second ∷ [])
          (λ s. push_count (count % 2 ^ 32)) (workgroups count)
      invalidate
      best ← gets (λ s. least_winner (word_at s.events out) (workgroups count) 0 count)
      free_scratch env out
      pure best)

  unfoldable pub launch_mismatch : ℕ → ℕ → ℕ → ℕ → ℕ → M P ℕ
  launch_mismatch name a b count elem_size = scoped count (mismatch_body name a b count elem_size)

  module _ {D : Type 0} (dbl : Doubles D) where
    unfoldable pub extremum_body : ℕ → ℕ → ℕ → ℕ → Bool → Bool → Bool → M P ℕ
    extremum_body name ptr count elem_size is_float want_max want_last = do
      pd ← find_pipeline name
      if leb count 1 then pure 0 else (do
        require_arena
        src ← operand env ptr (mul64 count elem_size)
        vals ← allocate_scratch env (mul64 (workgroups count) elem_size)
        idxs ← allocate_scratch env (mul64 (workgroups count) 4)
        non_null vals
        non_null idxs
        winners ← arena_span vals (mul64 (workgroups count) elem_size)
        indices ← arena_span idxs (mul64 (workgroups count) 4)
        dispatch_with env pd
            (λ u. storage 0 src ∷ storage 1 winners ∷ uniform_at_2 u ∷ storage 3 indices ∷ [])
            (λ s. push_extremum (count % 2 ^ 32) (flag want_max) (flag want_last))
            (workgroups count)
        invalidate
        best ← gets (λ s.
            best_winner dbl want_max want_last count (word_at s.events idxs)
              (λ b. dbl.as_dbl s.events is_float elem_size (vals + b * elem_size))
              (workgroups count) 0 count dbl.nought)
        free_scratch env vals
        free_scratch env idxs
        pure (if best == count then 0 else best))

    unfoldable pub launch_argminmax : ℕ → ℕ → ℕ → ℕ → Bool → Bool → Bool → M P ℕ
    launch_argminmax name ptr count elem_size is_float want_max want_last =
        scoped count (extremum_body name ptr count elem_size is_float want_max want_last)
