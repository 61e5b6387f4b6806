-- ===== src/Launcher/Keeps/Compact.antt =====
-- A stepwise predicate is kept by the compaction of src/kernel/kernel_launcher.cpp.
use parallax_runtime.Prelude.{ℕ, Bool, true, false, Option, none, some, []}
use parallax_runtime.Launcher.Device.{PipelineData, Span, Env, Machine, M, Events}
use parallax_runtime.Launcher.Dispatch.{dispatch_scatter}
use parallax_runtime.Launcher.Compact
use parallax_runtime.Launcher.Keeps.{
  Keeps, Owing, IsStepwise, Keeps-bind, Keeps-then, Keeps-pure, Keeps-if, Keeps-skip, Keeps-gets,
  keeps_rules,
}
use parallax_runtime.Launcher.Keeps.Methods.{
  reading_rules, Keeps-find_pipeline, Keeps-require_arena, Keeps-require, Keeps-non_null,
  Keeps-arena_span, Keeps-arena_holds, Keeps-scoped, Keeps-dispatch, Keeps-level, Keeps-operand,
  Keeps-scratch, Keeps-free, Keeps-invalidate, Keeps-after, Keeps-register, Keeps-store,
}
use parallax_runtime.Launcher.Keeps.Levels.{Keeps-launch_scan}

module _ {P : Type 0} (env : Env P) (read : Events → Bool → Bool → ℕ → ℕ) {J : Owing P}
    (st : IsStepwise env J) where
  -- After a failure the scratch is given back.
  Keeps-after_failure :
      {A : Type 0} (ptr : ℕ) (r : Option A) (s : Machine P)
      → J [] s
      → J [] (Compact.give_back env read ptr r s).1
  unfolding Compact.give_back
  Keeps-after_failure ptr none s h = (Keeps-free env st ptr).at s h
  Keeps-after_failure ptr (some a) s h = h

  Keeps-or_free :
      {A : Type 0} (ptr : ℕ) (m : M P A)
      → Keeps (J []) m
      → Keeps (J []) (Compact.or_free env read ptr m)
  unfolding Compact.or_free
  Keeps-or_free ptr m k = record {
    at = λ s h. let (r, s1) = m s in Keeps-after_failure ptr r s1 (k.at s h);
  }

  Keeps-output : (ptr n : ℕ) → Keeps (J []) (Compact.output_span env read ptr n)
  unfolding Compact.output_span
  Keeps-output ptr n = search (keeps_rules, reading_rules, Keeps-register env st) depth 20 fits 3000

  Keeps-kept : (ptr v : ℕ) → Keeps (J []) (Compact.store_kept env read ptr v)
  unfolding Compact.store_kept
  Keeps-kept ptr v = Keeps-if _ _ _ Keeps-skip (Keeps-store env st ptr v)

  Keeps-compact_steps :
      (scan_kernel add_kernel : ℕ) (flags_pd scatter_pd : PipelineData) (src dst : Span)
      (positions count elem_size : ℕ) (is_float : Bool) (out_kept : ℕ)
      → Keeps (J []) (
          Compact.compact_steps env read scan_kernel add_kernel flags_pd scatter_pd src dst
            positions count elem_size is_float out_kept)
  unfolding Compact.compact_steps dispatch_scatter
  Keeps-compact_steps scan_kernel add_kernel flags_pd scatter_pd src dst positions count elem_size
        is_float out_kept =
      Keeps-bind _ _ (Keeps-arena_span positions _) λ at.
        Keeps-then _ _ (Keeps-level env st flags_pd src at _ _) (
          Keeps-then _ _
            (Keeps-require _
              (Keeps-launch_scan env st scan_kernel add_kernel positions count elem_size))
            (Keeps-then _ _ (Keeps-invalidate env st) (
              Keeps-bind _ _ (Keeps-gets _) λ kept.
                Keeps-then _ _ (Keeps-kept out_kept kept)
                  (Keeps-dispatch env st scatter_pd _ _ _))))

  Keeps-compact_many :
      (scan_kernel add_kernel : ℕ) (flags_pd scatter_pd : PipelineData)
      (input output count elem_size : ℕ) (is_float : Bool) (out_kept : ℕ)
      → Keeps (J []) (
          Compact.compact_many env read scan_kernel add_kernel flags_pd scatter_pd input output
            count elem_size is_float out_kept)
  unfolding Compact.compact_many
  Keeps-compact_many scan_kernel add_kernel flags_pd scatter_pd input output count elem_size
        is_float out_kept =
      Keeps-then _ _ Keeps-require_arena (
        Keeps-bind _ _ (Keeps-arena_holds output) λ inside.
          Keeps-bind _ _ (Keeps-operand env st input _) λ src.
            Keeps-bind _ _ (Keeps-output output _) λ dst.
              Keeps-bind _ _ (Keeps-scratch env st _) λ positions.
                Keeps-then _ _ (Keeps-non_null positions) (
                  Keeps-then _ _
                    (Keeps-or_free positions _ (
                      Keeps-compact_steps scan_kernel add_kernel flags_pd scatter_pd src dst
                        positions count elem_size is_float out_kept))
                    (Keeps-then _ _ (Keeps-if _ _ _ Keeps-skip (Keeps-after env st output))
                      (Keeps-then _ _ (Keeps-free env st positions) (Keeps-pure true)))))

  pub Keeps-launch_compact :
      (flags_kernel scan_kernel add_kernel scatter_kernel input output count elem_size : ℕ)
      (is_float : Bool) (out_kept : ℕ)
      → Keeps (J []) (
          Compact.launch_compact env read flags_kernel scan_kernel add_kernel scatter_kernel input
            output count elem_size is_float out_kept)
  unfolding Compact.launch_compact
  Keeps-launch_compact flags_kernel scan_kernel add_kernel scatter_kernel input output count
        elem_size is_float out_kept =
      Keeps-scoped env st false _ (
        Keeps-bind _ _ (Keeps-find_pipeline flags_kernel) λ flags_pd.
          Keeps-bind _ _ (Keeps-find_pipeline scatter_kernel) λ scatter_pd.
            Keeps-then _ _ (Keeps-kept out_kept 0) (
              Keeps-if _ _ _ (Keeps-pure true) (
                Keeps-compact_many scan_kernel add_kernel flags_pd scatter_pd input output count
                  elem_size is_float out_kept)))
