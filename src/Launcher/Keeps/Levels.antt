-- ===== src/Launcher/Keeps/Levels.antt =====
-- A stepwise predicate is kept by the reduction, the prefix sums and the sort of
-- src/kernel/kernel_launcher.cpp.
use parallax_runtime.Prelude.{
  ℕ, zero, suc, Bool, true, false, Option, none, some, List, [], ◌∷◌, ltb, not,
}
use parallax_runtime.Launcher.Device.{PipelineData, Span, Env, M, pure, ◌>>◌}
use parallax_runtime.Launcher.Steps.{workgroups}
use parallax_runtime.Launcher.Dispatch.{dispatch_sort_stage, dispatch_exclusive_shift}
use parallax_runtime.Launcher.Reduce
use parallax_runtime.Launcher.Scan
use parallax_runtime.Launcher.Sort
use parallax_runtime.Launcher.Keeps.{
  Keeps, Owing, IsStepwise, Keeps-bind, Keeps-then, Keeps-pure, Keeps-if, Keeps-skip, Keeps-stop,
}
use parallax_runtime.Launcher.Keeps.Methods.{
  Keeps-find_pipeline, Keeps-require_arena, Keeps-require, Keeps-non_null, Keeps-arena_span,
  Keeps-arena_holds, Keeps-scoped, Keeps-dispatch, Keeps-level, Keeps-operand, Keeps-scratch,
  Keeps-free, Keeps-invalidate, Keeps-after, Keeps-clear, Keeps-host_copy,
}

module _ {P : Type 0} (env : Env P) {J : Owing P} (st : IsStepwise env J) where
  Keeps-reduce_level :
      (pd : PipelineData) (elem_size src dst n : ℕ)
      → Keeps (J []) (Reduce.reduce_level env pd elem_size src dst n)
  unfolding Reduce.reduce_level
  Keeps-reduce_level pd elem_size src dst n =
      Keeps-bind _ _ (Keeps-operand env st src _)
        λ from. Keeps-bind _ _ (Keeps-arena_span dst _) λ to. Keeps-level env st pd from to _ _

  Keeps-reduce_loop :
      (fuel : ℕ) (pd : PipelineData) (elem_size a b src n : ℕ) (toggle : Bool)
      → Keeps (J []) (Reduce.reduce_loop env fuel pd elem_size a b src n toggle)
  unfolding Reduce.reduce_loop
  Keeps-reduce_loop zero pd elem_size a b src n toggle = Keeps-stop
  Keeps-reduce_loop (suc fuel) pd elem_size a b src n toggle =
      elim (ltb 1 n)
        as (λ t. Keeps (J []) (elim t [
          | true ↦
              Reduce.reduce_level env pd elem_size src (Reduce.pick a b toggle) n
              >> Reduce.reduce_loop env fuel pd elem_size a b (Reduce.pick a b toggle)
                  (workgroups n) (not toggle)
          | false ↦ pure src
        ])) [
          | true ↦
              Keeps-then _ _ (Keeps-reduce_level pd elem_size src _ n)
                (Keeps-reduce_loop fuel pd elem_size a b _ _ _)
          | false ↦ Keeps-pure src
        ]

  Keeps-reduce_many :
      (pd : PipelineData) (ptr count elem_size result : ℕ)
      → Keeps (J []) (Reduce.reduce_many env pd ptr count elem_size result)
  unfolding Reduce.reduce_many
  Keeps-reduce_many pd ptr count elem_size result = Keeps-then _ _ Keeps-require_arena (
      Keeps-bind _ _ (Keeps-scratch env st _) λ a. Keeps-bind _ _ (Keeps-scratch env st _) λ b.
        Keeps-then _ _ (Keeps-non_null a) (
          Keeps-then _ _ (Keeps-non_null b) (
            Keeps-bind _ _ (Keeps-reduce_loop _ pd elem_size a b ptr count false) λ src.
              Keeps-then _ _ (Keeps-invalidate env st) (
                Keeps-then _ _ (Keeps-host_copy env st _ _ _) (
                  Keeps-then _ _ (Keeps-free env st a)
                    (Keeps-then _ _ (Keeps-free env st b) (Keeps-pure true)))))))

  pub Keeps-launch_reduce :
      (name ptr count elem_size result : ℕ)
      → Keeps (J []) (Reduce.launch_reduce env name ptr count elem_size result)
  unfolding Reduce.launch_reduce
  Keeps-launch_reduce name ptr count elem_size result = Keeps-scoped env st false _ (
      Keeps-bind _ _ (Keeps-find_pipeline name) λ pd.
        Keeps-if _ _ _ (Keeps-then _ _ (Keeps-clear env st _ _) (Keeps-pure true)) (
          Keeps-if _ _ _ (Keeps-then _ _ (Keeps-host_copy env st _ _ _) (Keeps-pure true))
            (Keeps-reduce_many pd ptr count elem_size result)))

  Keeps-scan_many :
      (scan_pd add_pd : PipelineData) (ptr count elem_size : ℕ) (again : ℕ → M P Bool)
      → ((sums : ℕ) → Keeps (J []) (again sums))
      → Keeps (J []) (Scan.scan_many env scan_pd add_pd ptr count elem_size again)
  unfolding Scan.scan_many Scan.add_offsets
  Keeps-scan_many scan_pd add_pd ptr count elem_size again h = Keeps-then _ _ Keeps-require_arena (
      Keeps-bind _ _ (Keeps-arena_holds ptr) λ inside.
        Keeps-bind _ _ (Keeps-operand env st ptr _) λ range.
          Keeps-bind _ _ (Keeps-scratch env st _) λ sums. Keeps-then _ _ (Keeps-non_null sums) (
            Keeps-bind _ _ (Keeps-arena_span sums _) λ at.
              Keeps-then _ _ (Keeps-level env st scan_pd range at _ _) (
                Keeps-then _ _
                  (Keeps-if _ _ _
                    (Keeps-then _ _ (Keeps-require _ (h sums))
                      (Keeps-level env st add_pd range at _ _))
                    Keeps-skip)
                  (Keeps-then _ _ (Keeps-if _ _ _ Keeps-skip (Keeps-after env st ptr))
                    (Keeps-then _ _ (Keeps-free env st sums) (Keeps-pure true))))))

  Keeps-scan_levels :
      (fuel scan_kernel add_kernel ptr count elem_size : ℕ)
      → Keeps (J []) (Scan.scan_levels env fuel scan_kernel add_kernel ptr count elem_size)
  unfolding Scan.scan_levels Scan.scan_step
  Keeps-scan_levels zero scan_kernel add_kernel ptr count elem_size = Keeps-stop
  Keeps-scan_levels (suc fuel) scan_kernel add_kernel ptr count elem_size =
      Keeps-scoped env st false _ (
        Keeps-bind _ _ (Keeps-find_pipeline scan_kernel) λ scan_pd.
          Keeps-bind _ _ (Keeps-find_pipeline add_kernel) λ add_pd.
            Keeps-if _ _ _ (Keeps-pure true) (
              Keeps-scan_many scan_pd add_pd ptr count elem_size _
                λ sums. Keeps-scan_levels fuel scan_kernel add_kernel sums _ elem_size))

  pub Keeps-launch_scan :
      (scan_kernel add_kernel ptr count elem_size : ℕ)
      → Keeps (J []) (Scan.launch_scan env scan_kernel add_kernel ptr count elem_size)
  unfolding Scan.launch_scan
  Keeps-launch_scan scan_kernel add_kernel ptr count elem_size =
      Keeps-scan_levels (suc count) scan_kernel add_kernel ptr count elem_size

  Keeps-shift :
      (pd : PipelineData) (src dst : Span) (count init n groups : ℕ)
      → Keeps (J []) (dispatch_exclusive_shift env pd src dst count init n groups)
  unfolding dispatch_exclusive_shift
  Keeps-shift pd src dst count init n groups = Keeps-dispatch env st pd _ _ groups

  pub Keeps-launch_exclusive_scan :
      (scan_kernel add_kernel shift_kernel input output count elem_size init : ℕ)
      → Keeps (J []) (
          Scan.launch_exclusive_scan env scan_kernel add_kernel shift_kernel input output count
            elem_size init)
  unfolding Scan.launch_exclusive_scan Scan.exclusive_many
  Keeps-launch_exclusive_scan scan_kernel add_kernel shift_kernel input output count elem_size
        init =
      Keeps-scoped env st false _ (
        Keeps-bind _ _ (Keeps-find_pipeline shift_kernel) λ pd. Keeps-if _ _ _ (Keeps-pure true) (
          Keeps-then _ _ Keeps-require_arena (
            Keeps-then _ _
              (Keeps-if _ _ _
                (Keeps-require _ (Keeps-launch_scan scan_kernel add_kernel input count elem_size))
                Keeps-skip)
              (Keeps-bind _ _ (Keeps-operand env st input _) λ src.
                Keeps-bind _ _ (Keeps-operand env st output _) λ dst.
                  Keeps-then _ _ (Keeps-shift pd src dst _ init elem_size _) (
                    Keeps-bind _ _ (Keeps-arena_holds output) λ inside.
                      Keeps-then _ _ (Keeps-if _ _ _ Keeps-skip (Keeps-after env st output))
                        (Keeps-pure true))))))

  Keeps-run_stages :
      (pd : PipelineData) (range : Span) (n : ℕ) (l : List (ℕ × ℕ))
      → Keeps (J []) (Sort.run_stages env pd range n l)
  unfolding Sort.run_stages dispatch_sort_stage
  Keeps-run_stages pd range n [] = Keeps-skip
  Keeps-run_stages pd range n ((k, j) ∷ l) =
      Keeps-then _ _ (Keeps-dispatch env st pd _ _ _) (Keeps-run_stages pd range n l)

  Keeps-after_stages :
      (pd : PipelineData) (range : Span) (inside : Bool) (ptr n : ℕ) (o : Option (List (ℕ × ℕ)))
      → Keeps (J []) (Sort.after_stages env pd range inside ptr n o)
  unfolding Sort.after_stages
  Keeps-after_stages pd range inside ptr n none = Keeps-pure none
  Keeps-after_stages pd range inside ptr n (some l) =
      Keeps-then _ _ (Keeps-run_stages pd range n l)
        (Keeps-then _ _ (Keeps-if _ _ _ Keeps-skip (Keeps-after env st ptr)) (Keeps-pure _))

  pub Keeps-launch_sort :
      (name ptr count elem_size : ℕ) → Keeps (J []) (Sort.launch_sort env name ptr count elem_size)
  unfolding Sort.launch_sort Sort.sort_many
  Keeps-launch_sort name ptr count elem_size = Keeps-scoped env st (some false) _ (
      Keeps-bind _ _ (Keeps-find_pipeline name) λ pd. Keeps-if _ _ _ (Keeps-pure _) (
        Keeps-then _ _ (Keeps-if _ _ _ Keeps-skip Keeps-stop) (
          Keeps-bind _ _ (Keeps-arena_holds ptr) λ inside.
            Keeps-bind _ _ (Keeps-operand env st ptr _)
              λ range. Keeps-after_stages pd range inside ptr _ _)))
