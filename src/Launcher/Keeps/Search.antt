-- ===== src/Launcher/Keeps/Search.antt =====
-- A stepwise predicate is kept by the searches of src/kernel/kernel_launcher.cpp.
use parallax_runtime.Prelude.{ℕ, Bool, []}
use parallax_runtime.Launcher.Device.{Env}
use parallax_runtime.Launcher.Search
use parallax_runtime.Launcher.Search.{Doubles}
use parallax_runtime.Launcher.Keeps.{
  Keeps, Owing, IsStepwise, Keeps-bind, Keeps-then, Keeps-pure, Keeps-if, Keeps-gets,
}
use parallax_runtime.Launcher.Keeps.Methods.{
  Keeps-find_pipeline, Keeps-require_arena, Keeps-non_null, Keeps-arena_span, Keeps-scoped,
  Keeps-dispatch, Keeps-operand, Keeps-scratch, Keeps-free, Keeps-invalidate,
}

module _ {P : Type 0} (env : Env P) {J : Owing P} (st : IsStepwise env J) where
  Keeps-find_body :
      (name ptr count elem_size : ℕ) (negate : Bool) (value : ℕ)
      → Keeps (J []) (Search.find_body env name ptr count elem_size negate value)
  unfolding Search.find_body
  Keeps-find_body name ptr count elem_size negate value =
      Keeps-bind _ _ (Keeps-find_pipeline name) λ pd. Keeps-if _ _ _ (Keeps-pure 0) (
        Keeps-then _ _ Keeps-require_arena (
          Keeps-bind _ _ (Keeps-operand env st ptr _) λ src.
            Keeps-bind _ _ (Keeps-scratch env st _) λ out. Keeps-then _ _ (Keeps-non_null out) (
              Keeps-bind _ _ (Keeps-arena_span out _) λ dst.
                Keeps-then _ _ (Keeps-dispatch env st pd _ _ _) (
                  Keeps-then _ _ (Keeps-invalidate env st) (
                    Keeps-bind _ _ (Keeps-gets _)
                      λ best. Keeps-then _ _ (Keeps-free env st out) (Keeps-pure best))))))

  pub Keeps-launch_find :
      (name ptr count elem_size : ℕ) (negate : Bool) (value : ℕ)
      → Keeps (J []) (Search.launch_find env name ptr count elem_size negate value)
  unfolding Search.launch_find
  Keeps-launch_find name ptr count elem_size negate value =
      Keeps-scoped env st count _ (Keeps-find_body name ptr count elem_size negate value)

  Keeps-mismatch_body :
      (name a b count elem_size : ℕ)
      → Keeps (J []) (Search.mismatch_body env name a b count elem_size)
  unfolding Search.mismatch_body
  Keeps-mismatch_body name a b count elem_size = Keeps-bind _ _ (Keeps-find_pipeline name) λ pd.
      Keeps-if _ _ _ (Keeps-pure 0) (
        Keeps-then _ _ Keeps-require_arena (
          Keeps-bind _ _ (Keeps-operand env st a _) λ first.
            Keeps-bind _ _ (Keeps-operand env st b _) λ second.
              Keeps-bind _ _ (Keeps-scratch env st _) λ out. Keeps-then _ _ (Keeps-non_null out) (
                Keeps-bind _ _ (Keeps-arena_span out _) λ dst.
                  Keeps-then _ _ (Keeps-dispatch env st pd _ _ _) (
                    Keeps-then _ _ (Keeps-invalidate env st) (
                      Keeps-bind _ _ (Keeps-gets _)
                        λ best. Keeps-then _ _ (Keeps-free env st out) (Keeps-pure best))))))

  pub Keeps-launch_mismatch :
      (name a b count elem_size : ℕ)
      → Keeps (J []) (Search.launch_mismatch env name a b count elem_size)
  unfolding Search.launch_mismatch
  Keeps-launch_mismatch name a b count elem_size =
      Keeps-scoped env st count _ (Keeps-mismatch_body name a b count elem_size)

  Keeps-extremum_body :
      {D : Type 0} (dbl : Doubles D) (name ptr count elem_size : ℕ)
      (is_float want_max want_last : Bool)
      → Keeps
          (J [])
          (Search.extremum_body env dbl name ptr count elem_size is_float want_max want_last)
  unfolding Search.extremum_body
  Keeps-extremum_body dbl name ptr count elem_size is_float want_max want_last =
      Keeps-bind _ _ (Keeps-find_pipeline name) λ pd. Keeps-if _ _ _ (Keeps-pure 0) (
        Keeps-then _ _ Keeps-require_arena (
          Keeps-bind _ _ (Keeps-operand env st ptr _) λ src.
            Keeps-bind _ _ (Keeps-scratch env st _) λ vals.
              Keeps-bind _ _ (Keeps-scratch env st _) λ idxs. Keeps-then _ _ (Keeps-non_null vals) (
                Keeps-then _ _ (Keeps-non_null idxs) (
                  Keeps-bind _ _ (Keeps-arena_span vals _) λ winners.
                    Keeps-bind _ _ (Keeps-arena_span idxs _) λ indices.
                      Keeps-then _ _ (Keeps-dispatch env st pd _ _ _) (
                        Keeps-then _ _ (Keeps-invalidate env st) (
                          Keeps-bind _ _ (Keeps-gets _) λ best.
                            Keeps-then _ _ (Keeps-free env st vals)
                              (Keeps-then _ _ (Keeps-free env st idxs) (Keeps-pure _))))))))

  pub Keeps-launch_argminmax :
      {D : Type 0} (dbl : Doubles D) (name ptr count elem_size : ℕ)
      (is_float want_max want_last : Bool)
      → Keeps
          (J [])
          (Search.launch_argminmax env dbl name ptr count elem_size is_float want_max want_last)
  unfolding Search.launch_argminmax
  Keeps-launch_argminmax dbl name ptr count elem_size is_float want_max want_last =
      Keeps-scoped env st count _
        (Keeps-extremum_body dbl name ptr count elem_size is_float want_max want_last)
