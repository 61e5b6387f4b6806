-- ===== src/Launcher/Keeps/Single.antt =====
-- A stepwise predicate is kept by `launch`, `launch_transform` and `launch_with_captures` of
-- src/kernel/kernel_launcher.cpp.
use parallax_runtime.Prelude.{ℕ, Bool, true, false, Option, none, some, [], ◌∷◌, max, refl}
use parallax_runtime.Launcher.Device.{PipelineData, Span, Env}
use parallax_runtime.Vulkan.{create, destroy, host_copy, mapping}
use parallax_runtime.Launcher.Steps.{handle}
use parallax_runtime.Launcher.Single
use parallax_runtime.Launcher.Keeps.{
  Keeps, Owing, IsStepwise, Keeps-bind, Keeps-then, Keeps-pure, Keeps-if, Keeps-skip, Keeps-stop,
  keeps_rules, Sure, Sure-then, Sure-if, Sure-skip,
}
use parallax_runtime.Launcher.Keeps.Methods.{
  reading_rules, Keeps-take, Keeps-scoped, Keeps-find_pipeline, Keeps-cached_set, Keeps-using,
  Sure-write, Sure-cache, Sure-frame, Keeps-register, Keeps-before,
}

module _ {P : Type 0} (env : Env P) {J : Owing P} (st : IsStepwise env J) where
  Keeps-table :
      (wanted : Bool) (ptr size : ℕ) → Keeps (J []) (Single.table_buffer env wanted ptr size)
  unfolding Single.table_buffer
  Keeps-table wanted ptr size = search (keeps_rules, reading_rules, Keeps-register env st)

  Keeps-outside : (wanted : Bool) (ptr n : ℕ) → Keeps (J []) (Single.data_outside env wanted ptr n)
  unfolding Single.data_outside
  Keeps-outside wanted ptr n = search (keeps_rules, Keeps-table, Keeps-before env st)

  Keeps-data : (wanted : Bool) (ptr n : ℕ) → Keeps (J []) (Single.data_span env wanted ptr n)
  unfolding Single.data_span
  Keeps-data wanted ptr n = search (keeps_rules, reading_rules, Keeps-outside)

  Keeps-use : (hit : Option ℕ) (pd : PipelineData) → Keeps (J []) (Single.use_or_take env hit pd)
  unfolding Single.use_or_take
  Keeps-use none pd = Keeps-take env st pd.descriptor_set_layout
  Keeps-use (some set) pd = Keeps-pure set

  pub Keeps-launch :
      (name ptr count elem_size : ℕ) → Keeps (J []) (Single.launch env name ptr count elem_size)
  unfolding Single.launch
  Keeps-launch name ptr count elem_size = Keeps-scoped env st false _ (
      Keeps-bind _ _ (Keeps-find_pipeline name) λ pd.
        Keeps-bind _ _ (Keeps-data true ptr _) λ operand. Keeps-bind _ _ (Keeps-cached_set _) λ hit.
          Keeps-bind _ _ (Keeps-use hit pd) λ set.
            Keeps-bind _ _
              (Keeps-using env st 64 _
                λ u. Sure-then _ _ (Sure-write env st u set _) (Sure-cache env st u _ set))
              λ dummy. Keeps-then _ _ (st.submits pd set _ _) (Keeps-pure true))

  Sure-copy :
      (u : ℕ × ℕ) (mem captures size : ℕ)
      → Sure (J (u ∷ [])) (Single.copy_captures env mem captures size)
  unfolding Single.copy_captures
  Sure-copy u mem captures size =
      Sure-frame env st u (Single.copy_captures env mem captures size)
        (λ s.
          create mapping mem
          ∷ host_copy (handle (env.makes s.events mapping)) captures size
          ∷ destroy mapping mem
          ∷ [])
        (λ s. refl) (λ s. (tt, (tt, (tt, tt))))

  Sure-fill :
      (u : ℕ × ℕ) (captures size : ℕ) → Sure (J (u ∷ [])) (Single.fill_uniform env u captures size)
  unfolding Single.fill_uniform
  Sure-fill u captures size = Sure-if _ _ _ (Sure-copy u u.1 captures size) Sure-skip

  Keeps-captures_set :
      (pd : PipelineData) (ptr : ℕ) (operand : Span) (captures size : ℕ)
      → Keeps (J []) (Single.captures_set env pd ptr operand captures size)
  unfolding Single.captures_set
  Keeps-captures_set pd ptr operand captures size = Keeps-bind _ _ (Keeps-take env st _) λ set.
      Keeps-bind _ _
        (Keeps-using env st (max size 64) _ λ u.
          Sure-then _ _ (Sure-fill u captures size)
            (Sure-then _ _ (Sure-write env st u set _) (Sure-cache env st u _ set)))
        λ u. Keeps-pure set

  Keeps-cached_captures :
      (hit : Option ℕ) (pd : PipelineData) (ptr : ℕ) (operand : Span) (captures size : ℕ)
      → Keeps (J []) (Single.cached_or_captures env hit pd ptr operand captures size)
  unfolding Single.cached_or_captures
  Keeps-cached_captures none pd ptr operand c n = Keeps-captures_set pd ptr operand c n
  Keeps-cached_captures (some set) pd ptr operand c n = Keeps-pure set

  pub Keeps-launch_with_captures :
      (name ptr count captures size elem_size : ℕ)
      → Keeps (J []) (Single.launch_with_captures env name ptr count captures size elem_size)
  unfolding Single.launch_with_captures
  Keeps-launch_with_captures name ptr count captures size elem_size = Keeps-scoped env st false _ (
      Keeps-bind _ _ (Keeps-find_pipeline name) λ pd. Keeps-bind _ _ (Keeps-data _ ptr _) λ operand.
        Keeps-bind _ _ (Keeps-cached_set _) λ hit.
          Keeps-bind _ _ (Keeps-cached_captures hit pd ptr _ captures size)
            λ set. Keeps-then _ _ (st.submits pd set _ _) (Keeps-pure true))

  Keeps-transform_span : (ptr n : ℕ) → Keeps (J []) (Single.transform_span env ptr n)
  unfolding Single.transform_span
  Keeps-transform_span ptr n =
      search (keeps_rules, reading_rules, Keeps-table, Keeps-before env st) depth 20 fits 3000

  Keeps-transform_set :
      (pd : PipelineData) (ptr : ℕ) (src dst : Span) (captures size : ℕ)
      → Keeps (J []) (Single.transform_set env pd ptr src dst captures size)
  unfolding Single.transform_set
  Keeps-transform_set pd ptr src dst captures size = Keeps-bind _ _ (Keeps-take env st _) λ set.
      Keeps-bind _ _
        (Keeps-using env st (max size 64) _ λ u. Sure-then _ _ (Sure-fill u captures size) (
          Sure-then _ _ (Sure-write env st u set _)
            (Sure-if _ _ _ Sure-skip (Sure-cache env st u _ set))))
        λ u. Keeps-pure set

  Keeps-cached_transform :
      (hit : Option ℕ) (pd : PipelineData) (ptr : ℕ) (src dst : Span) (captures size : ℕ)
      → Keeps (J []) (Single.cached_or_transform env hit pd ptr src dst captures size)
  unfolding Single.cached_or_transform
  Keeps-cached_transform none pd ptr src dst c n = Keeps-transform_set pd ptr src dst c n
  Keeps-cached_transform (some set) pd ptr src dst c n =
      Keeps-if _ _ _ (Keeps-transform_set pd ptr src dst c n) (Keeps-pure set)

  pub Keeps-launch_transform :
      (name in_ptr out_ptr count elem_size out_elem_size captures size : ℕ)
      → Keeps (J []) (
          Single.launch_transform env name in_ptr out_ptr count elem_size out_elem_size captures
            size)
  unfolding Single.launch_transform
  Keeps-launch_transform name in_ptr out_ptr count elem_size out_elem_size captures size =
      Keeps-scoped env st false _ (
        Keeps-bind _ _ (Keeps-find_pipeline name) λ pd.
          Keeps-bind _ _ (Keeps-transform_span in_ptr _) λ src.
            Keeps-bind _ _ (Keeps-transform_span out_ptr _) λ dst.
              Keeps-then _ _ (Keeps-if _ _ _ Keeps-stop Keeps-skip) (
                Keeps-bind _ _ (Keeps-cached_set _) λ hit.
                  Keeps-bind _ _ (Keeps-cached_transform hit pd out_ptr src dst captures size)
                    λ set. Keeps-then _ _ (st.submits pd set _ _) (Keeps-pure true)))
