-- ===== src/Launcher/Stale.antt =====
-- Launches of src/kernel/kernel_launcher.cpp that find their descriptor set in the cache.
use parallax_runtime.Prelude.{
  ℕ, ◌≡◌, refl, sym, ap, ◌∙◌, Bool, true, false, Option, none, some, mul64, ltb, find,
}
use mathlib.Core.Path.{subst}
use parallax_runtime.Launcher.{enter, leave}
use parallax_runtime.Launcher.Device.{
  PipelineData, KernelLauncher, Span, Env, Machine, M, ◌>>=◌, ◌>>◌, pure, gets, or_stop, push_all,
}
use parallax_runtime.Launcher.Steps.{
  find_set, cached_set, find_pipeline, scoped, register_external_buffer, sync_before_kernel, bases,
  workgroups, submit,
}
use parallax_runtime.Launcher.Single
use parallax_runtime.Launcher.Single.{data_span, cached_or_captures, launch_with_captures, or_whole}
use parallax_runtime.Launcher.Keeps.{
  Keeps, Keeps-bind, Keeps-then, Keeps-if, Keeps-pure, Keeps-skip, Keeps-stop,
}
use parallax_runtime.Launcher.Keeps.Methods.{Keeps-get_buffer, Keeps-arena_holds, Keeps-arena_span}

module _ {P : Type 0} where
  -- The launcher's members are as they were.
  abbrev IsLauncher : KernelLauncher → Machine P → Type 0
  IsLauncher k s = s.launcher ≡ k

  bind_with : {A B : Type 0} → Option A × Machine P → (A → M P B) → Option B × Machine P
  bind_with (none, s) f = (none, s)
  bind_with (some a, s) f = f a s

  bind_at :
      {A B : Type 0} (m : M P A) (f : A → M P B) (s : Machine P) → (m >>= f) s ≡ bind_with (m s) f
  unfolding ◌>>=◌ bind_with
  bind_at m f s = bind_pair (m s)
    where
      bind_pair :
          (r : Option _ × Machine P)
          → elim r.0 [ none ↦ (none, r.1) | some a ↦ f a r.1 ] ≡ bind_with r f
      bind_pair (none, s') = refl
      bind_pair (some a, s') = refl

  bind_with-cong :
      {A B : Type 0} (r : Option A × Machine P) (f g : A → M P B)
      → ((a : A) → r.0 ≡ some a → f a r.1 ≡ g a r.1)
      → bind_with r f ≡ bind_with r g
  unfolding bind_with
  bind_with-cong (none, s) f g h = refl
  bind_with-cong (some a, s) f g h = h a refl

  -- Two continuations that agree where `m` leads.
  bind_cong :
      {A B : Type 0} (m : M P A) (f g : A → M P B) (s : Machine P)
      → ((a : A) → (m s).0 ≡ some a → f a (m s).1 ≡ g a (m s).1)
      → (m >>= f) s ≡ (m >>= g) s
  bind_cong m f g s h = bind_at m f s ∙ bind_with-cong (m s) f g h ∙ sym (bind_at m g s)

module _ {P : Type 0} (env : Env P) (k : KernelLauncher) where
  register-IsLauncher : (ptr n : ℕ) → Keeps (IsLauncher k) (register_external_buffer env ptr n)
  unfolding register_external_buffer
  register-IsLauncher ptr n = record { at = λ s h. h }

  before-IsLauncher : (ptr : ℕ) → Keeps {P = P} (IsLauncher k) (sync_before_kernel ptr)
  unfolding sync_before_kernel
  before-IsLauncher ptr = record { at = λ s h. h }

  table-IsLauncher :
      (wanted : Bool) (ptr n : ℕ) → Keeps (IsLauncher k) (Single.table_buffer env wanted ptr n)
  unfolding Single.table_buffer
  table-IsLauncher wanted ptr n = Keeps-bind _ _ (Keeps-get_buffer ptr) λ old.
      Keeps-then _ _ (Keeps-if _ _ _ (register-IsLauncher ptr n) Keeps-skip) (Keeps-get_buffer ptr)

  data-IsLauncher : (wanted : Bool) (ptr n : ℕ) → Keeps (IsLauncher k) (data_span env wanted ptr n)
  unfolding data_span Single.data_outside
  data-IsLauncher wanted ptr n = Keeps-bind _ _ (Keeps-arena_holds ptr) λ inside.
      Keeps-if inside _ _ (Keeps-arena_span ptr n) (
        Keeps-bind _ _ (table-IsLauncher wanted ptr n) λ buf.
          Keeps-then _ _ (Keeps-if _ _ _ Keeps-stop Keeps-skip)
            (Keeps-then _ _ (before-IsLauncher ptr) (Keeps-pure _)))

module _ {P : Type 0} (env : Env P) (name ptr count elem_size captures size captures' size' : ℕ)
    (pd : PipelineData) (set : ℕ) where
  -- The method from the look-up of its set on, and what follows that.
  rest : ℕ → ℕ → PipelineData → Span → Option ℕ → M P Bool
  rest c n q operand hit = do
    found ← cached_or_captures env hit q ptr (record operand { range = or_whole operand.range }) c n
    submit env q found (bases count) (workgroups count)
    pure true

  tail : ℕ → ℕ → PipelineData → Span → M P Bool
  tail c n q operand = do hit ← cached_set (q.descriptor_set_layout, ptr); rest c n q operand hit

  rest_same :
      (operand : Span) (hit : Option ℕ)
      → hit ≡ some set
      → rest captures size pd operand hit ≡ rest captures' size' pd operand hit
  unfolding rest cached_or_captures
  rest_same operand hit e =
      subst (λ h. rest captures size pd operand h ≡ rest captures' size' pd operand h) (sym e) refl

  tail_same :
      (operand : Span) (s : Machine P)
      → find_set (pd.descriptor_set_layout, ptr) s.launcher.descriptor_cache ≡ some set
      → tail captures size pd operand s ≡ tail captures' size' pd operand s
  unfolding tail cached_set gets
  tail_same operand s e =
      bind_cong (cached_set (pd.descriptor_set_layout, ptr)) _ _ s
        (λ hit h. ap (λ m. m s) (rest_same operand hit (cc)))

  after_find : ℕ → ℕ → PipelineData → M P Bool
  after_find c n q = do
    operand ← data_span env (ltb 0 (mul64 count elem_size)) ptr (mul64 count elem_size)
    tail c n q operand

  body : ℕ → ℕ → M P Bool
  body c n = do q ← find_pipeline name; after_find c n q

  found_same :
      (s : Machine P)
      → find_set (pd.descriptor_set_layout, ptr) s.launcher.descriptor_cache ≡ some set
      → after_find captures size pd s ≡ after_find captures' size' pd s
  unfolding after_find
  found_same s h =
      bind_cong (data_span env (ltb 0 (mul64 count elem_size)) ptr (mul64 count elem_size))
        (tail captures size pd) (tail captures' size' pd) s
        (λ operand found. tail_same operand _ (
          ap (λ k. find_set (pd.descriptor_set_layout, ptr) k.descriptor_cache)
            ((data-IsLauncher env s.launcher _ ptr _).at s refl)
          ∙ h))

  found_pipeline :
      (q : PipelineData) (s : Machine P)
      → find name s.launcher.pipelines ≡ some pd
      → (find_pipeline name s).0 ≡ some q
      → pd ≡ q
  unfolding find_pipeline ◌>>=◌ gets or_stop
  found_pipeline q s e f = cc

  body_same :
      (s : Machine P)
      → find name s.launcher.pipelines ≡ some pd
      → find_set (pd.descriptor_set_layout, ptr) s.launcher.descriptor_cache ≡ some set
      → body captures size s ≡ body captures' size' s
  unfolding body find_pipeline gets or_stop ◌>>=◌
  body_same s e h =
      bind_cong (find_pipeline name) (after_find captures size) (after_find captures' size') s
        (λ q f.
          subst (λ p. after_find captures size p s ≡ after_find captures' size' p s)
            (found_pipeline q s e f) (found_same s h))

  -- A launch with captures that finds a set in the cache of its kernel's layout and its pointer does
  -- the same whatever bytes it is given to capture: neither the pointer nor the size of the captures
  -- changes what it returns, its commands, or the state after it. So the kernel runs with the captures
  -- of the launch that filled the cache.
  pub launch_with_captures_stale :
      (s : Machine P)
      → find name s.launcher.pipelines ≡ some pd
      → find_set (pd.descriptor_set_layout, ptr) s.launcher.descriptor_cache ≡ some set
      → launch_with_captures env name ptr count captures size elem_size s
        ≡ launch_with_captures env name ptr count captures' size' elem_size s
  unfolding launch_with_captures scoped body after_find tail rest
  launch_with_captures_stale s e h =
      ap
        (λ r.
          let (depth2, t2) = leave (enter s.arena s.depth).0 r.1.arena r.1.depth in
          (
            elim r.0 [ none ↦ some false | some a ↦ some a ],
            record r.1 { depth = depth2; events = push_all t2 r.1.events },
          ))
        (body_same
          (record s {
            depth = (enter s.arena s.depth).1;
            events = push_all (enter s.arena s.depth).2 s.events;
          })
          e h)
