-- ===== src/Launcher/Keeps/Methods.antt =====
-- A stepwise predicate is kept by the steps that the methods of src/kernel/kernel_launcher.cpp share,
-- and by each dispatch.
use parallax_runtime.Prelude.{ℕ, ◌≡◌, refl, sym, ap, Bool, Option, none, some, List, [], ◌∷◌, ◌+◌}
use mathlib.Core.Path.{subst}
use parallax_runtime.Vulkan.{
  Command, Trace, Kind, host_copy, find_memory_type, host_visible, host_coherent,
}
use parallax_runtime.Launcher.Device.{
  Binding, take_set, write_set, uniform, vk, host_clear, host_store, push_all, Push, PipelineData,
  Span, Env, Machine, M, emit, pure, skip, stop, gets, change, ◌>>=◌, ◌>>◌,
}
use parallax_runtime.Launcher.Steps
use parallax_runtime.Launcher.Quiet.{
  IsQuiet, invalidate-IsQuiet, enter-IsQuiet, leave-IsQuiet, before-IsQuiet, register-IsQuiet,
}
use parallax_runtime.Launcher.Dispatch
use parallax_runtime.MemoryManager
use parallax_runtime.Arena as Arena
use parallax_runtime.Launcher.{enter, leave}
use parallax_runtime.Launcher.Keeps.{
  Keeps, keeps_rules, Owing, IsStepwise, Keeps-bind, Keeps-then, Keeps-if, Keeps-skip, Keeps-stop,
  Sure, Sure-skip, then_at,
}

module _ {P : Type 0} {I : Machine P → Type 0} where
  pub Keeps-cached_set : (key : ℕ × ℕ) → Keeps I (Steps.cached_set key)
  unfolding Steps.cached_set
  Keeps-cached_set key = search keeps_rules

  pub Keeps-find_pipeline : (name : ℕ) → Keeps I (Steps.find_pipeline name)
  unfolding Steps.find_pipeline
  Keeps-find_pipeline name = search keeps_rules

  pub Keeps-require_arena : Keeps I Steps.require_arena
  unfolding Steps.require_arena
  Keeps-require_arena = search keeps_rules

  pub Keeps-non_null : (ptr : ℕ) → Keeps I (Steps.non_null ptr)
  unfolding Steps.non_null
  Keeps-non_null ptr = search keeps_rules

  pub Keeps-require : (m : M P Bool) → Keeps I m → Keeps I (Steps.require m)
  unfolding Steps.require
  Keeps-require m h = Keeps-bind m _ h (λ done. Keeps-if done skip stop Keeps-skip Keeps-stop)

  pub Keeps-arena_holds : (ptr : ℕ) → Keeps I (Steps.arena_holds ptr)
  unfolding Steps.arena_holds
  Keeps-arena_holds ptr = search keeps_rules

  pub Keeps-arena_span : (ptr n : ℕ) → Keeps I (Steps.arena_span ptr n)
  unfolding Steps.arena_span
  Keeps-arena_span ptr n = search keeps_rules

  pub Keeps-get_buffer : (ptr : ℕ) → Keeps I (Steps.get_buffer ptr)
  unfolding Steps.get_buffer
  Keeps-get_buffer ptr = search keeps_rules

pub ruleset reading_rules = (
  Keeps-cached_set, Keeps-find_pipeline, Keeps-require_arena, Keeps-non_null, Keeps-require,
  Keeps-arena_holds, Keeps-arena_span, Keeps-get_buffer,
)

module _ {P : Type 0} (env : Env P) {J : Owing P} (st : IsStepwise env J) where
  -- A change outside of the launcher.
  quiet_frame :
      (owed : List (ℕ × ℕ)) (s s' : Machine P) (t : Trace)
      → IsQuiet t
      → s'.launcher ≡ s.launcher
      → s'.events ≡ push_all t s.events
      → J owed s
      → J owed s'
  quiet_frame owed s s' t q = st.frame owed s s' t (st.allows t q)

  pub Keeps-host_copy : (dst src n : ℕ) → Keeps (J []) (emit (vk (host_copy dst src n)))
  Keeps-host_copy dst src n = record { at = λ s. st.note [] (vk (host_copy dst src n)) s tt }

  pub Keeps-clear : (a n : ℕ) → Keeps (J []) (emit (host_clear a n))
  Keeps-clear a n = record { at = λ s. st.note [] (host_clear a n) s tt }

  pub Keeps-store : (a n : ℕ) → Keeps (J []) (emit (host_store a n))
  Keeps-store a n = record { at = λ s. st.note [] (host_store a n) s tt }

  Keeps-write : (set : ℕ) (bs : List Binding) → Keeps (J []) (emit (write_set set bs))
  Keeps-write set bs = record { at = λ s. st.note [] (write_set set bs) s tt }

  Keeps-take_set : (layout set : ℕ) → Keeps (J []) (emit (take_set layout set))
  Keeps-take_set layout set = record { at = λ s. st.note [] (take_set layout set) s tt }

  pub Keeps-take : (layout : ℕ) → Keeps (J []) (Steps.take_descriptor_set env layout)
  unfolding Steps.take_descriptor_set
  Keeps-take layout = search (keeps_rules, Keeps-take_set)

  -- The steps while a uniform buffer is owed.
  pub Sure-write :
      (u : ℕ × ℕ) (set : ℕ) (bs : List Binding) → Sure (J (u ∷ [])) (emit (write_set set bs))
  unfolding emit
  Sure-write u set bs = record {
    kept = λ s. st.note (u ∷ []) (write_set set bs) s tt;
    goes_on = λ s. refl;
  }

  pub Sure-cache : (u key : ℕ × ℕ) (set : ℕ) → Sure (J (u ∷ [])) (Steps.cache_set key set)
  unfolding Steps.cache_set change
  Sure-cache u key set = record { kept = λ s. st.caches (u ∷ []) key set s; goes_on = λ s. refl }

  pub Keeps-using :
      (size : ℕ) (use_it : ℕ × ℕ → M P (Unit {0}))
      → ((u : ℕ × ℕ) → Sure (J (u ∷ [])) (use_it u))
      → Keeps (J []) (Steps.using_uniform (Steps.make_uniform env size) use_it)
  unfolding Steps.using_uniform Steps.make_uniform ◌>>=◌ ◌>>◌ gets pure emit Steps.keep_uniform
      change
  Keeps-using size use_it sure = record {
    at = λ s h.
        let b = Steps.handle (env.makes s.events Kind.buffer) in
        let m = Steps.handle (env.makes s.events Kind.memory) in
        let needs = env.requirements b in
        let kind = find_memory_type env.types needs.1 (host_visible + host_coherent) in
        let s1 = (emit (uniform size needs.0 kind b m) s).1 in
        subst (λ r. J [] r.1)
          (sym (
            then_at (use_it (b, m)) (Steps.keep_uniform (b, m) >> pure (b, m)) s1
              ((sure (b, m)).goes_on s1)))
          (st.keeps (b, m) _ ((sure (b, m)).kept s1 (st.makes size needs.0 kind b m s h)));
  }

  pub Sure-frame :
      (u : ℕ × ℕ) (m : M P (Unit {0})) (t : Machine P → List Command)
      → ((s : Machine P) → m s ≡ (some tt, record s { events = push_all (t s) s.events }))
      → ((s : Machine P) → IsQuiet (t s))
      → Sure (J (u ∷ [])) m
  Sure-frame u m t e quiet = record {
    kept = λ s h. rw (e s) (quiet_frame (u ∷ []) s _ (t s) (quiet s) refl refl h);
    goes_on = λ s. ap (λ r. r.0) (e s);
  }

  pub Keeps-before : (ptr : ℕ) → Keeps (J []) (Steps.sync_before_kernel ptr)
  unfolding Steps.sync_before_kernel
  Keeps-before ptr = record {
    at = λ s.
        quiet_frame [] s _ (MemoryManager.sync_before_kernel s.manager ptr).1
          (before-IsQuiet s.manager ptr) refl refl;
  }

  pub Keeps-after : (ptr : ℕ) → Keeps (J []) (Steps.sync_after_kernel ptr)
  unfolding Steps.sync_after_kernel
  Keeps-after ptr = record { at = λ s. quiet_frame [] s _ [] tt refl refl }

  pub Keeps-register : (ptr n : ℕ) → Keeps (J []) (Steps.register_external_buffer env ptr n)
  unfolding Steps.register_external_buffer
  Keeps-register ptr n = record {
    at = λ s.
        quiet_frame [] s _
          (MemoryManager.register_external_buffer (env.answers s.events) s.manager ptr n).2
          (register-IsQuiet (env.answers s.events) s.manager ptr n) refl refl;
  }

  Keeps-invalidate_at :
      (s : Machine P) (a : Option Arena.Arena) → s.arena ≡ a → J [] s → J [] (Steps.invalidate s).1
  unfolding Steps.invalidate
  Keeps-invalidate_at s none e h = rw e h
  Keeps-invalidate_at s (some r) e h = rw e (
      quiet_frame [] s _ (Arena.Migrate.invalidate_from_device r) (invalidate-IsQuiet r) refl refl
        h)

  pub Keeps-invalidate : Keeps (J []) Steps.invalidate
  Keeps-invalidate = record { at = λ s. Keeps-invalidate_at s s.arena refl }

  Keeps-scratch_in :
      (a : Option Arena.Arena) (size : ℕ) → Keeps (J []) (Steps.scratch_in env a size)
  unfolding Steps.scratch_in
  Keeps-scratch_in none size = record { at = λ s h. h }
  Keeps-scratch_in (some r) size = record { at = λ s. quiet_frame [] s _ [] tt refl refl }

  pub Keeps-scratch : (size : ℕ) → Keeps (J []) (Steps.allocate_scratch env size)
  unfolding Steps.allocate_scratch
  Keeps-scratch size = record { at = λ s. (Keeps-scratch_in s.arena size).at s }

  Keeps-free_in : (a : Option Arena.Arena) (ptr : ℕ) → Keeps (J []) (Steps.free_in env a ptr)
  unfolding Steps.free_in
  Keeps-free_in none ptr = record { at = λ s h. h }
  Keeps-free_in (some r) ptr = record { at = λ s. quiet_frame [] s _ [] tt refl refl }

  pub Keeps-free : (ptr : ℕ) → Keeps (J []) (Steps.free_scratch env ptr)
  unfolding Steps.free_scratch
  Keeps-free ptr = record { at = λ s. (Keeps-free_in s.arena ptr).at s }

  Keeps-scoped_at :
      {A : Type 0} (failed : A) (body : M P A) (s : Machine P)
      → Keeps (J []) body
      → J [] s
      → J [] (Steps.scoped failed body s).1
  unfolding Steps.scoped
  Keeps-scoped_at failed body s k h =
      let opened = enter s.arena s.depth in
      let s0 : Machine P = record s { depth = opened.1; events = push_all opened.2 s.events } in
      let (r, s1) = body s0 in
      let closed = leave opened.0 s1.arena s1.depth in
      quiet_frame [] s1 _ closed.1 (leave-IsQuiet opened.0 s1.arena s1.depth) refl refl
        (k.at s0 (quiet_frame [] s s0 opened.2 (enter-IsQuiet s.arena s.depth) refl refl h))

  pub Keeps-scoped :
      {A : Type 0} (failed : A) (body : M P A)
      → Keeps (J []) body
      → Keeps (J []) (Steps.scoped failed body)
  Keeps-scoped failed body k = record { at = λ s. Keeps-scoped_at failed body s k }

  pub Keeps-dispatch :
      (pd : PipelineData) (bindings : ℕ → List Binding) (push : Machine P → Push) (groups : ℕ)
      → Keeps (J []) (Dispatch.dispatch_with env pd bindings push groups)
  unfolding Dispatch.dispatch_with
  Keeps-dispatch pd bindings push groups =
      Keeps-bind _ _ (Keeps-take pd.descriptor_set_layout) λ set.
        Keeps-bind _ _ (Keeps-using 64 (λ u. skip) (λ u. Sure-skip)) λ dummy.
          Keeps-then _ _ (Keeps-write set (bindings dummy.0))
            (Keeps-then _ _ (st.submits pd set push groups) st.syncs)

  pub Keeps-level :
      (pd : PipelineData) (src dst : Span) (count groups : ℕ)
      → Keeps (J []) (Dispatch.dispatch_reduce_level env pd src dst count groups)
  unfolding Dispatch.dispatch_reduce_level
  Keeps-level pd src dst count groups = Keeps-dispatch pd _ _ groups

  pub Keeps-external : (ptr size : ℕ) → Keeps (J []) (Steps.external_span env ptr size)
  unfolding Steps.external_span
  Keeps-external ptr size =
      search (keeps_rules, reading_rules, Keeps-register, Keeps-before) depth 20 fits 3000

  pub Keeps-operand : (ptr range : ℕ) → Keeps (J []) (Steps.operand env ptr range)
  unfolding Steps.operand
  Keeps-operand ptr range = search (keeps_rules, reading_rules, Keeps-external)

pub ruleset step_rules = (
  keeps_rules, reading_rules, Keeps-host_copy, Keeps-clear, Keeps-store, Keeps-take, Keeps-before,
  Keeps-after, Keeps-register, Keeps-invalidate, Keeps-scratch, Keeps-free, Keeps-level,
  Keeps-operand,
)
