-- ===== src/Launcher/Uniforms.antt =====
-- The life of the uniform buffers of src/kernel/kernel_launcher.cpp.
use parallax_runtime.Prelude.{
  ℕ, ◌≡◌, refl, sym, ap, ◌∙◌, Bool, true, false, Option, List, [], ◌∷◌, ◌++◌, ◌==◌, if◌then◌else◌,
}
use mathlib.Core.List.{append-nil}
use parallax_runtime.Vulkan.{Trace}
use parallax_runtime.Arena.{Arena}
use parallax_runtime.MemoryManager.{Manager}
use parallax_runtime.Launcher.Device.{
  Event, Events, vk, uniform, take_set, write_set, wait_fence, reset_fence, record_commands,
  submitted, refused, host_clear, host_store, push_all, Push, PipelineData, Env, Machine, emit,
  change, sync,
}
use parallax_runtime.Launcher.Steps.{submit, finish_submit, refuse_submit, cache_set, keep_uniform}
use parallax_runtime.Launcher.Pipelines.{
  Made, construct, destroy_uniforms, retire_transient_buffers,
}
use parallax_runtime.Launcher.Search.{Doubles}
use parallax_runtime.Launcher.Keeps.{
  Keeps, IsNote, IsStepwise, Keeps-then, Keeps-bind, Keeps-if, Keeps-gets, Keeps-stop,
}
use parallax_runtime.Launcher.Calls.{Call, start, run, run-keeps, others_do}

-- The uniform buffers that were made, oldest first.
abbrev pub uniforms : Events → List (ℕ × ℕ)
uniforms [] = []
uniforms (uniform n k t b m ∷ es) = uniforms es ++ ((b, m) ∷ [])
uniforms (_ ∷ es) = uniforms es

abbrev pub IsKept : {P : Type 0} → List (ℕ × ℕ) → Machine P → Type 0
IsKept owed s = uniforms s.events ≡ s.launcher.transient_buffers ++ owed

uniforms-push_all : (t : Trace) (es : Events) → uniforms (push_all t es) ≡ uniforms es
uniforms-push_all [] es = refl
uniforms-push_all (c ∷ t) es = uniforms-push_all t (vk c ∷ es)

note-uniforms : (e : Event) (es : Events) → IsNote e → uniforms (e ∷ es) ≡ uniforms es
note-uniforms (vk c) es h = refl
note-uniforms (uniform a b c d e) es h = absurd h
note-uniforms (take_set l s) es h = refl
note-uniforms (write_set s b) es h = refl
note-uniforms refused es h = refl
note-uniforms (host_clear a n) es h = refl
note-uniforms (host_store a n) es h = refl
note-uniforms wait_fence es h = absurd h
note-uniforms reset_fence es h = absurd h
note-uniforms (record_commands p l s c g) es h = absurd h
note-uniforms submitted es h = absurd h

module _ {P : Type 0} where
  sync-IsKept_at :
      (b : Bool) (s : Machine P)
      → s.launcher.fence_signaled ≡ b
      → IsKept [] s
      → IsKept [] (sync s).1
  unfolding sync
  sync-IsKept_at true s e h = rw e h
  sync-IsKept_at false s e h = rw e h

  sync-IsKept : Keeps {P = P} (IsKept []) sync
  sync-IsKept = record { at = λ s. sync-IsKept_at s.launcher.fence_signaled s refl }

  submit-IsKept :
      (env : Env P) (pd : PipelineData) (set : ℕ) (push : Machine P → Push) (groups : ℕ)
      → Keeps (IsKept []) (submit env pd set push groups)
  unfolding submit finish_submit refuse_submit emit change
  submit-IsKept env pd set push groups = Keeps-then _ _ sync-IsKept (
      Keeps-then _ _ (record { at = λ s h. h })
        (Keeps-bind _ _ (Keeps-gets push) λ c.
          Keeps-then _ _ (record { at = λ s h. h })
            (Keeps-bind _ _ (Keeps-gets _) λ accepted.
              Keeps-if accepted _ _
                (Keeps-then _ _ (record { at = λ s h. h }) (record { at = λ s h. h }))
                (Keeps-then _ _ (record { at = λ s h. h }) Keeps-stop))))

IsKept-IsStepwise : {P : Type 0} (env : Env P) → IsStepwise env IsKept
unfolding emit cache_set keep_uniform change
IsKept-IsStepwise env = record {
  Allowed = λ t. Unit;
  allows = λ t q. tt;
  frame = λ owed s s' t a l e h.
      ap uniforms e
      ∙ uniforms-push_all t s.events
      ∙ h
      ∙ ap (λ k. k.transient_buffers ++ owed) (sym l);
  note = λ owed e s n h. note-uniforms e s.events n ∙ h;
  caches = λ owed key set s h. h;
  loads = λ s p h. h;
  makes =
      λ n b t u m s h. ap (λ l. l ++ ((u, m) ∷ [])) (h ∙ append-nil s.launcher.transient_buffers);
  keeps = λ u s h. h ∙ sym (append-nil (s.launcher.transient_buffers ++ (u ∷ [])));
  syncs = sync-IsKept;
  submits = submit-IsKept env;
}

-- Whatever calls a launcher has served: what it destroys at its end, while the device is there, are
-- just the uniform buffers that it made, in their order, each with its memory, null handles left out.
pub run-retire :
    {P D : Type 0} (env : Env P) (dbl : Doubles D) (read : Events → Bool → Bool → ℕ → ℕ)
    (made : Made) (device : ℕ) (arena : Option Arena) (pool : P) (manager : Manager)
    (cs : List (Call P))
    → let s = run env dbl read cs (start made device arena pool manager) in
      retire_transient_buffers s.device s.launcher ≡ (
        record s.launcher { transient_buffers = [] },
        if s.device == 0 then [] else destroy_uniforms (uniforms s.events),
      )
unfolding start construct retire_transient_buffers IsKept-IsStepwise
run-retire env dbl read made device arena pool manager cs =
    let s0 = start made device arena pool manager in
    let s = run env dbl read cs s0 in
    let h =
      run-keeps env dbl read (IsKept-IsStepwise env) cs s0 (others_do _ (λ t. tt) cs)
        (uniforms-push_all (construct made).1 []) in
    ap
      (λ (us : List (ℕ × ℕ)). (
        record s.launcher { transient_buffers = [] },
        if s.device == 0 then [] else destroy_uniforms us,
      ))
      (sym (h ∙ append-nil s.launcher.transient_buffers))
