-- ===== src/Launcher/Fence.antt =====
-- The protocol of the fence and the command buffer of src/kernel/kernel_launcher.cpp.
use parallax_runtime.Prelude.{
  ℕ, ◌≡◌, refl, sym, ◌≢◌, Bool, true, false, Option, some, List, [], ◌∷◌, ◌∙◌, ap, arith,
  if◌then◌else◌, ◌↔◌,
}
use mathlib.Core.Path.{subst}
use parallax_runtime.Vulkan.{Trace}
use parallax_runtime.Arena.{Arena}
use parallax_runtime.MemoryManager.{Manager}
use parallax_runtime.Launcher.Device.{
  Event, Events, vk, uniform, take_set, write_set, wait_fence, reset_fence, record_commands,
  submitted, refused, host_clear, host_store, push_all, Push, PipelineData, Env, Machine, M, ◌>>=◌,
  ◌>>◌, stop, gets, emit, change, sync,
}
use parallax_runtime.Launcher.Steps.{submit, finish_submit, refuse_submit, cache_set, keep_uniform}
use parallax_runtime.Launcher.Pipelines.{Made, construct}
use parallax_runtime.Launcher.Search.{Doubles}
use parallax_runtime.Launcher.Keeps.{IsNote, IsStepwise, then_at}
use parallax_runtime.Launcher.Calls.{Call, start, run, run-keeps, others_do}

-- The fence is signalled, reset, or waits for a dispatch that was submitted with it; or the protocol
-- was broken before.
pub data FenceState : Type 0 where
  signaled unsignaled pending broken : FenceState

abbrev pub after_wait : FenceState → FenceState
after_wait signaled = signaled
after_wait pending = signaled
after_wait _ = broken

abbrev pub after_reset : FenceState → FenceState
after_reset signaled = unsignaled
after_reset unsignaled = unsignaled
after_reset _ = broken

-- The command buffer is recorded only while no dispatch is pending.
abbrev pub after_recording : FenceState → FenceState
after_recording pending = broken
after_recording f = f

abbrev pub after_submit : FenceState → FenceState
after_submit unsignaled = pending
after_submit _ = broken

-- The fence is created signalled.
abbrev pub fence_state : Events → FenceState
fence_state [] = signaled
fence_state (wait_fence ∷ es) = after_wait (fence_state es)
fence_state (reset_fence ∷ es) = after_reset (fence_state es)
fence_state (record_commands p l s c g ∷ es) = after_recording (fence_state es)
fence_state (submitted ∷ es) = after_submit (fence_state es)
fence_state (_ ∷ es) = fence_state es

-- What `fence_signaled_` says of it.
abbrev pub Agrees : Bool → FenceState → Type 0
Agrees true signaled = Unit
Agrees true unsignaled = Unit
Agrees false pending = Unit
Agrees _ _ = ⊥

abbrev pub IsOrdered : {P : Type 0} → List (ℕ × ℕ) → Machine P → Type 0
IsOrdered owed s = Agrees s.launcher.fence_signaled (fence_state s.events)

fence_state-push_all : (t : Trace) (es : Events) → fence_state (push_all t es) ≡ fence_state es
fence_state-push_all [] es = refl
fence_state-push_all (c ∷ t) es = fence_state-push_all t (vk c ∷ es)

note-Agrees : (e : Event) (es : Events) → IsNote e → fence_state (e ∷ es) ≡ fence_state es
note-Agrees (vk c) es h = refl
note-Agrees (uniform a b c d e) es h = refl
note-Agrees (take_set l s) es h = refl
note-Agrees (write_set s b) es h = refl
note-Agrees refused es h = refl
note-Agrees (host_clear a n) es h = refl
note-Agrees (host_store a n) es h = refl
note-Agrees wait_fence es h = absurd h
note-Agrees reset_fence es h = absurd h
note-Agrees (record_commands p l s c g) es h = absurd h
note-Agrees submitted es h = absurd h

-- After a wait nothing is pending.
wait-Agrees : (f : FenceState) → Agrees false f → Agrees true (after_wait f)
wait-Agrees signaled h = absurd h
wait-Agrees unsignaled h = absurd h
wait-Agrees pending h = h
wait-Agrees broken h = absurd h

reset-unsignaled : (f : FenceState) → Agrees true f → after_reset f ≡ unsignaled
reset-unsignaled signaled h = refl
reset-unsignaled unsignaled h = refl
reset-unsignaled pending h = absurd h
reset-unsignaled broken h = absurd h

module _ {P : Type 0} where
  sync_flag : (s : Machine P) → (sync s).1.launcher.fence_signaled ≡ true
  unfolding sync
  sync_flag s = ground arith

  sync_goes_on : (s : Machine P) → (sync s).0 ≡ some tt
  unfolding sync
  sync_goes_on s = ground arith

  sync-Agrees_at :
      (b : Bool) (s : Machine P)
      → s.launcher.fence_signaled ≡ b
      → Agrees b (fence_state s.events)
      → Agrees true (fence_state (sync s).1.events)
  unfolding sync
  sync-Agrees_at true s e h = rw e h
  sync-Agrees_at false s e h = rw e (wait-Agrees (fence_state s.events) h)

  sync-Agrees : (s : Machine P) → IsOrdered [] s → Agrees true (fence_state (sync s).1.events)
  sync-Agrees s h = sync-Agrees_at s.launcher.fence_signaled s refl h

  -- After the wait: the reset, the recording, and the submission or its refusal.
  module _ (env : Env P) (pd : PipelineData) (set : ℕ) (push : Machine P → Push) (groups : ℕ) where
    abbrev rest : M P (Unit {0})
    rest = do
      emit reset_fence
      constants ← gets push
      emit (record_commands pd.pipeline pd.layout set constants groups)
      accepted ← gets (λ s. env.accepts s.events)
      if accepted then finish_submit else refuse_submit

    rest-Agrees :
        (s : Machine P)
        → s.launcher.fence_signaled ≡ true
        → after_reset (fence_state s.events) ≡ unsignaled
        → IsOrdered [] (rest s).1
    unfolding finish_submit refuse_submit gets emit change stop ◌>>=◌ ◌>>◌
    rest-Agrees s e u =
        let s2 : Machine P = record s {
          events =
              record_commands pd.pipeline pd.layout set
                (push (record s { events = reset_fence ∷ s.events })) groups
              ∷ reset_fence
              ∷ s.events;
        } in
        let ready : fence_state s2.events ≡ unsignaled = ap after_recording u in
        elim (env.accepts s2.events)
          as (λ b. IsOrdered [] ((if b then finish_submit else refuse_submit) s2).1) [
            | true ↦ subst (λ f. Agrees false (after_submit f)) (sym ready) tt
            | false ↦
                subst (λ f. Agrees s.launcher.fence_signaled f) (sym ready)
                  (subst (λ b. Agrees b unsignaled) (sym e) tt)
          ]

    submit-Agrees :
        (s : Machine P) → IsOrdered [] s → IsOrdered [] (submit env pd set push groups s).1
    unfolding submit
    submit-Agrees s h =
        subst (λ r. IsOrdered [] r.1) (sym (then_at sync rest s (sync_goes_on s)))
          (rest-Agrees (sync s).1 (sync_flag s) (reset-unsignaled _ (sync-Agrees s h)))

IsOrdered-IsStepwise : {P : Type 0} (env : Env P) → IsStepwise env IsOrdered
unfolding emit cache_set keep_uniform change
IsOrdered-IsStepwise env = record {
  Allowed = λ t. Unit;
  allows = λ t q. tt;
  frame = λ owed s s' t a l e h.
      subst (λ f. Agrees s'.launcher.fence_signaled f)
        (sym (ap fence_state e ∙ fence_state-push_all t s.events))
        (subst (λ k. Agrees k.fence_signaled (fence_state s.events)) (sym l) h);
  note = λ owed e s n h.
      subst (λ f. Agrees s.launcher.fence_signaled f) (sym (note-Agrees e s.events n)) h;
  caches = λ owed key set s h. h;
  loads = λ s p h. h;
  makes = λ n b t u m s h. h;
  keeps = λ u s h. h;
  syncs = record {
    at = λ s h.
        subst (λ b. Agrees b (fence_state (sync s).1.events)) (sym (sync_flag s)) (sync-Agrees s h);
  };
  submits = λ pd set push groups. record { at = submit-Agrees env pd set push groups };
}

Agrees-ne-broken : (b : Bool) (f : FenceState) → Agrees b f → f ≢ broken
Agrees-ne-broken true signaled h e = cc
Agrees-ne-broken true unsignaled h e = cc
Agrees-ne-broken true pending h e = absurd h
Agrees-ne-broken true broken h e = absurd h
Agrees-ne-broken false signaled h e = absurd h
Agrees-ne-broken false unsignaled h e = absurd h
Agrees-ne-broken false pending h e = cc
Agrees-ne-broken false broken h e = absurd h

Agrees-iff : (b : Bool) (f : FenceState) → Agrees b f → (b ≡ false) ↔ (f ≡ pending)
Agrees-iff true signaled h = (λ e. cc, λ e. cc)
Agrees-iff true unsignaled h = (λ e. cc, λ e. cc)
Agrees-iff true pending h = absurd h
Agrees-iff true broken h = absurd h
Agrees-iff false signaled h = absurd h
Agrees-iff false unsignaled h = absurd h
Agrees-iff false pending h = (λ e. refl, λ e. refl)
Agrees-iff false broken h = absurd h

-- Whatever calls a launcher serves after its construction, whatever the driver answers and whatever
-- others do with the arena and the buffers between the calls: the fence is never waited for while it
-- is neither signalled nor about to be, never reset and the command buffer never recorded while a
-- dispatch is pending, and nothing is submitted with a fence that was not reset; and
-- `fence_signaled_` is false exactly while a dispatch is pending.
pub run-IsOrdered :
    {P D : Type 0} (env : Env P) (dbl : Doubles D) (read : Events → Bool → Bool → ℕ → ℕ)
    (made : Made) (device : ℕ) (arena : Option Arena) (pool : P) (manager : Manager)
    (cs : List (Call P))
    → let s = run env dbl read cs (start made device arena pool manager) in
      (fence_state s.events ≢ broken)
      × ((s.launcher.fence_signaled ≡ false) ↔ (fence_state s.events ≡ pending))
unfolding start construct IsOrdered-IsStepwise
run-IsOrdered env dbl read made device arena pool manager cs =
    let s = run env dbl read cs (start made device arena pool manager) in
    let h =
      run-keeps env dbl read (IsOrdered-IsStepwise env) cs (start made device arena pool manager)
        (others_do _ (λ t. tt) cs)
        (subst (λ f. Agrees true f) (sym (fence_state-push_all (construct made).1 [])) tt) in
    (
      Agrees-ne-broken s.launcher.fence_signaled (fence_state s.events) h,
      Agrees-iff s.launcher.fence_signaled (fence_state s.events) h,
    )
