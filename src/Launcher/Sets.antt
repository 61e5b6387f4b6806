-- ===== src/Launcher/Sets.antt =====
-- The descriptor sets of the pool of src/kernel/kernel_launcher.cpp that are out, and what a dispatch does
-- when all of them are.
use parallax_runtime.Prelude.{ℕ, suc, ◌-◌, ◌≤◌, ◌≡◌, refl, sym, ap, ◌∙◌, none, List, [], ◌∷◌, arith}
use mathlib.Core.Path.{subst}
use parallax_runtime.Vulkan.{
  Trace, Kind, Command, create, destroy, bind, request_memory, copy, flush_mapped, host_copy,
  invalidate_mapped, descriptor_set, descriptor_pool,
}
use parallax_runtime.Launcher.Quiet.{FreesNoSet, IsQuiet}
use parallax_runtime.Launcher.Device.{
  Event, Events, vk, uniform, write_set, wait_fence, reset_fence, record_commands, submitted,
  refused, host_clear, host_store, take_set, push_all, Push, PipelineData, Env, Machine, emit,
  change, sync,
}
use parallax_runtime.Launcher.Steps.{submit, finish_submit, refuse_submit, cache_set, keep_uniform}
use parallax_runtime.Launcher.Keeps.{
  Keeps, IsNote, IsStepwise, Keeps-then, Keeps-bind, Keeps-if, Keeps-gets, Keeps-stop,
}

-- `pool_info.maxSets`
abbrev pub max_sets : ℕ
max_sets = 1024

-- How many sets of the pool are out: one that is freed goes back, and all do with the pool.
abbrev pub outstanding : Events → ℕ
outstanding [] = 0
outstanding (take_set l s ∷ es) = suc (outstanding es)
outstanding (vk (destroy descriptor_set h) ∷ es) = outstanding es - 1
outstanding (vk (destroy descriptor_pool h) ∷ es) = 0
outstanding (_ ∷ es) = outstanding es

-- The driver refuses a set while all of the pool's sets are out.
abbrev pub HasLimit : {P : Type 0} → Env P → Type 0
HasLimit env = (es : Events) → max_sets ≤ outstanding es → env.makes es Kind.descriptor_set ≡ none

abbrev pub HasOut : {P : Type 0} → ℕ → List (ℕ × ℕ) → Machine P → Type 0
HasOut n owed s = n ≤ outstanding s.events

-- A command that frees no set leaves them out.
outstanding-vk :
    (c : Command) (es : Events) → FreesNoSet c → outstanding (vk c ∷ es) ≡ outstanding es
outstanding-vk (create k h) es q = refl
outstanding-vk (destroy descriptor_set h) es q = absurd q
outstanding-vk (destroy descriptor_pool h) es q = absurd q
outstanding-vk (destroy _ h) es q = refl
outstanding-vk (bind b m) es q = refl
outstanding-vk (request_memory n k) es q = refl
outstanding-vk (copy a b n) es q = refl
outstanding-vk (flush_mapped m) es q = refl
outstanding-vk (host_copy a b n) es q = refl
outstanding-vk (invalidate_mapped m) es q = refl

outstanding-push_all :
    (t : Trace) (es : Events) → IsQuiet t → outstanding (push_all t es) ≡ outstanding es
outstanding-push_all [] es q = refl
outstanding-push_all (c ∷ t) es q = outstanding-push_all t (vk c ∷ es) q.1 ∙ outstanding-vk c es q.0

outstanding-cons : (e : Event) (es : Events) → IsNote e → outstanding es ≤ outstanding (e ∷ es)
outstanding-cons (vk c) es q = omega (arith, outstanding-vk c es q)
outstanding-cons (take_set l s) es q = omega arith
outstanding-cons (uniform a b c d e) es q = absurd q
outstanding-cons (write_set s b) es q = omega arith
outstanding-cons refused es q = absurd q
outstanding-cons (host_clear a n) es q = omega arith
outstanding-cons (host_store a n) es q = omega arith
outstanding-cons wait_fence es q = absurd q
outstanding-cons reset_fence es q = absurd q
outstanding-cons (record_commands p l s c g) es q = absurd q
outstanding-cons submitted es q = absurd q

module _ {P : Type 0} (n : ℕ) where
  sync-HasOut : Keeps {P = P} (HasOut n []) sync
  unfolding sync
  sync-HasOut = record { at = λ s h. ground arith }

  submit-HasOut :
      (env : Env P) (pd : PipelineData) (set : ℕ) (push : Machine P → Push) (groups : ℕ)
      → Keeps (HasOut n []) (submit env pd set push groups)
  unfolding submit finish_submit refuse_submit emit change
  submit-HasOut env pd set push groups = Keeps-then _ _ sync-HasOut (
      Keeps-then _ _ (record { at = λ s h. h })
        (Keeps-bind _ _ (Keeps-gets push) λ c.
          Keeps-then _ _ (record { at = λ s h. h })
            (Keeps-bind _ _ (Keeps-gets _) λ accepted.
              Keeps-if accepted _ _
                (Keeps-then _ _ (record { at = λ s h. h }) (record { at = λ s h. h }))
                (Keeps-then _ _ (record { at = λ s h. h }) Keeps-stop))))

  HasOut-IsStepwise : (env : Env P) → IsStepwise env (HasOut n)
  unfolding emit cache_set keep_uniform change
  HasOut-IsStepwise env = record {
    Allowed = IsQuiet;
    allows = λ t q. q;
    frame = λ owed s s' t q l e h.
        subst (λ k. n ≤ k) (sym (ap outstanding e ∙ outstanding-push_all t s.events q)) h;
    note = λ owed e s w h. omega (arith, h, outstanding-cons e s.events w);
    caches = λ owed key set s h. h;
    loads = λ s p h. h;
    makes = λ n b t u m s h. h;
    keeps = λ u s h. h;
    syncs = sync-HasOut;
    submits = submit-HasOut env;
  }
