-- ===== src/Launcher/Keeps.antt =====
-- Invariants of the launcher's methods (src/kernel/kernel_launcher.cpp): a rule for each way to build
-- a method, and what a predicate has to survive so that every method keeps it.
pub mod Methods
pub mod Single
pub mod Search
pub mod Levels
pub mod Compact
use parallax_runtime.Prelude.{
  ℕ, ◌≡◌, refl, ap, ◌∙◌, Bool, true, false, Option, none, some, if◌then◌else◌, List, [], ◌∷◌, Map,
}
use parallax_runtime.Vulkan.{Trace}
use parallax_runtime.Launcher.Device.{
  KernelLauncher, Event, vk, uniform, take_set, write_set, wait_fence, reset_fence, record_commands,
  submitted, refused, host_clear, host_store, push_all, Push, PipelineData, Env, Machine, M, ◌>>=◌,
  ◌>>◌, pure, stop, skip, gets, or_stop, emit, sync,
}
use parallax_runtime.Launcher.Quiet.{FreesNoSet, IsQuiet}
use parallax_runtime.Launcher.Steps.{cache_set, keep_uniform, submit}

-- `m` keeps `I`, whether it goes on or returns early.
pub record Keeps {P A : Type 0} (I : Machine P → Type 0) (m : M P A) : Type 0 where
  pub at : (s : Machine P) → I s → I (m s).1

module _ {P : Type 0} {I : Machine P → Type 0} where
  pub Keeps-pure : {A : Type 0} (a : A) → Keeps I (pure a)
  unfolding pure
  Keeps-pure a = record { at = λ s h. h }

  pub Keeps-stop : {A : Type 0} → Keeps I (stop {A = A})
  unfolding stop
  Keeps-stop = record { at = λ s h. h }

  pub Keeps-skip : Keeps I skip
  unfolding skip
  Keeps-skip = record { at = λ s h. h }

  pub Keeps-gets : {A : Type 0} (f : Machine P → A) → Keeps I (gets f)
  unfolding gets
  Keeps-gets f = record { at = λ s h. h }

  pub Keeps-or_stop : {A : Type 0} (o : Option A) → Keeps I (or_stop o)
  unfolding or_stop
  Keeps-or_stop o = record { at = λ s h. h }

  pub Keeps-if :
      {A : Type 0} (b : Bool) (m n : M P A) → Keeps I m → Keeps I n → Keeps I (if b then m else n)
  Keeps-if true m n h k = h
  Keeps-if false m n h k = k

  Keeps-bind_stop :
      {A B : Type 0} (o : Option A) (f : A → M P B)
      → ((a : A) → Keeps I (f a))
      → Keeps I (or_stop o >>= f)
  unfolding ◌>>=◌ or_stop
  Keeps-bind_stop none f k = record { at = λ s i. i }
  Keeps-bind_stop (some a) f k = k a

  pub Keeps-bind :
      {A B : Type 0} (m : M P A) (f : A → M P B)
      → Keeps I m
      → ((a : A) → Keeps I (f a))
      → Keeps I (m >>= f)
  unfolding ◌>>=◌ or_stop
  Keeps-bind m f h k = record {
    at = λ s i. let (r, s') = m s in (Keeps-bind_stop r f k).at s' (h.at s i);
  }

  pub Keeps-then :
      {B : Type 0} (m : M P (Unit {0})) (n : M P B) → Keeps I m → Keeps I n → Keeps I (m >> n)
  unfolding ◌>>◌
  Keeps-then m n h k = Keeps-bind m (λ _. n) h (λ _. k)

pub ruleset keeps_rules = (
  Keeps-pure, Keeps-stop, Keeps-skip, Keeps-gets, Keeps-or_stop, Keeps-if, Keeps-bind, Keeps-then,
)

-- Where `m` goes on, the rest runs from the state that it leaves.
pub then_at :
    {P B : Type 0} (m : M P (Unit {0})) (n : M P B) (s : Machine P)
    → (m s).0 ≡ some tt
    → (m >> n) s ≡ n (m s).1
unfolding ◌>>◌ ◌>>=◌
then_at m n s e = rw (e, ◌>>=◌)

-- `m` keeps `I` and goes on.
pub record Sure {P : Type 0} (I : Machine P → Type 0) (m : M P (Unit {0})) : Type 0 where
  pub kept : (s : Machine P) → I s → I (m s).1
  pub goes_on : (s : Machine P) → (m s).0 ≡ some tt

module _ {P : Type 0} {I : Machine P → Type 0} where
  pub Sure-skip : Sure I skip
  unfolding skip
  Sure-skip = record { kept = λ s h. h; goes_on = λ s. refl }

  pub Sure-then : (m n : M P (Unit {0})) → Sure I m → Sure I n → Sure I (m >> n)
  Sure-then m n h k = record {
    kept = λ s i. rw (then_at m n s (h.goes_on s)) (k.kept (m s).1 (h.kept s i));
    goes_on = λ s. then_goes_on s;
  }
    where
      then_goes_on : (s : Machine P) → ((m >> n) s).0 ≡ some tt
      then_goes_on s = ap (λ r. r.0) (then_at m n s (h.goes_on s)) ∙ k.goes_on (m s).1

  pub Sure-if :
      (b : Bool) (m n : M P (Unit {0})) → Sure I m → Sure I n → Sure I (if b then m else n)
  Sure-if true m n h k = h
  Sure-if false m n h k = k

-- The events that neither wait for a dispatch, nor start one, nor make a uniform buffer, nor give a
-- descriptor set back.
abbrev pub IsNote : Event → Type 0
IsNote wait_fence = ⊥
IsNote reset_fence = ⊥
IsNote (record_commands p l s c g) = ⊥
IsNote submitted = ⊥
IsNote refused = ⊥
IsNote (uniform n b t u m) = ⊥
IsNote (vk c) = FreesNoSet c
IsNote _ = Unit

-- A predicate of the machine, given the uniform buffers that are made and not kept yet.
abbrev pub Owing : Type 0 → Type 1
Owing P = List (ℕ × ℕ) → Machine P → Type 0

-- A predicate that survives each step of the methods.
pub record IsStepwise {P : Type 0} (env : Env P) (J : Owing P) : Type 1 where
  -- which commands a change outside of the launcher may ask for: those at least that leave the
  -- descriptor pool as it is
  pub Allowed : Trace → Type 0
  pub allows : (t : Trace) → IsQuiet t → Allowed t
  -- a change outside of the launcher, with commands to the driver
  pub frame :
      (owed : List (ℕ × ℕ)) (s s' : Machine P) (t : Trace)
      → Allowed t
      → s'.launcher ≡ s.launcher
      → s'.events ≡ push_all t s.events
      → J owed s
      → J owed s'
  pub note :
      (owed : List (ℕ × ℕ)) (e : Event) (s : Machine P) → IsNote e → J owed s → J owed (emit e s).1
  pub caches :
      (owed : List (ℕ × ℕ)) (key : ℕ × ℕ) (set : ℕ) (s : Machine P)
      → J owed s
      → J owed (cache_set key set s).1
  pub loads :
      (s : Machine P) (pipelines : Map PipelineData)
      → J [] s
      → J [] (record s { launcher = record s.launcher { pipelines = pipelines } })
  pub makes :
      (n b t u m : ℕ) (s : Machine P) → J [] s → J ((u, m) ∷ []) (emit (uniform n b t u m) s).1
  pub keeps : (u : ℕ × ℕ) (s : Machine P) → J (u ∷ []) s → J [] (keep_uniform u s).1
  pub syncs : Keeps (J []) sync
  pub submits :
      (pd : PipelineData) (set : ℕ) (push : Machine P → Push) (groups : ℕ)
      → Keeps (J []) (submit env pd set push groups)
