-- ===== src/Launcher/Calls.antt =====
-- Sequences of calls of a KernelLauncher (src/kernel/kernel_launcher.cpp), with what the arena's and
-- the buffers' other users do between them.
use parallax_runtime.Prelude.{ℕ, refl, Bool, Option, none, some, List, [], ◌∷◌, All, insert}
use parallax_runtime.Vulkan.{Trace}
use parallax_runtime.Arena.{Arena}
use parallax_runtime.MemoryManager.{Manager}
use parallax_runtime.Launcher.Device.{Events, push_all, PipelineData, Env, Machine, sync}
use parallax_runtime.Launcher.Pipelines.{
  Made, Loaded, construct, load_kernel, make_pipeline, store_pipeline,
}
use parallax_runtime.Launcher.Quiet.{IsQuiet, make_pipeline-IsQuiet}
use parallax_runtime.Launcher.Single.{launch, launch_transform, launch_with_captures}
use parallax_runtime.Launcher.Search.{Doubles, launch_find, launch_mismatch, launch_argminmax}
use parallax_runtime.Launcher.Reduce.{launch_reduce}
use parallax_runtime.Launcher.Scan.{launch_scan, launch_exclusive_scan}
use parallax_runtime.Launcher.Sort.{launch_sort}
use parallax_runtime.Launcher.Compact.{launch_compact}
use parallax_runtime.Launcher.Keeps.{Owing, IsStepwise}
use parallax_runtime.Launcher.Keeps.Single.{
  Keeps-launch, Keeps-launch_transform, Keeps-launch_with_captures,
}
use parallax_runtime.Launcher.Keeps.Search.{
  Keeps-launch_find, Keeps-launch_mismatch, Keeps-launch_argminmax,
}
use parallax_runtime.Launcher.Keeps.Levels.{
  Keeps-launch_reduce, Keeps-launch_scan, Keeps-launch_exclusive_scan, Keeps-launch_sort,
}
use parallax_runtime.Launcher.Keeps.Compact.{Keeps-launch_compact}

-- A public method with its arguments, or a change by others: the arena, the pool and the table of
-- buffers after it, and their commands.
pub data Call (P : Type 0) : Type 0 where
  load : Loaded → ℕ → Call P
  wait : Call P
  single : ℕ → ℕ → ℕ → ℕ → Call P
  transform : ℕ → ℕ → ℕ → ℕ → ℕ → ℕ → ℕ → ℕ → Call P
  with_captures : ℕ → ℕ → ℕ → ℕ → ℕ → ℕ → Call P
  find_first : ℕ → ℕ → ℕ → ℕ → Bool → ℕ → Call P
  mismatch : ℕ → ℕ → ℕ → ℕ → ℕ → Call P
  argminmax : ℕ → ℕ → ℕ → ℕ → Bool → Bool → Bool → Call P
  reduce : ℕ → ℕ → ℕ → ℕ → ℕ → Call P
  scan : ℕ → ℕ → ℕ → ℕ → ℕ → Call P
  exclusive_scan : ℕ → ℕ → ℕ → ℕ → ℕ → ℕ → ℕ → ℕ → Call P
  sort : ℕ → ℕ → ℕ → ℕ → Call P
  compact : ℕ → ℕ → ℕ → ℕ → ℕ → ℕ → ℕ → ℕ → Bool → ℕ → Call P
  others : Option Arena → P → Manager → Trace → Call P

-- What others ask the driver for.
abbrev Others : {P : Type 0} → (Trace → Type 0) → Call P → Type 0
Others A (others arena pool manager t) = A t
Others A _ = Unit

-- All that others ask the driver for, between the calls.
abbrev pub OthersDo : {P : Type 0} → (Trace → Type 0) → List (Call P) → Type 0
OthersDo A cs = All (Others A) cs

one_does : {P : Type 0} (A : Trace → Type 0) → ((t : Trace) → A t) → (c : Call P) → Others A c
one_does A h (others arena pool manager t) = h t
one_does A h _ = tt

pub others_do :
    {P : Type 0} (A : Trace → Type 0) → ((t : Trace) → A t) → (cs : List (Call P)) → OthersDo A cs
others_do A h [] = tt
others_do A h (c ∷ cs) = (one_does A h c, others_do A h cs)

-- The machine of a launcher that is just constructed.
unfoldable pub start : {P : Type 0} → Made → ℕ → Option Arena → P → Manager → Machine P
unfolding construct
start made device arena pool manager = record {
  launcher = (construct made).0;
  device = device;
  arena = arena;
  depth = 0;
  pool = pool;
  manager = manager;
  events = push_all (construct made).1 [];
}

-- `load_kernel` on the machine.
unfoldable pub load_on : {P : Type 0} → Loaded → ℕ → Machine P → Machine P
load_on a name s =
    let (done, k, t) = load_kernel a s.launcher name in
    record s { launcher = k; events = push_all t s.events }

module _ {P D : Type 0} (env : Env P) (dbl : Doubles D) (read : Events → Bool → Bool → ℕ → ℕ) where
  unfoldable pub perform : Call P → Machine P → Machine P
  perform (load a name) s = load_on a name s
  perform wait s = (sync s).1
  perform (single name ptr count n) s = (launch env name ptr count n s).1
  perform (transform name src dst count n m captures size) s =
      (launch_transform env name src dst count n m captures size s).1
  perform (with_captures name ptr count captures size n) s =
      (launch_with_captures env name ptr count captures size n s).1
  perform (find_first name ptr count n negate value) s =
      (launch_find env name ptr count n negate value s).1
  perform (mismatch name a b count n) s = (launch_mismatch env name a b count n s).1
  perform (argminmax name ptr count n is_float want_max want_last) s =
      (launch_argminmax env dbl name ptr count n is_float want_max want_last s).1
  perform (reduce name ptr count n result) s = (launch_reduce env name ptr count n result s).1
  perform (scan scan_k add_k ptr count n) s = (launch_scan env scan_k add_k ptr count n s).1
  perform (exclusive_scan scan_k add_k shift_k src dst count n init) s =
      (launch_exclusive_scan env scan_k add_k shift_k src dst count n init s).1
  perform (sort name ptr count n) s = (launch_sort env name ptr count n s).1
  perform (compact flags_k scan_k add_k scatter_k src dst count n is_float kept) s =
      (launch_compact env read flags_k scan_k add_k scatter_k src dst count n is_float kept s).1
  perform (others arena pool manager t) s = record s {
    arena = arena;
    pool = pool;
    manager = manager;
    events = push_all t s.events;
  }

  unfoldable pub run : List (Call P) → Machine P → Machine P
  run [] s = s
  run (c ∷ cs) s = run cs (perform c s)

  module _ {J : Owing P} (st : IsStepwise env J) where
    stored-keeps :
        (name : ℕ) (made : Option PipelineData) (t : Trace) (s : Machine P)
        → IsQuiet t
        → J [] s
        → let (done, k, t') = store_pipeline name s.launcher (made, t) in
          J [] (record s { launcher = k; events = push_all t' s.events })
    unfolding store_pipeline
    stored-keeps name none t s q h = st.frame [] s _ t (st.allows t q) refl refl h
    stored-keeps name (some pd) t s q h =
        st.loads (record s { events = push_all t s.events }) (insert name pd s.launcher.pipelines)
          (st.frame [] s _ t (st.allows t q) refl refl h)

    load_on-keeps : (a : Loaded) (name : ℕ) (s : Machine P) → J [] s → J [] (load_on a name s)
    unfolding load_on load_kernel
    load_on-keeps a name s h =
        stored-keeps name (make_pipeline a).0 (make_pipeline a).1 s (make_pipeline-IsQuiet a) h

    perform-keeps : (c : Call P) (s : Machine P) → Others st.Allowed c → J [] s → J [] (perform c s)
    unfolding perform
    perform-keeps (load made name) s a h = load_on-keeps made name s h
    perform-keeps wait s a h = st.syncs.at s h
    perform-keeps (single name ptr count n) s a h = (Keeps-launch env st name ptr count n).at s h
    perform-keeps (transform name src dst count n m captures size) s a h =
        (Keeps-launch_transform env st name src dst count n m captures size).at s h
    perform-keeps (with_captures name ptr count captures size n) s a h =
        (Keeps-launch_with_captures env st name ptr count captures size n).at s h
    perform-keeps (find_first name ptr count n negate value) s a h =
        (Keeps-launch_find env st name ptr count n negate value).at s h
    perform-keeps (mismatch name a b count n) s o h =
        (Keeps-launch_mismatch env st name a b count n).at s h
    perform-keeps (argminmax name ptr count n is_float want_max want_last) s a h =
        (Keeps-launch_argminmax env st dbl name ptr count n is_float want_max want_last).at s h
    perform-keeps (reduce name ptr count n result) s a h =
        (Keeps-launch_reduce env st name ptr count n result).at s h
    perform-keeps (scan scan_k add_k ptr count n) s a h =
        (Keeps-launch_scan env st scan_k add_k ptr count n).at s h
    perform-keeps (exclusive_scan scan_k add_k shift_k src dst count n init) s a h =
        (Keeps-launch_exclusive_scan env st scan_k add_k shift_k src dst count n init).at s h
    perform-keeps (sort name ptr count n) s a h = (Keeps-launch_sort env st name ptr count n).at s h
    perform-keeps (compact flags_k scan_k add_k scatter_k src dst count n is_float kept) s a h =
        (Keeps-launch_compact env read st flags_k scan_k add_k scatter_k src dst count n is_float
            kept).at
          s h
    perform-keeps (others arena pool manager t) s a h = st.frame [] s _ t a refl refl h

    -- A stepwise predicate survives every sequence of calls.
    pub run-keeps :
        (cs : List (Call P)) (s : Machine P) → OthersDo st.Allowed cs → J [] s → J [] (run cs s)
    unfolding run
    run-keeps [] s o h = h
    run-keeps (c ∷ cs) s o h = run-keeps cs (perform c s) o.1 (perform-keeps c s o.0 h)
