-- ===== src/Kernels/Launch.antt =====
-- The launching entry points of src/kernel/cache.cpp, and the buffer table after them.
use parallax_runtime.Prelude.{
  ℕ, ◌≡◌, refl, inl, inr, Bool, true, false, Option, none, some, [], ap, sym, ◌∙◌, if◌then◌else◌,
  Bool-cases,
}
use mathlib.Core.Path.{subst}
use parallax_runtime.Vulkan.{Trace}
use parallax_runtime.MemoryManager.{Manager, sync_after_kernel}
use parallax_runtime.Runtime.{World, Globals, get_global_memory_manager}
use parallax_runtime.Runtime.Laws.{ensured_manager}
use parallax_runtime.Kernels.{
  Handle, State, finish, launch_and_mark, kernel_launch, kernel_launch_transform,
  kernel_launch_transform2, kernel_launch_transform2_captures, kernel_launch_with_captures, call,
  reduce, scan, sort, argminmax, find_first, mismatch,
}
use parallax_runtime.Kernels.Launcher.{LauncherOps}

-- A launch of the kernel `name` by `run`, with its output at `out`: if it succeeds, it is waited
-- for and then all the blocks of the output are marked; if it fails, the buffer table stays.
abbrev pub IsMarked {ℓ} : {K : Type ℓ} → LauncherOps K → Manager → Bool × K → ℕ → State K → Type ℓ
IsMarked ops m (ok, k) out s =
    (s.launcher ≡ some (if ok then ops.sync k else k))
    × (s.globals.memory_manager ≡ some (if ok then sync_after_kernel m out else m))

module _ {K : Type 0} (ops : LauncherOps K) (w : World) (s : State K) (k : K) (m : Manager)
    (ready : s.globals.initialized ≡ true) (there : s.launcher ≡ some k)
    (table : s.globals.memory_manager ≡ some m) where
  finish_lem :
      (k' : K) (out : ℕ)
      → ((finish ops w s k' out).launcher ≡ some (ops.sync k'))
        × ((finish ops w s k' out).globals.memory_manager ≡ some (sync_after_kernel m out))
  unfolding finish
  finish_lem k' out =
      let run : get_global_memory_manager w s.globals ≡ (some m, s.globals, []) =
        ensured_manager w s.globals ready ∙ ap (λ o. (o, s.globals, [])) table in
      (refl, ap (λ r. marked r out) run)
    where
      marked : Option Manager × Globals × Trace → ℕ → Option Manager
      marked (o, g, t) out =
          let after : Globals = elim o [
            | none ↦ g
            | some m ↦ record g { memory_manager = some (sync_after_kernel m out) }
          ] in
          after.memory_manager

  launch_and_mark_lem :
      (name out : ℕ) (run : K → ℕ → Bool × K)
      → IsMarked ops m (run k name) out (launch_and_mark ops w s (some name) out run)
  unfolding launch_and_mark
  launch_and_mark_lem name out run = elim (Bool-cases (run k name).0) [
    | inl ok ↦ rw (there, launch_and_mark) (rw ok (finish_lem (run k name).1 out))
    | inr ok ↦ rw (there, launch_and_mark) (rw ok (refl, table))
  ]

  -- Each of the five entry points that launch a kernel over buffers does this with its output,
  -- which is the buffer itself for the launches in place.
  pub launch_entries :
      (name a b n i o c z : ℕ)
      → IsMarked ops m (ops.launch k name a n i) a (kernel_launch ops w s (some name) a n i)
        × IsMarked ops m
            (ops.launch_transform k name a b n i)
            b
            (kernel_launch_transform ops w s (some name) a b n i)
        × IsMarked ops m
            (ops.launch_transform2 k name a b n i o)
            b
            (kernel_launch_transform2 ops w s (some name) a b n i o)
        × IsMarked ops m
            (ops.launch_transform2_captures k name a b n i o c z)
            b
            (kernel_launch_transform2_captures ops w s (some name) a b n i o c z)
        × IsMarked ops m
            (ops.launch_with_captures k name a n c z i)
            a
            (kernel_launch_with_captures ops w s (some name) a n c z i)
  unfolding kernel_launch kernel_launch_transform kernel_launch_transform2
      kernel_launch_transform2_captures kernel_launch_with_captures
  launch_entries name a b n i o c z = (
    launch_and_mark_lem name a (λ k name. ops.launch k name a n i),
    launch_and_mark_lem name b (λ k name. ops.launch_transform k name a b n i),
    launch_and_mark_lem name b (λ k name. ops.launch_transform2 k name a b n i o),
    launch_and_mark_lem name b (λ k name. ops.launch_transform2_captures k name a b n i o c z),
    launch_and_mark_lem name a (λ k name. ops.launch_with_captures k name a n c z i),
  )

module _ {K : Type 0} (ops : LauncherOps K) (w : World) (s : State K)
    (missing : s.launcher ≡ none) where
  bare : State K
  bare = record s { launcher = none }

  same : bare ≡ s
  unfolding bare
  same = λ i. record s { launcher = sym missing i }

  unlaunched :
      (kernel : Handle) (out : ℕ) (run : K → ℕ → Bool × K)
      → launch_and_mark ops w s kernel out run ≡ s
  unfolding launch_and_mark bare
  unlaunched none out run = refl
  unlaunched (some name) out run =
      subst (λ x. launch_and_mark ops w x (some name) out run ≡ x) same refl

  uncalled :
      {R : Type 0} (kernel : Handle) (r : R) (run : K → ℕ → R × K)
      → call ops w s kernel r run ≡ (r, s)
  unfolding call bare
  uncalled none r run = refl
  uncalled (some name) r run = subst (λ x. call ops w x (some name) r run ≡ (r, x)) same refl

  -- Without a launcher no entry point does anything, whatever handles it is given: a search
  -- answers with the count, which means that nothing was found.
  pub no_launcher :
      (f g : Handle) (a b n i o c z : ℕ)
      → (kernel_launch ops w s f a n i ≡ s)
        × (kernel_launch_transform ops w s f a b n i ≡ s)
        × (kernel_launch_transform2 ops w s f a b n i o ≡ s)
        × (kernel_launch_transform2_captures ops w s f a b n i o c z ≡ s)
        × (kernel_launch_with_captures ops w s f a n c z i ≡ s)
        × (reduce ops w s f a n i b ≡ s)
        × (scan ops w s f g a n i ≡ s)
        × (sort ops w s f a n i ≡ s)
        × (argminmax ops w s f a n i o c z ≡ (n, s))
        × (find_first ops w s f a n i o c ≡ (n, s))
        × (mismatch ops w s f a b n i ≡ (n, s))
  unfolding kernel_launch kernel_launch_transform kernel_launch_transform2
      kernel_launch_transform2_captures kernel_launch_with_captures reduce scan sort argminmax
      find_first mismatch
  no_launcher f g a b n i o c z = (
    unlaunched f a _,
    unlaunched f b _,
    unlaunched f b _,
    unlaunched f b _,
    unlaunched f a _,
    ap (λ r. r.1) (uncalled f false _),
    unscanned f g a n i,
    ap (λ r. r.1) (uncalled f false _),
    uncalled f n _,
    uncalled f n _,
    uncalled f n _,
  )
    where
      unscanned : (f g : Handle) (a n i : ℕ) → scan ops w s f g a n i ≡ s
      unscanned f none a n i = refl
      unscanned f (some h) a n i = ap (λ r. r.1) (uncalled f false _)
