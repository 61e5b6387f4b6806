-- ===== src/Launcher/Scope.antt =====
-- Nested migration scopes of src/kernel/kernel_launcher.cpp.
use parallax_runtime.Prelude.{
  ℕ, suc, ◌≡◌, refl, Bool, true, false, Option, none, some, [], ◌++◌, arith, ap, ◌∙◌,
}
use parallax_runtime.Vulkan.{Trace}
use parallax_runtime.Arena.{Arena}
use parallax_runtime.Arena.Migrate.{flush_to_device, invalidate_from_device}
use parallax_runtime.Launcher.{Body, done, work, scope, enter, leave, run}

-- The arena and the commands of a body's own work, without its scopes.
pub works : Body → Option Arena → Option Arena × Trace
works done arena = (arena, [])
works (work f rest) arena =
    let (arena1, t1) = f arena in let (arena2, t2) = works rest arena1 in (arena2, t1 ++ t2)
works (scope inner rest) arena =
    let (arena1, t1) = works inner arena in
    let (arena2, t2) = works rest arena1 in (arena2, t1 ++ t2)

-- What closes a scope, given whether it holds the arena, and what follows.
close_and_go : Body → Bool → Trace → Option Arena × ℕ × Trace → Option Arena × ℕ × Trace
close_and_go rest held t1 (arena2, depth2, t2) =
    let (depth3, t3) = leave held arena2 depth2 in
    let (arena4, depth4, t4) = run rest arena2 depth3 in (arena4, depth4, t1 ++ (t2 ++ (t3 ++ t4)))

enter-inside : (arena : Option Arena) (d : ℕ) → enter arena (suc d) ≡ (false, suc (suc d), [])
unfolding enter
enter-inside arena d = ground arith

leave-inside : (arena : Option Arena) (d : ℕ) → leave false arena (suc (suc d)) ≡ (suc d, [])
unfolding leave
leave-inside arena d = ground arith

then_run : Body → Option Arena → Trace → ℕ × Trace → Option Arena × ℕ × Trace
then_run rest arena t (depth, t3) =
    let (arena4, depth4, t4) = run rest arena depth in (arena4, depth4, t ++ (t3 ++ t4))

-- Under a scope, a body migrates nothing and leaves the depth.
run_inside :
    (b : Body) (arena : Option Arena) (d : ℕ)
    → run b arena (suc d) ≡ ((works b arena).0, suc d, (works b arena).1)
unfolding run works close_and_go then_run
run_inside done arena d = refl
run_inside (work f rest) arena d =
    ap (λ r. (r.0, r.1, (f arena).1 ++ r.2)) (run_inside rest (f arena).0 d)
run_inside (scope inner rest) arena d =
    ap (λ e. close_and_go rest e.0 e.2 (run inner arena e.1)) (enter-inside arena d)
    ∙ ap (close_and_go rest false []) (run_inside inner arena (suc d))
    ∙ ap (λ l. then_run rest (works inner arena).0 (works inner arena).1 l)
        (leave-inside (works inner arena).0 d)
    ∙ ap (λ r. (r.0, r.1, (works inner arena).1 ++ r.2)) (run_inside rest (works inner arena).0 d)

-- What an outermost scope asks for at its end.
abbrev pub closing : Option Arena → Trace
closing none = []
closing (some r) = invalidate_from_device r

-- Only an outermost scope migrates: whatever scopes its body opens, it flushes the arena once before
-- the body's own commands, invalidates it once after them, as the body has left it, and gives the
-- depth back for what follows.
pub run_scope :
    (inner rest : Body) (r : Arena)
    → let (arena, t) = works inner (some r) in
      let (arena2, depth2, t2) = run rest arena 0 in
      run (scope inner rest) (some r) 0
      ≡ (arena2, depth2, flush_to_device r ++ (t ++ (closing arena ++ t2)))
unfolding run enter leave close_and_go
run_scope inner rest r =
    ap (close_and_go rest true (flush_to_device r)) (run_inside inner (some r) 0)
