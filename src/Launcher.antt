-- ===== src/Launcher.antt =====
-- The kernel launcher (src/kernel/kernel_launcher.cpp): the push-constant block and the scopes that
-- migrate the arena around a launch. The launches themselves are arguments.
pub mod Push
pub mod Device
pub mod Steps
pub mod Quiet
pub mod Dispatch
pub mod Single
pub mod Search
pub mod Reduce
pub mod Scan
pub mod Sort
pub mod Compact
pub mod Pipelines
pub mod Keeps
pub mod Calls
pub mod Fence
pub mod Uniforms
pub mod Sets
pub mod Schedule
pub mod Levels
pub mod Scratch
pub mod Stale
pub mod Winners
pub mod Extremum
pub mod Scope
mod Tests
mod CallTests
use parallax_runtime.Prelude.{
  ℕ, suc, ◌-◌, ◌%◌, ◌^◌, Bool, true, false, ◌&&◌, Option, none, some, [], ◌++◌, ◌==◌, if◌then◌else◌,
}
use parallax_runtime.Vulkan.{Trace}
use parallax_runtime.Arena.{Arena}
use parallax_runtime.Arena.Migrate.{flush_to_device, invalidate_from_device}

-- What runs under the scopes: a launch may allocate from the global arena and asks for commands, and
-- it may open a scope around other launches.
pub data Body : Type 0 where
  done : Body
  work : (Option Arena → Option Arena × Trace) → Body → Body
  scope : Body → Body → Body

-- `ArenaSyncScope()`: whether the scope holds the arena, and the depth after it.
pub enter : Option Arena → ℕ → Bool × ℕ × Trace
enter arena depth =
    if depth == 0
    then elim arena [
      | none ↦ (false, suc depth, [])
      | some r ↦ (true, suc depth, flush_to_device r)
    ]
    else (false, suc depth, [])

-- `~ArenaSyncScope()`
pub leave : Bool → Option Arena → ℕ → ℕ × Trace
leave held arena depth =
    if depth - 1 == 0 && held
    then (depth - 1, elim arena [ none ↦ [] | some r ↦ invalidate_from_device r ])
    else (depth - 1, [])

-- The arena and the depth after a body, and its commands.
pub run : Body → Option Arena → ℕ → Option Arena × ℕ × Trace
unfolding enter leave
run done arena depth = (arena, depth, [])
run (work f rest) arena depth =
    let (arena1, t1) = f arena in
    let (arena2, depth2, t2) = run rest arena1 depth in (arena2, depth2, t1 ++ t2)
run (scope inner rest) arena depth =
    let (held, depth1, t1) = enter arena depth in
    let (arena2, depth2, t2) = run inner arena depth1 in
    let (depth3, t3) = leave held arena2 depth2 in
    let (arena4, depth4, t4) = run rest arena2 depth3 in (arena4, depth4, t1 ++ (t2 ++ (t3 ++ t4)))
