-- ===== src/Launcher/Tests.antt =====
-- Runs of the migration scopes, on a discrete arena of one block.
use parallax_runtime.Prelude.{◌≡◌, refl, some, none, [], ◌∷◌, ◌++◌}
use parallax_runtime.Vulkan.{flush_mapped}
use parallax_runtime.Arena.Setup.Tests.{one_block}
use parallax_runtime.Arena.Migrate.{flush_to_device}
use parallax_runtime.Launcher.{Body, done, work, scope, run, enter, leave}
use parallax_runtime.Launcher.Push.{make_push_block}
use parallax_runtime.Launcher.Scope.{works, closing, run_scope}

-- Two commands, the second under a scope of its own.
abbrev nested : Body
nested =
    work (λ a. (a, flush_mapped 1 ∷ [])) (scope (work (λ a. (a, flush_mapped 2 ∷ [])) done) done)

run_scope_example :
    let (arena, t) = works nested (some one_block) in
    let (arena2, depth2, t2) = run done arena 0 in
    run (scope nested done) (some one_block) 0
    ≡ (arena2, depth2, flush_to_device one_block ++ (t ++ (closing arena ++ t2)))
run_scope_example = run_scope nested done one_block

-- Without an arena nothing is migrated.
migrates_nothing : (run (scope nested done) none 0).2 ≡ flush_mapped 1 ∷ flush_mapped 2 ∷ []
unfolding run enter leave
migrates_nothing = refl

cuts_count : (make_push_block (some one_block) 4294967297).count ≡ 1
unfolding make_push_block
cuts_count = refl
