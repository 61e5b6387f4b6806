-- ===== src/Launcher/CallTests.antt =====
-- Runs of the launcher's methods (src/kernel/kernel_launcher.cpp) on small inputs, and instances of the
-- theorems about them.
use parallax_runtime.Prelude.{
  ℕ, zero, suc, ◌+◌, ◌^◌, ◌≤◌, ◌<◌, ◌≡◌, ◌≢◌, ◌↔◌, refl, Bool, true, false, none, some, List, [],
  ◌∷◌, leb, ltb, ◌==◌, if◌then◌else◌, arith, length, find,
}
use parallax_runtime.Arena.Tests.{no_pool}
use parallax_runtime.Arena.Setup.Tests.{one_block}
use parallax_runtime.MemoryManager.{Manager}
use parallax_runtime.Launcher.Device.{PipelineData, Events, take_set, Env, Machine}
use parallax_runtime.Launcher.Steps.{workgroups, find_set}
use parallax_runtime.Launcher.Pipelines.{Made, Loaded, retire_transient_buffers, destroy_uniforms}
use parallax_runtime.Launcher.Single.{launch_with_captures}
use parallax_runtime.Launcher.Search.{Doubles, least_winner, best_winner}
use parallax_runtime.Launcher.Scan.{scan_step, launch_scan}
use parallax_runtime.Launcher.Sort.{merge_stages, stages}
use parallax_runtime.Launcher.Calls.{Call, load, wait, single, find_first, start, run}
use parallax_runtime.Launcher.Fence.{fence_state, pending, broken, run-IsOrdered}
use parallax_runtime.Launcher.Uniforms.{uniforms, run-retire}
use parallax_runtime.Launcher.Sets.{outstanding}
use parallax_runtime.Launcher.Schedule.{network, cut, stages_cases}
use parallax_runtime.Launcher.Levels.{launch_scan_lem}
use parallax_runtime.Launcher.Winners.{BlockWinner, IsFirstIn, least_winner-IsFirstIn}
use parallax_runtime.Launcher.Extremum.{IsRanked, CombinesUntil, best_winner_lem}
use parallax_runtime.Launcher.Stale.{launch_with_captures_stale}

-- A driver that makes every object, up to 1024 descriptor sets, and accepts every submission.
abbrev willing : Env (Unit {0})
willing = record {
  ops = no_pool;
  types = 7 ∷ [];
  makes = λ es k. if leb 1024 (outstanding es) then none else some (100 + length es);
  requirements = λ b. (64, 1);
  answers = λ es. record {
    types = 7 ∷ [];
    new_buffer = none;
    buffer_size = 0;
    buffer_bits = 0;
    new_memory = none;
    mapped = none;
  };
  accepts = λ es. true;
  host_read = λ es p n. 0;
}

abbrev whole_numbers : Doubles ℕ
whole_numbers = record {
  gt = λ a b. ltb b a;
  lt = ltb;
  eq = ◌==◌;
  nought = 0;
  as_dbl = λ es f n p. p;
}

abbrev none_kept : Events → Bool → Bool → ℕ → ℕ
none_kept es f w p = 0

abbrev all_made : Made
all_made = record {
  new_descriptor_pool = some 1;
  new_command_pool = some 2;
  new_command_buffer = some 3;
  new_fence = some 4;
}

abbrev loaded : Loaded
loaded = record {
  new_shader = some 5;
  new_set_layout = some 6;
  new_layout = some 7;
  new_pipeline = some 8;
}

abbrev no_buffers : Manager
no_buffers = record { command_pool_handle = 0; buffers = [] }

abbrev pipeline : PipelineData
pipeline = record { pipeline = 8; layout = 7; descriptor_set_layout = 6; shader_module = 5 }

abbrev fresh : Machine (Unit {0})
fresh = start all_made 9 (some one_block) tt no_buffers

-- A kernel is loaded, launched over the arena's block, and waited for; then it searches the block.
abbrev calls : List (Call (Unit {0}))
calls = load loaded 1 ∷ single 1 65536 4 4 ∷ wait ∷ find_first 1 65536 4 4 false 0 ∷ []

run-IsOrdered_example :
    let s = run willing whole_numbers none_kept calls fresh in
    (fence_state s.events ≢ broken)
    × ((s.launcher.fence_signaled ≡ false) ↔ (fence_state s.events ≡ pending))
run-IsOrdered_example =
    run-IsOrdered willing whole_numbers none_kept all_made 9 (some one_block) tt no_buffers calls

run-retire_example :
    let s = run willing whole_numbers none_kept calls fresh in
    retire_transient_buffers s.device s.launcher ≡ (
      record s.launcher { transient_buffers = [] },
      if s.device == 0 then [] else destroy_uniforms (uniforms s.events),
    )
run-retire_example =
    run-retire willing whole_numbers none_kept all_made 9 (some one_block) tt no_buffers calls

stages_cases_example :
    (3 ≤ 30 → stages 33 2 (cut (2 ^ 3)) ≡ some (network 1 3))
    × (◌≡◌ {A = ℕ} 3 31 → (fuel : ℕ) → stages fuel 2 (cut (2 ^ 3)) ≡ none)
    × (32 ≤ 3 → stages 33 2 (cut (2 ^ 3)) ≡ some [])
stages_cases_example = stages_cases 3

sorts_four : stages 33 2 4 ≡ some ((2, 1) ∷ (4, 2) ∷ (4, 1) ∷ [])
unfolding stages merge_stages
sorts_four = refl

launch_scan_lem_example :
    (launch_scan willing 1 2 65536 1000 4
      ≡ scan_step willing 1 2 65536 1000 4
          (λ sums. launch_scan willing 1 2 sums (workgroups 1000) 4))
    × (1 < 1000 → workgroups 1000 < 1000)
launch_scan_lem_example = launch_scan_lem willing 1 2 65536 1000 4

-- Two blocks, where the match is at 300.
abbrev is_300 : ℕ → Bool
is_300 j = j == 300

abbrev winners : ℕ → ℕ
winners b = if b == 1 then 300 else 400

is_300_iff : (j : ℕ) → j ≢ 300 → is_300 j ≡ false
is_300_iff j h = ground arith

winners-BlockWinner : (b : ℕ) → b < 2 → BlockWinner is_300 400 b (winners b)
winners-BlockWinner zero h = (λ j l m n k. is_300_iff j (omega arith), λ l. absurd (omega arith))
winners-BlockWinner (suc zero) h = (λ j l m n k. is_300_iff j (omega arith), λ l. refl)
winners-BlockWinner (suc (suc b)) h = absurd (omega arith)

least_winner-IsFirstIn_example :
    IsFirstIn is_300 0 400 (least_winner winners (workgroups 400) 0 400)
unfolding workgroups
least_winner-IsFirstIn_example =
    least_winner-IsFirstIn is_300 400 winners (omega arith) winners-BlockWinner

abbrev ranked : IsRanked whole_numbers (λ n. n)
ranked = record { gt_rank = λ a b. refl; lt_rank = λ a b. refl; eq_rank = λ a b. refl }

best_winner_lem_example :
    (w : ℕ) × CombinesUntil whole_numbers
      (λ n. n)
      ranked
      true
      false
      400
      winners
      winners
      2
      (best_winner whole_numbers true false 400 winners winners 2 0 400 0)
      w
best_winner_lem_example =
    best_winner_lem whole_numbers (λ n. n) ranked true false 400 winners winners 2

-- After 1024 sets.
abbrev sets : ℕ → Events
sets zero = []
sets (suc n) = take_set 1 2 ∷ sets n

abbrev tired : Machine (Unit {0})
tired = record fresh { events = sets 1024 }

-- A kernel with one set in the cache, of its layout and the arena's first address.
abbrev cached : Machine (Unit {0})
cached = record fresh {
  launcher = record fresh.launcher {
    pipelines = (1, pipeline) ∷ [];
    descriptor_cache = ((6, 65536), 20) ∷ [];
  };
}

launch_with_captures_stale_example :
    launch_with_captures willing 1 65536 4 70000 8 4 cached
    ≡ launch_with_captures willing 1 65536 4 80000 16 4 cached
unfolding find find_set
launch_with_captures_stale_example =
    launch_with_captures_stale willing 1 65536 4 4 70000 8 80000 16 pipeline 20 cached refl refl
