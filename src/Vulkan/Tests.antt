-- ===== src/Vulkan/Tests.antt =====
-- A run of the search for a memory type.
use parallax_runtime.Prelude.{◌≡◌, refl, [], ◌∷◌}
use parallax_runtime.Vulkan.{find_from, find_memory_type, suits}

finds_third : find_memory_type (1 ∷ 2 ∷ 6 ∷ []) 7 6 ≡ 2
unfolding find_memory_type find_from suits
finds_third = refl
