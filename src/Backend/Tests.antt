-- ===== src/Backend/Tests.antt =====
-- Instances of the theorems on the backend: the second device of two has a compute queue.
use parallax_runtime.Prelude.{◌≡◌, refl, true, false, some, [], ◌∷◌, ◌++◌, arith}
use parallax_runtime.Vulkan.{IsBalanced}
use parallax_runtime.Backend.{
  Gpu, Answers, fresh, no_features, compute_from, initialize, cleanup, create_instance,
  create_logical_device, select_physical_device, is_device_suitable, find_queue_families,
}
use parallax_runtime.Backend.Select.{initialize-cleanup}

abbrev display_only : Gpu
display_only = record {
  handle = 31;
  queue_flags = 1 ∷ [];
  supported = no_features;
  has_external_memory_host = false;
  import_alignment = 0;
}

abbrev compute_card : Gpu
compute_card = record {
  handle = 32;
  queue_flags = 1 ∷ 6 ∷ [];
  supported = record no_features { shader_int64 = true; storage_buffer_8bit = true };
  has_external_memory_host = true;
  import_alignment = 4096;
}

abbrev pub two_cards : Answers
two_cards = record {
  new_instance = some 41;
  gpus = display_only ∷ compute_card ∷ [];
  new_device = λ r. some 42;
  queue = 43;
}

takes_second : (initialize two_cards fresh).1.physical_device ≡ 32
unfolding initialize create_instance create_logical_device select_physical_device is_device_suitable
    find_queue_families compute_from
takes_second = refl

initialize-cleanup_example :
    IsBalanced ((initialize two_cards fresh).2 ++ (cleanup (initialize two_cards fresh).1).1)
initialize-cleanup_example =
    initialize-cleanup two_cards (λ h e. ground arith) (λ r h e. ground arith)
