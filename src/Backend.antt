-- ===== src/Backend.antt =====
-- VulkanBackend (include/parallax/vulkan_backend.hpp, src/backend/vulkan/device.cpp), in the build
-- without PARALLAX_ENABLE_VALIDATION and not on macOS: the choice of a device and its features.
pub mod Select
pub mod Tests
use parallax_runtime.Prelude.{
  ℕ, ◌+◌, Bool, true, false, ◌||◌, not, Option, none, some, List, [], ◌∷◌, ◌++◌, bit_and, ◌==◌,
  if◌then◌else◌,
}
use parallax_runtime.Vulkan.{Trace, create, destroy, instance, device}

-- VK_QUEUE_COMPUTE_BIT
abbrev pub compute_bit : ℕ
compute_bit = 2

-- The feature bits that the runtime queries and requests.
pub record Features : Type 0 where
  pub shader_int64 : Bool
  pub shader_float64 : Bool
  pub buffer_device_address : Bool
  pub shader_int16 : Bool
  pub shader_int8 : Bool
  pub shader_float16 : Bool
  pub storage_buffer_16bit : Bool
  pub storage_buffer_8bit : Bool

-- A physical device as the driver reports it.
pub record Gpu : Type 0 where
  pub handle : ℕ
  pub queue_flags : List ℕ
  pub supported : Features
  pub has_external_memory_host : Bool
  pub import_alignment : ℕ

-- `DeviceCapabilities`
pub record Capabilities : Type 0 where
  pub features : Features
  pub external_memory_host : Bool
  pub min_imported_host_pointer_alignment : ℕ

pub record Backend : Type 0 where
  pub instance_handle : ℕ
  pub physical_device : ℕ
  pub device_handle : ℕ
  pub compute_queue : ℕ
  pub compute_family : Option ℕ
  pub capabilities : Capabilities

-- What vkCreateDevice is asked for, beside the features that the runtime cannot do without.
pub record Request : Type 0 where
  pub queue_family : ℕ
  pub features : Features
  pub external_memory_host : Bool

-- The driver's answers: none is an error code.
pub record Answers : Type 0 where
  pub new_instance : Option ℕ
  pub gpus : List Gpu
  pub new_device : Request → Option ℕ
  pub queue : ℕ

abbrev pub no_features : Features
no_features = record {
  shader_int64 = false;
  shader_float64 = false;
  buffer_device_address = false;
  shader_int16 = false;
  shader_int8 = false;
  shader_float16 = false;
  storage_buffer_16bit = false;
  storage_buffer_8bit = false;
}

abbrev pub fresh : Backend
fresh = record {
  instance_handle = 0;
  physical_device = 0;
  device_handle = 0;
  compute_queue = 0;
  compute_family = none;
  capabilities = record {
    features = no_features;
    external_memory_host = false;
    min_imported_host_pointer_alignment = 4096;
  };
}

-- `create_instance`: the handle stays null where vkCreateInstance fails.
pub create_instance : Answers → Backend → Bool × Backend × Trace
create_instance a v = elim a.new_instance [
  | none ↦ (false, v, [])
  | some h ↦ (true, record v { instance_handle = h }, create instance h ∷ [])
]

-- The loop of `find_queue_families` from index `i` on: the first family that computes.
pub compute_from : ℕ → List ℕ → Option ℕ
compute_from i [] = none
compute_from i (flags ∷ rest) =
    if not (bit_and flags compute_bit == 0) then some i else compute_from (i + 1) rest

pub find_queue_families : Gpu → Option ℕ
unfolding compute_from
find_queue_families g = compute_from 0 g.queue_flags

pub is_device_suitable : Gpu → Bool
unfolding find_queue_families
is_device_suitable g = elim (find_queue_families g) [ none ↦ false | some i ↦ true ]

-- `select_physical_device`: the first suitable device; it is passed on for the later queries.
pub select_physical_device : List Gpu → Backend → Option (Gpu × Backend)
unfolding is_device_suitable find_queue_families
select_physical_device [] v = none
select_physical_device (g ∷ gs) v =
    if is_device_suitable g
    then some (g, record v { physical_device = g.handle; compute_family = find_queue_families g })
    else select_physical_device gs v

pub detect_capabilities : Gpu → Capabilities → Capabilities
detect_capabilities g c =
    let external = c.external_memory_host || g.has_external_memory_host in
    record {
      features = record {
        shader_int64 = g.supported.shader_int64;
        shader_float64 = g.supported.shader_float64;
        buffer_device_address = g.supported.buffer_device_address;
        shader_int16 = g.supported.shader_int16;
        shader_int8 = g.supported.shader_int8;
        shader_float16 = g.supported.shader_float16;
        storage_buffer_16bit = g.supported.storage_buffer_16bit;
        storage_buffer_8bit = g.supported.storage_buffer_8bit;
      };
      external_memory_host = external;
      min_imported_host_pointer_alignment =
          if external
          then (if g.import_alignment == 0 then 4096 else g.import_alignment)
          else c.min_imported_host_pointer_alignment;
    }

pub device_request : ℕ → Capabilities → Request
device_request family c = record {
  queue_family = family;
  features = record {
    shader_int64 = c.features.shader_int64;
    shader_float64 = c.features.shader_float64;
    buffer_device_address = c.features.buffer_device_address;
    shader_int16 = c.features.shader_int16;
    shader_int8 = c.features.shader_int8;
    shader_float16 = c.features.shader_float16;
    storage_buffer_16bit = c.features.storage_buffer_16bit;
    storage_buffer_8bit = c.features.storage_buffer_8bit;
  };
  external_memory_host = c.external_memory_host;
}

-- `create_logical_device`; without a compute family `value()` throws, which ends in a failure.
pub create_logical_device : Answers → Backend → Bool × Backend × Trace
unfolding device_request
create_logical_device a v = elim v.compute_family [
  | none ↦ (false, v, [])
  | some family ↦ elim (a.new_device (device_request family v.capabilities)) [
    | none ↦ (false, v, [])
    | some h ↦ (true, record v { device_handle = h; compute_queue = a.queue }, create device h ∷ [])
  ]
]

pub initialize : Answers → Backend → Bool × Backend × Trace
unfolding create_instance select_physical_device detect_capabilities create_logical_device
initialize a v =
    let (ok, v1, t) = create_instance a v in
    if ok
    then elim (select_physical_device a.gpus v1) [
      | none ↦ (false, v1, t)
      | some (g, v2) ↦
          let v3 = record v2 { capabilities = detect_capabilities g v2.capabilities } in
          let (made, v4, s) = create_logical_device a v3 in (made, v4, t ++ s)
    ]
    else (false, v1, t)

-- `cleanup`, which the destructor runs.
pub cleanup : Backend → Backend × Trace
cleanup v = (
  record v { device_handle = 0; instance_handle = 0 },
  (if v.device_handle == 0 then [] else destroy device v.device_handle ∷ [])
      ++ (if v.instance_handle == 0 then [] else destroy instance v.instance_handle ∷ []),
)
