-- ===== src/Launcher/Pipelines.antt =====
-- The life of a KernelLauncher (src/kernel/kernel_launcher.cpp): its constructor, `load_kernel`,
-- `retire_transient_buffers` and the destructor. Each gives what it asks of the driver.
use parallax_runtime.Prelude.{
  ℕ, Bool, true, false, Option, none, some, List, [], ◌∷◌, ◌++◌, ◌==◌, if◌then◌else◌, Map, insert,
}
use parallax_runtime.Vulkan.{
  Kind, Trace, create, destroy, buffer, memory, command_pool, fence, descriptor_pool, pipeline,
  layout, set_layout, shader,
}
use parallax_runtime.Launcher.Device.{PipelineData, KernelLauncher}
use parallax_runtime.Launcher.Steps.{handle}

-- The driver's answers to the constructor's calls.
pub record Made : Type 0 where
  pub new_descriptor_pool : Option ℕ
  pub new_command_pool : Option ℕ
  pub new_command_buffer : Option ℕ
  pub new_fence : Option ℕ

abbrev pub made_if : Kind → Option ℕ → Trace
made_if k none = []
made_if k (some h) = create k h ∷ []

-- `KernelLauncher(backend, memory_manager)`; what could not be created stays null.
unfoldable pub construct : Made → KernelLauncher × Trace
construct a = (
  record {
    pipelines = [];
    descriptor_cache = [];
    descriptor_pool = handle a.new_descriptor_pool;
    command_pool = handle a.new_command_pool;
    command_buffer = handle a.new_command_buffer;
    fence = handle a.new_fence;
    fence_signaled = true;
    transient_buffers = [];
  },
  made_if descriptor_pool a.new_descriptor_pool
      ++ (made_if command_pool a.new_command_pool ++ made_if fence a.new_fence),
)

-- The driver's answers to `load_kernel`.
pub record Loaded : Type 0 where
  pub new_shader : Option ℕ
  pub new_set_layout : Option ℕ
  pub new_layout : Option ℕ
  pub new_pipeline : Option ℕ

-- The pipeline with its parts, or what is destroyed again.
unfoldable pub make_pipeline : Loaded → Option PipelineData × Trace
make_pipeline a = elim a.new_shader [
  | none ↦ (none, [])
  | some s ↦ elim a.new_set_layout [
    | none ↦ (none, create shader s ∷ destroy shader s ∷ [])
    | some d ↦ elim a.new_layout [
      | none ↦ (
        none,
        create shader s ∷ create set_layout d ∷ destroy set_layout d ∷ destroy shader s ∷ [],
      )
      | some l ↦ elim a.new_pipeline [
        | none ↦ (
          none,
          create shader s
              ∷ create set_layout d
              ∷ create layout l
              ∷ destroy layout l
              ∷ destroy set_layout d
              ∷ destroy shader s
              ∷ [],
        )
        | some p ↦ (
          some (record { pipeline = p; layout = l; descriptor_set_layout = d; shader_module = s }),
          create shader s ∷ create set_layout d ∷ create layout l ∷ create pipeline p ∷ [],
        )
      ]
    ]
  ]
]

-- `pipelines_[name] = data`, whatever stood there, after the driver's part.
unfoldable pub store_pipeline :
    ℕ → KernelLauncher → Option PipelineData × Trace → Bool × KernelLauncher × Trace
store_pipeline name k (none, t) = (false, k, t)
store_pipeline name k (some pd, t) = (true, record k { pipelines = insert name pd k.pipelines }, t)

unfoldable pub load_kernel : Loaded → KernelLauncher → ℕ → Bool × KernelLauncher × Trace
unfolding make_pipeline store_pipeline
load_kernel a k name = store_pipeline name k (make_pipeline a)

-- A null handle is left alone.
abbrev pub destroy_handle : Kind → ℕ → Trace
destroy_handle k h = if h == 0 then [] else destroy k h ∷ []

-- The loop over the scratch buffers.
unfoldable pub destroy_uniforms : List (ℕ × ℕ) → Trace
destroy_uniforms [] = []
destroy_uniforms ((b, m) ∷ us) =
    destroy_handle buffer b ++ (destroy_handle memory m ++ destroy_uniforms us)

-- `retire_transient_buffers`, where the device is 0 if it has been torn down.
unfoldable pub retire_transient_buffers : ℕ → KernelLauncher → KernelLauncher × Trace
retire_transient_buffers device k = (
  record k { transient_buffers = [] },
  if device == 0 then [] else destroy_uniforms k.transient_buffers,
)

unfoldable pub destroy_pipeline : PipelineData → Trace
destroy_pipeline pd =
    destroy_handle pipeline pd.pipeline
    ++ (destroy_handle layout pd.layout
        ++ (destroy_handle set_layout pd.descriptor_set_layout
            ++ destroy_handle shader pd.shader_module))

unfoldable pub destroy_pipelines : Map PipelineData → Trace
destroy_pipelines [] = []
destroy_pipelines ((name, pd) ∷ m) = destroy_pipeline pd ++ destroy_pipelines m

-- `~KernelLauncher()`
unfoldable pub destructor : ℕ → KernelLauncher → Trace
destructor device k =
    (retire_transient_buffers device k).1
    ++ (destroy_pipelines k.pipelines
        ++ (destroy_handle fence k.fence
            ++ (destroy_handle command_pool k.command_pool
                ++ destroy_handle descriptor_pool k.descriptor_pool)))
