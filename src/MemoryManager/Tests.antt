-- ===== src/MemoryManager/Tests.antt =====
-- Runs of the buffer table on small inputs, and instances of its theorems.
use parallax_runtime.Prelude.{◌≡◌, refl, some, [], ◌∷◌, ◌++◌, arith, find, insert}
use parallax_runtime.Vulkan.{IsBalanced, flush_mapped, destroy, buffer, memory, mapping}
use parallax_runtime.UnifiedBuffer.{init_dirty_tracking}
use parallax_runtime.MemoryManager.{
  Manager, Answers, construct, allocate, sync_before_kernel, destructor, sync, get_buffer,
  host_to_device,
}
use parallax_runtime.MemoryManager.Accounts.{IsLegal}
use parallax_runtime.MemoryManager.Lifetime.{Reached, constructed, allocated, destructor-IsBalanced}

-- The driver answers every request.
abbrev pub willing : Answers
willing = record {
  types = 7 ∷ [];
  new_buffer = some 21;
  buffer_size = 8192;
  buffer_bits = 1;
  new_memory = some 22;
  mapped = some 4096;
}

willing-IsLegal : IsLegal willing
willing-IsLegal = record {
  buffer_handle = λ h e. ground arith;
  memory_handle = λ h e. ground arith;
}

abbrev started : Manager
started = (construct 5).0

abbrev one_buffer : Manager
one_buffer = (allocate willing started 5000).1

one_buffer-Reached : Reached one_buffer ((construct 5).1 ++ (allocate willing started 5000).2)
unfolding construct find
one_buffer-Reached = allocated started _ willing 5000 willing-IsLegal (λ p e. refl) (constructed 5)

destructor-IsBalanced_example :
    IsBalanced (((construct 5).1 ++ (allocate willing started 5000).2) ++ destructor one_buffer)
destructor-IsBalanced_example = destructor-IsBalanced one_buffer _ one_buffer-Reached

gives_back :
    destructor one_buffer
    ≡ destroy mapping 22 ∷ destroy buffer 21 ∷ destroy memory 22 ∷ (destructor started)
unfolding destructor construct allocate insert init_dirty_tracking
gives_back = refl

flushes_once : (sync_before_kernel one_buffer 4096).1 ≡ flush_mapped 22 ∷ []
unfolding sync_before_kernel construct allocate insert init_dirty_tracking find
flushes_once = refl

flushes : sync one_buffer 4096 host_to_device ≡ flush_mapped 22 ∷ []
unfolding sync construct allocate insert init_dirty_tracking find
flushes = refl

knows_buffer : get_buffer one_buffer 4096 ≡ 21
unfolding get_buffer construct allocate insert init_dirty_tracking find
knows_buffer = refl
