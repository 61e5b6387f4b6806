-- ===== src/MemoryManager/Lifetime.antt =====
-- The life of a MemoryManager (src/memory/unified_buffer.cpp) as a relation: its constructor, then
-- calls in any order.
use parallax_runtime.Prelude.{ℕ, ◌≡◌, none, some, ◌++◌, find}
use parallax_runtime.Vulkan.{Trace, IsBalanced}
use parallax_runtime.MemoryManager.{
  Manager, Answers, construct, allocate, deallocate, register_external_buffer, sync_before_kernel,
  sync_after_kernel, destructor,
}
use parallax_runtime.MemoryManager.Accounts.{IsLegal, Accounts}
use parallax_runtime.MemoryManager.Calls.{
  construct-Accounts, allocate-Accounts, deallocate-Accounts, register-Accounts,
  sync_before_kernel-Accounts, sync_after_kernel-Accounts, destructor-Accounts,
}

-- The managers that calls reach, with the commands of all the calls so far.
pub data Reached : Manager → Trace → Type 0 where
  constructed : (pool : ℕ) → Reached (construct pool).0 (construct pool).1
  -- the driver maps a new buffer where no buffer of the table is
  allocated :
      (mm : Manager) (t : Trace) (a : Answers) (size : ℕ)
      → IsLegal a
      → ((p : ℕ) → a.mapped ≡ some p → find p mm.buffers ≡ none)
      → Reached mm t
      → Reached (allocate a mm size).1 (t ++ (allocate a mm size).2)
  deallocated :
      (mm : Manager) (t : Trace) (ptr : ℕ)
      → Reached mm t
      → Reached (deallocate mm ptr).0 (t ++ (deallocate mm ptr).1)
  registered :
      (mm : Manager) (t : Trace) (a : Answers) (ptr size : ℕ)
      → IsLegal a
      → Reached mm t
      → Reached
          (register_external_buffer a mm ptr size).1
          (t ++ (register_external_buffer a mm ptr size).2)
  before_kernel :
      (mm : Manager) (t : Trace) (ptr : ℕ)
      → Reached mm t
      → Reached (sync_before_kernel mm ptr).0 (t ++ (sync_before_kernel mm ptr).1)
  after_kernel :
      (mm : Manager) (t : Trace) (ptr : ℕ) → Reached mm t → Reached (sync_after_kernel mm ptr) t

Reached-Accounts : (mm : Manager) (t : Trace) → Reached mm t → Accounts t mm
Reached-Accounts _ _ (constructed pool) = construct-Accounts pool
Reached-Accounts _ _ (allocated mm t a size l new r) =
    allocate-Accounts t a mm size l new (Reached-Accounts mm t r)
Reached-Accounts _ _ (deallocated mm t ptr r) =
    deallocate-Accounts t mm ptr (Reached-Accounts mm t r)
Reached-Accounts _ _ (registered mm t a ptr size l r) =
    register-Accounts t a mm ptr size l (Reached-Accounts mm t r)
Reached-Accounts _ _ (before_kernel mm t ptr r) =
    sync_before_kernel-Accounts t mm ptr (Reached-Accounts mm t r)
Reached-Accounts _ _ (after_kernel mm t ptr r) =
    sync_after_kernel-Accounts t mm ptr (Reached-Accounts mm t r)

-- Whatever calls a manager has served, with a driver that answers without null handles and maps
-- new buffers at new addresses, once its destructor has run every object that its calls created
-- has been destroyed exactly as often.
pub destructor-IsBalanced :
    (mm : Manager) (t : Trace) → Reached mm t → IsBalanced (t ++ destructor mm)
destructor-IsBalanced mm t r = destructor-Accounts t mm (Reached-Accounts mm t r)
