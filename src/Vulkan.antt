-- ===== src/Vulkan.antt =====
-- The Vulkan driver as the runtime sees it. What a call answers is an argument of the model; what
-- the runtime asks of the driver is a list of commands, oldest first. A handle is a number, 0 is
-- VK_NULL_HANDLE.
pub mod Types
mod Tests
use parallax_runtime.Prelude.{
  ℕ, zero, suc, ◌+◌, ◌^◌, ◌≡◌, Bool, true, false, not, ◌&&◌, List, [], ◌∷◌, ◌++◌, bit_and, ◌==◌,
  arith, if◌then◌else◌, length,
}

pub data Kind : Type 0 where
  buffer memory mapping command_pool fence descriptor_pool descriptor_set pipeline layout set_layout
        shader instance device :
      Kind

pub data Command : Type 0 where
  create : Kind → ℕ → Command
  destroy : Kind → ℕ → Command
  bind : ℕ → ℕ → Command
  -- the size and the memory type index that a call of vkAllocateMemory is given
  request_memory : ℕ → ℕ → Command
  -- source, destination and byte count of a buffer copy that is submitted and waited for
  copy : ℕ → ℕ → ℕ → Command
  flush_mapped : ℕ → Command
  -- a memcpy of the host between its own memory and a mapping: destination, source, byte count
  host_copy : ℕ → ℕ → ℕ → Command
  invalidate_mapped : ℕ → Command

abbrev pub Trace : Type 0
Trace = List Command

kind_index : Kind → ℕ
kind_index buffer = 0
kind_index memory = 1
kind_index mapping = 2
kind_index command_pool = 3
kind_index fence = 4
kind_index descriptor_pool = 5
kind_index descriptor_set = 6
kind_index pipeline = 7
kind_index layout = 8
kind_index set_layout = 9
kind_index shader = 10
kind_index instance = 11
kind_index device = 12

-- 1 if the two objects are the same, and 0 otherwise.
pub hits : Kind → ℕ → Kind → ℕ → ℕ
unfolding kind_index
hits k h j g = if kind_index k == kind_index j && h == g then 1 else 0

-- How often the object `h` of kind `k` is created and destroyed.
abbrev pub creations : Kind → ℕ → Trace → ℕ
creations k h [] = 0
creations k h (create j g ∷ t) = hits k h j g + creations k h t
creations k h (_ ∷ t) = creations k h t

abbrev pub destructions : Kind → ℕ → Trace → ℕ
destructions k h [] = 0
destructions k h (destroy j g ∷ t) = hits k h j g + destructions k h t
destructions k h (_ ∷ t) = destructions k h t

-- Every object that the commands create they also destroy, and the other way round.
abbrev pub IsBalanced : Trace → Type 0
IsBalanced t = (k : Kind) (h : ℕ) → creations k h t ≡ destructions k h t

pub creations-append :
    (k : Kind) (h : ℕ) (s t : Trace) → creations k h (s ++ t) ≡ creations k h s + creations k h t
creations-append k h [] t = omega arith
creations-append k h (create j g ∷ s) t = omega (arith, creations-append k h s t)
creations-append k h (_ ∷ s) t = creations-append k h s t

pub destructions-append :
    (k : Kind) (h : ℕ) (s t : Trace)
    → destructions k h (s ++ t) ≡ destructions k h s + destructions k h t
destructions-append k h [] t = omega arith
destructions-append k h (destroy j g ∷ s) t = omega (arith, destructions-append k h s t)
destructions-append k h (_ ∷ s) t = destructions-append k h s t

-- UINT32_MAX, "no such memory type".
abbrev pub no_type : ℕ
no_type = 4294967295

-- VK_MEMORY_PROPERTY_DEVICE_LOCAL_BIT, …_HOST_VISIBLE_BIT and …_HOST_COHERENT_BIT.
abbrev pub device_local : ℕ
device_local = 1

abbrev pub host_visible : ℕ
host_visible = 2

abbrev pub host_coherent : ℕ
host_coherent = 4

-- `(type_filter & (1u << i)) && (propertyFlags & props) == props`
unfoldable pub suits : ℕ → ℕ → ℕ → ℕ → Bool
suits filter props i flags = not (bit_and filter (2 ^ i) == 0) && bit_and flags props == props

-- `find_memory_type`: the loop over the device's memory types from index `i` on.
unfoldable pub find_from : ℕ → ℕ → ℕ → List ℕ → ℕ
find_from filter props i [] = no_type
find_from filter props i (flags ∷ types) =
    if suits filter props i flags then i else find_from filter props (i + 1) types

unfoldable pub find_memory_type : List ℕ → ℕ → ℕ → ℕ
unfolding find_from suits
find_memory_type types filter props = find_from filter props 0 types
