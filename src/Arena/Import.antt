-- ===== src/Arena/Import.antt =====
-- `initialize_from_pool` of src/memory/arena.cpp: the heap pool's reservation becomes the device
-- buffer, and the arena hands its requests to the pool.
pub mod Laws
pub mod Tests
use parallax_runtime.Prelude.{
  ℕ, zero, suc, ◌+◌, ◌%◌, ◌^◌, ◌<◌, ◌≡◌, Bool, true, false, not, ◌&&◌, ◌||◌, Option, none, some,
  List, [], ◌∷◌, ◌++◌, bit_and, ◌==◌, if◌then◌else◌,
}
use parallax_runtime.Vulkan.{Trace, create, request_memory, bind, buffer, memory}
use parallax_runtime.Arena.{Arena}
use parallax_runtime.Arena.Setup.{fail}

-- The capabilities that are read, the pool's two numbers, and the driver's answers.
pub record Answers : Type 0 where
  pub device : ℕ
  pub external_memory_host : Bool
  pub buffer_device_address : Bool
  pub import_alignment : ℕ
  pub pool_base : ℕ
  pub pool_reservation : ℕ
  -- whether vkGetMemoryHostPointerPropertiesEXT exists, and the type bits that it gives
  pub has_query : Bool
  pub host_bits : Option ℕ
  pub new_buffer : Option ℕ
  pub buffer_bits : ℕ
  pub new_memory : Option ℕ
  pub address : ℕ

-- `while (idx < 32 && !(bits & (1u << idx))) ++idx;`, on the rounds that are left.
lowest_from : ℕ → ℕ → ℕ → ℕ
lowest_from zero bits idx = idx
lowest_from (suc n) bits idx =
    let next = lowest_from n bits (idx + 1) in if bit_and bits (2 ^ idx) == 0 then next else idx

pub lowest_type : ℕ → ℕ
unfolding lowest_from
lowest_type bits = lowest_from 32 bits 0

-- From the creation of the buffer on.
import_buffer : Answers → Arena → ℕ → ℕ → Bool × Arena × Trace
unfolding lowest_type
import_buffer a r b host_bits =
    let r1 = record r { buffer = b } in
    let t1 = create buffer b ∷ [] in
    let bits = bit_and a.buffer_bits host_bits in
    if bits == 0
    then fail r1 t1
    else (let t2 = t1 ++ request_memory a.pool_reservation (lowest_type bits) ∷ [] in
        elim a.new_memory [
          | none ↦ fail r1 t2
          | some m ↦ (
            true,
            record r1 {
              memory = m;
              device_address = if a.buffer_device_address then a.address else r.device_address;
              host_base = a.pool_base;
              capacity = a.pool_reservation;
              uma = true;
              pool_backed = true;
            },
            t2 ++ create memory m ∷ bind b m ∷ [],
          )
        ])

-- The early returns before the driver is asked for anything.
refuses : Answers → Bool
refuses a =
    a.device == 0
    || not a.external_memory_host
    || a.pool_base == 0
    || a.pool_reservation == 0
    || not (a.pool_base % a.import_alignment == 0)
    || not a.has_query

pub initialize_from_pool : Answers → Arena → Bool × Arena × Trace
unfolding import_buffer refuses
initialize_from_pool a r = if refuses a then (false, r, []) else elim a.host_bits [
  | none ↦ (false, r, [])
  | some host_bits ↦
      if host_bits == 0
      then (false, r, [])
      else elim a.new_buffer [ none ↦ (false, r, []) | some b ↦ import_buffer a r b host_bits ]
]
