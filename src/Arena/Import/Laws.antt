-- ===== src/Arena/Import/Laws.antt =====
-- Lemmas on `initialize_from_pool` of src/memory/arena.cpp, for both outcomes.
use parallax_runtime.Prelude.{
  ℕ, ◌%◌, ◌≡◌, sym, ◌∙◌, ◌≢◌, inl, inr, true, false, some, [], ◌∷◌, ◌++◌, arith, ◌==◌, bit_and,
  Bool-cases, Option-cases,
}
use parallax_runtime.Vulkan.{Trace, create, bind, memory, creations-append, destructions-append}
use parallax_runtime.Arena.{Arena}
use parallax_runtime.Arena.Setup.{fail}
use parallax_runtime.Arena.Setup.Accounts.{IsIdle, Accounts, held, buffer_created, requested}
use parallax_runtime.Arena.Setup.Clean.{Outcome, fail-Outcome, idle_Accounts}
use parallax_runtime.Arena.Import.{
  Answers, refuses, lowest_type, import_buffer, initialize_from_pool,
}

-- A call that succeeds does not answer with the null handle.
pub record IsLegal (a : Answers) : Type 0 where
  pub buffer_handle : (h : ℕ) → a.new_buffer ≡ some h → h ≢ 0
  pub memory_handle : (h : ℕ) → a.new_memory ≡ some h → h ≢ 0

imported :
    (r : Arena) (t : Trace) (m b address base n : ℕ)
    → m ≢ 0
    → IsIdle r
    → Accounts t (record r { buffer = b })
    → Accounts (t ++ create memory m ∷ bind b m ∷ []) (record r {
      buffer = b;
      memory = m;
      device_address = address;
      host_base = base;
      capacity = n;
      uma = true;
      pool_backed = true;
    })
unfolding held
imported r t m b address base n mz i a = record {
  balance = λ k h.
      simp (creations-append, destructions-append)
        (ground (arith, a.balance k h, i.unmapped, i.no_memory, i.own));
}

import_buffer-Outcome :
    (a : Answers) (r : Arena) (b host_bits : ℕ)
    → IsLegal a
    → b ≢ 0
    → IsIdle r
    → Outcome (import_buffer a r b host_bits)
unfolding import_buffer
import_buffer-Outcome a r b host_bits l bz i =
    let h = buffer_created r r.capacity b bz i in
    let h2 =
      requested (record r { buffer = b }) _ a.pool_reservation
        (lowest_type (bit_and a.buffer_bits host_bits)) h in
    elim (Bool-cases (bit_and a.buffer_bits host_bits == 0)) [
      | inl e ↦ rw (e, import_buffer) (fail-Outcome _ _ h)
      | inr e ↦ elim (Option-cases a.new_memory) [
        | inl f ↦ rw (e, import_buffer) (rw f (fail-Outcome _ _ h2))
        | inr (m, f) ↦
            rw (e, import_buffer)
              (rw f (
                imported r _ m b _ a.pool_base a.pool_reservation (l.memory_handle m f) i h2,
                λ z. cc,
              ))
      ]
    ]

-- Adopting the pool accounts for every object of the driver; where it fails none is left.
pub initialize_from_pool-Outcome :
    (a : Answers) (r : Arena) → IsLegal a → IsIdle r → Outcome (initialize_from_pool a r)
unfolding initialize_from_pool
initialize_from_pool-Outcome a r l i =
    let nothing : Outcome (false, r, []) = (idle_Accounts r i, λ _. i) in
    elim (Bool-cases (refuses a)) [
      | inl e ↦ rw (e, initialize_from_pool) nothing
      | inr e ↦ elim (Option-cases a.host_bits) [
        | inl f ↦ rw (e, initialize_from_pool) (rw f nothing)
        | inr (bits, f) ↦ elim (Bool-cases (bits == 0)) [
          | inl g ↦ rw (e, initialize_from_pool) (rw (f, g) nothing)
          | inr g ↦ elim (Option-cases a.new_buffer) [
            | inl h ↦ rw (e, initialize_from_pool) (rw (f, g) (rw h nothing))
            | inr (b, h) ↦
                rw (e, initialize_from_pool)
                  (rw (f, g) (rw h (import_buffer-Outcome a r b bits l (l.buffer_handle b h) i)))
          ]
        ]
      ]
    ]

-- `r'` is the pool's reservation, mapped where the pool is.
pub record IsAdopted (a : Answers) (r' : Arena) : Type 0 where
  pub backed : r'.pool_backed ≡ true
  pub coherent : r'.uma ≡ true
  pub base : r'.host_base ≡ a.pool_base
  pub capacity : r'.capacity ≡ a.pool_reservation
  pub mapped : r'.host_base ≢ 0
  pub aligned : r'.host_base % a.import_alignment ≡ 0
  pub own_memory : some r'.memory ≡ a.new_memory

import_buffer-fields :
    (a : Answers) (r : Arena) (b host_bits : ℕ)
    → (import_buffer a r b host_bits).0 ≡ true
    → let r' = (import_buffer a r b host_bits).1 in
      (r'.pool_backed ≡ true)
      × (r'.uma ≡ true)
      × (r'.host_base ≡ a.pool_base)
      × (r'.capacity ≡ a.pool_reservation)
      × (some r'.memory ≡ a.new_memory)
unfolding import_buffer fail
import_buffer-fields a r b host_bits e = ground arith

refuses-false :
    (a : Answers) → refuses a ≡ false → (a.pool_base ≢ 0) × (a.pool_base % a.import_alignment ≡ 0)
unfolding refuses
refuses-false a e = ground arith

reached :
    (a : Answers) (r : Arena)
    → (initialize_from_pool a r).0 ≡ true
    → (refuses a ≡ false)
      × (b : ℕ) × (bits : ℕ) × (initialize_from_pool a r ≡ import_buffer a r b bits)
unfolding initialize_from_pool
reached a r e = elim (Bool-cases (refuses a)) [
  | inl f ↦ absurd (ground arith)
  | inr f ↦ elim (Option-cases a.host_bits) [
    | inl g ↦ absurd (ground arith)
    | inr (bits, g) ↦ elim (Option-cases a.new_buffer) [
      | inl h ↦ absurd (ground arith)
      | inr (b, h) ↦ (f, b, bits, ground arith)
    ]
  ]
]

-- A successful adoption makes the arena the pool's reservation, mapped where the pool is.
pub initialize_from_pool-IsAdopted :
    (a : Answers) (r : Arena)
    → (initialize_from_pool a r).0 ≡ true
    → IsAdopted a (initialize_from_pool a r).1
initialize_from_pool-IsAdopted a r e =
    let (go, b, bits, same) = reached a r e in
    let ok = refuses-false a go in
    rw same (
      let f = import_buffer-fields a r b bits (rw same at e) in
      record {
        backed = f.0;
        coherent = f.1;
        base = f.2;
        capacity = f.3;
        mapped = λ z. ok.0 (sym f.2 ∙ z);
        aligned = rw f.2 ok.1;
        own_memory = f.4;
      })
