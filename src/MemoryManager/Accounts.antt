-- ===== src/MemoryManager/Accounts.antt =====
-- The objects of the driver that the table of src/memory/unified_buffer.cpp holds, and lemmas on
-- how insertions and removals change their count.
use parallax_runtime.Prelude.{
  ℕ, ◌+◌, ◌≡◌, ◌≢◌, true, none, some, [], ◌∷◌, arith, ◌==◌, if◌then◌else◌, Map, find, insert, erase,
  All,
}
use parallax_runtime.Vulkan.{
  Kind, Trace, buffer, memory, mapping, command_pool, hits, creations, destructions, IsBalanced,
}
use parallax_runtime.UnifiedBuffer.{UnifiedBuffer}
use parallax_runtime.MemoryManager.{Manager, Answers, create_buffer}

-- The objects of one buffer.
unfoldable pub objects : Kind → ℕ → UnifiedBuffer → ℕ
objects k h u = hits k h buffer u.buffer + hits k h memory u.memory + hits k h mapping u.memory

unfoldable pub held_all : Kind → ℕ → Map UnifiedBuffer → ℕ
held_all k h [] = 0
held_all k h ((p, u) ∷ m) = objects k h u + held_all k h m

pub held_all-insert :
    (k : Kind) (h p : ℕ) (u : UnifiedBuffer) (m : Map UnifiedBuffer)
    → find p m ≡ none
    → held_all k h (insert p u m) ≡ held_all k h m + objects k h u
unfolding held_all insert find
held_all-insert k h p u [] e = omega arith
held_all-insert k h p u ((q, w) ∷ m) e = ground (arith, held_all-insert k h p u m)

pub held_all-replace :
    (k : Kind) (h p : ℕ) (u w : UnifiedBuffer) (m : Map UnifiedBuffer)
    → find p m ≡ some w
    → objects k h u ≡ objects k h w
    → held_all k h (insert p u m) ≡ held_all k h m
unfolding held_all insert find
held_all-replace k h p u w [] e s = cc
held_all-replace k h p u w ((q, x) ∷ m) e s = ground (arith, held_all-replace k h p u w m)

pub held_all-erase :
    (k : Kind) (h p : ℕ) (u : UnifiedBuffer) (m : Map UnifiedBuffer)
    → find p m ≡ some u
    → held_all k h (erase p m) + objects k h u ≡ held_all k h m
unfolding held_all erase find
held_all-erase k h p u [] e = cc
held_all-erase k h p u ((q, x) ∷ m) e = ground (arith, held_all-erase k h p u m)

-- A buffer of the table is mapped and has both handles.
abbrev pub IsWhole : ℕ × UnifiedBuffer → Type 0
IsWhole (p, u) = (u.is_mapped ≡ true) × (u.buffer ≢ 0) × (u.memory ≢ 0)

-- A call that succeeds does not answer with the null handle.
pub record IsLegal (a : Answers) : Type 0 where
  pub buffer_handle : (h : ℕ) → a.new_buffer ≡ some h → h ≢ 0
  pub memory_handle : (h : ℕ) → a.new_memory ≡ some h → h ≢ 0

unfoldable pub weigh_pool : Kind → ℕ → ℕ → ℕ
weigh_pool k h c = if c == 0 then 0 else hits k h command_pool c

-- What was created and not destroyed is what the table holds, and the command pool.
pub record Accounts (t : Trace) (mm : Manager) : Type 0 where
  pub whole : All IsWhole mm.buffers
  pub balance :
      (k : Kind) (h : ℕ)
      → creations k h t
        ≡ destructions k h t + held_all k h mm.buffers + weigh_pool k h mm.command_pool_handle

-- `create_buffer` leaves nothing behind where it fails.
pub create_buffer-failed :
    (a : Answers) → (create_buffer a).0 ≡ none → IsBalanced (create_buffer a).1
unfolding create_buffer
create_buffer-failed a e k h = ground arith

pub create_buffer-made :
    (a : Answers) (b m p : ℕ)
    → (create_buffer a).0 ≡ some (b, m, p)
    → (a.new_buffer ≡ some b) × (a.new_memory ≡ some m)
unfolding create_buffer
create_buffer-made a b m p e = ground arith

pub create_buffer-counts :
    (k : Kind) (h : ℕ) (a : Answers) (b m p : ℕ)
    → (create_buffer a).0 ≡ some (b, m, p)
    → creations k h (create_buffer a).1
      ≡ destructions k h (create_buffer a).1
        + (hits k h buffer b + hits k h memory m + hits k h mapping m)
unfolding create_buffer
create_buffer-counts k h a b m p e = ground arith
