-- ===== src/Arena/Setup/Accounts.antt =====
-- The objects of the driver that an arena holds, against the commands of `initialize` and
-- `destroy` of src/memory/arena.cpp.
use parallax_runtime.Prelude.{
  ℕ, ◌+◌, ◌≡◌, refl, ◌≢◌, true, false, some, [], ◌∷◌, ◌++◌, arith, ◌==◌, ◌||◌, if◌then◌else◌,
}
use parallax_runtime.Vulkan.{
  Trace, Kind, create, request_memory, bind, buffer, memory, mapping, command_pool, fence,
  creations, destructions, IsBalanced, hits, creations-append, destructions-append,
  destroy as destroy_object,
}
use parallax_runtime.Arena.{Arena, empty}
use parallax_runtime.Arena.Setup.{Answers, close, unmap, destroy}

-- No object is held.
pub record IsIdle (r : Arena) : Type 0 where
  pub own : r.pool_backed ≡ false
  pub unmapped : r.host_base ≡ 0
  pub no_buffer : r.buffer ≡ 0
  pub no_memory : r.memory ≡ 0
  pub no_staging_buffer : r.staging_buffer ≡ 0
  pub no_staging_memory : r.staging_memory ≡ 0
  pub no_pool : r.xfer_pool ≡ 0
  pub no_fence : r.xfer_fence ≡ 0

pub empty-IsIdle : IsIdle empty
empty-IsIdle = record {
  own = refl;
  unmapped = refl;
  no_buffer = refl;
  no_memory = refl;
  no_staging_buffer = refl;
  no_staging_memory = refl;
  no_pool = refl;
  no_fence = refl;
}

-- A call that succeeds does not answer with the null handle.
pub record IsLegal (a : Answers) : Type 0 where
  pub buffer_handle : (h : ℕ) → a.new_buffer ≡ some h → h ≢ 0
  pub memory_handle : (h : ℕ) → a.new_memory ≡ some h → h ≢ 0
  pub staging_handle : (h : ℕ) → a.new_staging_buffer ≡ some h → h ≢ 0
  pub staging_memory_handle : (h : ℕ) → a.new_staging_memory ≡ some h → h ≢ 0
  pub mapped_pointer : (p : ℕ) → a.mapped ≡ some p → p ≢ 0

pub destroy-IsIdle : (r : Arena) → IsIdle (destroy r).0
unfolding destroy
destroy-IsIdle r = ground arith

-- 1 if `g` is the object asked for, and not null.
unfoldable pub weigh : Kind → ℕ → Kind → ℕ → ℕ
weigh k h j g = if g == 0 then 0 else hits k h j g

held_mapping : Kind → ℕ → Arena → ℕ
held_mapping k h r =
    if r.host_base == 0 || r.pool_backed
    then 0
    else hits k h mapping (if r.uma then r.memory else r.staging_memory)

-- How often the arena holds the object `h` of kind `k`.
unfoldable pub held : Kind → ℕ → Arena → ℕ
unfolding weigh held_mapping
held k h r =
    held_mapping k h r
    + weigh k h fence r.xfer_fence
    + weigh k h command_pool r.xfer_pool
    + weigh k h buffer r.staging_buffer
    + weigh k h memory r.staging_memory
    + weigh k h buffer r.buffer
    + weigh k h memory r.memory

-- What was created and not destroyed is what the arena holds.
pub record Accounts (t : Trace) (r : Arena) : Type 0 where
  pub balance : (k : Kind) (h : ℕ) → creations k h t ≡ destructions k h t + held k h r

creations-close : (k : Kind) (h g : ℕ) (j : Kind) → creations k h (close g (destroy_object j g)) ≡ 0
creations-close k h g j = ground arith

destructions-close :
    (k : Kind) (h g : ℕ) (j : Kind)
    → destructions k h (close g (destroy_object j g)) ≡ weigh k h j g
unfolding weigh
destructions-close k h g j = ground arith

unmap_counts :
    (k : Kind) (h : ℕ) (r : Arena)
    → (creations k h (unmap r) ≡ 0) × (destructions k h (unmap r) ≡ held_mapping k h r)
unfolding unmap held_mapping
unmap_counts k h r = ground arith

ruleset counting = (creations-append, destructions-append, creations-close, destructions-close)

destroy_counts :
    (k : Kind) (h : ℕ) (r : Arena)
    → (creations k h (destroy r).1 ≡ 0) × (destructions k h (destroy r).1 ≡ held k h r)
unfolding destroy held
destroy_counts k h r =
    (simp (counting, (unmap_counts k h r).0), simp (counting, (unmap_counts k h r).1))

pub held-empty : (k : Kind) (h : ℕ) (r : Arena) → IsIdle r → held k h r ≡ 0
unfolding held
held-empty k h r i = ground (
  arith, i.unmapped, i.no_buffer, i.no_memory, i.no_staging_buffer, i.no_staging_memory, i.no_pool,
  i.no_fence,
)

-- After `destroy` everything is given back.
pub destroy-Accounts : (t : Trace) (r : Arena) → Accounts t r → IsBalanced (t ++ (destroy r).1)
destroy-Accounts t r a k h = omega (
  arith,
  a.balance k h,
  destroy_counts k h r,
  creations-append k h t (destroy r).1,
  destructions-append k h t (destroy r).1,
)

-- A buffer is all that the arena holds.
pub record HasBuffer (r : Arena) : Type 0 where
  pub own : r.pool_backed ≡ false
  pub unmapped : r.host_base ≡ 0
  pub some_buffer : r.buffer ≢ 0
  pub no_memory : r.memory ≡ 0
  pub no_staging_buffer : r.staging_buffer ≡ 0
  pub no_staging_memory : r.staging_memory ≡ 0
  pub no_pool : r.xfer_pool ≡ 0
  pub no_fence : r.xfer_fence ≡ 0

pub uma_none :
    (r : Arena) (t : Trace) (n i : ℕ)
    → HasBuffer r
    → Accounts t r
    → Accounts (t ++ request_memory n i ∷ []) (record r { uma = true })
unfolding held
uma_none r t n i b a = record {
  balance = λ k h. simp counting (ground (arith, a.balance k h, b.unmapped));
}

pub uma_unmapped :
    (r : Arena) (t : Trace) (n i m : ℕ)
    → m ≢ 0
    → HasBuffer r
    → Accounts t r
    → Accounts
        (t ++ request_memory n i ∷ create memory m ∷ bind r.buffer m ∷ [])
        (record r { uma = true; memory = m })
unfolding held
uma_unmapped r t n i m mz b a = record {
  balance = λ k h. simp counting (ground (arith, a.balance k h, b.unmapped, b.no_memory));
}

pub uma_mapped :
    (r : Arena) (t : Trace) (n i m p : ℕ)
    → m ≢ 0
    → p ≢ 0
    → HasBuffer r
    → Accounts t r
    → Accounts
        (t ++ request_memory n i ∷ create memory m ∷ bind r.buffer m ∷ create mapping m ∷ [])
        (record r { uma = true; memory = m; host_base = p })
unfolding held
uma_mapped r t n i m p mz pz b a = record {
  balance = λ k h. simp counting (ground (arith, a.balance k h, b.unmapped, b.no_memory, b.own));
}

-- The device buffer and its memory are all that the arena holds.
pub record HasMemory (r : Arena) : Type 0 where
  pub own : r.pool_backed ≡ false
  pub uma : r.uma ≡ false
  pub unmapped : r.host_base ≡ 0
  pub no_staging_buffer : r.staging_buffer ≡ 0
  pub no_staging_memory : r.staging_memory ≡ 0
  pub no_pool : r.xfer_pool ≡ 0
  pub no_fence : r.xfer_fence ≡ 0

pub staging_created :
    (r : Arena) (t : Trace) (s : ℕ)
    → s ≢ 0
    → HasMemory r
    → Accounts t r
    → Accounts (t ++ create buffer s ∷ []) (record r { staging_buffer = s })
unfolding held
staging_created r t s sz b a = record {
  balance = λ k h. simp counting (ground (arith, a.balance k h, b.unmapped, b.no_staging_buffer));
}

pub staging_backed :
    (r : Arena) (t : Trace) (n i m : ℕ)
    → m ≢ 0
    → r.host_base ≡ 0
    → r.staging_memory ≡ 0
    → Accounts t r
    → Accounts
        (t ++ request_memory n i ∷ create memory m ∷ bind r.staging_buffer m ∷ [])
        (record r { staging_memory = m })
unfolding held
staging_backed r t n i m mz u z a = record {
  balance = λ k h. simp counting (ground (arith, a.balance k h));
}

pub requested :
    (r : Arena) (t : Trace) (n i : ℕ) → Accounts t r → Accounts (t ++ request_memory n i ∷ []) r
requested r t n i a = record { balance = λ k h. simp counting (omega (arith, a.balance k h)) }

pub device_backed :
    (r : Arena) (t : Trace) (n i m : ℕ)
    → m ≢ 0
    → r.host_base ≡ 0
    → r.memory ≡ 0
    → Accounts t r
    → Accounts
        (t ++ request_memory n i ∷ create memory m ∷ bind r.buffer m ∷ [])
        (record r { memory = m })
unfolding held
device_backed r t n i m mz u z a = record {
  balance = λ k h. simp counting (ground (arith, a.balance k h));
}

pub not_uma :
    (r : Arena) (t : Trace) → r.host_base ≡ 0 → Accounts t r → Accounts t (record r { uma = false })
unfolding held
not_uma r t u a = record { balance = λ k h. ground (arith, a.balance k h) }

creations-close_new :
    (k : Kind) (h g : ℕ) (j : Kind) → creations k h (close g (create j g)) ≡ weigh k h j g
unfolding weigh
creations-close_new k h g j = ground arith

destructions-close_new :
    (k : Kind) (h g : ℕ) (j : Kind) → destructions k h (close g (create j g)) ≡ 0
destructions-close_new k h g j = ground arith

-- Mapping the staging memory and creating the objects of the migration copies.
pub staging_mapped :
    (r : Arena) (t : Trace) (p pool cmd fen : ℕ)
    → p ≢ 0
    → r.pool_backed ≡ false
    → r.uma ≡ false
    → r.host_base ≡ 0
    → r.xfer_pool ≡ 0
    → r.xfer_fence ≡ 0
    → Accounts t r
    → Accounts
        (t
          ++ create mapping r.staging_memory ∷ []
          ++ close pool (create command_pool pool)
          ++ close fen (create fence fen))
        (record r { host_base = p; xfer_pool = pool; xfer_cmd = cmd; xfer_fence = fen })
unfolding held
staging_mapped r t p pool cmd fen pz own uma u zp zf a = record {
  balance = λ k h.
      simp (counting, creations-close_new, destructions-close_new) (ground (arith, a.balance k h));
}

-- The fields that no object depends on.
pub rebased :
    (r : Arena) (t : Trace) (address b w : ℕ)
    → Accounts t r
    → Accounts t (record r { device_address = address; bump = b; high_water = w })
unfolding held
rebased r t address b w a = record { balance = a.balance }

pub buffer_created :
    (r : Arena) (c b : ℕ)
    → b ≢ 0
    → IsIdle r
    → Accounts (create buffer b ∷ []) (record r { capacity = c; buffer = b })
unfolding held
buffer_created r c b bz i = record {
  balance = λ k h. ground (
    arith, i.own, i.unmapped, i.no_memory, i.no_staging_buffer, i.no_staging_memory, i.no_pool,
    i.no_fence,
  );
}
