-- ===== src/Arena/Setup/Fresh.antt =====
-- The arena after an `initialize` of src/memory/arena.cpp that returns true.
use parallax_runtime.Prelude.{
  ℕ, ◌+◌, ◌≤◌, ◌<◌, ◌≡◌, refl, sym, ◌∙◌, All, IsPow2, align_up_bounds, true, false, some, [], arith,
  align_up, u64_mod,
}
use parallax_runtime.Vulkan.{Trace}
use parallax_runtime.Arena.Invariant.{IsValid, Entry, size_limit}
use parallax_runtime.Arena.Fit.{Fits, Separated, ApartFrom}
use parallax_runtime.Arena.Live.{LiveSeparated}
use mathlib.Core.Path.{subst}
use parallax_runtime.Arena.{Arena, default_alignment}
use parallax_runtime.Arena.Setup.{
  Answers, fail, setup_uma, setup_staging, setup_discrete, initialize, arena_size,
}

-- `r'` is `r` with nothing handed out, mapped where the driver says.
pub record IsFresh (a : Answers) (r r' : Arena) : Type 0 where
  pub mapped : a.mapped ≡ some r'.host_base
  pub same_pool : r'.pool_backed ≡ r.pool_backed
  pub same_free : r'.free_list ≡ r.free_list
  pub same_live : r'.live ≡ r.live
  pub same_capacity : r'.capacity ≡ r.capacity
  pub at_start : r'.bump ≡ 0
  pub no_water : r'.high_water ≡ 0

setup_uma-IsFresh :
    (a : Answers) (r : Arena) (t : Trace)
    → (setup_uma a r t).0 ≡ true
    → IsFresh a r (setup_uma a r t).1
unfolding setup_uma
setup_uma-IsFresh a r t e = ground arith

setup_staging-IsFresh :
    (a : Answers) (r : Arena) (t : Trace)
    → (setup_staging a r t).0 ≡ true
    → IsFresh a r (setup_staging a r t).1
unfolding setup_staging
setup_staging-IsFresh a r t e = ground arith

setup_discrete-IsFresh :
    (a : Answers) (r : Arena) (t : Trace)
    → (setup_discrete a r t).0 ≡ true
    → IsFresh a r (setup_discrete a r t).1
unfolding setup_discrete fail
setup_discrete-IsFresh a r t e = grind (arith, setup_staging-IsFresh)

-- The capacity that `initialize` settles on.
abbrev pub capacity_of : Answers → ℕ → ℕ
capacity_of a capacity = align_up (arena_size a.arena_megabytes capacity) default_alignment

initialize-IsFresh :
    (a : Answers) (r : Arena) (capacity : ℕ)
    → (initialize a r capacity).0 ≡ true
    → IsFresh a (record r { capacity = capacity_of a capacity }) (initialize a r capacity).1
unfolding initialize
initialize-IsFresh a r capacity e = grind (arith, setup_uma-IsFresh, setup_discrete-IsFresh)

alignment-IsPow2 : IsPow2 default_alignment
alignment-IsPow2 = record { exponent = 8; fits = omega arith; power = refl }

-- An arena that has handed out nothing is valid.
empty-IsValid :
    (r : Arena)
    → r.pool_backed ≡ false
    → 0 < r.host_base
    → r.host_base + r.capacity < u64_mod
    → r.capacity ≤ size_limit
    → r.bump ≡ 0
    → r.high_water ≡ 0
    → r.free_list ≡ []
    → r.live ≡ []
    → IsValid r
empty-IsValid r own mapped range small b w nofree nolive = record {
  own = own;
  mapped = mapped;
  addressable = range;
  small = small;
  tail = omega arith;
  mark = omega arith;
  free_in = subst (All (Fits r.bump)) (sym nofree) tt;
  live_in = subst (All (Entry r.host_base r.bump)) (sym nolive) tt;
  free_apart = subst Separated (sym nofree) tt;
  live_apart = subst LiveSeparated (sym nolive) tt;
  cross = subst (All (λ e. ApartFrom r.free_list e.1)) (sym nolive) tt;
}

-- A setup that succeeds, in an address range and of a size that the words can hold, leaves an
-- arena that is valid, empty, and as large as asked for.
pub initialize-IsValid :
    (a : Answers) (r : Arena) (capacity : ℕ)
    → r.pool_backed ≡ false
    → r.free_list ≡ []
    → r.live ≡ []
    → ((p : ℕ) → a.mapped ≡ some p → (0 < p) × (p + capacity_of a capacity < u64_mod))
    → arena_size a.arena_megabytes capacity < size_limit
    → (initialize a r capacity).0 ≡ true
    → IsValid (initialize a r capacity).1
      × (arena_size a.arena_megabytes capacity ≤ (initialize a r capacity).1.capacity)
initialize-IsValid a r capacity own nofree nolive range small e =
    let f = initialize-IsFresh a r capacity e in
    let place = range (initialize a r capacity).1.host_base f.mapped in
    let bounds =
      align_up_bounds (arena_size a.arena_megabytes capacity) default_alignment alignment-IsPow2
        (omega arith) in
    (
      empty-IsValid (initialize a r capacity).1 (f.same_pool ∙ own) place.0
          (omega (arith, f.same_capacity)) (omega (arith, f.same_capacity, bounds)) f.at_start
          f.no_water (f.same_free ∙ nofree) (f.same_live ∙ nolive),
      omega (arith, f.same_capacity, bounds),
    )
