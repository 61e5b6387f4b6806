-- ===== src/Arena/Invariant.antt =====
-- The invariant of an arena in use (src/memory/arena.cpp), and lemmas for the steps of `allocate`.
use parallax_runtime.Prelude.{
  ℕ, ◌+◌, ◌^◌, ◌≤◌, ◌<◌, ◌≡◌, refl, inr, false, List, max, arith, All, All-map, All-insert, u64_mod,
  IsPow2,
}
use parallax_runtime.Arena.{Arena, Block, block, default_alignment, hand_out}
use parallax_runtime.Arena.Fit.{
  Apart, Apart-sym, Apart-Within, ApartFrom, Separated, Within, Fits, Takes, Takes-All,
  Takes-Separated,
}
use parallax_runtime.Arena.Live.{LiveApart, LiveSeparated, LiveSeparated-insert}

-- Sizes and offsets stay far below the range of `VkDeviceSize`.
abbrev pub size_limit : ℕ
size_limit = 2 ^ 62

-- An entry of `live_`: its key is the pointer to its block, which lies below `bump_`.
abbrev pub Entry : ℕ → ℕ → ℕ × Block → Type 0
Entry base bump (p, b) = (p ≡ base + b.offset) × Fits bump b

pub record IsValid (r : Arena) : Type 0 where
  pub own : r.pool_backed ≡ false
  pub mapped : 0 < r.host_base
  pub addressable : r.host_base + r.capacity < u64_mod
  pub small : r.capacity ≤ size_limit
  pub tail : r.bump ≤ r.high_water
  pub mark : r.high_water ≤ r.capacity
  pub free_in : All (Fits r.bump) r.free_list
  pub live_in : All (Entry r.host_base r.bump) r.live
  pub free_apart : Separated r.free_list
  pub live_apart : LiveSeparated r.live
  pub cross : All (λ e. ApartFrom r.free_list e.1) r.live

-- A call whose rounding does not overflow. `align` is 0 or a power of two below the limit.
pub record IsRequest (size align : ℕ) : Type 0 where
  pub asked : 0 < size
  pub pow : IsPow2 (max align default_alignment)
  pub fits : size + max align default_alignment ≤ size_limit

-- The arena may hand out `block off need`.
pub record IsOffer (r : Arena) (off need : ℕ) : Type 0 where
  pub inside : Fits r.bump (block off need)
  pub free_of : ApartFrom r.free_list (block off need)
  pub live_of : LiveApart r.live (block off need)

pub hand_out-IsValid :
    (r : Arena) (off need : ℕ) → IsValid r → IsOffer r off need → IsValid (hand_out r off need).1
unfolding hand_out
hand_out-IsValid r off need v o = record {
  own = v.own;
  mapped = v.mapped;
  addressable = v.addressable;
  small = v.small;
  tail = v.tail;
  mark = v.mark;
  free_in = v.free_in;
  live_in = All-insert (Entry r.host_base r.bump) p b r.live (refl, o.inside) v.live_in;
  free_apart = v.free_apart;
  live_apart = LiveSeparated-insert p b r.live o.live_of v.live_apart;
  cross = All-insert (λ e. ApartFrom r.free_list e.1) p b r.live o.free_of v.cross;
}
  where
    p : ℕ
    p = r.host_base + off

    b : Block
    b = block off need

-- Taking a block from the free list leaves an arena that may hand it out.
module _ (r : Arena) (a need off : ℕ) (rest : List Block) (pos : 0 < need) (v : IsValid r)
    (t : Takes a need r.free_list off rest) where
  abbrev pub taken : Arena
  taken = record r { free_list = rest }

  parts-Fits : (b c : Block) → 0 < c.size → Within b c → Fits r.bump b → Fits r.bump c
  parts-Fits b c n w f = (n, omega arith)

  pub taken-IsValid : IsValid taken
  taken-IsValid = record {
    own = v.own;
    mapped = v.mapped;
    addressable = v.addressable;
    small = v.small;
    tail = v.tail;
    mark = v.mark;
    free_in = (Takes-All pos (Fits r.bump) parts-Fits t v.free_in).1;
    live_in = v.live_in;
    free_apart = (Takes-Separated pos t v.free_apart).1;
    live_apart = v.live_apart;
    cross =
        All-map r.live
          (λ e h. (Takes-All pos (Apart e.1) (λ c d _ w. Apart-Within e.1 c d w) t h).1) v.cross;
  }

  pub taken-IsOffer : IsOffer taken off need
  taken-IsOffer = record {
    inside = (Takes-All pos (Fits r.bump) parts-Fits t v.free_in).0;
    free_of = (Takes-Separated pos t v.free_apart).0;
    live_of =
        All-map r.live
          (λ e h.
            Apart-sym e.1 (block off need)
              (Takes-All pos (Apart e.1) (λ c d _ w. Apart-Within e.1 c d w) t h).0)
          v.cross;
  }

-- So does moving `bump_` past the bytes of the never-used tail.
module _ (r : Arena) (off need : ℕ) (pos : 0 < need) (v : IsValid r) (lo : r.bump ≤ off)
    (hi : off + need ≤ r.capacity) where
  abbrev pub grown : Arena
  grown = record r { bump = off + need; high_water = max r.high_water (off + need) }

  pub grown-IsValid : IsValid grown
  grown-IsValid = record {
    own = v.own;
    mapped = v.mapped;
    addressable = v.addressable;
    small = v.small;
    tail = omega arith;
    mark = omega (arith, v.mark);
    free_in = All-map r.free_list (λ b h. (h.0, omega arith)) v.free_in;
    live_in = All-map r.live (λ e h. (h.0, (h.1.0, omega arith))) v.live_in;
    free_apart = v.free_apart;
    live_apart = v.live_apart;
    cross = v.cross;
  }

  pub grown-IsOffer : IsOffer grown off need
  grown-IsOffer = record {
    inside = (pos, omega arith);
    free_of = All-map r.free_list (λ b h. inr (omega arith)) v.free_in;
    live_of = All-map r.live (λ e h. inr (omega arith)) v.live_in;
  }
