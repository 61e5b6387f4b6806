-- ===== src/Arena/Release.antt =====
-- `deallocate` of src/memory/arena.cpp.
use parallax_runtime.Prelude.{
  ℕ, ◌+◌, ◌≡◌, refl, sym, ◌≢◌, inl, inr, none, some, List, [], ◌∷◌, ◌++◌, arith, All-zip,
  All-append, All-erase, All-find, find, erase, find-erase_ne, Option-cases,
}
use parallax_runtime.HeapPool.Interface.{PoolOps}
use parallax_runtime.Arena.{Arena, Block, deallocate, deallocate_own}
use parallax_runtime.Arena.Fit.{Apart, Apart-sym, ApartFrom, Separated, Fits}
use parallax_runtime.Arena.Live.{LiveApart, LiveSeparated-erase, LiveApart-erase}
use parallax_runtime.Arena.Grants.{unused_key}
use parallax_runtime.Arena.Invariant.{IsValid, Entry}

Separated-append_one :
    (b : Block) (bs : List Block) → ApartFrom bs b → Separated bs → Separated (bs ++ (b ∷ []))
Separated-append_one b [] a s = (tt, tt)
Separated-append_one b (c ∷ bs) a s = (
  All-append (Apart c) bs (b ∷ []) s.0 (Apart-sym b c a.0, tt),
  Separated-append_one b bs a.1 s.1,
)

abbrev released : Arena → ℕ → Block → Arena
released r p b = record r { free_list = r.free_list ++ (b ∷ []); live = erase p r.live }

module _ (r : Arena) (p : ℕ) (b : Block) (v : IsValid r) (e : find p r.live ≡ some b) where
  clear : LiveApart (erase p r.live) b
  clear = LiveApart-erase p b r.live e v.live_apart

  released-IsValid : IsValid (released r p b)
  released-IsValid = record {
    own = v.own;
    mapped = v.mapped;
    addressable = v.addressable;
    small = v.small;
    tail = v.tail;
    mark = v.mark;
    free_in =
        All-append (Fits r.bump) r.free_list (b ∷ []) v.free_in
          ((All-find (Entry r.host_base r.bump) p b r.live e v.live_in).1, tt);
    live_in = All-erase (Entry r.host_base r.bump) p r.live v.live_in;
    free_apart =
        Separated-append_one b r.free_list
          (All-find (λ x. ApartFrom r.free_list x.1) p b r.live e v.cross) v.free_apart;
    live_apart = LiveSeparated-erase p r.live v.live_apart;
    cross =
        All-zip (erase p r.live)
          (λ x old new. All-append (Apart x.1) r.free_list (b ∷ []) old (Apart-sym b x.1 new, tt))
          (All-erase (λ x. ApartFrom r.free_list x.1) p r.live v.cross) clear;
  }

  entry : Entry r.host_base r.bump (p, b)
  entry = All-find (Entry r.host_base r.bump) p b r.live e v.live_in

  released_gone : find p (erase p r.live) ≡ none
  released_gone = rw entry.0 (
      unused_key r.host_base r.bump b (erase (r.host_base + b.offset) r.live) entry.1.0
        (All-erase (Entry r.host_base r.bump) _ r.live v.live_in) (rw entry.0 at clear))

-- `p` is no longer live in `r'`, its block is the newest of the free list, and nothing else changed.
pub record IsRelease (r r' : Arena) (p : ℕ) (b : Block) : Type 0 where
  pub gone : find p r'.live ≡ none
  pub others : (k : ℕ) → k ≢ p → find k r'.live ≡ find k r.live
  pub free : r'.free_list ≡ r.free_list ++ (b ∷ [])
  pub same : (r'.bump ≡ r.bump) × (r'.high_water ≡ r.high_water) × (r'.capacity ≡ r.capacity)

module _ {P : Type 0} (ops : PoolOps P) (pool : P) (r : Arena) (p : ℕ) (v : IsValid r) where
  deallocate-known :
      (b : Block) → find p r.live ≡ some b → deallocate ops pool r p ≡ (released r p b, pool)
  unfolding deallocate deallocate_own
  deallocate-known b e = ground (arith, v.own, v.mapped, (entry r p b v e).0)

  deallocate-unknown : find p r.live ≡ none → deallocate ops pool r p ≡ (r, pool)
  unfolding deallocate deallocate_own
  deallocate-unknown e = ground (arith, v.own)

  -- `deallocate` keeps the invariant, whatever the pointer.
  pub deallocate-IsValid : IsValid (deallocate ops pool r p).0
  deallocate-IsValid = elim (Option-cases (find p r.live)) [
    | inl e ↦ rw (deallocate-unknown e) v
    | inr (b, e) ↦ rw (deallocate-known b e) (released-IsValid r p b v e)
  ]

  -- A live block is given back.
  pub deallocate-IsRelease :
      (b : Block) → find p r.live ≡ some b → IsRelease r (deallocate ops pool r p).0 p b
  deallocate-IsRelease b e = rw (deallocate-known b e) (record {
    gone = released_gone r p b v e;
    others = λ k ne. find-erase_ne p k r.live (λ h. ne (sym h));
    free = refl;
    same = (refl, refl, refl);
  })

  -- A pointer that is not live, such as one that was given back already, changes nothing.
  pub deallocate_ignores : find p r.live ≡ none → deallocate ops pool r p ≡ (r, pool)
  deallocate_ignores e = deallocate-unknown e

module _ {P : Type 0} (ops : PoolOps P) (pool : P) (r : Arena) (p : ℕ) (v : IsValid r) where
  -- A second `deallocate` of the same pointer changes nothing.
  pub deallocate_twice : let d = deallocate ops pool r p in deallocate ops d.1 d.0 p ≡ d
  deallocate_twice = elim (Option-cases (find p r.live)) [
    | inl e ↦ rw (deallocate_ignores ops pool r p v e) (deallocate_ignores ops pool r p v e)
    | inr (b, e) ↦ rw (deallocate-known ops pool r p v b e) (
        deallocate_ignores ops pool (released r p b) p (released-IsValid r p b v e)
          (released_gone r p b v e))
  ]
