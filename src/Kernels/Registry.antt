-- ===== src/Kernels/Registry.antt =====
-- The registry of src/kernel/cache.cpp and the names of loaded kernels.
use parallax_runtime.Prelude.{
  ℕ, ◌+◌, ◌≤◌, ◌<◌, ◌≡◌, refl, sym, ap, ◌∙◌, ◌⊎◌, inl, inr, true, false, Option, none, some, arith,
  ◌==◌, ==_refl, ==_iff, Bool-cases, Option-cases, Map, find, insert, find-insert, u64_mod,
}
use mathlib.Core.Path.{subst}
use parallax_runtime.Runtime.{World}
use parallax_runtime.Kernels.{Handle, FunnelEntry, State, ensure_launcher, load, lookup}
use parallax_runtime.Kernels.Launcher.{LauncherOps}

find-insert_self : (p : ℕ) (u : FunnelEntry) (m : Map FunnelEntry) → find p (insert p u m) ≡ some u
find-insert_self p u m = rw (find-insert p p u m) (rw (==_refl p) refl)

find-insert_other :
    (p q : ℕ) (u : FunnelEntry) (m : Map FunnelEntry)
    → (p == q) ≡ false
    → find q (insert p u m) ≡ find q m
find-insert_other p q u m n = rw (find-insert p q u m) (rw n refl)

-- Every handle of the registry names one of the first `c` loads, and no two keys share one.
pub record IsNamed (c : ℕ) (m : Map FunnelEntry) : Type 0 where
  pub past : (k : ℕ) (e : FunnelEntry) (n : ℕ) → find k m ≡ some e → e.handle ≡ some n → n < c
  pub apart :
      (j k : ℕ) (e f : FunnelEntry) (n : ℕ)
      → find j m ≡ some e
      → find k m ≡ some f
      → e.handle ≡ some n
      → f.handle ≡ some n
      → j ≡ k

-- Where an entry of the new table stems from.
origin :
    (p q : ℕ) (u e : FunnelEntry) (m : Map FunnelEntry)
    → find q (insert p u m) ≡ some e
    → ((p ≡ q) × (u ≡ e)) ⊎ (find q m ≡ some e)
origin p q u e m at = elim (Bool-cases (p == q)) [
  | inl h ↦
      let here : find q (insert p u m) ≡ some u = rw (find-insert p q u m) (rw h refl) in
      inl ((==_iff p q).0 h, ap (λ o. elim o [ none ↦ u | some x ↦ x ]) (sym here ∙ at))
  | inr h ↦ inr (sym (find-insert_other p q u m h) ∙ at)
]

-- A new entry without a handle, or with the name of the load that has just been counted.
inserted :
    (c c' p : ℕ) (u : FunnelEntry) (m : Map FunnelEntry)
    → IsNamed c m
    → c ≤ c'
    → (u.handle ≡ none) ⊎ ((u.handle ≡ some c) × (c < c'))
    → IsNamed c' (insert p u m)
inserted c c' p u m h le new = record {
  past = λ k e n at name. elim (origin p k u e m at) [
    | inl (here, same) ↦ (fresh_name e n same name).1
    | inr old ↦ omega (arith, h.past k e n old name)
  ];
  apart = λ j k e f n at at' name name'. elim (origin p j u e m at) [
    | inl (here, same) ↦ elim (origin p k u f m at') [
      | inl (here', same') ↦ sym here ∙ here'
      | inr old' ↦ absurd (clash e n f same name (h.past k f n old' name'))
    ]
    | inr old ↦ elim (origin p k u f m at') [
      | inl (here', same') ↦ absurd (clash f n e same' name' (h.past j e n old name))
      | inr old' ↦ h.apart j k e f n old old' name name'
    ]
  ];
}
  where
    fresh_name : (e : FunnelEntry) (n : ℕ) → u ≡ e → e.handle ≡ some n → (n ≡ c) × (n < c')
    fresh_name e n same name =
        let mine : u.handle ≡ some n = ap (λ x. x.handle) same ∙ name in
        elim new [ inl a ↦ ground arith | inr a ↦ ground arith ]

    clash : (e : FunnelEntry) (n : ℕ) (f : FunnelEntry) → u ≡ e → e.handle ≡ some n → n < c → ⊥
    clash e n f same name below = omega (arith, fresh_name e n same name)

module _ {K : Type 0} (ops : LauncherOps K) (w : World) where
  ensure_launcher-keeps :
      (s : State K)
      → ((ensure_launcher ops w s).1.registry ≡ s.registry)
        × ((ensure_launcher ops w s).1.counter ≡ s.counter)
  unfolding ensure_launcher
  ensure_launcher-keeps s = ground arith

  -- A load leaves the registry, and what it names is the count of loads before it.
  load-keeps :
      (s : State K) (spirv words : ℕ)
      → s.counter + 1 < u64_mod
      → ((load ops w s spirv words).1.registry ≡ s.registry)
        × (((load ops w s spirv words).0 ≡ none)
              × ((load ops w s spirv words).1.counter ≡ s.counter)
            ⊎ (((load ops w s spirv words).0 ≡ none)
                ⊎ ((load ops w s spirv words).0 ≡ some s.counter))
              × ((load ops w s spirv words).1.counter ≡ s.counter + 1))
  unfolding load
  load-keeps s spirv words room = ground (arith, ensure_launcher-keeps s)

  lookup_loaded :
      (s : State K) (key : ℕ) (e : FunnelEntry)
      → find key s.registry ≡ some e
      → e.loaded ≡ true
      → lookup ops w s (some key) ≡ (e.handle, s)
  unfolding lookup
  lookup_loaded s key e there l = rw (there, lookup) (rw l refl)

  -- The state after the first look-up of a key.
  remembered : State K → ℕ → FunnelEntry → State K
  remembered s key e =
      let (h, s1) = load ops w s e.spirv e.words in
      record s1 { registry = insert key (record e { handle = h; loaded = true }) s1.registry }

  lookup_first :
      (s : State K) (key : ℕ) (e : FunnelEntry)
      → find key s.registry ≡ some e
      → e.loaded ≡ false
      → lookup ops w s (some key) ≡ ((load ops w s e.spirv e.words).0, remembered s key e)
  unfolding lookup remembered
  lookup_first s key e there l = rw (there, lookup) (rw l refl)

  lookup_missing :
      (s : State K) (key : ℕ) → find key s.registry ≡ none → lookup ops w s (some key) ≡ (none, s)
  unfolding lookup
  lookup_missing s key there = rw (there, lookup) refl

  -- The name of a load, as `inserted` wants it.
  named :
      (g : Handle) (c' c : ℕ)
      → (((g ≡ none) × (c' ≡ c)) ⊎ (((g ≡ none) ⊎ (g ≡ some c)) × (c' ≡ c + 1)))
      → (g ≡ none) ⊎ ((g ≡ some c) × (c < c'))
  named g c' c (inl a) = inl a.0
  named g c' c (inr (inl n, e)) = inl n
  named g c' c (inr (inr n, e)) = inr (n, omega arith)

  -- Kernels keep names of their own: a look-up keeps it so that every handle in the registry names
  -- an earlier load and no two keys share a handle, while the 64-bit counter does not wrap.
  pub lookup-IsNamed :
      (s : State K) (key : Option ℕ)
      → s.counter + 1 < u64_mod
      → IsNamed s.counter s.registry
      → let s' = (lookup ops w s key).1 in IsNamed s'.counter s'.registry
  unfolding lookup remembered
  lookup-IsNamed s none room h = h
  lookup-IsNamed s (some key) room h = elim (Option-cases (find key s.registry)) [
    | inl n ↦ subst Named (sym (lookup_missing s key n)) h
    | inr (e, there) ↦ elim (Bool-cases e.loaded) [
      | inl l ↦ subst Named (sym (lookup_loaded s key e there l)) h
      | inr l ↦ subst Named (sym (lookup_first s key e there l)) (
          let (same, kinds) = load-keeps s e.spirv e.words room in
          let (g, s1) = load ops w s e.spirv e.words in
          rw same (
            inserted s.counter s1.counter key (record e { handle = g; loaded = true }) s.registry h
              (ground (arith, kinds)) (named g s1.counter s.counter kinds)))
    ]
  ]
    where
      Named : Handle × State K → Type 0
      Named (h, s') = IsNamed s'.counter s'.registry

module _ {K : Type 0} (ops : LauncherOps K) (w w' : World) where
  -- A key is loaded at most once: the look-up of a key after a look-up of it gives the same handle
  -- and changes nothing, whatever the environment answers then.
  pub lookup_twice :
      (s : State K) (key : Option ℕ) → lookup ops w' (lookup ops w s key).1 key ≡ lookup ops w s key
  unfolding lookup remembered
  lookup_twice s none = refl
  lookup_twice s (some key) = elim (Option-cases (find key s.registry)) [
    | inl n ↦ again (none, s) (lookup_missing ops w s key n) (lookup_missing ops w' s key n)
    | inr (e, there) ↦ elim (Bool-cases e.loaded) [
      | inl l ↦
          again (e.handle, s) (lookup_loaded ops w s key e there l)
            (lookup_loaded ops w' s key e there l)
      | inr l ↦
          let (h, s1) = load ops w s e.spirv e.words in
          let found = find-insert_self key (record e { handle = h; loaded = true }) s1.registry in
          again (h, remembered ops w s key e) (lookup_first ops w s key e there l)
            (lookup_loaded ops w' (remembered ops w s key e) key
              (record e { handle = h; loaded = true }) found refl)
    ]
  ]
    where
      again :
          (r : Handle × State K)
          → lookup ops w s (some key) ≡ r
          → lookup ops w' r.1 (some key) ≡ r
          → lookup ops w' (lookup ops w s (some key)).1 (some key) ≡ lookup ops w s (some key)
      again r e f = subst (λ x. lookup ops w' x.1 (some key) ≡ x) (sym e) f
