-- ===== src/Stdpar/Maps/Leaks.antt =====
-- Which staging buffers `device_transform` of include/parallax/stdpar.hpp gives back.
use parallax_runtime.Prelude.{
  ℕ, ◌≡◌, ◌≢◌, inl, inr, refl, ap, ◌∙◌, true, false, ◌&&◌, ◌||◌, some, List, [], ◌∷◌, ◌++◌,
  Bool-cases, ◌==◌, if◌then◌else◌, arith,
}
use parallax_runtime.Stdpar.{World, memcpy, Entries, Element, Functor, stage, unstage}
use parallax_runtime.Stdpar.Maps.{launch2, map_on_host, map_staged, device_transform}

-- The blocks that the arena has given out, the last first, and what its calls do to them.
pub record IsLedger {S V : Type 0} (es : Entries S V) (live : S → List ℕ) : Type 0 where
  pub refused :
      (s : S) (n a : ℕ) → (es.arena_alloc s n a).0 ≡ 0 → live (es.arena_alloc s n a).1 ≡ live s
  pub granted :
      (s : S) (n a : ℕ)
      → (es.arena_alloc s n a).0 ≢ 0
      → live (es.arena_alloc s n a).1 ≡ (es.arena_alloc s n a).0 ∷ live s
  pub freed : (s : S) (p : ℕ) (ps : List ℕ) → live s ≡ p ∷ ps → live (es.arena_free s p) ≡ ps

-- The staging buffers that are not given back: the one that was allocated where the other was not.
abbrev pub leaked : ℕ → ℕ → List ℕ
leaked ai ao =
    if ai == 0 then (if ao == 0 then [] else ao ∷ []) else (if ao == 0 then ai ∷ [] else [])

module _ {S V : Type 0} (es : Entries S V) (f : Functor V V) (live : S → List ℕ)
    (ledger : IsLedger es live) where
  stage_null :
      (w : World S V) (t : Element) (n : ℕ)
      → ((stage es w t n).0 == 0) ≡ true
      → live (stage es w t n).1.runtime ≡ live w.runtime
  unfolding stage
  stage_null w t n e = ledger.refused w.runtime _ t.align (ground arith)

  stage_some :
      (w : World S V) (t : Element) (n : ℕ)
      → ((stage es w t n).0 == 0) ≡ false
      → live (stage es w t n).1.runtime ≡ (stage es w t n).0 ∷ live w.runtime
  unfolding stage
  stage_some w t n e = ledger.granted w.runtime _ t.align (ground arith)

  -- The launch allocates nothing that it keeps.
  abbrev pub KeepsLive : ℕ → Element → Element → Type 0
  KeepsLive k t u =
      (w : World S V) (ib ob n : ℕ) → live (launch2 es f k t u w ib ob n).runtime ≡ live w.runtime

  module _ (k : ℕ) (t u : Element) (keeps : KeepsLive k t u) (input output n : ℕ) where
    both_given_back :
        (w : World S V) (ai ao : ℕ) (ps : List ℕ)
        → (ai == 0) ≡ false
        → (ao == 0) ≡ false
        → live w.runtime ≡ ao ∷ ai ∷ ps
        → live (map_staged es f k t u w input output n ai ao).runtime ≡ ps
    unfolding map_staged memcpy unstage
    both_given_back w ai ao ps there there' e =
        rw (there, there')
          (ledger.freed _ ai ps
            (ledger.freed _ ao (ai ∷ ps) (keeps (memcpy w ai input t.size n) ai ao n ∙ e)))

    none_given_back :
        (w : World S V) (ai ao : ℕ)
        → (ai == 0 || ao == 0) ≡ true
        → live (map_staged es f k t u w input output n ai ao).runtime ≡ live w.runtime
    unfolding map_staged map_on_host
    none_given_back w ai ao e = rw e refl

    staged_leaks :
        (w : World S V)
        → (let (ai, w1) = stage es w t n in
            let (ao, w2) = stage es w1 u n in
            live (map_staged es f k t u w2 input output n ai ao).runtime
            ≡ leaked ai ao ++ live w.runtime)
    staged_leaks w =
        let (ai, w1) = stage es w t n in
        let (ao, w2) = stage es w1 u n in
        elim (Bool-cases (ai == 0)) [
          | inl null ↦ elim (Bool-cases (ao == 0)) [
            | inl null' ↦
                rw (null, null')
                  (none_given_back w2 ai ao (rw null refl)
                    ∙ stage_null w1 u n null'
                    ∙ stage_null w t n null)
            | inr there' ↦
                rw (null, there')
                  (none_given_back w2 ai ao (rw null refl)
                    ∙ stage_some w1 u n there'
                    ∙ ap (λ ps. ao ∷ ps) (stage_null w t n null))
          ]
          | inr there ↦ elim (Bool-cases (ao == 0)) [
            | inl null' ↦
                rw (there, null')
                  (none_given_back w2 ai ao (rw (there, null') refl)
                    ∙ stage_null w1 u n null'
                    ∙ stage_some w t n there)
            | inr there' ↦
                rw (there, there')
                  (both_given_back w2 ai ao (live w.runtime) there there'
                    (stage_some w1 u n there' ∙ ap (λ ps. ao ∷ ps) (stage_some w t n there)))
          ]
        ]

    -- What device_transform leaves allocated, beside what was before, where its kernel is found, the
    -- arena's calls do what they say and a launch allocates nothing that it keeps: nothing where it
    -- works in place or both staging buffers are allocated, or none; but where only one of them is, that
    -- one is never given back.
    pub device_transform_leaks :
        (w : World S V)
        → (let (ai, w1) = stage es w t n in
            let (ao, w2) = stage es w1 u n in
            let in_place =
              es.arena_contains w.runtime input && es.arena_contains w.runtime output in
            live (device_transform es f (some k) t u w input output n).runtime
            ≡ (if in_place then [] else leaked ai ao) ++ live w.runtime)
    unfolding device_transform
    device_transform_leaks w =
        elim (Bool-cases
          (es.arena_contains w.runtime input && es.arena_contains w.runtime output)) [
            | inl inside ↦ rw inside (keeps w input output n)
            | inr outside ↦ rw outside (staged_leaks w)
          ]
