-- ===== src/Stdpar/Folds/Scans.antt =====
-- `device_scan` of include/parallax/stdpar.hpp against its sequential loop.
use parallax_runtime.Prelude.{
  true, false, if◌then◌else◌, ℕ, zero, suc, ◌+◌, ◌*◌, ◌<◌, ◌≡◌, inl, inr, refl, sym, ap, ◌∙◌,
  Option, none, some, List, [], ◌∷◌, length, Bool-cases, ◌==◌, ◌&&◌, arith,
}
use parallax_runtime.Stdpar.{
  Memory, update, read, write, World, memcpy, Entries, Element, stage, unstage,
}
use parallax_runtime.Stdpar.Ranges.{SameBut, read-update, length-read, read-write_lem}
use parallax_runtime.Stdpar.Overwrites.{write-write}
use parallax_runtime.Stdpar.Safe.{IsSafe, next-IsSafe}
use parallax_runtime.Stdpar.Staging.{Works, staged_lem}
use parallax_runtime.Stdpar.Folds.{host_scan, scan_on_host, scan_staged, device_scan}

-- The sums of the initial segments, the whole included.
abbrev pub prefixes : {V : Type 0} → (V → V → V) → V → List V → List V
prefixes add acc [] = []
prefixes add acc (x ∷ xs) = add acc x ∷ prefixes add (add acc x) xs

length-prefixes :
    {V : Type 0} (add : V → V → V) (acc : V) (xs : List V)
    → length (prefixes add acc xs) ≡ length xs
length-prefixes add acc [] = refl
length-prefixes add acc (x ∷ xs) = ap suc (length-prefixes add (add acc x) xs)

module _ {S V : Type 0} (es : Entries S V) (add : V → V → V) (nought : V) where
  host_scan_lem :
      (n size input output : ℕ) (m : Memory V) (acc : V)
      → 0 < size
      → IsSafe size size input output n
      → host_scan es add nought size m input output n acc
        ≡ write m output size (prefixes add acc (read m input size n))
  unfolding host_scan read write
  host_scan_lem zero size input output m acc h s = refl
  host_scan_lem (suc n) size input output m acc h s =
      let acc' = add acc (m input) in
      let m' = update m output acc' in
      let (safe, outside) = next-IsSafe n size size input output h s in
      host_scan_lem n size (input + size) (output + size) m' acc' h safe
      ∙ ap (λ xs. write m' (output + size) size (prefixes add acc' xs))
          (read-update size h n (input + size) output m acc' outside)

  -- This run of the two kernels replaces the elements by the sums of their initial segments.
  abbrev pub ScanWorks : ℕ → ℕ → Element → World S V → ℕ → ℕ → Type 0
  ScanWorks ks ka t w p n =
      Works (λ w p n. es.scan w ks ka p n t.size) (prefixes add nought) t.size w p n

  -- The state and the pointer that device_scan runs its kernels with, if it runs them.
  abbrev pub scan_site : Element → World S V → ℕ → ℕ → ℕ → Option (World S V × ℕ)
  scan_site t w input output n =
      if es.arena_contains w.runtime input && es.arena_contains w.runtime output
      then some ((if input == output then w else memcpy w output input t.size n), output)
      else (let (ab, w') = stage es w t n in
          if ab == 0 then none else some (memcpy w' ab input t.size n, ab))

  scan_site_there :
      (t : Element) (w : World S V) (input output n : ℕ)
      → (es.arena_contains w.runtime input && es.arena_contains w.runtime output) ≡ true
      → (input == output) ≡ true
      → scan_site t w input output n ≡ some (w, output)
  scan_site_there t w input output n e f = rw (e, f) refl

  scan_site_copied :
      (t : Element) (w : World S V) (input output n : ℕ)
      → (es.arena_contains w.runtime input && es.arena_contains w.runtime output) ≡ true
      → (input == output) ≡ false
      → scan_site t w input output n ≡ some (memcpy w output input t.size n, output)
  scan_site_copied t w input output n e f = rw (e, f) refl

  scan_site_outside :
      (t : Element) (w : World S V) (input output n : ℕ)
      → (es.arena_contains w.runtime input && es.arena_contains w.runtime output) ≡ false
      → ((stage es w t n).0 == 0) ≡ false
      → scan_site t w input output n
        ≡ (let (ab, w') = stage es w t n in some (memcpy w' ab input t.size n, ab))
  scan_site_outside t w input output n e there = rw (e, there) refl

  module _ (ks ka input output n : ℕ) (t : Element) (h : 0 < t.size)
      (safe : IsSafe t.size t.size input output n) where
    abbrev sums : Memory V → List V
    sums m = prefixes add nought (read m input t.size n)

    on_host :
        (w : World S V) (q : ℕ)
        → write w.memory output t.size (sums w.memory) q
          ≡ (scan_on_host es add nought t w input output n).memory q
    unfolding scan_on_host
    on_host w q = ap (λ m. m q) (sym (host_scan_lem n t.size input output w.memory nought h safe))

    scan_staged_lem :
        (ab : ℕ) (w : World S V)
        → ((ab == 0) ≡ false → ScanWorks ks ka t (memcpy w ab input t.size n) ab n)
        → SameBut ab
            (n * t.size)
            (scan_staged es add nought ks ka t w input output n ab).memory
            (scan_on_host es add nought t w input output n).memory
    unfolding scan_staged memcpy unstage
    scan_staged_lem ab w law q out = elim (Bool-cases (ab == 0)) [
      | inl null ↦ rw null refl
      | inr there ↦ rw there (
          staged_lem (λ w p n. es.scan w ks ka p n t.size) (prefixes add nought) t.size h
            (length-prefixes add nought) w input ab n (law there) output q out
          ∙ on_host w q)
    ]

    -- The copy to the output, then the kernels there.
    scan_copied :
        (w : World S V) (q : ℕ)
        → ScanWorks ks ka t (memcpy w output input t.size n) output n
        → (es.scan (memcpy w output input t.size n) ks ka output n t.size).memory q
          ≡ (scan_on_host es add nought t w input output n).memory q
    unfolding memcpy
    scan_copied w q law =
        let xs = read w.memory input t.size n in
        ap (λ m. m q) law
        ∙ ap
            (λ zs. write (write w.memory output t.size xs) output t.size (prefixes add nought zs) q)
            (read-write_lem t.size h n output xs w.memory (length-read t.size h n input w.memory))
        ∙ write-write V t.size h xs (prefixes add nought xs) output q w.memory
            (sym (length-prefixes add nought xs))
        ∙ on_host w q

    scan_there :
        (w : World S V) (q : ℕ)
        → input ≡ output
        → ScanWorks ks ka t w output n
        → (es.scan w ks ka output n t.size).memory q
          ≡ (scan_on_host es add nought t w input output n).memory q
    scan_there w q same law =
        ap (λ m. m q) law
        ∙ ap (λ p. write w.memory output t.size (prefixes add nought (read w.memory p t.size n)) q)
            (sym same)
        ∙ on_host w q

    scan_found :
        (w : World S V)
        → ((s : World S V × ℕ)
            → scan_site t w input output n ≡ some s
            → ScanWorks ks ka t s.0 s.1 n)
        → SameBut
            (stage es w t n).0
            (n * t.size)
            (device_scan es add nought (some ks) (some ka) t w input output n).memory
            (scan_on_host es add nought t w input output n).memory
    unfolding device_scan stage
    scan_found w law q out =
        elim (Bool-cases
          (es.arena_contains w.runtime input && es.arena_contains w.runtime output)) [
            | inl inside ↦ elim (Bool-cases (input == output)) [
              | inl same ↦
                  rw (inside, same)
                    (scan_there w q (ground arith)
                      (law (w, output) (scan_site_there t w input output n inside same)))
              | inr other ↦
                  rw (inside, other)
                    (scan_copied w q (
                      law (memcpy w output input t.size n, output)
                        (scan_site_copied t w input output n inside other)))
            ]
            | inr outside ↦
                let staged = stage es w t n in
                rw outside (
                  scan_staged_lem staged.0 staged.1
                    (λ there.
                      law (memcpy staged.1 staged.0 input t.size n, staged.0)
                        (scan_site_outside t w input output n outside there))
                    q out)
          ]

  -- Whether both kernels are found or not, and on every path: device_scan leaves the memory as the
  -- sequential loop, outside its staging buffer, where the ranges are apart or the same, and the run of
  -- the kernels that it makes replaces the elements by the sums of their initial segments.
  pub device_scan_lem :
      (scanning adding : Option ℕ) (t : Element) (w : World S V) (input output n : ℕ)
      → 0 < t.size
      → IsSafe t.size t.size input output n
      → ((ks ka : ℕ)
          → scanning ≡ some ks
          → adding ≡ some ka
          → (s : World S V × ℕ) → scan_site t w input output n ≡ some s
          → ScanWorks ks ka t s.0 s.1 n)
      → SameBut
          (stage es w t n).0
          (n * t.size)
          (device_scan es add nought scanning adding t w input output n).memory
          (host_scan es add nought t.size w.memory input output n nought)
  unfolding device_scan scan_on_host
  device_scan_lem (some ks) (some ka) t w input output n h safe law q out =
      scan_found ks ka input output n t h safe w (law ks ka refl refl) q out
  device_scan_lem none adding t w input output n h safe law q out = refl
  device_scan_lem (some ks) none t w input output n h safe law q out = refl
