-- ===== src/Stdpar/Compactions/Kept.antt =====
-- `device_copy_if` and `device_remove_if` of include/parallax/stdpar.hpp against their sequential loops.
use parallax_runtime.Prelude.{
  ℕ, zero, suc, ◌+◌, ◌*◌, ◌≤◌, ◌<◌, ◌≡◌, ◌⊎◌, inl, inr, refl, sym, ap, ◌∙◌, Bool, true, false, not,
  if◌then◌else◌, Option, none, some, length, Bool-cases, ◌==◌, ◌||◌, arith,
}
use parallax_runtime.Stdpar.{
  Memory, update, read, write, World, memcpy, Entries, Element, Functor, stage, unstage,
}
use parallax_runtime.Stdpar.Ranges.{
  IsOutside, read-update, length-read, read-write_lem, write-cong, write-SameBut,
}
use parallax_runtime.Stdpar.Compactions.{
  Four, kept_of, host_keep, keep_on_host, compact_staged, compact_with, device_copy_if,
  device_remove_if,
}

-- The loop writes behind what it has read, or elsewhere.
abbrev pub IsBehind : ℕ → ℕ → ℕ → ℕ → Type 0
IsBehind size input output n = (output ≤ input) ⊎ (input + n * size ≤ output)

module _ {S V : Type 0} (es : Entries S V) where
  keep_step :
      (p : V → Bool) (size n input output : ℕ)
      → 0 < size
      → IsBehind size input output (suc n)
      → IsBehind size (input + size) (output + size) n
        × IsBehind size (input + size) output n
        × IsOutside (input + size) (n * size) output
  keep_step p size n input output h (inl behind) =
      (inl (omega arith), inl (omega arith), inl (omega arith))
  keep_step p size n input output h (inr away) =
      (inr (omega arith), inr (omega arith), inr (omega arith))

  host_keep_lem :
      (p : V → Bool) (n size input output : ℕ) (m : Memory V)
      → 0 < size
      → IsBehind size input output n
      → host_keep es p size m input output n
        ≡ (let ys = kept_of p (read m input size n) in (length ys, write m output size ys))
  unfolding host_keep read write kept_of
  host_keep_lem p zero size input output m h s = refl
  host_keep_lem p (suc n) size input output m h s =
      let m' = update m output (m input) in
      let (both, one, outside) = keep_step p size n input output h s in
      elim (Bool-cases (p (m input))) [
        | inl keep ↦
            let later =
              host_keep_lem p n size (input + size) (output + size) m' h both
              ∙ ap (λ xs. (length (kept_of p xs), write m' (output + size) size (kept_of p xs)))
                  (read-update size h n (input + size) output m (m input) outside) in
            rw keep (ap (λ r. (suc r.0, r.1)) later)
        | inr drop ↦ rw drop (host_keep_lem p n size (input + size) output m h one)
      ]

  -- This run of the four kernels stores the number of the elements with `p`, puts these in the output
  -- in their order, and changes nothing but the output and the input.
  abbrev pub KeepWorks : (V → Bool) → Four → Element → Bool → World S V → ℕ → ℕ → ℕ → Type 0
  KeepWorks p four t is_float w ib ob n =
      (let ys = kept_of p (read w.memory ib t.size n) in
        let (kept, w') =
          es.copy_if w four.flags four.scanning four.adding four.scatter ib ob n t.size is_float in
        (kept ≡ length ys)
        × (read w'.memory ob t.size (length ys) ≡ ys)
        × ((q : ℕ)
            → IsOutside ib (n * t.size) q
            → IsOutside ob (n * t.size) q
            → w'.memory q ≡ w.memory q))

  -- The state and the two pointers that the compaction runs its kernels with, if it runs them: for a
  -- predicate without captures, with both staging buffers.
  abbrev pub keep_site : Bool → Element → World S V → ℕ → ℕ → Option (World S V × ℕ × ℕ)
  keep_site is_empty t w input n =
      if is_empty
      then (let (ai, w1) = stage es w t n in
          let (ao, w2) = stage es w1 t n in
          if ai == 0 || ao == 0 then none else some (memcpy w2 ai input t.size n, ai, ao))
      else none

  keep_site_there :
      (t : Element) (w : World S V) (input n : ℕ)
      → ((stage es w t n).0 == 0 || (stage es (stage es w t n).1 t n).0 == 0) ≡ false
      → keep_site true t w input n ≡ (
          let (ai, w1) = stage es w t n in
          let (ao, w2) = stage es w1 t n in some (memcpy w2 ai input t.size n, ai, ao))
  keep_site_there t w input n there = rw there refl

  module _ (p : V → Bool) (t : Element) (is_float : Bool) (h : 0 < t.size) (input output n : ℕ)
      (behind : IsBehind t.size input output n) where
    abbrev on_host : World S V → ℕ × World S V
    on_host w = keep_on_host es p t w input output n

    abbrev itself : ℕ → ℕ
    itself kept = kept

    compact_staged_lem :
        (four : Four) (ai ao : ℕ) (w : World S V) (q : ℕ)
        → ((ai == 0 || ao == 0) ≡ false
            → KeepWorks p four t is_float (memcpy w ai input t.size n) ai ao n)
        → IsOutside ai (n * t.size) q
        → IsOutside ao (n * t.size) q
        → (let r = compact_staged es on_host itself four t is_float w input output n ai ao in
            let (k, m) = host_keep es p t.size w.memory input output n in
            (r.0 ≡ k) × (r.1.memory q ≡ m q))
    unfolding compact_staged keep_on_host memcpy unstage
    compact_staged_lem four ai ao w q law out out' = elim (Bool-cases (ai == 0 || ao == 0)) [
      | inl null ↦ rw null (refl, refl)
      | inr there ↦
          let xs = read w.memory input t.size n in
          let ys = kept_of p xs in
          let len : length xs ≡ n = length-read t.size h n input w.memory in
          let w1 = memcpy w ai input t.size n in
          let r =
            es.copy_if w1 four.flags four.scanning four.adding four.scatter ai ao n t.size
              is_float in
          let back : read w1.memory ai t.size n ≡ xs =
            read-write_lem t.size h n ai xs w.memory len in
          let (count, result, same) = law there in
          let count' : r.0 ≡ length ys = count ∙ ap (λ zs. length (kept_of p zs)) back in
          let result' : read r.1.memory ao t.size (length ys) ≡ ys =
            ap (λ zs. read r.1.memory ao t.size (length (kept_of p zs))) (sym back)
            ∙ result
            ∙ ap (kept_of p) back in
          let host = host_keep_lem p n t.size input output w.memory h behind in
          rw there (
            count' ∙ ap (λ z. z.0) (sym host),
            ap (λ j. write r.1.memory output t.size (read r.1.memory ao t.size j) q) count'
                ∙ ap (λ zs. write r.1.memory output t.size zs q) result'
                ∙ write-cong t.size h ys output q r.1.memory w.memory
                    (same q out out' ∙ write-SameBut t.size h n ai xs w.memory len q out)
                ∙ ap (λ z. z.1 q) (sym host),
          )
    ]

    compact_with_lem :
        (is_empty : Bool) (four : Option Four) (w : World S V) (q : ℕ)
        → ((f : Four)
            → four ≡ some f
            → (s : World S V × ℕ × ℕ) → keep_site is_empty t w input n ≡ some s
            → KeepWorks p f t is_float s.0 s.1 s.2 n)
        → IsOutside (stage es w t n).0 (n * t.size) q
        → IsOutside (stage es (stage es w t n).1 t n).0 (n * t.size) q
        → (let r = compact_with es on_host itself is_empty four t is_float w input output n in
            let (k, m) = host_keep es p t.size w.memory input output n in
            (r.0 ≡ k) × (r.1.memory q ≡ m q))
    unfolding compact_with keep_on_host stage
    compact_with_lem is_empty none w q law out out' = (refl, refl)
    compact_with_lem false (some four) w q law out out' = (refl, refl)
    compact_with_lem true (some four) w q law out out' =
        let first = stage es w t n in
        let second = stage es first.1 t n in
        compact_staged_lem four first.0 second.0 second.1 q
          (λ there.
            law four refl (memcpy second.1 first.0 input t.size n, first.0, second.0)
              (keep_site_there t w input n there))
          out out'

  -- Whether the four kernels are found or not, and on every path: device_copy_if returns what the
  -- sequential loop does, and leaves the memory as it does outside the staging buffers, where the
  -- output does not begin inside the input behind its first element, and the run of the kernels that
  -- it makes keeps the elements with the predicate, in their order.
  pub device_copy_if_lem :
      (pred : Functor V Bool) (four : Option Four) (t : Element) (is_float : Bool) (w : World S V)
      (input output n q : ℕ)
      → 0 < t.size
      → IsBehind t.size input output n
      → ((f : Four)
          → four ≡ some f
          → (s : World S V × ℕ × ℕ) → keep_site pred.is_empty t w input n ≡ some s
          → KeepWorks pred.apply f t is_float s.0 s.1 s.2 n)
      → IsOutside (stage es w t n).0 (n * t.size) q
      → IsOutside (stage es (stage es w t n).1 t n).0 (n * t.size) q
      → (let r = device_copy_if es pred four t is_float w input output n in
          let (k, m) = host_keep es pred.apply t.size w.memory input output n in
          (r.0 ≡ k) × (r.1.memory q ≡ m q))
  unfolding device_copy_if
  device_copy_if_lem pred four t is_float w input output n q h behind law =
      compact_with_lem pred.apply t is_float h input output n behind pred.is_empty four w q law

  -- So does device_remove_if, in place, with the elements without the predicate.
  pub device_remove_if_lem :
      (pred : Functor V Bool) (four : Option Four) (t : Element) (is_float : Bool) (w : World S V)
      (elems n q : ℕ)
      → 0 < t.size
      → ((f : Four)
          → four ≡ some f
          → (s : World S V × ℕ × ℕ) → keep_site pred.is_empty t w elems n ≡ some s
          → KeepWorks (λ x. not (pred.apply x)) f t is_float s.0 s.1 s.2 n)
      → IsOutside (stage es w t n).0 (n * t.size) q
      → IsOutside (stage es (stage es w t n).1 t n).0 (n * t.size) q
      → (let r = device_remove_if es pred four t is_float w elems n in
          let (k, m) = host_keep es (λ x. not (pred.apply x)) t.size w.memory elems elems n in
          (r.0 ≡ k) × (r.1.memory q ≡ m q))
  unfolding device_remove_if
  device_remove_if_lem pred four t is_float w elems n q h law =
      compact_with_lem (λ x. not (pred.apply x)) t is_float h elems elems n (inl (omega arith))
        pred.is_empty four w q law
