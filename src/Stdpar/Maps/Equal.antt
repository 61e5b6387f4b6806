-- ===== src/Stdpar/Maps/Equal.antt =====
-- `device_invoke` and `device_transform` of include/parallax/stdpar.hpp against their sequential
-- loops.
use parallax_runtime.Prelude.{
  true, false, if◌then◌else◌, ℕ, zero, suc, ◌+◌, ◌*◌, ◌<◌, ◌≡◌, inl, inr, refl, sym, ap, ◌∙◌,
  Option, none, some, map, length, Bool-cases, ◌==◌, ◌&&◌, ◌||◌, arith,
}
use parallax_runtime.Stdpar.{
  Memory, update, read, write, World, memcpy, Entries, Element, Functor, stage, unstage,
}
use parallax_runtime.Stdpar.Ranges.{
  IsOutside, SameBut, read-update, length-read, write-cong, read-write_lem, write-SameBut,
  length-map,
}
use parallax_runtime.Stdpar.Safe.{IsSafe, next-IsSafe}
use parallax_runtime.Stdpar.Staging.{Works, staged_lem}
use parallax_runtime.Stdpar.Maps.{
  host_each, launch_each, each_on_host, each_staged, device_invoke, host_map, launch2, map_on_host,
  map_staged, device_transform,
}

module _ {S V : Type 0} (es : Entries S V) (f : Functor V V) where
  -- This launch applies the functor to each element.
  abbrev pub EachWorks : ℕ → Element → World S V → ℕ → ℕ → Type 0
  EachWorks k t w p n = Works (launch_each es f k t) (map f.apply) t.size w p n

  -- The state and the pointer that device_invoke launches its kernel with, if it launches it.
  abbrev pub each_site : Element → World S V → ℕ → ℕ → Option (World S V × ℕ)
  each_site t w elems n =
      if es.arena_contains w.runtime elems
      then some (w, elems)
      else (let (ab, w') = stage es w t n in
          if ab == 0 then none else some (memcpy w' ab elems t.size n, ab))

  -- This launch writes the functor's results to the output.
  abbrev pub MapWorks : ℕ → Element → Element → World S V → ℕ → ℕ → ℕ → Type 0
  MapWorks k t u w ib ob n =
      (launch2 es f k t u w ib ob n).memory
      ≡ write w.memory ob u.size (map f.apply (read w.memory ib t.size n))

  -- The state and the two pointers that device_transform launches its kernel with, if it launches it.
  abbrev pub map_site : Element → Element → World S V → ℕ → ℕ → ℕ → Option (World S V × ℕ × ℕ)
  map_site t u w input output n =
      if es.arena_contains w.runtime input && es.arena_contains w.runtime output
      then some (w, input, output)
      else (let (ai, w1) = stage es w t n in
          let (ao, w2) = stage es w1 u n in
          if ai == 0 || ao == 0 then none else some (memcpy w2 ai input t.size n, ai, ao))

  each_site_inside :
      (t : Element) (w : World S V) (elems n : ℕ)
      → es.arena_contains w.runtime elems ≡ true
      → each_site t w elems n ≡ some (w, elems)
  each_site_inside t w elems n e = rw e refl

  each_site_outside :
      (t : Element) (w : World S V) (elems n : ℕ)
      → es.arena_contains w.runtime elems ≡ false
      → ((stage es w t n).0 == 0) ≡ false
      → each_site t w elems n
        ≡ (let (ab, w') = stage es w t n in some (memcpy w' ab elems t.size n, ab))
  each_site_outside t w elems n e there = rw (e, there) refl

  map_site_inside :
      (t u : Element) (w : World S V) (input output n : ℕ)
      → (es.arena_contains w.runtime input && es.arena_contains w.runtime output) ≡ true
      → map_site t u w input output n ≡ some (w, input, output)
  map_site_inside t u w input output n e = rw e refl

  map_site_outside :
      (t u : Element) (w : World S V) (input output n : ℕ)
      → (es.arena_contains w.runtime input && es.arena_contains w.runtime output) ≡ false
      → ((stage es w t n).0 == 0 || (stage es (stage es w t n).1 u n).0 == 0) ≡ false
      → map_site t u w input output n ≡ (
          let (ai, w1) = stage es w t n in
          let (ao, w2) = stage es w1 u n in some (memcpy w2 ai input t.size n, ai, ao))
  map_site_outside t u w input output n e there = rw (e, there) refl

  host_map_lem :
      (n in_size out_size input output : ℕ) (m : Memory V)
      → 0 < in_size
      → 0 < out_size
      → IsSafe in_size out_size input output n
      → host_map es f in_size out_size m input output n
        ≡ write m output out_size (map f.apply (read m input in_size n))
  unfolding host_map read write
  host_map_lem zero in_size out_size input output m h k s = refl
  host_map_lem (suc n) in_size out_size input output m h k s =
      let m' = update m output (f.apply (m input)) in
      let (safe, outside) = next-IsSafe n in_size out_size input output h s in
      host_map_lem n in_size out_size (input + in_size) (output + out_size) m' h k safe
      ∙ ap (λ xs. write m' (output + out_size) out_size (map f.apply xs))
          (read-update in_size h n (input + in_size) output m (f.apply (m input)) outside)

  host_each_lem :
      (n size elems : ℕ) (m : Memory V)
      → 0 < size
      → host_each es f size m elems n ≡ write m elems size (map f.apply (read m elems size n))
  unfolding host_each read write
  host_each_lem zero size elems m h = refl
  host_each_lem (suc n) size elems m h =
      let m' = update m elems (f.apply (m elems)) in
      host_each_lem n size (elems + size) m' h
      ∙ ap (λ xs. write m' (elems + size) size (map f.apply xs))
          (read-update size h n (elems + size) elems m (f.apply (m elems)) (inl (omega arith)))

  each_staged_lem :
      (k n elems ab : ℕ) (t : Element) (w : World S V)
      → 0 < t.size
      → ((ab == 0) ≡ false → EachWorks k t (memcpy w ab elems t.size n) ab n)
      → SameBut ab
          (n * t.size)
          (each_staged es f k t w elems n ab).memory
          (host_each es f t.size w.memory elems n)
  unfolding each_staged each_on_host memcpy unstage
  each_staged_lem k n elems ab t w h law q out = elim (Bool-cases (ab == 0)) [
    | inl null ↦ rw null refl
    | inr there ↦ rw there (
        staged_lem (launch_each es f k t) (map f.apply) t.size h (length-map f.apply) w elems ab n
          (law there) elems q out
        ∙ ap (λ m. m q) (sym (host_each_lem n t.size elems w.memory h)))
  ]

  -- Whether the kernel is found or not, and whether it works in place, in a staging buffer, or not at
  -- all because there is no room: device_invoke leaves the memory as the sequential loop, outside the
  -- staging buffer, where the launch that it makes applies the functor to each element.
  pub device_invoke_lem :
      (kernel : Option ℕ) (t : Element) (w : World S V) (elems n : ℕ)
      → 0 < t.size
      → ((k : ℕ)
          → kernel ≡ some k
          → (s : World S V × ℕ) → each_site t w elems n ≡ some s
          → EachWorks k t s.0 s.1 n)
      → SameBut
          (stage es w t n).0
          (n * t.size)
          (device_invoke es f kernel t w elems n).memory
          (host_each es f t.size w.memory elems n)
  unfolding device_invoke each_on_host stage
  device_invoke_lem none t w elems n h law q out = refl
  device_invoke_lem (some k) t w elems n h law q out =
      elim (Bool-cases (es.arena_contains w.runtime elems)) [
        | inl inside ↦ rw inside (
            ap (λ m. m q)
              (law k refl (w, elems) (each_site_inside t w elems n inside)
                ∙ sym (host_each_lem n t.size elems w.memory h)))
        | inr outside ↦
            let staged = stage es w t n in
            rw outside (
              each_staged_lem k n elems staged.0 t staged.1 h
                (λ there.
                  law k refl (memcpy staged.1 staged.0 elems t.size n, staged.0)
                    (each_site_outside t w elems n outside there))
                q out)
      ]

  staged_map :
      (k n input ai ao : ℕ) (t u : Element) (w : World S V)
      → 0 < t.size
      → 0 < u.size
      → MapWorks k t u (memcpy w ai input t.size n) ai ao n
      → (let w2 = launch2 es f k t u (memcpy w ai input t.size n) ai ao n in
          (read w2.memory ao u.size n ≡ map f.apply (read w.memory input t.size n))
          × ((q : ℕ)
              → IsOutside ai (n * t.size) q
              → IsOutside ao (n * u.size) q
              → w2.memory q ≡ w.memory q))
  unfolding memcpy
  staged_map k n input ai ao t u w h h' law =
      let xs = read w.memory input t.size n in
      let w1 = memcpy w ai input t.size n in
      let w2 = launch2 es f k t u w1 ai ao n in
      let len : length xs ≡ n = length-read t.size h n input w.memory in
      let len' : length (map f.apply xs) ≡ n = length-map f.apply xs ∙ len in
      let wrote : w2.memory ≡ write w1.memory ao u.size (map f.apply xs) =
        law
        ∙ ap (λ zs. write w1.memory ao u.size (map f.apply zs))
            (read-write_lem t.size h n ai xs w.memory len) in
      (
        ap (λ m. read m ao u.size n) wrote
            ∙ read-write_lem u.size h' n ao (map f.apply xs) w1.memory len',
        λ q out out'.
            ap (λ m. m q) wrote
            ∙ write-SameBut u.size h' n ao (map f.apply xs) w1.memory len' q out'
            ∙ write-SameBut t.size h n ai xs w.memory len q out,
      )

  module _ (k n input output : ℕ) (t u : Element) (h : 0 < t.size) (h' : 0 < u.size)
      (safe : IsSafe t.size u.size input output n) where
    map_staged_lem :
        (ai ao : ℕ) (w : World S V) (q : ℕ)
        → IsOutside ai (n * t.size) q
        → IsOutside ao (n * u.size) q
        → ((ai == 0 || ao == 0) ≡ false → MapWorks k t u (memcpy w ai input t.size n) ai ao n)
        → (map_staged es f k t u w input output n ai ao).memory q
          ≡ host_map es f t.size u.size w.memory input output n q
    unfolding map_staged map_on_host memcpy unstage
    map_staged_lem ai ao w q out out' law = elim (Bool-cases (ai == 0 || ao == 0)) [
      | inl null ↦ rw null refl
      | inr there ↦
          let w2 = launch2 es f k t u (memcpy w ai input t.size n) ai ao n in
          let (copied, same) = staged_map k n input ai ao t u w h h' (law there) in
          rw there (
            ap (λ zs. write w2.memory output u.size zs q) copied
            ∙ write-cong u.size h' (map f.apply (read w.memory input t.size n)) output q w2.memory
                w.memory (same q out out')
            ∙ ap (λ m. m q) (sym (host_map_lem n t.size u.size input output w.memory h h' safe)))
    ]

    found_lem :
        (w : World S V) (q : ℕ)
        → IsOutside (stage es w t n).0 (n * t.size) q
        → IsOutside (stage es (stage es w t n).1 u n).0 (n * u.size) q
        → ((s : World S V × ℕ × ℕ)
            → map_site t u w input output n ≡ some s
            → MapWorks k t u s.0 s.1 s.2 n)
        → (device_transform es f (some k) t u w input output n).memory q
          ≡ host_map es f t.size u.size w.memory input output n q
    unfolding device_transform stage
    found_lem w q out out' law =
        elim (Bool-cases
          (es.arena_contains w.runtime input && es.arena_contains w.runtime output)) [
            | inl inside ↦ rw inside (
                ap (λ m. m q)
                  (law (w, input, output) (map_site_inside t u w input output n inside)
                    ∙ sym (host_map_lem n t.size u.size input output w.memory h h' safe)))
            | inr outside ↦
                let first = stage es w t n in
                let second = stage es first.1 u n in
                rw outside (
                  map_staged_lem first.0 second.0 second.1 q out out' (λ there.
                    law (memcpy second.1 first.0 input t.size n, first.0, second.0)
                      (map_site_outside t u w input output n outside there)))
          ]

  -- Whether the kernel is found or not, and whether it works in place, in staging buffers, or not at
  -- all because there is no room: device_transform leaves the memory as the sequential loop, outside
  -- its staging buffers, where the ranges are apart or the same, and the launch that it makes writes the
  -- functor's results to its output.
  pub device_transform_lem :
      (kernel : Option ℕ) (t u : Element) (w : World S V) (input output n q : ℕ)
      → 0 < t.size
      → 0 < u.size
      → IsSafe t.size u.size input output n
      → ((k : ℕ)
          → kernel ≡ some k
          → (s : World S V × ℕ × ℕ) → map_site t u w input output n ≡ some s
          → MapWorks k t u s.0 s.1 s.2 n)
      → IsOutside (stage es w t n).0 (n * t.size) q
      → IsOutside (stage es (stage es w t n).1 u n).0 (n * u.size) q
      → (device_transform es f kernel t u w input output n).memory q
        ≡ host_map es f t.size u.size w.memory input output n q
  unfolding device_transform map_on_host
  device_transform_lem none t u w input output n q h h' safe law out out' = refl
  device_transform_lem (some k) t u w input output n q h h' safe law out out' =
      found_lem k n input output t u h h' safe w q out out' (law k refl)
