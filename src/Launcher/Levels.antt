-- ===== src/Launcher/Levels.antt =====
-- The levels of `launch_scan` and `launch_reduce` (src/kernel/kernel_launcher.cpp): that they end, and
-- that the scratch buffers hold them.
use parallax_runtime.Prelude.{
  ℕ, zero, suc, ◌+◌, ◌-◌, ◌<◌, ◌≡◌, refl, sym, ap, ◌∙◌, Bool, true, false, not, Bool-cases, inl,
  inr, ltb, leb, arith, ltb→lt, leb→lt,
}
use mathlib.Core.Path.{fun_ext}
use parallax_runtime.Launcher.Device.{PipelineData, Env, M, ◌>>◌, pure}
use parallax_runtime.Launcher.Steps.{workgroups}
use parallax_runtime.Launcher.Reduce.{reduce_level, reduce_loop, pick}
use parallax_runtime.Launcher.Scan.{scan_step, scan_levels, launch_scan}

-- Two elements or more make fewer groups.
workgroups-lt : (n : ℕ) → 1 < n → workgroups n < n
unfolding workgroups
workgroups-lt n h = omega arith

module _ {P : Type 0} (env : Env P) where
  scan_step_single :
      (k a ptr count elem_size : ℕ) (again again' : ℕ → M P Bool)
      → leb count 1 ≡ true
      → scan_step env k a ptr count elem_size again ≡ scan_step env k a ptr count elem_size again'
  unfolding scan_step
  scan_step_single k a ptr count elem_size again again' e = simp e

  -- One more unit of fuel changes nothing, once there is one for each element.
  scan_levels_more :
      (fuel k a ptr count elem_size : ℕ)
      → count < fuel
      → scan_levels env (suc fuel) k a ptr count elem_size
        ≡ scan_levels env fuel k a ptr count elem_size
  unfolding scan_levels
  scan_levels_more zero k a ptr count elem_size h = absurd (omega arith)
  scan_levels_more (suc f) k a ptr count elem_size h = elim (Bool-cases (leb count 1)) [
    | inl one ↦ scan_step_single k a ptr count elem_size _ _ one
    | inr many ↦ ap (scan_step env k a ptr count elem_size) (
        fun_ext λ sums.
          scan_levels_more f k a sums (workgroups count) elem_size
            (omega (arith, workgroups-lt count (leb→lt count 1 many))))
  ]

  scan_levels_enough :
      (more k a ptr count elem_size fuel : ℕ)
      → fuel ≡ more + suc count
      → scan_levels env fuel k a ptr count elem_size ≡ launch_scan env k a ptr count elem_size
  unfolding launch_scan
  scan_levels_enough zero k a ptr count elem_size fuel e =
      let same : fuel ≡ suc count = omega arith in
      ap (λ f. scan_levels env f k a ptr count elem_size) same
  scan_levels_enough (suc m) k a ptr count elem_size fuel e =
      let same : fuel ≡ suc (m + suc count) = omega arith in
      ap (λ f. scan_levels env f k a ptr count elem_size) same
      ∙ scan_levels_more (m + suc count) k a ptr count elem_size (omega arith)
      ∙ scan_levels_enough m k a ptr count elem_size (m + suc count) refl

  scan_unfolds :
      (k a ptr count elem_size : ℕ)
      → launch_scan env k a ptr count elem_size
        ≡ scan_step env k a ptr count elem_size
            (λ sums. scan_levels env count k a sums (workgroups count) elem_size)
  unfolding launch_scan scan_levels
  scan_unfolds k a ptr count elem_size = refl

  -- `launch_scan` is the recursion of the source, in which it calls itself on the sums of the blocks:
  -- the fuel of the model never shows, and each nested call has fewer elements, so that the levels
  -- end.
  pub launch_scan_lem :
      (k a ptr count elem_size : ℕ)
      → (launch_scan env k a ptr count elem_size
          ≡ scan_step env k a ptr count elem_size
              (λ sums. launch_scan env k a sums (workgroups count) elem_size))
        × (1 < count → workgroups count < count)
  launch_scan_lem k a ptr count elem_size = (equation, workgroups-lt count)
    where
      equation :
          launch_scan env k a ptr count elem_size
          ≡ scan_step env k a ptr count elem_size
              (λ sums. launch_scan env k a sums (workgroups count) elem_size)
      equation = scan_unfolds k a ptr count elem_size ∙ elim (Bool-cases (leb count 1)) [
        | inl one ↦ scan_step_single k a ptr count elem_size _ _ one
        | inr many ↦ ap (scan_step env k a ptr count elem_size) (
            fun_ext λ sums.
              let fewer = workgroups-lt count (leb→lt count 1 many) in
              scan_levels_enough (count - suc (workgroups count)) k a sums (workgroups count)
                elem_size count (omega arith))
      ]

  module _ (pd : PipelineData) (elem_size a b : ℕ) where
    -- One round of the loop, by its test.
    abbrev round : Bool → ℕ → ℕ → Bool → M P ℕ → M P ℕ
    round true src n toggle rest = reduce_level env pd elem_size src (pick a b toggle) n >> rest
    round false src n toggle rest = pure src

    loop_round :
        (fuel src n : ℕ) (toggle : Bool)
        → reduce_loop env (suc fuel) pd elem_size a b src n toggle
          ≡ round
              (ltb 1 n)
              src
              n
              toggle
              (reduce_loop env fuel pd elem_size a b (pick a b toggle) (workgroups n) (not toggle))
    unfolding reduce_loop
    loop_round fuel src n toggle =
        elim (ltb 1 n)
          as (λ t.
            elim t [
              | true ↦
                  reduce_level env pd elem_size src (pick a b toggle) n
                  >> reduce_loop env fuel pd elem_size a b (pick a b toggle) (workgroups n)
                      (not toggle)
              | false ↦ pure src
            ]
            ≡ round t src n toggle (
                reduce_loop env fuel pd elem_size a b (pick a b toggle) (workgroups n)
                  (not toggle))) [ true ↦ refl | false ↦ refl ]

    reduce_loop_more :
        (fuel src n : ℕ) (toggle : Bool)
        → n < fuel
        → reduce_loop env (suc fuel) pd elem_size a b src n toggle
          ≡ reduce_loop env fuel pd elem_size a b src n toggle
    reduce_loop_more zero src n toggle h = absurd (omega arith)
    reduce_loop_more (suc f) src n toggle h =
        loop_round (suc f) src n toggle
        ∙ elim (Bool-cases (ltb 1 n)) [
          | inl many ↦ ap (round (ltb 1 n) src n toggle) (
              reduce_loop_more f (pick a b toggle) (workgroups n) (not toggle)
                (omega (arith, workgroups-lt n (ltb→lt 1 n many))))
          | inr one ↦ rw one refl
        ]
        ∙ sym (loop_round f src n toggle)

    reduce_loop_enough :
        (more src n : ℕ) (toggle : Bool) (fuel : ℕ)
        → fuel ≡ more + suc n
        → reduce_loop env fuel pd elem_size a b src n toggle
          ≡ reduce_loop env (suc n) pd elem_size a b src n toggle
    reduce_loop_enough zero src n toggle fuel e =
        let same : fuel ≡ suc n = omega arith in
        ap (λ f. reduce_loop env f pd elem_size a b src n toggle) same
    reduce_loop_enough (suc m) src n toggle fuel e =
        let same : fuel ≡ suc (m + suc n) = omega arith in
        ap (λ f. reduce_loop env f pd elem_size a b src n toggle) same
        ∙ reduce_loop_more (m + suc n) src n toggle (omega arith)
        ∙ reduce_loop_enough m src n toggle (m + suc n) refl

    -- The loop of `launch_reduce` from `n` elements on runs a level if there are two or more and goes
    -- on from its groups, which are fewer, with the fuel that it gives itself for them.
    pub reduce_loop_lem :
        (src n : ℕ) (toggle : Bool)
        → (reduce_loop env (suc n) pd elem_size a b src n toggle
            ≡ round (ltb 1 n) src n toggle (
                reduce_loop env
                  (suc (workgroups n))
                  pd
                  elem_size
                  a
                  b
                  (pick a b toggle)
                  (workgroups n)
                  (not toggle)))
          × (1 < n → workgroups n < n)
    reduce_loop_lem src n toggle = (
      loop_round n src n toggle ∙ elim (Bool-cases (ltb 1 n)) [
        | inl many ↦
            let fewer = workgroups-lt n (ltb→lt 1 n many) in
            ap (round (ltb 1 n) src n toggle) (
              reduce_loop_enough (n - suc (workgroups n)) (pick a b toggle) (workgroups n)
                (not toggle) n (omega arith))
        | inr one ↦ rw one refl
      ],
      workgroups-lt n,
    )
