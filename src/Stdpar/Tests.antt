-- ===== src/Stdpar/Tests.antt =====
-- Runs of the funnels of include/parallax/stdpar.hpp, and instances of the theorems about them.
use parallax_runtime.Prelude.{
  ℕ, ◌↔◌, All, if◌then◌else◌, ◌+◌, ◌*◌, ◌%◌, ◌≡◌, inl, inr, refl, Bool, true, false, not, ◌&&◌,
  none, some, [], List, ◌∷◌, ltb, ◌==◌, arith, map, ap, ◌≢◌,
}
use parallax_runtime.Stdpar.{
  update, read, write, World, memcpy, Entries, Element, Functor, stage, unstage,
}
use parallax_runtime.Stdpar.Ranges.{SameBut}
use parallax_runtime.Stdpar.Maps.{launch2, host_each, host_map, device_transform}
use parallax_runtime.Stdpar.Maps.Equal.{device_transform_lem}
use parallax_runtime.Stdpar.Maps.Leaks.{IsLedger, KeepsLive, device_transform_leaks}
use parallax_runtime.Stdpar.Folds.{host_scan, device_scan, host_sum, device_reduce}
use parallax_runtime.Stdpar.Folds.Scans.{device_scan_lem}
use parallax_runtime.Stdpar.Sorts.{
  next_power, device_sort, sort_padded, sort_staged, fill_top, sorted, insert_sorted,
}
use parallax_runtime.Stdpar.Sorts.Equal.{SortsTo, device_sort_lem}
use parallax_runtime.Stdpar.Compactions.{Four, host_keep, device_copy_if}
use parallax_runtime.Stdpar.Compactions.Kept.{device_copy_if_lem}
use parallax_runtime.Stdpar.Counts.Equal.{IsCounting, int_sum}
use parallax_runtime.Stdpar.Folds.Sums.{total, IsMonoid, device_reduce_lem}
use parallax_runtime.Stdpar.Algorithms.{parallel, std_parallel, for_each, all_of, any_of, none_of}
use parallax_runtime.Stdpar.Algorithms.Policies.{for_each_lem, quantifiers_lem}
use parallax_runtime.Stdpar.Simulated.{
  simulated, plain, simulated-EachWorks, simulated-MapWorks, simulated-KeepWorks,
}

abbrev word : Element
word = record { size = 4; align = 4 }

abbrev even : ℕ → Bool
even n = n % 2 == 0

abbrev runtime : Entries ℕ ℕ
runtime = simulated (λ n. n + 1) ◌+◌ 0 ltb even

-- The element at an address is a third of it; the arena's next block is at 2000.
abbrev world : World ℕ ℕ
world = record { runtime = 2000; memory = λ q. q * 3 }

abbrev add_one : Functor ℕ ℕ
add_one = plain (λ n. n + 1) ◌+◌ 0 ltb even

device_transform_lem_example :
    (device_transform runtime add_one (some 1) word word world 100 200 3).memory 204
    ≡ host_map runtime add_one 4 4 world.memory 100 200 3 204
unfolding stage
device_transform_lem_example =
    device_transform_lem runtime add_one (some 1) word word world 100 200 3 204 (omega arith)
      (omega arith) (inl (inl (omega arith)))
      (λ k e s e'. simulated-MapWorks (λ n. n + 1) ◌+◌ 0 ltb even k word word s.0 s.1 s.2 3)
      (inl (omega arith)) (inl (omega arith))

device_scan_lem_example :
    SameBut
      (stage runtime world word 3).0
      12
      (device_scan runtime ◌+◌ 0 (some 1) (some 2) word world 100 200 3).memory
      (host_scan runtime ◌+◌ 0 4 world.memory 100 200 3 0)
device_scan_lem_example =
    device_scan_lem runtime ◌+◌ 0 (some 1) (some 2) word world 100 200 3 (omega arith)
      (inl (inl (omega arith))) (λ ks ka e e' s there. refl)

abbrev keep_even : Functor ℕ Bool
keep_even = record { apply = even; is_empty = true; address = 0; bytes = 1 }

abbrev kernels : Four
kernels = record { flags = 1; scanning = 2; adding = 3; scatter = 4 }

device_copy_if_lem_example :
    let r = device_copy_if runtime keep_even (some kernels) word false world 100 200 3 in
    let (k, m) = host_keep runtime even 4 world.memory 100 200 3 in
    (r.0 ≡ k) × (r.1.memory 204 ≡ m 204)
unfolding stage
device_copy_if_lem_example =
    device_copy_if_lem runtime keep_even (some kernels) word false world 100 200 3 204 (omega arith)
      (inr (omega arith))
      (λ f e s e'.
        simulated-KeepWorks (λ n. n + 1) ◌+◌ 0 ltb even f word false s.0 s.1 s.2 3 (omega arith))
      (inl (omega arith)) (inl (omega arith))

for_each_lem_example :
    SameBut
      (stage runtime world word 3).0
      12
      (for_each runtime std_parallel add_one (some 1) word world 100 112).memory
      (host_each runtime add_one 4 world.memory 100 3)
for_each_lem_example =
    for_each_lem runtime std_parallel add_one (some 1) word world 100 112 (omega arith)
      (λ k e s e'. simulated-EachWorks (λ n. n + 1) ◌+◌ 0 ltb even k word s.0 s.1 3)

-- A runtime whose map kernel flags the even elements.
abbrev flag_even : ℕ → ℕ
flag_even n = if even n then 1 else 0

abbrev counting_runtime : Entries ℕ ℕ
counting_runtime = simulated flag_even ◌+◌ 0 ltb even

abbrev numbers : IsCounting (λ n. n) 0 1
numbers = record { nought_int = refl; one_int = refl }

abbrev flagged_world : World ℕ ℕ × ℕ × ℕ → World ℕ ℕ
flagged_world s = counting_runtime.launch_transform2 s.0 1 s.1 s.2 3 4 4

adds : (xs : List ℕ) (acc : ℕ) → total ◌+◌ acc xs ≡ acc + int_sum (λ n. n) xs
adds [] acc = omega arith
adds (x ∷ xs) acc = omega (arith, adds xs (acc + x))

adds_nought : (xs : List ℕ) → total ◌+◌ 0 xs ≡ int_sum (λ n. n) xs
adds_nought xs = omega (arith, adds xs 0)

quantifiers_lem_example :
    let all =
      all_of counting_runtime parallel (λ n. n) 0 keep_even (some 1) (some 2) word world 100 112 in
    let any =
      any_of counting_runtime parallel (λ n. n) 0 keep_even (some 1) (some 2) word world 100 112 in
    let none' =
      none_of counting_runtime parallel (λ n. n) 0 keep_even (some 1) (some 2) word world 100 112 in
    (all.0 ≡ true ↔ All (λ x. even x ≡ true) (read world.memory 100 4 3))
    × (none'.0 ≡ true ↔ All (λ x. even x ≡ false) (read world.memory 100 4 3))
    × (any.0 ≡ not none'.0)
quantifiers_lem_example =
    quantifiers_lem counting_runtime parallel (λ n. n) 0 1 numbers keep_even (some 1) (some 2) word
      world 100 112 (omega arith)
      (λ kp kr e e' s there. (refl, adds_nought (read (flagged_world s).memory s.2 4 3)))

whole : IsMonoid ◌+◌ 0
whole = record { assoc = λ a b c. omega arith; right_nought = λ a. omega arith }

device_reduce_lem_example :
    (device_reduce runtime ◌+◌ 0 (some 1) word world 100 3 5).0
    ≡ host_sum runtime ◌+◌ 0 4 world.memory 100 3 5
device_reduce_lem_example =
    device_reduce_lem runtime ◌+◌ 0 whole (some 1) word world 100 3 5 (omega arith)
      (λ k e s there. refl)

-- A type with values above its "largest", as the infinity of a float: where it is padded, the sort
-- loses such a value.
abbrev three : World ℕ ℕ
three = record { runtime = 2000; memory = λ q. if q == 104 then 9 else 1 }

loses_infinity :
    let sorted_world = device_sort runtime ltb 5 (some 1) word three 100 3 in
    (elim sorted_world [ none ↦ [] | some w ↦ read w.memory 100 4 3 ]) ≡ 1 ∷ 1 ∷ 5 ∷ []
unfolding device_sort next_power sort_padded sort_staged memcpy read write update fill_top sorted
    insert_sorted stage unstage
loses_infinity = refl

-- Bytes of one bit, where 1 is the largest.
abbrev below : Bool → Bool → Bool
below a b = not a && b

abbrev bits : Entries ℕ Bool
bits = simulated not ◌&&◌ true below not

abbrev bit_world : World ℕ Bool
bit_world = record { runtime = 2000; memory = even }

below-true : (x : Bool) → below true x ≡ false
below-true x = refl

device_sort_lem_example :
    (m : ℕ) × (next_power 64 1 3 ≡ some m)
    × SortsTo bits below true
        (device_sort bits below true (some 1) word bit_world 100 3)
        word
        bit_world
        100
        3
        m
device_sort_lem_example =
    device_sort_lem bits below true (some 1) word bit_world 100 3 (omega arith) (omega arith)
      below-true (λ k m e found s there. refl)

-- An arena with room for one block, at 1000, and the blocks that it has given out.
abbrev one_of : List ℕ → ℕ × List ℕ
one_of [] = (1000, 1000 ∷ [])
one_of (p ∷ ps) = (0, p ∷ ps)

abbrev give_back : List ℕ → List ℕ
give_back [] = []
give_back (p ∷ ps) = ps

abbrev small : Entries (List ℕ) ℕ
small = record {
  arena_contains = λ s q. q == 1000;
  arena_alloc = λ s n a. one_of s;
  arena_free = λ s q. give_back s;
  launch = λ w k q n size. w;
  launch_with_captures = λ w k q n a b size. w;
  launch_transform2 = λ w k ib ob n size out_size. record w {
    memory = write w.memory ob out_size (map (λ x. x + 1) (read w.memory ib size n));
  };
  launch_transform2_captures = λ w k ib ob n size out_size a b. w;
  reduce = λ w k q n size r. (r, w);
  scan = λ w ks ka q n size. w;
  exclusive_scan = λ w ks ka kh ib ob n size init. w;
  sort = λ w k q n size. w;
  copy_if = λ w a b c d ib ob n size is_float. (0, w);
}

one_of_null : (s : List ℕ) → (one_of s).0 ≡ 0 → (one_of s).1 ≡ s
one_of_null [] e = absurd (omega (arith, e))
one_of_null (p ∷ ps) e = refl

one_of_some : (s : List ℕ) → (one_of s).0 ≢ 0 → (one_of s).1 ≡ (one_of s).0 ∷ s
one_of_some [] e = refl
one_of_some (p ∷ ps) e = absurd (e refl)

small-IsLedger : IsLedger small (λ s. s)
small-IsLedger = record {
  refused = λ s n a e. one_of_null s e;
  granted = λ s n a e. one_of_some s e;
  freed = λ s p ps e. ap give_back e;
}

small-KeepsLive : KeepsLive small add_one (λ s. s) small-IsLedger 1 word word
unfolding launch2
small-KeepsLive w ib ob n = refl

abbrev small_world : World (List ℕ) ℕ
small_world = record { runtime = []; memory = λ q. q }

-- Neither range is in the arena, and only the first staging buffer is allocated.
device_transform_leaks_example :
    (device_transform small add_one (some 1) word word small_world 100 200 3).runtime ≡ 1000 ∷ []
unfolding stage
device_transform_leaks_example =
    device_transform_leaks small add_one (λ s. s) small-IsLedger 1 word word small-KeepsLive 100 200
      3 small_world
