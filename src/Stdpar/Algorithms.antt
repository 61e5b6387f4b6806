-- ===== src/Stdpar/Algorithms.antt =====
-- The algorithms of include/parallax/stdpar.hpp, over contiguous iterators: an iterator is the address
-- of its element. Where the policy does not offload, the algorithm of the standard library runs: the
-- funnel's loop, `sorted` and `kept_of` stand for it. The kernels are what the funnel looked up.
pub mod Policies
use parallax_runtime.Prelude.{
  ℕ, ◌+◌, ◌-◌, ◌*◌, ◌/◌, ◌==◌, Bool, true, false, not, Option, none, some, List, if◌then◌else◌, ltb,
  length,
}
use parallax_runtime.Stdpar.{Memory, World, Entries, Element, Functor}
use parallax_runtime.Stdpar.Maps.{each_on_host, device_invoke, map_on_host, device_transform}
use parallax_runtime.Stdpar.Folds.{
  host_sum, device_reduce, scan_on_host, device_scan, exclusive_on_host, device_exclusive_scan,
  host_transform_sum, device_transform_reduce,
}
use parallax_runtime.Stdpar.Sorts.{sort_on_host, device_sort}
use parallax_runtime.Stdpar.Compactions.{
  Four, keep_on_host, partition_on_host, unique_on_host, device_copy_if, device_remove_if,
  device_partition, device_unique,
}
use parallax_runtime.Stdpar.Counts.{host_count, device_count_if}

-- The policies: Parallax's own, those of `std::execution` that offload, and the others.
pub data Policy : Type 0 where
  parallel parallel_unsequenced : Policy
  std_parallel std_parallel_unsequenced : Policy
  sequenced : Policy

-- `is_offload_policy_v`, with `__cpp_lib_execution`
unfoldable pub is_offload_policy : Policy → Bool
is_offload_policy parallel = true
is_offload_policy parallel_unsequenced = true
is_offload_policy std_parallel = true
is_offload_policy std_parallel_unsequenced = true
is_offload_policy sequenced = false

-- `std::distance`
abbrev pub distance : Element → ℕ → ℕ → ℕ
distance t first last = (last - first) / t.size

module _ {S V : Type 0} (es : Entries S V) (policy : Policy) where
  unfoldable pub for_each : Functor V V → Option ℕ → Element → World S V → ℕ → ℕ → World S V
  unfolding is_offload_policy device_invoke each_on_host
  for_each f kernel t w first last =
      let n = distance t first last in
      if is_offload_policy policy
      then (if n == 0 then w else device_invoke es f kernel t w first n)
      else each_on_host es f t w first n

  -- The functor `[v](E& x){ x = v; }` has a capture; its bytes are at `address`.
  unfoldable pub fill : V → ℕ → Option ℕ → Element → World S V → ℕ → ℕ → World S V
  unfolding for_each
  fill value address kernel t w first last =
      let f : Functor V V = record {
        apply = λ x. value;
        is_empty = false;
        address = address;
        bytes = t.size;
      } in
      for_each f kernel t w first last

  -- The functor `[gen](E& x){ x = gen(); }`, where each call of the generator gives the same.
  unfoldable pub generate :
      Functor (Unit {0}) V → Option ℕ → Element → World S V → ℕ → ℕ → World S V
  unfolding for_each
  generate gen kernel t w first last =
      let f : Functor V V = record {
        apply = λ x. gen.apply tt;
        is_empty = false;
        address = gen.address;
        bytes = gen.bytes;
      } in
      for_each f kernel t w first last

  -- The output iterator that is returned, and the state.
  unfoldable pub transform :
      Functor V V → Option ℕ → Element → Element → World S V → ℕ → ℕ → ℕ → ℕ × World S V
  unfolding is_offload_policy device_transform map_on_host
  transform f kernel t u w first last d_first =
      let n = distance t first last in
      let w' =
        if is_offload_policy policy
        then (if n == 0 then w else device_transform es f kernel t u w first d_first n)
        else map_on_host es f t u w first d_first n in
      (d_first + n * u.size, w')

  unfoldable pub sort :
      (V → V → Bool) → V → Option ℕ → Element → World S V → ℕ → ℕ → Option (World S V)
  unfolding is_offload_policy device_sort sort_on_host
  sort lt top kernel t w first last =
      let n = distance t first last in
      if is_offload_policy policy
      then (if n == 0 then some w else device_sort es lt top kernel t w first n)
      else some (sort_on_host es lt top t w first n)

  module _ (add : V → V → V) (nought : V) where
    -- Where the element type is the type of `init`: the sum from `E{}`, to which `init` is added.
    unfoldable pub reduce : Option ℕ → Element → World S V → ℕ → ℕ → V → V × World S V
    unfolding is_offload_policy device_reduce host_sum
    reduce kernel t w first last init =
        let n = distance t first last in
        let (gpu, w') = device_reduce es add nought kernel t w first n nought in
        if is_offload_policy policy
        then (if n == 0 then (init, w) else (add init gpu, w'))
        else (host_sum es add nought t.size w.memory first n init, w)

    unfoldable pub inclusive_scan :
        Option ℕ → Option ℕ → Element → World S V → ℕ → ℕ → ℕ → ℕ × World S V
    unfolding is_offload_policy device_scan scan_on_host
    inclusive_scan ks ka t w first last d_first =
        let n = distance t first last in
        let w' =
          if is_offload_policy policy
          then (if n == 0 then w else device_scan es add nought ks ka t w first d_first n)
          else scan_on_host es add nought t w first d_first n in
        (d_first + n * t.size, w')

    unfoldable pub exclusive_scan :
        Option ℕ → Option ℕ → Option ℕ → Element → World S V → ℕ → ℕ → ℕ → V → ℕ × World S V
    unfolding is_offload_policy device_exclusive_scan exclusive_on_host
    exclusive_scan ks ka kh t w first last d_first init =
        let n = distance t first last in
        let w' =
          if is_offload_policy policy
          then (if n == 0
              then w
              else device_exclusive_scan es add nought ks ka kh t w first d_first n init)
          else exclusive_on_host es add nought t w first d_first n init in
        (d_first + n * t.size, w')

    unfoldable pub transform_reduce :
        Functor V V
        → Option ℕ
        → Option ℕ
        → Element
        → Element
        → World S V
        → ℕ
        → ℕ
        → V
        → V × World S V
    unfolding is_offload_policy device_transform_reduce host_transform_sum
    transform_reduce f kx kr t u w first last init =
        let n = distance t first last in
        let (gpu, w') = device_transform_reduce es add nought f kx kr t u w first n in
        if is_offload_policy policy
        then (if n == 0 then (init, w) else (add init gpu, w'))
        else (host_transform_sum es add nought f t.size w.memory first n init, w)

  module _ (as_int : V → ℕ) (nought : V) (pred : Functor V Bool) where
    unfoldable pub count_if : Option ℕ → Option ℕ → Element → World S V → ℕ → ℕ → ℕ × World S V
    unfolding is_offload_policy device_count_if host_count
    count_if kp kr t w first last =
        let n = distance t first last in
        if is_offload_policy policy
        then (if n == 0 then (0, w) else device_count_if es as_int nought pred kp kr t w first n)
        else (host_count es as_int nought pred t.size w.memory first n 0, w)

    unfoldable pub all_of : Option ℕ → Option ℕ → Element → World S V → ℕ → ℕ → Bool × World S V
    unfolding count_if
    all_of kp kr t w first last =
        let (c, w') = count_if kp kr t w first last in (c == distance t first last, w')

    unfoldable pub any_of : Option ℕ → Option ℕ → Element → World S V → ℕ → ℕ → Bool × World S V
    unfolding count_if
    any_of kp kr t w first last = let (c, w') = count_if kp kr t w first last in (ltb 0 c, w')

    unfoldable pub none_of : Option ℕ → Option ℕ → Element → World S V → ℕ → ℕ → Bool × World S V
    unfolding count_if
    none_of kp kr t w first last = let (c, w') = count_if kp kr t w first last in (c == 0, w')

  -- The end of what is kept, and the state.
  unfoldable pub copy_if :
      Functor V Bool → Option Four → Element → Bool → World S V → ℕ → ℕ → ℕ → ℕ × World S V
  unfolding is_offload_policy device_copy_if keep_on_host
  copy_if pred four t is_float w first last d_first =
      let n = distance t first last in
      let (kept, w') =
        if is_offload_policy policy
        then (if n == 0 then (0, w) else device_copy_if es pred four t is_float w first d_first n)
        else keep_on_host es pred.apply t w first d_first n in
      (d_first + kept * t.size, w')

  unfoldable pub remove_if :
      Functor V Bool → Option Four → Element → Bool → World S V → ℕ → ℕ → ℕ × World S V
  unfolding is_offload_policy device_remove_if keep_on_host
  remove_if pred four t is_float w first last =
      let n = distance t first last in
      let (kept, w') =
        if is_offload_policy policy
        then (if n == 0 then (0, w) else device_remove_if es pred four t is_float w first n)
        else keep_on_host es (λ x. not (pred.apply x)) t w first first n in
      (first + kept * t.size, w')

  unfoldable pub partition :
      Functor V Bool → Option Four → Element → Bool → World S V → ℕ → ℕ → ℕ × World S V
  unfolding is_offload_policy device_partition partition_on_host
  partition pred four t is_float w first last =
      let n = distance t first last in
      let (num_true, w') =
        if is_offload_policy policy
        then (if n == 0 then (0, w) else device_partition es pred four t is_float w first n)
        else partition_on_host es pred.apply t w first n in
      (first + num_true * t.size, w')

  unfoldable pub unique :
      (V → V → Bool) → Option Four → Element → Bool → World S V → ℕ → ℕ → ℕ × World S V
  unfolding is_offload_policy device_unique unique_on_host
  unique eq four t is_float w first last =
      let n = distance t first last in
      let (kept, w') =
        if is_offload_policy policy
        then (if n == 0 then (0, w) else device_unique es eq four t is_float w first n)
        else unique_on_host es eq t w first n in
      (first + kept * t.size, w')
