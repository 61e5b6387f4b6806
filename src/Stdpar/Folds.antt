-- ===== src/Stdpar/Folds.antt =====
-- The funnels of include/parallax/stdpar.hpp that add up a range: `device_reduce`, `device_scan`,
-- `device_exclusive_scan` and `device_transform_reduce`. The element type's `+` and `T{}` are arguments.
pub mod Sums
pub mod Scans
use parallax_runtime.Prelude.{
  ℕ, zero, suc, ◌+◌, ◌*◌, ◌%◌, ◌^◌, ◌==◌, Bool, true, false, ◌&&◌, ◌||◌, not, Option, none, some,
  List, [], ◌∷◌, if◌then◌else◌, ltb,
}
use parallax_runtime.Stdpar.{
  Memory, update, read, write, World, memcpy, Entries, Element, Functor, stage, unstage,
}

module _ {S V : Type 0} (es : Entries S V) (add : V → V → V) (nought : V) where
  -- `for (i = 0; i < n; ++i) acc = acc + elems[i]`
  unfoldable pub host_sum : ℕ → Memory V → ℕ → ℕ → V → V
  host_sum size m elems zero acc = acc
  host_sum size m elems (suc n) acc = host_sum size m (elems + size) n (add acc (m elems))

  unfoldable pub reduce_staged : ℕ → Element → World S V → ℕ → ℕ → V → ℕ → V × World S V
  unfolding host_sum memcpy unstage
  reduce_staged k t w elems n init ab =
      if ab == 0
      then (host_sum t.size w.memory elems n init, w)
      else (let (gpu, w') = es.reduce (memcpy w ab elems t.size n) k ab n t.size nought in
          (add init gpu, unstage es w' ab))

  unfoldable pub device_reduce : Option ℕ → Element → World S V → ℕ → ℕ → V → V × World S V
  unfolding host_sum
  device_reduce none t w elems n init = (host_sum t.size w.memory elems n init, w)
  device_reduce (some k) t w elems n init =
      if es.arena_contains w.runtime elems
      then (let (gpu, w') = es.reduce w k elems n t.size nought in (add init gpu, w'))
      else (let (ab, w') = stage es w t n in reduce_staged k t w' elems n init ab)

  -- `for (i = 0; i < n; ++i) { acc = acc + in[i]; out[i] = acc; }`
  unfoldable pub host_scan : ℕ → Memory V → ℕ → ℕ → ℕ → V → Memory V
  host_scan size m input output zero acc = m
  host_scan size m input output (suc n) acc =
      let acc' = add acc (m input) in
      host_scan size (update m output acc') (input + size) (output + size) n acc'

  unfoldable pub scan_on_host : Element → World S V → ℕ → ℕ → ℕ → World S V
  unfolding host_scan
  scan_on_host t w input output n = record w {
    memory = host_scan t.size w.memory input output n nought;
  }

  unfoldable pub scan_staged : ℕ → ℕ → Element → World S V → ℕ → ℕ → ℕ → ℕ → World S V
  unfolding scan_on_host memcpy unstage
  scan_staged ks ka t w input output n ab =
      if ab == 0
      then scan_on_host t w input output n
      else (let w1 = memcpy w ab input t.size n in
          let w2 = es.scan w1 ks ka ab n t.size in
          let w3 = memcpy w2 output ab t.size n in unstage es w3 ab)

  unfoldable pub device_scan : Option ℕ → Option ℕ → Element → World S V → ℕ → ℕ → ℕ → World S V
  unfolding scan_on_host memcpy
  device_scan (some ks) (some ka) t w input output n =
      if es.arena_contains w.runtime input && es.arena_contains w.runtime output
      then es.scan (if input == output then w else memcpy w output input t.size n) ks ka output n
          t.size
      else (let (ab, w') = stage es w t n in scan_staged ks ka t w' input output n ab)
  device_scan _ _ t w input output n = scan_on_host t w input output n

  -- `for (i = 0; i < n; ++i) { T t = in[i]; out[i] = acc; acc = acc + t; }`
  unfoldable pub host_exclusive_scan : ℕ → Memory V → ℕ → ℕ → ℕ → V → Memory V
  host_exclusive_scan size m input output zero acc = m
  host_exclusive_scan size m input output (suc n) acc =
      host_exclusive_scan size (update m output acc) (input + size) (output + size) n
        (add acc (m input))

  unfoldable pub exclusive_on_host : Element → World S V → ℕ → ℕ → ℕ → V → World S V
  unfolding host_exclusive_scan
  exclusive_on_host t w input output n init = record w {
    memory = host_exclusive_scan t.size w.memory input output n init;
  }

  -- With the staging buffers; where one of them is null the other is not given back.
  unfoldable pub exclusive_staged :
      ℕ → ℕ → ℕ → Element → World S V → ℕ → ℕ → ℕ → V → ℕ → ℕ → World S V
  unfolding exclusive_on_host memcpy unstage
  exclusive_staged ks ka kh t w input output n init from ao =
      if from == 0 || ao == 0
      then exclusive_on_host t w input output n init
      else (let w1 = memcpy w from input t.size n in
          let w2 = es.exclusive_scan w1 ks ka kh from ao n t.size init in
          let w3 = memcpy w2 output ao t.size n in unstage es (unstage es w3 ao) from)

  unfoldable pub device_exclusive_scan :
      Option ℕ → Option ℕ → Option ℕ → Element → World S V → ℕ → ℕ → ℕ → V → World S V
  unfolding exclusive_on_host
  device_exclusive_scan (some ks) (some ka) (some kh) t w input output n init =
      let (from, w1) = stage es w t n in
      let (ao, w2) = stage es w1 t n in exclusive_staged ks ka kh t w2 input output n init from ao
  device_exclusive_scan _ _ _ t w input output n init = exclusive_on_host t w input output n init

  -- `for (i = 0; i < n; ++i) acc = acc + f(in[i])`
  unfoldable pub host_transform_sum : Functor V V → ℕ → Memory V → ℕ → ℕ → V → V
  host_transform_sum f size m input zero acc = acc
  host_transform_sum f size m input (suc n) acc =
      host_transform_sum f size m (input + size) n (add acc (f.apply (m input)))

  -- With the staging buffers; where one of them is null the other is not given back.
  unfoldable pub transform_reduce_staged :
      Functor V V → ℕ → ℕ → Element → Element → World S V → ℕ → ℕ → ℕ → ℕ → V × World S V
  unfolding host_transform_sum memcpy unstage
  transform_reduce_staged f kx kr t u w input n ai ao =
      if ai == 0 || ao == 0
      then (host_transform_sum f t.size w.memory input n nought, w)
      else (let w1 = memcpy w ai input t.size n in
          let w2 = es.launch_transform2 w1 kx ai ao n t.size u.size in
          let (gpu, w3) = es.reduce w2 kr ao n u.size nought in
          (gpu, unstage es (unstage es w3 ao) ai))

  unfoldable pub device_transform_reduce :
      Functor V V → Option ℕ → Option ℕ → Element → Element → World S V → ℕ → ℕ → V × World S V
  unfolding host_transform_sum
  device_transform_reduce f (some kx) (some kr) t u w input n =
      if f.is_empty
      then (let (ai, w1) = stage es w t n in
          let (ao, w2) = stage es w1 u n in transform_reduce_staged f kx kr t u w2 input n ai ao)
      else (host_transform_sum f t.size w.memory input n nought, w)
  device_transform_reduce f _ _ t u w input n =
      (host_transform_sum f t.size w.memory input n nought, w)
