-- ===== src/Stdpar/Counts.antt =====
-- `device_count_if` of include/parallax/stdpar.hpp. An `int` is a value of the elements' type too;
-- `as_int` is its number.
pub mod Equal
use parallax_runtime.Prelude.{
  ℕ, zero, suc, ◌+◌, ◌==◌, Bool, ◌||◌, Option, none, some, if◌then◌else◌,
}
use parallax_runtime.Stdpar.{Memory, World, memcpy, Entries, Element, Functor, stage, unstage}

-- `int`
abbrev pub int : Element
int = record { size = 4; align = 4 }

module _ {S V : Type 0} (es : Entries S V) (as_int : V → ℕ) (nought : V)
    (pred : Functor V Bool) where
  -- `for (i = 0; i < n; ++i) if (pred(in[i])) ++c;`
  unfoldable pub host_count : ℕ → Memory V → ℕ → ℕ → ℕ → ℕ
  host_count size m input zero c = c
  host_count size m input (suc n) c =
      host_count size m (input + size) n (if pred.apply (m input) then suc c else c)

  -- With the staging buffers; where one of them is null the other is not given back.
  unfoldable pub count_staged : ℕ → ℕ → Element → World S V → ℕ → ℕ → ℕ → ℕ → ℕ × World S V
  unfolding host_count memcpy unstage
  count_staged kp kr t w input n ai ao =
      if ai == 0 || ao == 0
      then (host_count t.size w.memory input n 0, w)
      else (let w1 = memcpy w ai input t.size n in
          let w2 = es.launch_transform2 w1 kp ai ao n t.size int.size in
          let (gpu, w3) = es.reduce w2 kr ao n int.size nought in
          (as_int gpu, unstage es (unstage es w3 ao) ai))

  unfoldable pub device_count_if : Option ℕ → Option ℕ → Element → World S V → ℕ → ℕ → ℕ × World S V
  unfolding host_count
  device_count_if (some kp) (some kr) t w input n =
      if pred.is_empty
      then (let (ai, w1) = stage es w t n in
          let (ao, w2) = stage es w1 int n in count_staged kp kr t w2 input n ai ao)
      else (host_count t.size w.memory input n 0, w)
  device_count_if _ _ t w input n = (host_count t.size w.memory input n 0, w)
