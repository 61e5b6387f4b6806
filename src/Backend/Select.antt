-- ===== src/Backend/Select.antt =====
-- The choice of a device and its features, and `cleanup`, of src/backend/vulkan/device.cpp.
use parallax_runtime.Prelude.{
  ℕ, suc, ◌/◌, ◌%◌, All-before_cons, sym, ap, ◌∙◌, ◌<◌, ◌≡◌, refl, ◌≢◌, ◌⊎◌, inl, inr, Bool, true,
  false, Option, none, some, List, [], ◌∷◌, ◌++◌, arith, Bool-cases, Option-cases, get_elem?,
}
use mathlib.Core.Path.{subst}
use parallax_runtime.Vulkan.{Trace, create, instance, device, IsBalanced}
use parallax_runtime.Backend.{
  Gpu, Backend, Answers, Request, fresh, find_queue_families, is_device_suitable,
  select_physical_device, detect_capabilities, device_request, create_instance,
  create_logical_device, initialize, cleanup,
}

-- VK_QUEUE_COMPUTE_BIT is 2: the second binary digit of the flags.
abbrev pub Computes : ℕ → Type 0
Computes flags = flags / 2 % 2 ≡ 1

abbrev pub IsFirstComputing : List ℕ → ℕ → Type 0
IsFirstComputing families k =
    ((f : ℕ) × (get_elem? families k ≡ some f) × Computes f)
    × ((j f : ℕ) → j < k → get_elem? families j ≡ some f → ¬ Computes f)

abbrev pub NoneComputes : List ℕ → Type 0
NoneComputes families = (j f : ℕ) → get_elem? families j ≡ some f → ¬ Computes f

-- What a successful initialisation has found.
pub record IsReady (a : Answers) (v : Backend) : Type 0 where
  pub gpu : Gpu
  pub family : ℕ
  pub listed :
      (i : ℕ) × (get_elem? a.gpus i ≡ some gpu)
      × ((j : ℕ) (g : Gpu) → j < i → get_elem? a.gpus j ≡ some g → NoneComputes g.queue_flags)
  pub taken : v.physical_device ≡ gpu.handle
  pub first_family : IsFirstComputing gpu.queue_flags family
  pub kept_family : v.compute_family ≡ some family
  -- no feature is requested that the device lacks
  pub supported : (device_request family v.capabilities).features ≡ gpu.supported
  pub importing :
      (device_request family v.capabilities).external_memory_host ≡ gpu.has_external_memory_host
  pub answered : a.new_device (device_request family v.capabilities) ≡ some v.device_handle

select_lem :
    (gs : List Gpu) (v w : Backend) (g : Gpu)
    → select_physical_device gs v ≡ some (g, w)
    → ((i : ℕ) × (get_elem? gs i ≡ some g)
        × ((j : ℕ) (x : Gpu) → j < i → get_elem? gs j ≡ some x → is_device_suitable x ≡ false))
      × (is_device_suitable g ≡ true)
      × (w ≡ record v { physical_device = g.handle; compute_family = find_queue_families g })
unfolding select_physical_device
select_lem [] v w g e = ground arith
select_lem (x ∷ gs) v w g e = elim (Bool-cases (is_device_suitable x)) [
  | inl h ↦
      let taken : Backend = record v {
        physical_device = x.handle;
        compute_family = find_queue_families x;
      } in
      let found : ◌≡◌ {A = Option (Gpu × Backend)} (some (x, taken)) (some (g, w)) =
        ground (arith, h) in
      let same : x ≡ g = ap (λ o. elim o [ none ↦ x | some r ↦ r.0 ]) found in
      let rest = ap (λ o. elim o [ none ↦ v | some r ↦ r.1 ]) found in
      ((0, ap some same, λ j y lt at. absurd (omega arith)), rw (← same) h, rw (← same) (sym rest))
  | inr h ↦
      let later : select_physical_device gs v ≡ some (g, w) = ground (arith, h) in
      let ((i, at, before), ok, taken) = select_lem gs v w g later in
      ((suc i, at, All-before_cons (λ y. is_device_suitable y ≡ false) x gs i h before), ok, taken)
]

suitable_family :
    (g : Gpu) → is_device_suitable g ≡ true → (k : ℕ) × (find_queue_families g ≡ some k)
unfolding is_device_suitable
suitable_family g e = elim (Option-cases (find_queue_families g)) [
  | inl n ↦ ground arith
  | inr found ↦ found
]

-- The backend when the logical device is asked for.
selected : Backend → Gpu → ℕ → Backend
selected v g family = record v {
  physical_device = g.handle;
  compute_family = some family;
  capabilities = detect_capabilities g v.capabilities;
}

create_logical_device_lem :
    (a : Answers) (v : Backend) (g : Gpu) (family : ℕ)
    → (create_logical_device a (selected v g family) ≡ (false, selected v g family, []))
      ⊎ ((h : ℕ) × (a.new_device (device_request family (detect_capabilities g v.capabilities))
            ≡ some h)
          × (create_logical_device a (selected v g family) ≡ (
            true,
            record (selected v g family) { device_handle = h; compute_queue = a.queue },
            create device h ∷ [],
          )))
unfolding create_logical_device selected
create_logical_device_lem a v g family =
    elim (Option-cases
      (a.new_device (device_request family (detect_capabilities g v.capabilities)))) [
        | inl n ↦ inl (rw n refl)
        | inr (h, n) ↦ inr (h, n, rw n refl)
      ]

started : ℕ → Backend
started h = record fresh { instance_handle = h }

-- What `initialize` comes to when the driver has answered with an instance.
Selects : Answers → ℕ → Gpu → ℕ → Type 0
Selects a h g family =
    let last = create_logical_device a (selected (started h) g family) in
    ((i : ℕ) × (get_elem? a.gpus i ≡ some g)
      × ((j : ℕ) (x : Gpu) → j < i → get_elem? a.gpus j ≡ some x → is_device_suitable x ≡ false))
    × (find_queue_families g ≡ some family)
    × (initialize a fresh ≡ (last.0, last.1, create instance h ∷ last.2))

initialize-cases :
    (a : Answers)
    → ((initialize a fresh ≡ (false, fresh, []))
        ⊎ ((h : ℕ) × (a.new_instance ≡ some h)
            × (initialize a fresh ≡ (false, started h, create instance h ∷ []))))
      ⊎ ((h : ℕ) × (a.new_instance ≡ some h) × (g : Gpu) × (family : ℕ) × Selects a h g family)
unfolding initialize create_instance started selected Selects
initialize-cases a = go a.new_instance a.gpus a.new_device a.queue
  where
    go :
        (o : Option ℕ) (gs : List Gpu) (f : Request → Option ℕ) (q : ℕ)
        → let a : Answers = record { new_instance = o; gpus = gs; new_device = f; queue = q } in
          ((initialize a fresh ≡ (false, fresh, []))
            ⊎ ((h : ℕ) × (o ≡ some h)
                × (initialize a fresh ≡ (false, started h, create instance h ∷ []))))
          ⊎ ((h : ℕ) × (o ≡ some h) × (g : Gpu) × (family : ℕ) × Selects a h g family)
    go none gs f q = inl (inl refl)
    go (some h) gs f q = elim (Option-cases (select_physical_device gs (started h))) [
      | inl m ↦ inl (inr (h, refl, rw m refl))
      | inr ((g, w), m) ↦
          let (at, suits, taken) = select_lem gs (started h) w g m in
          let (family, first) = suitable_family g suits in
          let whole =
            taken
            ∙ ap (λ o. record (started h) { physical_device = g.handle; compute_family = o })
                first in
          inr (h, refl, g, family, (at, first, rw m (rw whole refl)))
    ]

-- What holds of the result of a run holds after it.
along :
    (a : Answers) (r : Bool × Backend × Trace)
    → initialize a fresh ≡ r
    → IsBalanced (r.2 ++ (cleanup r.1).1)
    → IsBalanced ((initialize a fresh).2 ++ (cleanup (initialize a fresh).1).1)
along a r run b = subst (λ x. IsBalanced (x.2 ++ (cleanup x.1).1)) (sym run) b

-- Whether it succeeds or not, an initialisation followed by `cleanup` leaves no object behind,
-- where the driver does not answer with null handles.
pub initialize-cleanup :
    (a : Answers)
    → ((h : ℕ) → a.new_instance ≡ some h → h ≢ 0)
    → ((r : Request) (h : ℕ) → a.new_device r ≡ some h → h ≢ 0)
    → IsBalanced ((initialize a fresh).2 ++ (cleanup (initialize a fresh).1).1)
unfolding Selects selected started cleanup
initialize-cleanup a i d = elim (initialize-cases a) [
  | inl (inl run) ↦ along a _ run (λ k j. ground arith)
  | inl (inr (h, n, run)) ↦ along a _ run (λ k j. ground (arith, i h n))
  | inr (h, n, g, family, (at, first, run)) ↦
      elim (create_logical_device_lem a (started h) g family) [
        | inl failed ↦
            along a _ (run ∙ ap (λ r. (r.0, r.1, create instance h ∷ r.2)) failed)
              (λ k j. ground (arith, i h n))
        | inr (e, answer, made) ↦
            along a _ (run ∙ ap (λ r. (r.0, r.1, create instance h ∷ r.2)) made)
              (λ k j. ground (arith, i h n, d _ e answer))
      ]
]
