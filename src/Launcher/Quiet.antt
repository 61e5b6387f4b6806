-- ===== src/Launcher/Quiet.antt =====
-- Commands that leave the descriptor pool of src/kernel/kernel_launcher.cpp as it is, and which of the
-- runtime's steps ask for no others.
use parallax_runtime.Prelude.{
  ℕ, ◌-◌, Bool, ◌&&◌, ◌||◌, Option, none, some, List, [], ◌∷◌, ◌==◌, ◌≡◌, refl, All, All-append,
  find, inl, inr, Bool-cases,
}
use parallax_runtime.Vulkan.{Command, Trace, destroy, host_copy, descriptor_set, descriptor_pool}
use parallax_runtime.Arena as Arena
use parallax_runtime.UnifiedBuffer.{UnifiedBuffer, DirtyBlock, needs_host_to_device}
use parallax_runtime.MemoryManager as MemoryManager
use parallax_runtime.Launcher.{enter, leave}
use parallax_runtime.Launcher.Pipelines.{Loaded, make_pipeline}

-- The command gives no descriptor set back, and does not end the pool.
abbrev pub FreesNoSet : Command → Type 0
FreesNoSet (destroy descriptor_set h) = ⊥
FreesNoSet (destroy descriptor_pool h) = ⊥
FreesNoSet _ = Unit

abbrev pub IsQuiet : Trace → Type 0
IsQuiet t = All FreesNoSet t

make_pipeline_parts-IsQuiet :
    (s d l p : Option ℕ)
    → IsQuiet
        (make_pipeline
          (record { new_shader = s; new_set_layout = d; new_layout = l; new_pipeline = p })).1
unfolding make_pipeline
make_pipeline_parts-IsQuiet none d l p = tt
make_pipeline_parts-IsQuiet (some s) none l p = (tt, (tt, tt))
make_pipeline_parts-IsQuiet (some s) (some d) none p = (tt, (tt, (tt, (tt, tt))))
make_pipeline_parts-IsQuiet (some s) (some d) (some l) none = (tt, (tt, (tt, (tt, (tt, (tt, tt))))))
make_pipeline_parts-IsQuiet (some s) (some d) (some l) (some p) = (tt, (tt, (tt, (tt, tt))))

pub make_pipeline-IsQuiet : (a : Loaded) → IsQuiet (make_pipeline a).1
make_pipeline-IsQuiet a =
    make_pipeline_parts-IsQuiet a.new_shader a.new_set_layout a.new_layout a.new_pipeline

copy-IsQuiet : (r : Arena.Arena) (src dst n : ℕ) → IsQuiet (Arena.Migrate.copy_range r src dst n)
unfolding Arena.Migrate.copy_range
copy-IsQuiet r src dst n = elim (Bool-cases (n == 0 || r.xfer_cmd == 0)) [
  | inl nothing ↦ rw nothing tt
  | inr some_bytes ↦ rw some_bytes (tt, tt)
]

pub invalidate-IsQuiet : (r : Arena.Arena) → IsQuiet (Arena.Migrate.invalidate_from_device r)
unfolding Arena.Migrate.invalidate_from_device
invalidate-IsQuiet r = elim (Bool-cases (r.uma || r.high_water == 0)) [
  | inl nothing ↦ rw nothing tt
  | inr used ↦ rw used (copy-IsQuiet r r.buffer r.staging_buffer r.high_water)
]

flush-IsQuiet : (r : Arena.Arena) → IsQuiet (Arena.Migrate.flush_to_device r)
unfolding Arena.Migrate.flush_to_device
flush-IsQuiet r = elim (Bool-cases (r.uma || r.high_water == 0)) [
  | inl nothing ↦ rw nothing tt
  | inr used ↦ rw used (copy-IsQuiet r r.staging_buffer r.buffer r.high_water)
]

pub enter-IsQuiet : (arena : Option Arena.Arena) (depth : ℕ) → IsQuiet (enter arena depth).2
unfolding enter
enter-IsQuiet none depth = elim (Bool-cases (depth == 0)) [
  | inl outermost ↦ rw outermost tt
  | inr nested ↦ rw nested tt
]
enter-IsQuiet (some r) depth = elim (Bool-cases (depth == 0)) [
  | inl outermost ↦ rw outermost (flush-IsQuiet r)
  | inr nested ↦ rw nested tt
]

pub leave-IsQuiet :
    (held : Bool) (arena : Option Arena.Arena) (depth : ℕ) → IsQuiet (leave held arena depth).1
unfolding leave
leave-IsQuiet held none depth = elim (Bool-cases (depth - 1 == 0 && held)) [
  | inl last ↦ rw last tt
  | inr nested ↦ rw nested tt
]
leave-IsQuiet held (some r) depth = elim (Bool-cases (depth - 1 == 0 && held)) [
  | inl last ↦ rw last (invalidate-IsQuiet r)
  | inr nested ↦ rw nested tt
]

transfer-IsQuiet :
    (needs : DirtyBlock → Bool) (c : Command) (u : UnifiedBuffer)
    → FreesNoSet c
    → IsQuiet (MemoryManager.transfer needs c u).1
unfolding MemoryManager.transfer
transfer-IsQuiet needs c u quiet = elim (Bool-cases (MemoryManager.any needs u.blocks)) [
  | inl dirty ↦ rw dirty (quiet, tt)
  | inr clean ↦ rw clean tt
]

before_found-IsQuiet :
    (mm : MemoryManager.Manager) (ptr : ℕ) (found : Option UnifiedBuffer)
    → find ptr mm.buffers ≡ found
    → IsQuiet (MemoryManager.sync_before_kernel mm ptr).1
unfolding MemoryManager.sync_before_kernel MemoryManager.transfer_dirty_blocks
before_found-IsQuiet mm ptr none e = rw (e, MemoryManager.sync_before_kernel) tt
before_found-IsQuiet mm ptr (some u) e =
    rw (e, MemoryManager.sync_before_kernel) (transfer-IsQuiet needs_host_to_device _ u tt)

pub before-IsQuiet :
    (mm : MemoryManager.Manager) (ptr : ℕ) → IsQuiet (MemoryManager.sync_before_kernel mm ptr).1
before-IsQuiet mm ptr = before_found-IsQuiet mm ptr (find ptr mm.buffers) refl

create_parts-IsQuiet :
    (types : List ℕ) (size bits : ℕ) (b m p : Option ℕ)
    → IsQuiet
        (MemoryManager.create_buffer (record {
          types = types;
          new_buffer = b;
          buffer_size = size;
          buffer_bits = bits;
          new_memory = m;
          mapped = p;
        })).1
unfolding MemoryManager.create_buffer
create_parts-IsQuiet types size bits none m p = tt
create_parts-IsQuiet types size bits (some b) none p = (tt, (tt, (tt, tt)))
create_parts-IsQuiet types size bits (some b) (some m) none = (tt, (tt, (tt, (tt, (tt, (tt, tt))))))
create_parts-IsQuiet types size bits (some b) (some m) (some p) = (tt, (tt, (tt, (tt, (tt, tt)))))

create-IsQuiet : (a : MemoryManager.Answers) → IsQuiet (MemoryManager.create_buffer a).1
create-IsQuiet a =
    create_parts-IsQuiet a.types a.buffer_size a.buffer_bits a.new_buffer a.new_memory a.mapped

register_found-IsQuiet :
    (a : MemoryManager.Answers) (mm : MemoryManager.Manager) (ptr n : ℕ)
    (found : Option UnifiedBuffer) (made : Option (ℕ × ℕ × ℕ))
    → find ptr mm.buffers ≡ found
    → (MemoryManager.create_buffer a).0 ≡ made
    → IsQuiet (MemoryManager.register_external_buffer a mm ptr n).2
unfolding MemoryManager.register_external_buffer
register_found-IsQuiet a mm ptr n (some u) made e f = elim (Bool-cases (ptr == 0 || n == 0)) [
  | inl refused ↦ rw refused tt
  | inr wanted ↦ rw (wanted, e) tt
]
register_found-IsQuiet a mm ptr n none none e f = elim (Bool-cases (ptr == 0 || n == 0)) [
  | inl refused ↦ rw refused tt
  | inr wanted ↦ rw (wanted, e, f) (create-IsQuiet a)
]
register_found-IsQuiet a mm ptr n none (some (b, m, p)) e f =
    elim (Bool-cases (ptr == 0 || n == 0)) [
      | inl refused ↦ rw refused tt
      | inr wanted ↦
          rw (wanted, e, f)
            (All-append FreesNoSet (MemoryManager.create_buffer a).1 (host_copy p ptr n ∷ [])
              (create-IsQuiet a) (tt, tt))
    ]

pub register-IsQuiet :
    (a : MemoryManager.Answers) (mm : MemoryManager.Manager) (ptr n : ℕ)
    → IsQuiet (MemoryManager.register_external_buffer a mm ptr n).2
register-IsQuiet a mm ptr n =
    register_found-IsQuiet a mm ptr n (find ptr mm.buffers) (MemoryManager.create_buffer a).0 refl
      refl
