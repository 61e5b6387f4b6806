-- ===== src/MemoryManager/Sync.antt =====
-- The dirty flags over a launch (`sync_before_kernel` and `sync_after_kernel` of
-- src/memory/unified_buffer.cpp).
use parallax_runtime.Prelude.{
  ℕ, ◌≡◌, refl, sym, ◌∙◌, ap, inl, inr, false, some, List, [], ◌∷◌, map, arith, ◌==◌, ==_refl,
  ==_iff, if◌then◌else◌, Bool-cases, Option-cases, find, insert, find-insert,
}
use parallax_runtime.Vulkan.{Command, flush_mapped}
use parallax_runtime.UnifiedBuffer.{
  UnifiedBuffer, DirtyBlock, mark_device_dirty, needs_host_to_device, mark_all_dirty_on_device,
}
use parallax_runtime.MemoryManager.{
  Manager, any, clear_where, transfer, transfer_dirty_blocks, sync_before_kernel, sync_after_kernel,
}

-- The host writes of the buffer have reached the device.
abbrev pub IsFlushed : UnifiedBuffer → Type 0
IsFlushed u = any needs_host_to_device u.blocks ≡ false

any-clear_where :
    (bs : List DirtyBlock) → any needs_host_to_device (clear_where needs_host_to_device bs) ≡ false
unfolding any clear_where
any-clear_where [] = refl
any-clear_where (b ∷ bs) = ground (arith, any-clear_where bs)

transfer-IsFlushed :
    (c : Command) (u : UnifiedBuffer) → IsFlushed (transfer needs_host_to_device c u).0
unfolding transfer
transfer-IsFlushed c u = elim (Bool-cases (any needs_host_to_device u.blocks)) [
  | inl e ↦ rw (e, transfer) (any-clear_where u.blocks)
  | inr e ↦ rw (e, transfer) e
]

transfer_flushed :
    (c : Command) (u : UnifiedBuffer) → IsFlushed u → transfer needs_host_to_device c u ≡ (u, [])
unfolding transfer
transfer_flushed c u e = rw (e, transfer) refl

any-mark_device :
    (bs : List DirtyBlock) → any needs_host_to_device (map mark_device_dirty bs) ≡ false
unfolding any
any-mark_device [] = refl
any-mark_device (b ∷ bs) = any-mark_device bs

find-insert_self :
    (p : ℕ) (u : UnifiedBuffer) (m : List (ℕ × UnifiedBuffer)) → find p (insert p u m) ≡ some u
find-insert_self p u m = rw (find-insert p p u m) (rw (==_refl p) refl)

transfer_asks :
    (c : Command) (u : UnifiedBuffer)
    → (transfer needs_host_to_device c u).1
      ≡ (if any needs_host_to_device u.blocks then c ∷ [] else [])
unfolding transfer
transfer_asks c u = ground arith

-- For a buffer of the table: `sync_before_kernel` flushes its memory once if some block is dirty
-- on the host only, and asks for nothing otherwise; the other buffers stay, and no block of it is
-- left that a flush would be due for.
pub sync_before_kernel_lem :
    (mm : Manager) (p : ℕ) (u : UnifiedBuffer)
    → find p mm.buffers ≡ some u
    → ((sync_before_kernel mm p).1
        ≡ (if any needs_host_to_device u.blocks then flush_mapped u.memory ∷ [] else []))
      × ((w : UnifiedBuffer) × (find p (sync_before_kernel mm p).0.buffers ≡ some w) × IsFlushed w)
      × ((q : ℕ)
          → (p == q) ≡ false
          → find q (sync_before_kernel mm p).0.buffers ≡ find q mm.buffers)
unfolding sync_before_kernel transfer_dirty_blocks
sync_before_kernel_lem mm p u e =
    let after = (transfer needs_host_to_device (flush_mapped u.memory) u).0 in
    rw (e, sync_before_kernel)
      (
        transfer_asks (flush_mapped u.memory) u,
        (after, find-insert_self p after mm.buffers, transfer-IsFlushed (flush_mapped u.memory) u),
        λ q n. rw (find-insert p q after mm.buffers) (rw n refl),
      )

-- An entry inserted again leaves every look-up.
reinserted :
    (p q : ℕ) (v w : UnifiedBuffer) (m : List (ℕ × UnifiedBuffer))
    → v ≡ w
    → find p m ≡ some w
    → find q (insert p v m) ≡ find q m
reinserted p q v w m same e = elim (Bool-cases (p == q)) [
  | inl h ↦
      rw (find-insert p q v m) (rw h (ap some same ∙ sym e ∙ ap (λ r. find r m) ((==_iff p q).0 h)))
  | inr h ↦ rw (find-insert p q v m) (rw h refl)
]

-- After a kernel no flush is due before the next one: the launch cycle of a buffer asks for
-- nothing until the host marks a block dirty again, and a second cycle leaves the table as it is.
pub sync_after_kernel-sync_before_kernel :
    (mm : Manager) (p : ℕ)
    → let after = sync_after_kernel mm p in
      ((sync_before_kernel after p).1 ≡ [])
      × ((q : ℕ) → find q (sync_before_kernel after p).0.buffers ≡ find q after.buffers)
unfolding sync_after_kernel sync_before_kernel transfer_dirty_blocks mark_all_dirty_on_device
sync_after_kernel-sync_before_kernel mm p = elim (Option-cases (find p mm.buffers)) [
  | inl e ↦ rw (e, sync_after_kernel) (rw (e, sync_before_kernel) (refl, λ q. refl))
  | inr (u, e) ↦
      let w = mark_all_dirty_on_device u in
      let after = record mm { buffers = insert p w mm.buffers } in
      let there = find-insert_self p w mm.buffers in
      rw (e, sync_after_kernel)
        (rw (there, sync_before_kernel)
          (
            ap (λ r. r.1) (transfer_flushed (flush_mapped u.memory) w (any-mark_device u.blocks)),
            λ q.
                reinserted p q (transfer needs_host_to_device (flush_mapped u.memory) w).0 w
                  (insert p w mm.buffers)
                  (ap (λ r. r.0)
                    (transfer_flushed (flush_mapped u.memory) w (any-mark_device u.blocks)))
                  there,
          ))
]
