-- ===== src/Directory/Cycles.antt =====
-- `NextEntry` (source/directory.cxx) on a chain of blocks that runs in a circle.
use prodosfs.Base.{
  ℕ, zero, suc, ◌+◌, ◌*◌, ◌≤◌, ◌<◌, ◌≡◌, refl, ap, ◌∙◌, true, arith, ltb, Bool-cases, inl, inr, ok,
  ◌>>=◌, out_of_fuel, Err,
}
use prodosfs.Disk.{Disk, image, le_read16, read_block}
use prodosfs.Block.{get_block}
use prodosfs.Entry.{is_inactive, entries_per_block, file_count}
use prodosfs.Directory.{Handle, entry_at, next_slot, skip_inactive, next_entry}
use prodosfs.Directory.Layout.{slot}

-- Each of these blocks has no active entry, up to and with the slot behind its last, and goes on with
-- another of them.
pub record Circle (d : Disk) (epb : ℕ) (OnIt : ℕ → Type 0) : Type 0 where
  pub empty : (a i : ℕ) → OnIt a → i ≤ epb → is_inactive d (image (slot a i)) ≡ true
  pub onward :
      (a : ℕ)
      → OnIt a
      → (n : ℕ) × (le_read16 d (image (a + 2)) ≡ suc n)
        × (suc n < d.num_blocks)
        × OnIt (suc n * 512)

module _ (d : Disk) (OnIt : ℕ → Type 0) where
  -- A handle that is at one of the blocks, at a slot that is looked at.
  record Caught (h : Handle) : Type 0 where
    pub at : ℕ
    pub in_block : h.block ≡ image at
    pub on_circle : OnIt at
    pub slot_in : h.block_index ≤ entries_per_block d h.header

  next_slot-Caught :
      (h : Handle)
      → Circle d (entries_per_block d h.header) OnIt
      → Caught h
      → (h' : Handle) × (next_slot d h ≡ ok h') × Caught h' × (h'.header ≡ h.header)
  unfolding next_slot get_block read_block
  next_slot-Caught h circle c =
      elim (Bool-cases (ltb h.block_index (entries_per_block d h.header))) [
        | inl more ↦ (
          record h { block_index = h.block_index + 1 },
          rw more refl,
          record {
            at = c.at;
            in_block = c.in_block;
            on_circle = c.on_circle;
            slot_in = ground (arith, more);
          },
          refl,
        )
        | inr last ↦
            let (n, next, inside, on) = circle.onward c.at c.on_circle in
            (
              record h { block = image (suc n * 512); block_index = 0 },
              rw (last, c.in_block, next) (ground (arith, inside)),
              record { at = suc n * 512; in_block = refl; on_circle = on; slot_in = omega arith },
              refl,
            )
      ]

  skip_inactive-Caught :
      (fuel : ℕ) (h : Handle)
      → Circle d (entries_per_block d h.header) OnIt
      → Caught h
      → skip_inactive fuel d h ≡ out_of_fuel
  unfolding skip_inactive
  skip_inactive-Caught zero h circle c = refl
  skip_inactive-Caught (suc fuel) h circle c =
      let (h', moved, caught, same) = next_slot-Caught h circle c in
      let there = rw (← same) at circle in
      let inactive : is_inactive d (entry_at h.block h.block_index) ≡ true =
        ap (λ b. is_inactive d (entry_at b h.block_index)) c.in_block
        ∙ circle.empty c.at h.block_index c.on_circle c.slot_in in
      rw inactive
        (ap (λ r. r >>= skip_inactive fuel d) moved ∙ skip_inactive-Caught fuel h' there caught)

  -- On a chain of blocks that runs in a circle without an active entry, `NextEntry` never returns: for a
  -- handle at any slot of a block of the circle, where the header counts more entries than the handle has
  -- delivered, no fuel is enough.
  pub next_entry-Circle :
      (fuel : ℕ) (err : Err) (h : Handle) (a : ℕ)
      → h.block ≡ image a
      → OnIt a
      → h.block_index ≤ entries_per_block d h.header
      → Circle d (entries_per_block d h.header) OnIt
      → (h.entry_index ≡ file_count d h.header → ⊥)
      → next_entry fuel d err h ≡ out_of_fuel
  unfolding next_entry
  next_entry-Circle fuel err h a at on inside circle more =
      let caught : Caught h = record { at = a; in_block = at; on_circle = on; slot_in = inside } in
      ground (arith, skip_inactive-Caught fuel h circle caught, more)
