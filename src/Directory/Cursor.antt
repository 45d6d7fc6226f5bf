-- ===== src/Directory/Cursor.antt =====
-- The slots that lie ahead of a handle, as a relation, and the loop over the inactive ones.
use prodosfs.Base.{
  ℕ, zero, suc, ◌+◌, ◌*◌, ◌≤◌, ◌<◌, ◌≡◌, refl, true, false, List, [], ◌∷◌, ◌++◌, arith, All, Result,
  ok, thrown, no_more_directory_blocks, Bool-cases, inl, inr,
}
use native.Mathlib.Nat.{zero-add, suc-add}
use mathlib.Core.List.{tail}
use prodosfs.Disk.{Disk, image, le_read16, read_block, Ptr}
use prodosfs.Block.{get_block}
use prodosfs.Entry.{is_inactive, entries_per_block}
use prodosfs.Directory.{Handle, next_slot, skip_inactive}
use prodosfs.Directory.Layout.{
  Chain, last, link, slot, active_slots, later_entries, IsPadded, slots_in,
}

-- From slot `i` of the block at `a`, `m` steps lead to the end of the chain past these entries.
pub data Pending (d : Disk) (epb : ℕ) : ℕ → ℕ → ℕ → List ℕ → Type 0 where
  take_slot :
      {a i m : ℕ} {l : List ℕ}
      → i < epb
      → is_inactive d (image (slot a i)) ≡ false
      → Pending d epb a (i + 1) m l
      → Pending d epb a i (suc m) (slot a i ∷ l)
  skip_slot :
      {a i m : ℕ} {l : List ℕ}
      → i < epb
      → is_inactive d (image (slot a i)) ≡ true
      → Pending d epb a (i + 1) m l
      → Pending d epb a i (suc m) l
  hop :
      {a i m : ℕ} {l : List ℕ} (n : ℕ)
      → epb ≤ i
      → is_inactive d (image (slot a i)) ≡ true
      → le_read16 d (image (a + 2)) ≡ suc n
      → suc n < d.num_blocks
      → Pending d epb (suc n * 512) 0 m l
      → Pending d epb a i (suc m) l
  stop :
      {a i : ℕ}
      → epb ≤ i
      → is_inactive d (image (slot a i)) ≡ true
      → le_read16 d (image (a + 2)) ≡ 0
      → Pending d epb a i 0 []

-- The slots of one block, before what lies ahead of its end.
pub Pending-block :
    (d : Disk) (epb a : ℕ) (n i m : ℕ) (l : List ℕ)
    → i + n ≡ epb
    → Pending d epb a epb m l
    → Pending d epb a i (n + m) (active_slots d a i n ++ l)
Pending-block d epb a zero i m l e p = let e' : i ≡ epb = omega arith in rw (e', zero-add m) p
Pending-block d epb a (suc n) i m l e p =
    let rest = Pending-block d epb a n (i + 1) m l (omega arith) p in
    rw (suc-add n m) (elim (Bool-cases (is_inactive d (image (slot a i)))) [
      | inl off ↦ rw off (skip_slot (omega arith) off rest)
      | inr on ↦ rw on (take_slot (omega arith) on rest)
    ])

later_entries-Chain :
    (d : Disk) (epb : ℕ) {a : ℕ} {bs : List ℕ}
    → Chain d a bs
    → later_entries d epb bs ≡ active_slots d a 0 epb ++ later_entries d epb (tail bs)
later_entries-Chain d epb (last z) = refl
later_entries-Chain d epb (link k next below rest) = refl

-- What lies ahead of the start of a later block, and of slot `i` of any block with its chain.
pub Pending-chain :
    (d : Disk) (epb : ℕ) {a : ℕ} {bs : List ℕ} (n i : ℕ)
    → Chain d a bs
    → i + n ≡ epb
    → All (IsPadded d epb) bs
    → (m : ℕ) × (m ≤ slots_in epb bs)
      × Pending d epb a i m (active_slots d a i n ++ later_entries d epb (tail bs))
Pending-chain d epb {a} n i (last z) e h =
    (n + 0, omega arith, Pending-block d epb a n i 0 [] e (stop (omega arith) h.0 z))
Pending-chain d epb {a} n i (link {bs = bs} k next below rest) e h =
    let (m, le, p) = Pending-chain d epb epb 0 rest (omega arith) h.1 in
    (
      n + suc m,
      omega arith,
      Pending-block d epb a n i (suc m) (later_entries d epb bs) e
          (hop k (omega arith) h.0 next below (rw (later_entries-Chain d epb rest) p)),
    )

-- The handle at a slot.
abbrev pub standing : Ptr → ℕ → ℕ → ℕ → Handle
standing header count a i = record {
  header = header;
  block = image a;
  block_index = i;
  entry_index = count;
}

-- How the loop over the inactive entries ends: at the next entry, with the handle there, or by the
-- exception at the end of the chain.
pub data Skipped (d : Disk) (epb : ℕ) (header : Ptr) (count bound : ℕ)
    : List ℕ → Result Handle → Type 0 where
  none_left : Skipped d epb header count bound [] (thrown no_more_directory_blocks)
  found :
      {s : ℕ} {l : List ℕ} (a i m : ℕ)
      → i < epb
      → s ≡ slot a i
      → m < bound
      → Pending d epb a (i + 1) m l
      → Skipped d epb header count bound (s ∷ l) (ok (standing header count a i))

Skipped-mono :
    (d : Disk) (epb : ℕ) (header : Ptr) (count m n : ℕ) {l : List ℕ} {r : Result Handle}
    → m ≤ n
    → Skipped d epb header count m l r
    → Skipped d epb header count n l r
Skipped-mono d epb header count m n le none_left = none_left
Skipped-mono d epb header count m n le (found a i k lt e below p) = found a i k lt e (omega arith) p

module _ (d : Disk) (epb : ℕ) (header : Ptr) (full : entries_per_block d header ≡ epb) where
  pub next_slot_here :
      (count a i : ℕ)
      → i < epb
      → next_slot d (standing header count a i) ≡ ok (standing header count a (i + 1))
  unfolding next_slot
  next_slot_here count a i lt = ground arith

  next_slot_hop :
      (count a i n : ℕ)
      → epb ≤ i
      → le_read16 d (image (a + 2)) ≡ suc n
      → suc n < d.num_blocks
      → next_slot d (standing header count a i) ≡ ok (standing header count (suc n * 512) 0)
  unfolding next_slot get_block read_block
  next_slot_hop count a i n le next below = ground arith

  next_slot_stop :
      (count a i : ℕ)
      → epb ≤ i
      → le_read16 d (image (a + 2)) ≡ 0
      → next_slot d (standing header count a i) ≡ thrown no_more_directory_blocks
  unfolding next_slot
  next_slot_stop count a i le next = ground arith

  -- Fuel for the steps ahead is enough.
  pub skip_inactive-Skipped :
      (count fuel : ℕ) (a i m : ℕ) {l : List ℕ}
      → Pending d epb a i m l
      → m < fuel
      → Skipped d epb header count m l (skip_inactive fuel d (standing header count a i))
  unfolding skip_inactive
  skip_inactive-Skipped count zero a i m p lt = absurd (omega arith)
  skip_inactive-Skipped count (suc fuel) a i _ (take_slot {m = k} here on p) lt =
      rw on (found a i k here refl (omega arith) p)
  skip_inactive-Skipped count (suc fuel) a i _ (skip_slot {m = k} here off p) lt =
      rw (off, next_slot_here count a i here)
        (Skipped-mono d epb header count k (suc k) (omega arith)
          (skip_inactive-Skipped count fuel a (i + 1) k p (omega arith)))
  skip_inactive-Skipped count (suc fuel) a i _ (hop {m = k} n past off next below p) lt =
      rw (off, next_slot_hop count a i n past next below)
        (Skipped-mono d epb header count k (suc k) (omega arith)
          (skip_inactive-Skipped count fuel (suc n * 512) 0 k p (omega arith)))
  skip_inactive-Skipped count (suc fuel) a i _ (stop past off next) lt =
      rw (off, next_slot_stop count a i past next) none_left
