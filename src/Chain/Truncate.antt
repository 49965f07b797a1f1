-- ===== src/Chain/Truncate.antt =====
-- `exfat_truncate`: the sizes that it leaves.
use exfat.Prelude.{ℕ, min, ◌≡◌, refl, ap, Bool, true, false, arith, ◌==◌, ◌&&◌, if◌then◌else◌}
use exfat.Prelude.Int.{ℤ}
use exfat.Prelude.Effect.Holds.{Holds, Holds-bind, Holds_map}
use exfat.Prelude.Effect.{
  Outcome, bug, failed, done, ◌>>=◌, ◌>>◌, pure, branch, gets, modify, stop_if,
}
use exfat.Bitmap.{Endian}
use exfat.Chain.{Device, SuperBlock, File, bytes2clusters}
use exfat.Chain.Resize.{update, erase_range, resize_chain, set_valid, resize, resized, truncate}
use exfat.Chain.Sizes.{IsSized, erase_range-Keeps, resize_chain-Keeps}

module _ (D : Device) (sb : SuperBlock) (valid size references : ℕ) (e : Endian) where
  abbrev Sized : File D → Type 0
  Sized = IsSized D sb valid size references

  set_valid_lem :
      (new : ℕ) (erase : Bool) (s : File D)
      → Sized s
      → Holds
          (Unit {0})
          (λ rc. Sized)
          (λ u s'. (s'.node.valid_size ≡ (if erase then new else min valid new)) × (s'.ef.sb ≡ sb))
          (set_valid D e new erase s)
  unfolding set_valid ◌>>=◌ ◌>>◌ gets modify
  set_valid_lem new true s i =
      Holds-bind (Unit {0}) (λ rc. Sized) (λ u. Sized)
        (λ u s'. (s'.node.valid_size ≡ new) × (s'.ef.sb ≡ sb))
        (erase_range D e s.node.valid_size new)
        (λ u. update D λ node. record node { valid_size = new }) s
        ((erase_range-Keeps D sb valid size references e s.node.valid_size new).kept s i)
        λ u s' j. (refl, j.same_sb)
  set_valid_lem new false s i = (ap (λ (k : ℕ). min k new) i.same_valid, i.same_sb)

  resize_lem :
      (now : ℤ) (new : ℕ) (erase : Bool) (s : File D)
      → Sized s
      → Holds
          (Unit {0})
          (λ rc. Sized)
          (λ u s'.
            (s'.node.size ≡ new)
            × (s'.node.valid_size ≡ (if erase then new else min valid new))
            × (s'.ef.sb ≡ sb))
          (resize D e now new erase s)
  unfolding resize ◌>>=◌ ◌>>◌ gets modify
  resize_lem now new erase s i =
      let c1 = bytes2clusters s.ef.sb s.node.size in
      let c2 = bytes2clusters s.ef.sb new in
      let valid' = if erase then new else min valid new in
      Holds-bind (Unit {0}) (λ rc. Sized) (λ u. Sized)
        (λ u s'. (s'.node.size ≡ new) × (s'.node.valid_size ≡ valid') × (s'.ef.sb ≡ sb))
        (resize_chain D e c1 c2) (λ u. set_valid D e new erase >> update D (resized new now)) s
        ((resize_chain-Keeps D sb valid size references e c1 c2).kept s i)
        λ u s' j.
          Holds-bind (Unit {0}) (λ rc. Sized)
            (λ u s'. (s'.node.valid_size ≡ valid') × (s'.ef.sb ≡ sb))
            (λ u s'. (s'.node.size ≡ new) × (s'.node.valid_size ≡ valid') × (s'.ef.sb ≡ sb))
            (set_valid D e new erase) (λ u. update D (resized new now)) s'
            (set_valid_lem new erase s' j) λ u s'' k. (refl, k.0, k.1)

-- The valid size after a change of the size from `old` to `new`.
abbrev pub valid_after_truncate : ℕ → ℕ → ℕ → Bool → ℕ
valid_after_truncate valid old new erase =
    if old == new then valid else if erase then new else min valid new

-- What a change of the size to `new` may leave of a file, after success and after an error.
abbrev pub IsTruncated : (D : Device) → File D → ℕ → Bool → File D → Type 0
IsTruncated D s new erase s' =
    (s'.node.size ≡ new)
    × (s'.node.valid_size ≡ valid_after_truncate s.node.valid_size s.node.size new erase)
    × (s'.ef.sb ≡ s.ef.sb)

abbrev pub IsUnchanged : (D : Device) → File D → File D → Type 0
IsUnchanged D s s' =
    (s'.node.size ≡ s.node.size) × (s'.node.valid_size ≡ s.node.valid_size) × (s'.ef.sb ≡ s.ef.sb)

-- On any device, a truncation that succeeds sets the size that was asked for, with a valid size that
-- grows to it only when the new bytes are erased and is otherwise cut down to it; one that fails
-- leaves the size, the valid size and the super block as they were.
pub truncate-IsTruncated :
    (D : Device) (e : Endian) (attached : Bool) (now : ℤ) (new : ℕ) (erase : Bool) (s : File D)
    → Holds
        (Unit {0})
        (λ rc. IsUnchanged D s)
        (λ u. IsTruncated D s new erase)
        (truncate D e attached now new erase s)
unfolding truncate ◌>>=◌ ◌>>◌ stop_if branch pure
truncate-IsTruncated D e attached now new erase s = started (s.node.references == 0 && attached)
  where
    Good : Outcome (File D) (Unit {0}) → Type 0
    Good = Holds (Unit {0}) (λ rc. IsUnchanged D s) (λ u. IsTruncated D s new erase)

    sized :
        (same : Bool)
        → (s.node.size == new) ≡ same
        → Good (elim same [ true ↦ done tt s | false ↦ resize D e now new erase s ])
    sized true h = (ground arith, rw h refl, refl)
    sized false h =
        Holds_map (Unit {0})
          (λ rc. IsSized D s.ef.sb s.node.valid_size s.node.size s.node.references)
          (λ rc. IsUnchanged D s)
          (λ u s'.
            (s'.node.size ≡ new)
            × (s'.node.valid_size ≡ (if erase then new else min s.node.valid_size new))
            × (s'.ef.sb ≡ s.ef.sb))
          (λ u. IsTruncated D s new erase) (resize D e now new erase s)
          (resize_lem D s.ef.sb s.node.valid_size s.node.size s.node.references e now new erase s
            (record {
              same_sb = refl;
              same_valid = refl;
              same_size = refl;
              same_references = refl;
            }))
          (λ rc s' i. (i.same_size, i.same_valid, i.same_sb)) λ u s' r. (r.0, rw h r.1, r.2)

    started :
        (orphan : Bool)
        → Good
            (elim (elim orphan as (λ b. Outcome (File D) (Unit {0})) [
              | true ↦ bug
              | false ↦ done tt s
            ]) [
              | bug ↦ bug
              | failed rc s' ↦ failed rc s'
              | done u s' ↦ elim (s'.node.size == new) [
                | true ↦ done tt s'
                | false ↦ resize D e now new erase s'
              ]
            ])
    started true = tt
    started false = sized (s.node.size == new) refl
