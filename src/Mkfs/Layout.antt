-- ===== src/Mkfs/Layout.antt =====
-- The objects of a new file system, one after the other.
use exfat.Prelude.{
  ℕ, zero, suc, ◌+◌, ◌%◌, ◌≤◌, ◌<◌, ◌≡◌, refl, ap, sym, ◌∙◌, arith, some, List, [], ◌∷◌, get_or,
  true, length,
}
use exfat.Bitmap.{round_up, div_round_up}
use exfat.Mkfs.{
  FsObject, Param, end_position, position_from, objects, check_size, get_cluster_size,
  get_sector_size,
}
use exfat.Mkfs.Rounding.{round_up-le}
use exfat.Prelude.Bits.{pow_pos}
use native.Mathlib.Nat.{mul-mod_left}

pub data AllAligned : List FsObject → Type 0 where
  no_objects : AllAligned []
  and_object :
      {object : FsObject} {objects : List FsObject}
      → 0 < object.alignment
      → AllAligned objects
      → AllAligned (object ∷ objects)

abbrev pub object_at : List FsObject → ℕ → FsObject
object_at objects i = get_or objects i (record { alignment = 0; size = 0 })

position_from-ge :
    (objects : List FsObject) (start i position : ℕ)
    → AllAligned objects
    → position_from start objects i ≡ some position
    → start ≤ position
unfolding position_from
position_from-ge [] start i position all e = ground arith
position_from-ge (object ∷ objects) start zero position (and_object pos all) e =
    omega (arith, round_up-le start object.alignment pos, some_eq e)
  where
    some_eq : {a b : ℕ} → some a ≡ some b → a ≡ b
    some_eq e = ground arith
position_from-ge (object ∷ objects) start (suc i) position (and_object pos all) e =
    omega
      (arith, round_up-le start object.alignment pos, position_from-ge objects _ i position all e)

-- An object is aligned, ends where the objects end or before, and ends before each later one begins.
pub record IsPlaced (objects : List FsObject) (start i position : ℕ) : Type 0 where
  pub aligned : position % (object_at objects i).alignment ≡ 0
  pub inside : position + (object_at objects i).size ≤ end_position start objects
  pub before :
      (j later : ℕ)
      → i < j
      → position_from start objects j ≡ some later
      → position + (object_at objects i).size ≤ later

end_position-ge :
    (objects : List FsObject) (start : ℕ) → AllAligned objects → start ≤ end_position start objects
unfolding end_position
end_position-ge [] start all = omega arith
end_position-ge (object ∷ objects) start (and_object pos all) = omega (
  arith,
  round_up-le start object.alignment pos,
  end_position-ge objects (round_up start object.alignment + object.size) all,
)

place :
    (objects : List FsObject) (start i position : ℕ)
    → AllAligned objects
    → position_from start objects i ≡ some position
    → IsPlaced objects start i position
unfolding position_from end_position
place [] start i position all e = ground arith
place (object ∷ objects) start zero position (and_object pos all) e =
    let here : round_up start object.alignment ≡ position = some_eq e in
    record {
      aligned =
          ap (λ (t : ℕ). t % object.alignment) (sym here)
          ∙ mul-mod_left (div_round_up start object.alignment) object.alignment;
      inside = omega (
        arith,
        here,
        end_position-ge objects (round_up start object.alignment + object.size) all,
      );
      before = first_before here;
    }
  where
    some_eq : {a b : ℕ} → some a ≡ some b → a ≡ b
    some_eq e = ground arith

    first_before :
        round_up start object.alignment ≡ position
        → (j later : ℕ) → 0 < j
        → position_from start (object ∷ objects) j ≡ some later
        → position + object.size ≤ later
    first_before here zero later lt at = elim lt [ ]
    first_before here (suc j) later lt at = omega (
      arith,
      here,
      position_from-ge objects (round_up start object.alignment + object.size) j later all at,
    )
place (object ∷ objects) start (suc i) position (and_object pos all) e =
    let rest = place objects (round_up start object.alignment + object.size) i position all e in
    record { aligned = rest.aligned; inside = rest.inside; before = later_before rest }
  where
    later_before :
        IsPlaced objects (round_up start object.alignment + object.size) i position
        → (j later : ℕ) → suc i < j
        → position_from start (object ∷ objects) j ≡ some later
        → position + (object_at objects i).size ≤ later
    later_before rest zero later lt at = elim lt [ ]
    later_before rest (suc j) later lt at = rest.before j later (omega arith) at

objects-AllAligned : (p : Param) → AllAligned (objects p)
objects-AllAligned p =
    let sector : 0 < get_sector_size p = pow_pos p.sector_bits in
    let cluster : 0 < get_cluster_size p =
      grind (arith, pow_pos p.sector_bits, pow_pos p.spc_bits) in
    and_object sector (
      and_object sector (
        and_object (omega arith)
          (and_object cluster (and_object cluster (and_object cluster no_objects)))))

-- When check_size accepts a volume, each of the six objects has a position, which is a multiple of its
-- alignment; it ends inside the volume, and before any later object begins.
pub objects-IsPlaced :
    (p : Param) (i : ℕ)
    → check_size p ≡ true
    → i < 6
    → (position : ℕ) × (position_from 0 (objects p) i ≡ some position)
      × (position % (object_at (objects p) i).alignment ≡ 0)
      × (position + (object_at (objects p) i).size ≤ p.volume_size)
      × ((j later : ℕ)
          → i < j
          → position_from 0 (objects p) j ≡ some later
          → position + (object_at (objects p) i).size ≤ later)
unfolding check_size position_from
objects-IsPlaced p i fits lt =
    let (position, e) = found (objects p) 0 i lt in
    let placed = place (objects p) 0 i position (objects-AllAligned p) e in
    let room : end_position 0 (objects p) ≤ p.volume_size = ground (arith, fits) in
    (position, e, placed.aligned, omega (arith, placed.inside), placed.before)
  where
    found :
        (objects : List FsObject) (start i : ℕ)
        → i < length objects
        → (position : ℕ) × (position_from start objects i ≡ some position)
    found [] start i lt = elim lt [ ]
    found (object ∷ objects) start zero lt = (round_up start object.alignment, refl)
    found (object ∷ objects) start (suc i) lt = found objects _ i (omega arith)
