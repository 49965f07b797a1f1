-- ===== src/Mkfs/Heap.antt =====
-- The fields of the super block, against the places of the objects.
use exfat.Prelude.{
  ℕ, zero, suc, ◌+◌, ◌-◌, ◌*◌, ◌/◌, ◌^◌, ◌≤◌, ◌<◌, ◌≡◌, ap, sym, ◌∙◌, arith, [], ◌∷◌,
}
use exfat.Bitmap.{round_up, div_round_up, u32}
use exfat.Mkfs.{
  Param, Geometry, end_position, get_cluster_size, get_sector_size, vbr, fat, heap_position,
  init_sb,
}
use exfat.Mkfs.Rounding.{
  round_up-le, div_round_up-le, div_round_up-mul, div_round_up-add_mul, div_round_up-div_round_up,
}
use exfat.Prelude.Bits.{pow_pos}
use native.Mathlib.Nat.{mul-div_left, le-div_iff_mul-le, div-mul-le_self}

module _ (p : Param) where
  abbrev ss : ℕ
  ss = get_sector_size p

  abbrev sp : ℕ
  sp = 2 ^ p.spc_bits

  abbrev clusters_max : ℕ
  clusters_max = p.volume_size / get_cluster_size p

  -- Clusters before the heap.
  abbrev pub before_heap : ℕ
  before_heap = div_round_up (128 + div_round_up (clusters_max * 4) ss) sp

  ss_pos : 0 < ss
  ss_pos = pow_pos p.sector_bits

  sp_pos : 0 < sp
  sp_pos = pow_pos p.spc_bits

  pub cs_pos : 0 < get_cluster_size p
  cs_pos = grind (arith, ss_pos, sp_pos)

  -- Two boot regions come before the table, which ends `4` bytes a cluster later.
  fat_end : end_position 0 (vbr p ∷ vbr p ∷ fat p ∷ []) ≡ 128 * ss + clusters_max * 4
  unfolding end_position
  fat_end =
      let none_yet : div_round_up 0 ss ≡ 0 =
        ap (λ (t : ℕ). div_round_up t ss) (omega arith) ∙ div_round_up-mul 0 ss ss_pos in
      let first : round_up 0 ss + 12 * ss ≡ 12 * ss =
        ap (λ (t : ℕ). t * ss + 12 * ss) none_yet ∙ omega arith in
      let second : round_up (12 * ss) ss ≡ 12 * ss =
        ap (λ (t : ℕ). t * ss) (div_round_up-mul 12 ss ss_pos) in
      let boots : round_up (round_up 0 ss + 12 * ss) ss + 12 * ss ≡ 24 * ss =
        ap (λ (t : ℕ). round_up t ss + 12 * ss) first ∙ omega (arith, second) in
      let at_most : div_round_up (24 * ss) (128 * ss) ≤ 1 =
        (div_round_up-le (24 * ss) (128 * ss) 1 (omega (arith, ss_pos))).1 (omega arith) in
      let at_least : 24 * ss ≤ round_up (24 * ss) (128 * ss) =
        round_up-le (24 * ss) (128 * ss) (omega (arith, ss_pos)) in
      let one : div_round_up (24 * ss) (128 * ss) ≡ 1 =
        exactly_one (div_round_up (24 * ss) (128 * ss)) at_most at_least in
      ap (λ (t : ℕ). round_up t (128 * ss) + clusters_max * 4) boots
      ∙ ap (λ (t : ℕ). t * (128 * ss) + clusters_max * 4) one
      ∙ omega arith
    where
      exactly_one : (k : ℕ) → k ≤ 1 → 24 * ss ≤ k * (128 * ss) → k ≡ 1
      exactly_one zero le ge = omega (arith, ss_pos)
      exactly_one (suc k) le ge = omega arith

  pub heap_position-before_heap : heap_position p ≡ before_heap * get_cluster_size p
  unfolding heap_position
  heap_position-before_heap =
      let sectors : div_round_up (128 * ss + clusters_max * 4) ss
          ≡ 128 + div_round_up (clusters_max * 4) ss =
        div_round_up-add_mul 128 (clusters_max * 4) ss ss_pos in
      ap (λ (t : ℕ). round_up t (get_cluster_size p)) fat_end
      ∙ ap (λ (t : ℕ). t * get_cluster_size p)
          (sym (div_round_up-div_round_up (128 * ss + clusters_max * 4) ss sp ss_pos sp_pos cs_pos)
            ∙ ap (λ (t : ℕ). div_round_up t sp) sectors)

module _ (p : Param) (small : clusters_max p < 2 ^ 32)
    (room : heap_position p ≤ p.volume_size) where
  abbrev table_start : ℕ
  table_start = 128 * ss p / ss p

  table_start_lem : table_start ≡ 128
  table_start_lem = mul-div_left 128 (ss_pos p)

  abbrev table_sectors : ℕ → ℕ → ℕ
  table_sectors start clusters =
      round_up (start + div_round_up (clusters * 4) (ss p)) (sp p) - start

  covers : 128 + div_round_up (clusters_max p * 4) (ss p) ≤ before_heap p * sp p
  covers = round_up-le (128 + div_round_up (clusters_max p * 4) (ss p)) (sp p) (sp_pos p)

  enough : before_heap p ≤ clusters_max p
  enough = (le-div_iff_mul-le (cs_pos p)).1 (omega (arith, heap_position-before_heap p))

  heap_sector : heap_position p / ss p ≡ before_heap p * sp p
  heap_sector =
      let product : before_heap p * get_cluster_size p ≡ before_heap p * sp p * ss p =
        grind arith in
      ap (λ (t : ℕ). t / ss p) (heap_position-before_heap p ∙ product)
      ∙ mul-div_left (before_heap p * sp p) (ss_pos p)

  table_clusters : (128 + (before_heap p * sp p - 128)) / sp p ≡ before_heap p
  table_clusters =
      ap (λ (t : ℕ). t / sp p) (omega (arith, covers)) ∙ mul-div_left (before_heap p) (sp_pos p)

  -- The fields, computed.
  fields :
      ((init_sb p).fat_sector_start ≡ 128)
      × ((init_sb p).fat_sector_count ≡ before_heap p * sp p - 128)
      × ((init_sb p).cluster_sector_start ≡ before_heap p * sp p)
      × ((init_sb p).cluster_count ≡ clusters_max p - before_heap p)
  unfolding init_sb
  fields =
      let max : u32 (clusters_max p) ≡ clusters_max p = omega (arith, small) in
      let count : table_sectors table_start (u32 (clusters_max p)) ≡ before_heap p * sp p - 128 =
        ap (λ (t : ℕ). table_sectors t (u32 (clusters_max p))) table_start_lem
        ∙ ap (table_sectors 128) max in
      (
        table_start_lem,
        count,
        heap_sector,
        ap (λ (t : ℕ). t - (table_start + table_sectors table_start (u32 (clusters_max p))) / sp p)
              max
            ∙ ap
                (λ (t : ℕ).
                  clusters_max p - (t + table_sectors table_start (u32 (clusters_max p))) / sp p)
                table_start_lem
            ∙ ap (λ (t : ℕ). clusters_max p - (128 + t) / sp p) count
            ∙ ap (λ (t : ℕ). clusters_max p - t) table_clusters,
      )

  table_bytes : clusters_max p * 4 ≤ (before_heap p * sp p - 128) * ss p
  table_bytes =
      (div_round_up-le (clusters_max p * 4) (ss p) (before_heap p * sp p - 128) (ss_pos p)).0
        (omega (arith, covers))

rest_of : (a b c : ℕ) → b ≤ a → b * c + (a - b) * c ≡ a * c
rest_of a b c le =
    let sum : b + (a - b) ≡ a = omega arith in
    let parts : (b + (a - b)) * c ≡ b * c + (a - b) * c = grind arith in
    sym parts ∙ ap (λ (t : ℕ). t * c) sum

-- What `init_sb` promises about its fields.
pub record IsGeometry (p : Param) (g : Geometry) : Type 0 where
  pub heap_starts : g.cluster_sector_start * get_sector_size p ≡ heap_position p
  pub fat_ends : g.fat_sector_start + g.fat_sector_count ≡ g.cluster_sector_start
  pub fat_place : g.fat_sector_start * get_sector_size p ≡ 128 * get_sector_size p
  pub fat_covers :
      (g.cluster_count + heap_position p / get_cluster_size p) * 4
      ≤ g.fat_sector_count * get_sector_size p
  pub heap_ends :
      g.cluster_sector_start * get_sector_size p + g.cluster_count * get_cluster_size p
      ≤ p.volume_size

-- When the volume has less than 2^32 clusters and reaches beyond the start of its heap, the fields of
-- the super block say where the objects are: the FAT starts at sector 128 and ends where the heap
-- starts, the heap starts at its position, its clusters are inside the volume, and the FAT has as many
-- entries of 4 bytes, at least, as the heap has clusters and the area before the heap would fill together.
-- As numbers start at 2, each cluster has an entry when that area would fill two clusters or more.
pub init_sb-IsGeometry :
    (p : Param)
    → p.volume_size / get_cluster_size p < 2 ^ 32
    → heap_position p ≤ p.volume_size
    → IsGeometry p (init_sb p)
unfolding init_sb
init_sb-IsGeometry p small room =
    let (start, count, sector, clusters) = fields p small room in
    let heap = heap_position-before_heap p in
    let bh = before_heap p in
    let starts : (init_sb p).cluster_sector_start * ss p ≡ heap_position p =
      ap (λ (t : ℕ). t * ss p) sector ∙ grind (arith, heap) in
    let ends : (init_sb p).cluster_count * get_cluster_size p
        ≡ (clusters_max p - bh) * get_cluster_size p =
      ap (λ (t : ℕ). t * get_cluster_size p) clusters in
    let rest = rest_of (clusters_max p) bh (get_cluster_size p) (enough p small room) in
    record {
      heap_starts = starts;
      fat_ends = omega (arith, start, count, sector, covers p small room);
      fat_place = ap (λ (t : ℕ). t * ss p) start;
      fat_covers =
          let product : (init_sb p).fat_sector_count * ss p ≡ (bh * sp p - 128) * ss p =
            ap (λ (t : ℕ). t * ss p) count in
          let ahead : heap_position p / get_cluster_size p ≡ bh =
            ap (λ (t : ℕ). t / get_cluster_size p) heap ∙ mul-div_left bh (cs_pos p) in
          omega (arith, clusters, product, ahead, table_bytes p small room, enough p small room);
      heap_ends =
          omega (arith, starts, ends, rest, div-mul-le_self p.volume_size (get_cluster_size p));
    }
