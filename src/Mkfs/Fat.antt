-- ===== src/Mkfs/Fat.antt =====
-- The table that `fat_write` fills, against the places of the objects in the heap.
use exfat.Prelude.{
  ℕ, zero, suc, ◌+◌, ◌-◌, ◌*◌, ◌/◌, ◌<◌, ◌≡◌, refl, ap, sym, subst, ◌∙◌, arith, List, [], ◌∷◌, ◌++◌,
  get_or, length, length-append, if◌then◌else◌, ◌==◌,
}
use exfat.Bitmap.{div_round_up, cluster_end}
use exfat.Mkfs.{
  Param, get_cluster_size, cbm, heap_position, uct_position, rootdir_position, cluster_at, fat_run,
  fat_write_entries, fat_write, allocated_clusters,
}
use exfat.Mkfs.Rounding.{div_round_up-le, div_round_up-mul, div_round_up-add_mul}
use exfat.Mkfs.Heap.{cs_pos, before_heap, heap_position-before_heap}
use native.Mathlib.Nat.{mul-div_left}

-- A chain of `n` clusters side by side, from `first` on, ends with the mark of the end.
abbrev pub IsRun : List ℕ → ℕ → ℕ → Type 0
IsRun table first n =
    (i : ℕ)
    → i < n
    → get_or table (first + i) 0 ≡ (if i + 1 == n then cluster_end else first + i + 1)

length-fat_run : (n first : ℕ) → length (fat_run n first) ≡ n + 1
unfolding fat_run
length-fat_run zero first = omega arith
length-fat_run (suc n) first = omega (arith, length-fat_run n (first + 1))

get_or-fat_run :
    (n first i : ℕ)
    → i < n + 1
    → get_or (fat_run n first) i 0 ≡ (if i == n then cluster_end else first + i + 1)
unfolding fat_run
get_or-fat_run zero first zero lt = refl
get_or-fat_run zero first (suc i) lt = ground arith
get_or-fat_run (suc n) first zero lt = ground arith
get_or-fat_run (suc n) first (suc i) lt =
    ground (arith, get_or-fat_run n (first + 1) i (omega arith))

get_or-append_left :
    (xs ys : List ℕ) (i : ℕ) → i < length xs → get_or (xs ++ ys) i 0 ≡ get_or xs i 0
get_or-append_left [] ys i lt = elim lt [ ]
get_or-append_left (x ∷ xs) ys zero lt = refl
get_or-append_left (x ∷ xs) ys (suc i) lt = get_or-append_left xs ys i (omega arith)

get_or-append_right :
    (xs ys : List ℕ) (i j : ℕ) → j ≡ length xs + i → get_or (xs ++ ys) j 0 ≡ get_or ys i 0
get_or-append_right [] ys i j e = ap (λ k. get_or ys k 0) (omega (arith, e))
get_or-append_right (x ∷ xs) ys i zero e = ground arith
get_or-append_right (x ∷ xs) ys i (suc j) e = get_or-append_right xs ys i j (omega (arith, e))

-- A run that stands in the table at its own place, before other entries.
IsRun-at :
    (before after : List ℕ) (n first : ℕ)
    → length before ≡ first
    → IsRun (before ++ (fat_run n first ++ after)) first (n + 1)
IsRun-at before after n first e i lt =
    get_or-append_right before (fat_run n first ++ after) i (first + i) (omega (arith, e))
    ∙ get_or-append_left (fat_run n first) after i (omega (arith, length-fat_run n first))
    ∙ get_or-fat_run n first i lt
    ∙ ground arith

-- The last run of the table.
last-IsRun_at :
    (before middle : List ℕ) (n first : ℕ)
    → length before + length middle ≡ first
    → IsRun (before ++ (middle ++ fat_run n first)) first (n + 1)
last-IsRun_at before middle n first e i lt =
    get_or-append_right before (middle ++ fat_run n first) (length middle + i) (first + i)
      (omega (arith, e))
    ∙ get_or-append_right middle (fat_run n first) i (length middle + i) refl
    ∙ get_or-fat_run n first i lt
    ∙ ground arith

-- The clusters of an object of some size.
abbrev pub clusters_of : Param → ℕ → ℕ
clusters_of p size = div_round_up size (get_cluster_size p)

module _ (p : Param) where
  clusters_pos : (size : ℕ) → 0 < size → 0 < clusters_of p size
  clusters_pos size pos = go (clusters_of p size) refl
    where
      go : (k : ℕ) → clusters_of p size ≡ k → 0 < clusters_of p size
      go zero e = ground (arith, e, pos, (div_round_up-le size (get_cluster_size p) 0 (cs_pos p)).0)
      go (suc k) e = omega (arith, e)

  abbrev cs : ℕ
  cs = get_cluster_size p

  -- Rounding up in the heap.
  rounded :
      (n size : ℕ)
      → div_round_up (heap_position p + n * cs + size) cs ≡ before_heap p + n + clusters_of p size
  rounded n size =
      let sum : (before_heap p + n) * cs ≡ before_heap p * cs + n * cs = grind arith in
      ap (λ (t : ℕ). div_round_up t cs) (omega (arith, sum, heap_position-before_heap p))
      ∙ div_round_up-add_mul (before_heap p + n) size cs (cs_pos p)

  -- The position of cluster `n` of the heap gives it back.
  cluster_at-mul : (n : ℕ) → cluster_at p ((before_heap p + n) * cs) ≡ n + 2
  cluster_at-mul n =
      let sum : (before_heap p + n) * cs ≡ before_heap p * cs + n * cs = grind arith in
      ap (λ (t : ℕ). t / cs + 2) (omega (arith, sum, heap_position-before_heap p))
      ∙ ap (λ (t : ℕ). t + 2) (mul-div_left n (cs_pos p))

  uct_clusters :
      div_round_up (heap_position p + (cbm p).size) cs ≡ before_heap p + clusters_of p (cbm p).size
  uct_clusters =
      ap (λ (t : ℕ). div_round_up t cs) (omega arith) ∙ rounded 0 (cbm p).size ∙ omega arith

  rootdir_clusters :
      div_round_up (uct_position p + p.upcase_size) cs
      ≡ before_heap p + clusters_of p (cbm p).size + clusters_of p p.upcase_size
  rootdir_clusters =
      let sum : (before_heap p + clusters_of p (cbm p).size) * cs
          ≡ before_heap p * cs + clusters_of p (cbm p).size * cs =
        grind arith in
      ap (λ (t : ℕ). div_round_up (t * cs + p.upcase_size) cs) uct_clusters
      ∙ ap (λ (t : ℕ). div_round_up t cs) (omega (arith, sum, heap_position-before_heap p))
      ∙ rounded (clusters_of p (cbm p).size) p.upcase_size

-- What the table says of the three objects of the heap.
pub record IsTable (p : Param) (table : List ℕ) : Type 0 where
  pub cbm_run : IsRun table 2 (clusters_of p (cbm p).size)
  pub uct_run : IsRun table (cluster_at p (uct_position p)) (clusters_of p p.upcase_size)
  pub rootdir_run : IsRun table (cluster_at p (rootdir_position p)) 1
  pub size : length table ≡ 2 + allocated_clusters p

-- When the bitmap and the upper case table are not empty, the table that fat_write writes has the
-- chain of the bitmap from cluster 2, and the chains of the upper case table and of the root directory
-- from the clusters at which the layout places them, each as long as its object and closed by the
-- end mark; its length is two more than the number of clusters that cbm_write marks.
pub fat_write-IsTable : (p : Param) → 0 < (cbm p).size → 0 < p.upcase_size → IsTable p (fat_write p)
unfolding fat_write fat_write_entries
fat_write-IsTable p cbm_some uct_some =
    let n1 = clusters_of p (cbm p).size in
    let n2 = clusters_of p p.upcase_size in
    let one1 = clusters_pos p (cbm p).size cbm_some in
    let one2 = clusters_pos p p.upcase_size uct_some in
    let head : List ℕ = 0xfffffff8 ∷ 0xffffffff ∷ [] in
    let run1 = fat_run (n1 - 1) 2 in
    let second = 2 + (n1 - 1) + 1 in
    let run2 = fat_run (n2 - 1) second in
    let third = second + (n2 - 1) + 1 in
    let n3 : clusters_of p (get_cluster_size p) ≡ 1 =
      ap (λ (t : ℕ). clusters_of p t) (omega arith)
      ∙ div_round_up-mul 1 (get_cluster_size p) (cs_pos p) in
    let run3 = fat_run (clusters_of p (get_cluster_size p) - 1) third in
    let uct_at : cluster_at p (uct_position p) ≡ second =
      ap (λ (t : ℕ). cluster_at p (t * get_cluster_size p)) (uct_clusters p)
      ∙ cluster_at-mul p n1
      ∙ omega (arith, one1) in
    let rootdir_at : cluster_at p (rootdir_position p) ≡ third =
      ap (λ (t : ℕ). cluster_at p (t * get_cluster_size p)) (rootdir_clusters p ∙ omega arith)
      ∙ cluster_at-mul p (n1 + n2)
      ∙ omega (arith, one1, one2) in
    record {
      cbm_run =
          subst (IsRun (fat_write p) 2) (omega (arith, one1))
            (IsRun-at head (run2 ++ run3) (n1 - 1) 2 refl);
      uct_run =
          subst (λ c. IsRun (fat_write p) c n2) (sym uct_at)
            (subst (IsRun (fat_write p) second) (omega (arith, one2)) (
              IsRun-at (0xfffffff8 ∷ 0xffffffff ∷ run1) run3 (n2 - 1) second
                (omega (arith, length-fat_run (n1 - 1) 2))));
      rootdir_run =
          subst (λ c. IsRun (fat_write p) c 1) (sym rootdir_at)
            (subst (IsRun (fat_write p) third) (omega (arith, n3)) (
              last-IsRun_at (0xfffffff8 ∷ 0xffffffff ∷ run1) run2
                (clusters_of p (get_cluster_size p) - 1) third
                (omega (arith, length-fat_run (n1 - 1) 2, length-fat_run (n2 - 1) second))));
      size = omega (
        arith,
        n3,
        one1,
        one2,
        length-append run1 (run2 ++ run3),
        length-append run2 run3,
        length-fat_run (n1 - 1) 2,
        length-fat_run (n2 - 1) second,
        length-fat_run (clusters_of p (get_cluster_size p) - 1) third,
      );
    }
