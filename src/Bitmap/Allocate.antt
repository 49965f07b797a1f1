-- ===== src/Bitmap/Allocate.antt =====
-- `allocate_cluster` and `free_cluster` on the clusters map.
use exfat.Prelude.{
  ℕ, ◌+◌, ◌-◌, ◌*◌, ◌^◌, ◌≤◌, ◌<◌, ◌≡◌, refl, ◌⊎◌, inl, inr, Bool, true, false, some, List, ◌==◌,
  leb, if◌then◌else◌, length, length-set, arith,
}
use native.Mathlib.Decide.{dec_lt}
use exfat.Bitmap.{
  Endian, word_bytes, u32, cluster_end, first_data_cluster, bmap_set, bmap_clr, Cmap,
  find_bit_and_set, wrapped_hint, second_try, allocated, allocate_cluster, free_cluster,
}
use exfat.Bitmap.Words.{used, used-set, used-clr, inside-lt}
use exfat.Bitmap.Search.{AllUsed, Outcome, find_bit_and_set-Outcome}

-- The chunk covers the whole map, and no cluster number reaches the reserved ones.
pub record IsCmap (e : Endian) (m : Cmap) : Type 0 where
  pub covers : m.chunk_size ≤ word_bytes e * 8 * length m.chunk
  pub whole : m.chunk_size ≡ m.size
  pub fits : m.size + first_data_cluster ≤ 0xfffffff7

-- Whether a cluster, by its number, is in use.
abbrev pub in_use : Endian → Cmap → ℕ → Bool
in_use e m cluster = used e m.chunk (cluster - first_data_cluster)

-- A cluster that was free is taken, and nothing else changes.
pub record Taken (e : Endian) (m : Cmap) (cluster : ℕ) (m' : Cmap) : Type 0 where
  pub lowest : first_data_cluster ≤ cluster
  pub highest : cluster < m.size + first_data_cluster
  pub was_free : in_use e m cluster ≡ false
  pub now :
      (d : ℕ)
      → first_data_cluster ≤ d
      → in_use e m' d ≡ (if cluster == d then true else in_use e m d)
  pub dirty : m'.dirty ≡ true
  pub start_cluster : m'.start_cluster ≡ m.start_cluster
  pub valid : IsCmap e m'
  pub same_size : m'.size ≡ m.size

-- Every cluster is in use, and nothing changes.
pub record Exhausted (e : Endian) (m : Cmap) (cluster : ℕ) (m' : Cmap) : Type 0 where
  pub full :
      (d : ℕ) → first_data_cluster ≤ d → d < m.size + first_data_cluster → in_use e m d ≡ true
  pub reply : cluster ≡ cluster_end
  pub same : m' ≡ m

-- The two outcomes of an allocation.
abbrev pub Allocation : Endian → Cmap → ℕ × Cmap → Type 0
Allocation e m (cluster, m') = Taken e m cluster m' ⊎ Exhausted e m cluster m'

length-bmap_set : (e : Endian) (chunk : List ℕ) (c : ℕ) → length (bmap_set e chunk c) ≡ length chunk
unfolding bmap_set
length-bmap_set e chunk c = length-set chunk _ _

length-bmap_clr : (e : Endian) (chunk : List ℕ) (c : ℕ) → length (bmap_clr e chunk c) ≡ length chunk
unfolding bmap_clr
length-bmap_clr e chunk c = length-set chunk _ _

module _ (e : Endian) (m : Cmap) (valid : IsCmap e m) where
  marked : (c : ℕ) → Cmap
  marked c = record m { chunk = bmap_set e m.chunk c; dirty = true }

  Taken-marked :
      (c : ℕ)
      → c < m.size
      → used e m.chunk c ≡ false
      → Taken e m (c + first_data_cluster) (marked c)
  unfolding marked
  Taken-marked c small free = record {
    lowest = omega arith;
    highest = omega arith;
    was_free = (let same : c + 2 - 2 ≡ c = omega arith in rw same free);
    now = λ d h. ground (
      arith,
      used-set e m.chunk c (inside-lt e m.chunk c (omega (arith, valid.covers, valid.whole)))
          (d - 2),
    );
    dirty = refl;
    start_cluster = refl;
    valid = record {
      covers = rw (length-bmap_set e m.chunk c) valid.covers;
      whole = valid.whole;
      fits = valid.fits;
    };
    same_size = refl;
  }

  settle :
      (lo hi cluster : ℕ) (chunk : List ℕ)
      → hi ≤ m.chunk_size
      → (AllUsed e m.chunk lo hi → Exhausted e m cluster_end m)
      → Outcome e m.chunk lo hi (cluster, chunk)
      → Allocation e m (allocated e m (cluster, chunk))
  unfolding allocated marked
  settle lo hi cluster chunk le full (inl (c, first, at, as_set)) =
      let small : c < m.size = omega (arith, first.below, valid.whole) in
      let number : cluster ≡ c + 2 = omega (arith, valid.fits) in
      let ne : (cluster == cluster_end) ≡ false = ground (arith, valid.fits) in
      rw (ne, as_set, number) (inl (Taken-marked c small first.free))
  settle lo hi cluster chunk le full (inr (all, at, same)) = rw at (inr (full all))

  all_used :
      (from : ℕ)
      → AllUsed e m.chunk from m.chunk_size
      → AllUsed e m.chunk 0 from
      → Exhausted e m cluster_end m
  all_used from upper lower = record {
    full = λ d lo hi. pick (d - 2) (omega (arith, valid.whole)) (dec_lt (d - 2) from);
    reply = refl;
    same = refl;
  }
    where
      pick : (j : ℕ) → j < m.chunk_size → Dec (j < from) → used e m.chunk j ≡ true
      pick j h (yes p) = lower j (omega arith) p
      pick j h (no p) = upper j (omega arith) h

  from_hint :
      (from : ℕ)
      → from ≤ m.chunk_size
      → Allocation e m
          (allocated e m (second_try e m from (find_bit_and_set e m.chunk from m.chunk_size)))
  unfolding second_try
  from_hint from le =
      go (find_bit_and_set e m.chunk from m.chunk_size)
        (find_bit_and_set-Outcome e m.chunk from m.chunk_size)
    where
      again :
          AllUsed e m.chunk from m.chunk_size
          → Allocation e m (allocated e m (find_bit_and_set e m.chunk 0 from))
      again upper =
          settle 0 from _ _ le (all_used from upper) (find_bit_and_set-Outcome e m.chunk 0 from)

      go :
          (r : ℕ × List ℕ)
          → Outcome e m.chunk from m.chunk_size r
          → Allocation e m (allocated e m (second_try e m from r))
      go (cluster, chunk) (inl (c, first, at, as_set)) =
          let ne : (cluster == cluster_end) ≡ false =
            ground (arith, valid.fits, valid.whole, first.below) in
          rw ne (
            settle from m.chunk_size cluster chunk (omega arith)
              (λ all. cc (all c first.at_least first.below, first.free))
              (inl (c, first, at, as_set)))
      go (cluster, chunk) (inr (upper, at, same)) = rw (at, same) (again upper)

  -- On a valid map and from any hint, `allocate_cluster` either takes one cluster that was free and
  -- changes nothing else in the map, or returns the end mark with the map as it was, and then every cluster is in use.
  pub allocate_cluster-Taken : (hint : ℕ) → Allocation e m (allocate_cluster e m hint)
  unfolding allocate_cluster
  allocate_cluster-Taken hint = from_hint (wrapped_hint e m hint) (ground arith)

-- Freeing a cluster of a valid map succeeds, leaves the map valid and dirty, and marks that cluster
-- free and no other.
pub free_cluster-in_use :
    (e : Endian) (m : Cmap) (cluster : ℕ)
    → IsCmap e m
    → first_data_cluster ≤ cluster
    → cluster < m.size + first_data_cluster
    → (m' : Cmap) × (free_cluster e m cluster ≡ some m')
      × IsCmap e m'
      × (m'.dirty ≡ true)
      × ((d : ℕ)
          → first_data_cluster ≤ d
          → in_use e m' d ≡ (if cluster == d then false else in_use e m d))
unfolding free_cluster
free_cluster-in_use e m cluster valid lo hi =
    let index : u32 (cluster + 2 ^ 32 - first_data_cluster) ≡ cluster - 2 =
      omega (arith, valid.fits) in
    let good : leb m.size (cluster - 2) ≡ false = ground arith in
    let in_chunk = inside-lt e m.chunk (cluster - 2) (omega (arith, valid.covers, valid.whole)) in
    (
      record m { chunk = bmap_clr e m.chunk (cluster - 2); dirty = true },
      rw (index, good),
      record {
        covers = rw (length-bmap_clr e m.chunk (cluster - 2)) valid.covers;
        whole = valid.whole;
        fits = valid.fits;
      },
      refl,
      λ d h. ground (arith, used-clr e m.chunk (cluster - 2) in_chunk (d - 2)),
    )

-- When the hint names a free cluster of a valid map, that cluster is the one that is taken.
allocate_cluster_hint :
    (e : Endian) (m : Cmap) (hint : ℕ)
    → IsCmap e m
    → first_data_cluster ≤ hint
    → hint < m.size + first_data_cluster
    → in_use e m hint ≡ false
    → (allocate_cluster e m hint).0 ≡ hint
unfolding allocate_cluster second_try allocated
allocate_cluster_hint e m hint valid lo hi free =
    let index : wrapped_hint e m hint ≡ hint - 2 = ground (arith, valid.fits, valid.whole) in
    rw index (
      go (find_bit_and_set e m.chunk (hint - 2) m.chunk_size)
        (find_bit_and_set-Outcome e m.chunk (hint - 2) m.chunk_size))
  where
    go :
        (r : ℕ × List ℕ)
        → Outcome e m.chunk (hint - 2) m.chunk_size r
        → (allocated e m (second_try e m (hint - 2) r)).0 ≡ hint
    go (cluster, chunk) (inl (c, first, at, as_set)) =
        let same : c ≡ hint - 2 = elim (dec_lt (hint - 2) c) [
          | yes p ↦ cc (first.before (hint - 2) (omega arith) p, free)
          | no p ↦ omega (arith, first.at_least)
        ] in
        let number : cluster ≡ hint = omega (arith, valid.fits) in
        let ne : (cluster == cluster_end) ≡ false = ground (arith, valid.fits) in rw (ne, ne) number
    go (cluster, chunk) (inr (all, at, same)) =
        cc (all (hint - 2) (omega arith) (omega (arith, valid.whole)), free)
