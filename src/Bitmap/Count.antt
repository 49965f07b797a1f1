-- ===== src/Bitmap/Count.antt =====
-- `exfat_count_free_clusters`: counting by bytes through the nibble table agrees with counting bits.
use exfat.Prelude.{
  ℕ, zero, suc, ◌+◌, ◌-◌, ◌*◌, ◌/◌, ◌%◌, ◌^◌, ◌≤◌, ◌<◌, ◌≡◌, ◌≢◌, refl, ap, sym, ◌∙◌, ◌⊎◌, inl, inr,
  true, false, List, ◌==◌, ==_iff, if◌then◌else◌, get_or, arith,
}
use exfat.Prelude.Bits.{bit, bit-le, bit_shift, bit_mod}
use exfat.Prelude.Tables.{all_below, all_below_sound}
use exfat.Bitmap.{
  Endian, word_bytes, u32, cluster_end, bmap_get, Cmap, byte_at, byte_bits, count_bytes, count_tail,
  count_free_clusters, allocate_cluster,
}
use exfat.Bitmap.Words.{used, bit_at, used-bit_at, get-used}
use exfat.Bitmap.Allocate.{IsCmap, Taken, Exhausted, Allocation, allocate_cluster-Taken}
use native.Mathlib.Decide.{ℕ_discrete}

-- The reference: bits in use below `n`, one at a time.
unfoldable pub used_count : Endian → List ℕ → ℕ → ℕ
used_count e chunk zero = 0
used_count e chunk (suc n) = used_count e chunk n + (if used e chunk n then 1 else 0)

used_count-le : (e : Endian) (chunk : List ℕ) (n : ℕ) → used_count e chunk n ≤ n
unfolding used_count
used_count-le e chunk zero = omega arith
used_count-le e chunk (suc n) = ground (arith, used_count-le e chunk n)

-- The bits of one byte.
bits_of : ℕ → ℕ
bits_of b = bit b 0 + bit b 1 + bit b 2 + bit b 3 + bit b 4 + bit b 5 + bit b 6 + bit b 7

nibble_table : all_below 256 (λ b. byte_bits b == bits_of b) ≡ true
unfolding all_below byte_bits bits_of bit
nibble_table = refl

byte_bits-bits_of : (b : ℕ) → b < 256 → byte_bits b ≡ bits_of b
byte_bits-bits_of b h = (==_iff _ _).0 (all_below_sound 256 _ b nibble_table h)

bit_at-byte_at :
    (e : Endian) (chunk : List ℕ) (i j : ℕ)
    → j < 8
    → bit_at e chunk (8 * i + j) ≡ bit (byte_at e chunk i) j
unfolding byte_at
bit_at-byte_at Endian.little chunk i j h =
    let word : (8 * i + j) / 8 / 8 ≡ i / 8 = omega arith in
    let place : (8 * i + j) % 64 ≡ 8 * (i % 8) + j = omega arith in
    rw (word, place)
      (bit_shift _ (8 * (i % 8)) j
        ∙ sym (bit_mod 8 (get_or chunk (i / 8) 0 / 2 ^ (8 * (i % 8))) j h))
bit_at-byte_at Endian.big chunk i j h =
    let word : (8 * i + j) / 1 / 8 ≡ i / 1 = omega arith in
    let place : (8 * i + j) % 8 ≡ j = omega arith in
    let first : i % 1 ≡ 0 = omega arith in
    let whole : get_or chunk (i / 1) 0 / 1 ≡ get_or chunk (i / 1) 0 = omega arith in
    rw (word, place, first, whole) (sym (bit_mod 8 (get_or chunk (i / 1) 0) j h))

module _ (e : Endian) (chunk : List ℕ) where
  used_count-suc : (n : ℕ) → used_count e chunk (suc n) ≡ used_count e chunk n + bit_at e chunk n
  unfolding used_count
  used_count-suc n = ground (
    arith,
    used-bit_at e chunk n,
    bit-le (get_or chunk (n / word_bytes e / 8) 0) (n % (word_bytes e * 8)),
  )

  used_count_next : (n : ℕ) → used_count e chunk (n + 1) ≡ used_count e chunk n + bit_at e chunk n
  used_count_next n = let same : n + 1 ≡ suc n = omega arith in rw same (used_count-suc n)

  byte_step :
      (i j : ℕ)
      → j < 8
      → used_count e chunk (8 * i + (j + 1))
        ≡ used_count e chunk (8 * i + j) + bit (byte_at e chunk i) j
  byte_step i j h =
      let next : 8 * i + (j + 1) ≡ suc (8 * i + j) = omega arith in
      rw next (
        used_count-suc (8 * i + j)
        ∙ ap (λ t. used_count e chunk (8 * i + j) + t) (bit_at-byte_at e chunk i j h))

  used_count_byte :
      (i : ℕ)
      → used_count e chunk (8 * (i + 1))
        ≡ used_count e chunk (8 * i) + byte_bits (byte_at e chunk i)
  unfolding bits_of
  used_count_byte i =
      let first : 8 * i ≡ 8 * i + 0 = omega arith in
      let last : 8 * (i + 1) ≡ 8 * i + 8 = omega arith in
      omega (
        arith,
        ap (used_count e chunk) first,
        ap (used_count e chunk) last,
        byte_step i 0 (omega arith),
        byte_step i 1 (omega arith),
        byte_step i 2 (omega arith),
        byte_step i 3 (omega arith),
        byte_step i 4 (omega arith),
        byte_step i 5 (omega arith),
        byte_step i 6 (omega arith),
        byte_step i 7 (omega arith),
        byte_bits-bits_of (byte_at e chunk i) (unfold byte_at in omega arith),
      )

  count_bytes-used_count :
      (n i : ℕ)
      → 8 * (i + n) < 2 ^ 32
      → count_bytes e chunk n i (used_count e chunk (8 * i)) ≡ used_count e chunk (8 * (i + n))
  unfolding count_bytes
  count_bytes-used_count zero i small =
      let same : i ≡ i + 0 = omega arith in ap (λ t. used_count e chunk (8 * t)) same
  count_bytes-used_count (suc n) i small =
      let fits : u32 (used_count e chunk (8 * i) + byte_bits (byte_at e chunk i))
          ≡ used_count e chunk (8 * (i + 1)) =
        omega (arith, used_count_byte i, used_count-le e chunk (8 * (i + 1))) in
      let next : i + suc n ≡ i + 1 + n = omega arith in
      rw (fits, next) (count_bytes-used_count n (i + 1) (omega arith))

  count_tail-used_count :
      (n i : ℕ)
      → i + n < 2 ^ 32
      → count_tail e chunk n i (used_count e chunk i) ≡ used_count e chunk (i + n)
  unfolding count_tail
  count_tail-used_count zero i small =
      let same : i ≡ i + 0 = omega arith in ap (used_count e chunk) same
  count_tail-used_count (suc n) i small =
      let fits : (if bmap_get e chunk i == 0
            then used_count e chunk i
            else u32 (used_count e chunk i + 1))
          ≡ used_count e chunk (i + 1) =
        ground (
          arith,
          used_count_next i,
          used-bit_at e chunk i,
          get-used e chunk i,
          used_count-le e chunk i,
          bit-le (get_or chunk (i / word_bytes e / 8) 0) (i % (word_bytes e * 8)),
        ) in
      let next : i + suc n ≡ i + 1 + n = omega arith in
      rw (fits, next) (count_tail-used_count n (i + 1) (omega arith))

-- For a map of less than 2^32 clusters, the free clusters that are counted by bytes and trailing bits,
-- and the bits in use that are counted one at a time, add up to the size of the map.
pub count_free_clusters-used_count :
    (e : Endian) (m : Cmap)
    → m.size < 2 ^ 32
    → count_free_clusters e m + used_count e m.chunk m.size ≡ m.size
unfolding count_free_clusters used_count
count_free_clusters-used_count e m small =
    let whole = m.size / 8 in
    let tail = m.size - whole * 8 in
    let zero_bits : used_count e m.chunk (8 * 0) ≡ 0 = refl in
    let at_bytes : count_bytes e m.chunk whole 0 0 ≡ used_count e m.chunk (whole * 8) =
      count_bytes-used_count e m.chunk whole 0 (omega arith)
      ∙ ap (used_count e m.chunk) (omega arith) in
    let at_tail : count_tail e m.chunk tail (whole * 8) (used_count e m.chunk (whole * 8))
        ≡ used_count e m.chunk m.size =
      count_tail-used_count e m.chunk tail (whole * 8) (omega arith)
      ∙ ap (used_count e m.chunk) (omega arith) in
    rw (at_bytes, at_tail) (omega (arith, used_count-le e m.chunk m.size))

used_count_same :
    (e : Endian) (chunk chunk' : List ℕ) (n : ℕ)
    → ((d : ℕ) → d < n → used e chunk' d ≡ used e chunk d)
    → used_count e chunk' n ≡ used_count e chunk n
unfolding used_count
used_count_same e chunk chunk' zero same = refl
used_count_same e chunk chunk' (suc n) same =
    rw (used_count_same e chunk chunk' n (λ d h. same d (omega arith)), same n (omega arith))

-- One more bit in use, one more counted.
used_count_more :
    (e : Endian) (chunk chunk' : List ℕ) (c n : ℕ)
    → c < n
    → used e chunk c ≡ false
    → ((d : ℕ) → used e chunk' d ≡ (if c == d then true else used e chunk d))
    → used_count e chunk' n ≡ used_count e chunk n + 1
unfolding used_count
used_count_more e chunk chunk' c zero h free now = elim h [ ]
used_count_more e chunk chunk' c (suc n) h free now = elim (ℕ_discrete c n) [
  | yes p ↦ ground (
    arith,
    now n,
    ap (used e chunk) p,
    used_count_same e chunk chunk' n (λ d lt. ground (arith, now d)),
  )
  | no p ↦ ground (arith, now n, used_count_more e chunk chunk' c n (omega arith) free now)
]

used_count_all :
    (e : Endian) (chunk : List ℕ) (n : ℕ)
    → ((d : ℕ) → d < n → used e chunk d ≡ true)
    → used_count e chunk n ≡ n
unfolding used_count
used_count_all e chunk zero all = refl
used_count_all e chunk (suc n) all =
    rw (used_count_all e chunk n (λ d h. all d (omega arith)), all n (omega arith)) (omega arith)

Taken-used_count :
    (e : Endian) (m m' : Cmap) (cluster : ℕ)
    → Taken e m cluster m'
    → used_count e m'.chunk m.size ≡ used_count e m.chunk m.size + 1
Taken-used_count e m m' cluster t =
    used_count_more e m.chunk m'.chunk (cluster - 2) m.size (omega (arith, t.lowest, t.highest))
      t.was_free
      λ d.
        let same : d + 2 - 2 ≡ d = omega arith in
        ground (arith, t.now (d + 2), t.lowest, ap (used e m'.chunk) same, ap (used e m.chunk) same)

Exhausted-used_count :
    (e : Endian) (m m' : Cmap) (cluster : ℕ)
    → Exhausted e m cluster m'
    → used_count e m.chunk m.size ≡ m.size
Exhausted-used_count e m m' cluster x = used_count_all e m.chunk m.size λ d h.
    let same : d ≡ d + 2 - 2 = omega arith in
    ap (used e m.chunk) same ∙ x.full (d + 2) (omega arith) (omega arith)

-- On a valid map, an allocation that gives a cluster takes one from the number of free clusters; one
-- that gives none finds that number 0 and leaves the map as it was.
pub count_free_clusters-allocate_cluster :
    (e : Endian) (m : Cmap) (hint : ℕ)
    → IsCmap e m
    → ((allocate_cluster e m hint).0 ≢ cluster_end
        × (count_free_clusters e (allocate_cluster e m hint).1 + 1 ≡ count_free_clusters e m))
      ⊎ ((allocate_cluster e m hint).0 ≡ cluster_end
          × (count_free_clusters e m ≡ 0)
          × ((allocate_cluster e m hint).1 ≡ m))
count_free_clusters-allocate_cluster e m hint valid =
    go (allocate_cluster e m hint) (allocate_cluster-Taken e m valid hint)
  where
    go :
        (r : ℕ × Cmap)
        → Allocation e m r
        → (r.0 ≢ cluster_end × (count_free_clusters e r.1 + 1 ≡ count_free_clusters e m))
          ⊎ (r.0 ≡ cluster_end × (count_free_clusters e m ≡ 0) × (r.1 ≡ m))
    go (cluster, m') (inl t) = inl (
      (λ bad. omega (arith, t.highest, valid.fits)),
      omega (
        arith,
        Taken-used_count e m m' cluster t,
        ap (used_count e m'.chunk) t.same_size,
        count_free_clusters-used_count e m (omega arith),
        count_free_clusters-used_count e m' (omega (arith, t.same_size)),
      ),
    )
    go (cluster, m') (inr x) = inr (
      x.reply,
      omega (
        arith,
        Exhausted-used_count e m m' cluster x,
        count_free_clusters-used_count e m (omega arith),
      ),
      x.same,
    )
