-- ===== src/Bitmap.antt =====
-- The clusters bitmap: the BMAP macros of libexfat/exfat.h, the two choices of `bitmap_t` in
-- libexfat/byteorder.h, and the allocation functions of libexfat/cluster.c.
pub mod Words
pub mod Search
pub mod Allocate
pub mod Count
mod Examples
use exfat.Prelude.{
  ℕ, zero, suc, ◌+◌, ◌-◌, ◌*◌, ◌/◌, ◌%◌, ◌^◌, min, max, bit_and, bit_or, Bool, true, Option, none,
  some, List, [], ◌∷◌, ◌==◌, leb, if◌then◌else◌, get_or, set,
}
use exfat.Prelude.Bits.{complement}

-- `EXFAT_BYTE_ORDER`, which chooses `bitmap_t`.
pub data Endian : Type 0 where
  little big : Endian

-- `sizeof(bitmap_t)`: `size_t` (64 bits) or `unsigned char`.
abbrev pub word_bytes : Endian → ℕ
word_bytes Endian.little = 8
word_bytes Endian.big = 1

abbrev pub div_round_up : ℕ → ℕ → ℕ
div_round_up x d = (x + d - 1) / d

abbrev pub round_up : ℕ → ℕ → ℕ
round_up x d = div_round_up x d * d

abbrev pub first_data_cluster : ℕ
first_data_cluster = 2

abbrev pub cluster_free : ℕ
cluster_free = 0

abbrev pub cluster_bad : ℕ
cluster_bad = 0xfffffff7

abbrev pub cluster_end : ℕ
cluster_end = 0xffffffff

abbrev pub u32 : ℕ → ℕ
u32 n = n % 2 ^ 32

module _ (e : Endian) where
  unfoldable pub bmap_size : ℕ → ℕ
  bmap_size count = round_up count (word_bytes e * 8) / 8

  unfoldable pub bmap_block : ℕ → ℕ
  bmap_block index = index / word_bytes e / 8

  unfoldable pub bmap_mask : ℕ → ℕ
  bmap_mask index = 2 ^ (index % (word_bytes e * 8))

  unfoldable pub bmap_get : List ℕ → ℕ → ℕ
  unfolding bmap_block bmap_mask
  bmap_get bitmap index = bit_and (get_or bitmap (bmap_block index) 0) (bmap_mask index)

  unfoldable pub bmap_set : List ℕ → ℕ → List ℕ
  unfolding bmap_block bmap_mask
  bmap_set bitmap index =
      set bitmap (bmap_block index) (bit_or (get_or bitmap (bmap_block index) 0) (bmap_mask index))

  unfoldable pub bmap_clr : List ℕ → ℕ → List ℕ
  unfolding bmap_block bmap_mask
  bmap_clr bitmap index = set bitmap (bmap_block index) (
      bit_and (get_or bitmap (bmap_block index) 0)
        (complement (word_bytes e * 8) (bmap_mask index)))

  -- The loop over the bits `c`, `c + 1`, … of one word, with `n` rounds left.
  unfoldable pub scan_bits : List ℕ → ℕ → ℕ → Option ℕ
  unfolding bmap_get
  scan_bits bitmap zero c = none
  scan_bits bitmap (suc n) c =
      let rest = scan_bits bitmap n (c + 1) in if bmap_get bitmap c == 0 then some c else rest

  -- The loop over the words `i`, `i + 1`, …; a word with every bit set is passed over.
  unfoldable pub scan_words : List ℕ → ℕ → ℕ → ℕ → ℕ → Option ℕ
  unfolding scan_bits
  scan_words bitmap start end zero i = none
  scan_words bitmap start end (suc n) i =
      let rest = scan_words bitmap start end n (i + 1) in
      let start_bitindex = max (i * word_bytes e * 8) start in
      let end_bitindex = min ((i + 1) * word_bytes e * 8) end in
      let here = scan_bits bitmap (end_bitindex - start_bitindex) start_bitindex in
      if get_or bitmap i 0 == 2 ^ (word_bytes e * 8) - 1
      then rest
      else elim here [ some c ↦ some c | none ↦ rest ]

  unfoldable pub find_bit_and_set : List ℕ → ℕ → ℕ → ℕ × List ℕ
  unfolding scan_words bmap_set
  find_bit_and_set bitmap start end =
      let start_index = start / word_bytes e / 8 in
      let end_index = div_round_up end (word_bytes e * 8) in
      elim (scan_words bitmap start end (end_index - start_index) start_index) [
        | some c ↦ (u32 (c + first_data_cluster), bmap_set bitmap c)
        | none ↦ (cluster_end, bitmap)
      ]

-- `ef->cmap`.
pub record Cmap : Type 0 where
  pub start_cluster : ℕ
  pub size : ℕ
  pub chunk : List ℕ
  pub chunk_size : ℕ
  pub dirty : Bool

module _ (e : Endian) where
  allocated : Cmap → ℕ × List ℕ → ℕ × Cmap
  allocated cmap (cluster, chunk) =
      if cluster == cluster_end
      then (cluster_end, cmap)
      else (cluster, record cmap { chunk = chunk; dirty = true })

  second_try : Cmap → ℕ → ℕ × List ℕ → ℕ × List ℕ
  unfolding find_bit_and_set
  second_try cmap hint (cluster, chunk) =
      if cluster == cluster_end then find_bit_and_set e chunk 0 hint else (cluster, chunk)

  abbrev wrapped_hint : Cmap → ℕ → ℕ
  wrapped_hint cmap hint =
      let hint' = u32 (hint + 2 ^ 32 - first_data_cluster) in
      if leb cmap.chunk_size hint' then 0 else hint'

  unfoldable pub allocate_cluster : Cmap → ℕ → ℕ × Cmap
  unfolding allocated second_try find_bit_and_set
  allocate_cluster cmap hint =
      let from = wrapped_hint cmap hint in
      allocated cmap (second_try cmap from (find_bit_and_set e cmap.chunk from cmap.chunk_size))

  -- `none` is `exfat_bug`, which aborts.
  unfoldable pub free_cluster : Cmap → ℕ → Option Cmap
  unfolding bmap_clr
  free_cluster cmap cluster =
      let index = u32 (cluster + 2 ^ 32 - first_data_cluster) in
      if leb cmap.size index
      then none
      else some (record cmap { chunk = bmap_clr e cmap.chunk index; dirty = true })

abbrev nibble_bits : List ℕ
nibble_bits = 0 ∷ 1 ∷ 1 ∷ 2 ∷ 1 ∷ 2 ∷ 2 ∷ 3 ∷ 1 ∷ 2 ∷ 2 ∷ 3 ∷ 2 ∷ 3 ∷ 3 ∷ 4 ∷ []

unfoldable pub byte_bits : ℕ → ℕ
byte_bits b = get_or nibble_bits (bit_and b 0xf) 0 + get_or nibble_bits (b / 2 ^ 4) 0

module _ (e : Endian) where
  -- `((const uint8_t*) chunk)[i]`, by the byte order.
  unfoldable pub byte_at : List ℕ → ℕ → ℕ
  byte_at chunk i = get_or chunk (i / word_bytes e) 0 / 2 ^ (8 * (i % word_bytes e)) % 256

  count_bytes : List ℕ → ℕ → ℕ → ℕ → ℕ
  unfolding byte_at byte_bits
  count_bytes chunk zero i used = used
  count_bytes chunk (suc n) i used =
      count_bytes chunk n (i + 1) (u32 (used + byte_bits (byte_at chunk i)))

  count_tail : List ℕ → ℕ → ℕ → ℕ → ℕ
  unfolding bmap_get
  count_tail chunk zero i used = used
  count_tail chunk (suc n) i used =
      count_tail chunk n (i + 1) (if bmap_get e chunk i == 0 then used else u32 (used + 1))

  unfoldable pub count_free_clusters : Cmap → ℕ
  unfolding count_bytes count_tail
  count_free_clusters cmap =
      let whole = cmap.size / 8 in
      let used = count_bytes cmap.chunk whole 0 0 in
      u32 (cmap.size + 2 ^ 32 - count_tail cmap.chunk (cmap.size - whole * 8) (whole * 8) used)
