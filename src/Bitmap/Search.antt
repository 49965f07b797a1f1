-- ===== src/Bitmap/Search.antt =====
-- `find_bit_and_set` against its reading: the first free bit of a range.
use exfat.Prelude.{
  ℕ, zero, suc, ◌+◌, ◌-◌, ◌*◌, ◌/◌, ◌^◌, ◌≤◌, ◌<◌, min, max, ◌≡◌, refl, ap, ◌⊎◌, inl, inr, true,
  false, Option, none, some, List, ◌==◌, get_or, Bool-cases, arith,
}
use exfat.Bitmap.{
  Endian, word_bytes, div_round_up, u32, cluster_end, first_data_cluster, bmap_get, bmap_set,
  scan_bits, scan_words, find_bit_and_set,
}
use exfat.Bitmap.Words.{used, get-used, full_word}

abbrev pub AllUsed : Endian → List ℕ → ℕ → ℕ → Type 0
AllUsed e bitmap lo hi = (j : ℕ) → lo ≤ j → j < hi → used e bitmap j ≡ true

pub record FirstFree (e : Endian) (bitmap : List ℕ) (lo hi c : ℕ) : Type 0 where
  pub at_least : lo ≤ c
  pub below : c < hi
  pub free : used e bitmap c ≡ false
  pub before : AllUsed e bitmap lo c

abbrev pub Found : Endian → List ℕ → ℕ → ℕ → Option ℕ → Type 0
Found e bitmap lo hi none = AllUsed e bitmap lo hi
Found e bitmap lo hi (some c) = FirstFree e bitmap lo hi c

module _ (e : Endian) (bitmap : List ℕ) where
  -- A range is searched by parts: what is not in the first part is in the second.
  Found-append :
      (lo mid lo' hi : ℕ) (r : Option ℕ)
      → AllUsed e bitmap lo mid
      → lo ≤ lo'
      → ((j : ℕ) → lo ≤ j → j < hi → (j < mid) ⊎ (lo' ≤ j))
      → Found e bitmap lo' hi r
      → Found e bitmap lo hi r
  Found-append lo mid lo' hi none first le cover rest = λ j p q. pick j p q (cover j p q)
    where
      pick : (j : ℕ) → lo ≤ j → j < hi → (j < mid) ⊎ (lo' ≤ j) → used e bitmap j ≡ true
      pick j p q (inl a) = first j p a
      pick j p q (inr b) = rest j b q
  Found-append lo mid lo' hi (some c) first le cover rest = record {
    at_least = omega arith;
    below = rest.below;
    free = rest.free;
    before = λ j p q. pick j p q (cover j p (omega (arith, rest.below)));
  }
    where
      pick : (j : ℕ) → lo ≤ j → j < c → (j < mid) ⊎ (lo' ≤ j) → used e bitmap j ≡ true
      pick j p q (inl a) = first j p a
      pick j p q (inr b) = rest.before j b q

  Found-widen :
      (lo hi hi' c : ℕ) → c < hi' → FirstFree e bitmap lo hi c → FirstFree e bitmap lo hi' c
  Found-widen lo hi hi' c lt f = record {
    at_least = f.at_least;
    below = lt;
    free = f.free;
    before = f.before;
  }

  scan_bits-Found : (n c hi : ℕ) → c + n ≡ hi → Found e bitmap c hi (scan_bits e bitmap n c)
  unfolding scan_bits
  scan_bits-Found zero c hi at = λ j p q. absurd (omega arith)
  scan_bits-Found (suc n) c hi at = elim (Bool-cases (bmap_get e bitmap c == 0)) [
    | inl free ↦ rw free (record {
      at_least = omega arith;
      below = omega arith;
      free = ground (arith, get-used e bitmap c);
      before = λ j p q. absurd (omega arith);
    })
    | inr taken ↦ rw taken (
        Found-append c (c + 1) (c + 1) hi _
          (λ j p q. let same : j ≡ c = omega arith in rw same (ground (arith, get-used e bitmap c)))
          (omega arith) (λ j p q. omega arith) (scan_bits-Found n (c + 1) hi (omega arith)))
  ]

  word_of :
      (i c : ℕ)
      → i * word_bytes e * 8 ≤ c
      → c < (i + 1) * word_bytes e * 8
      → c / word_bytes e / 8 ≡ i
  word_of i c p q = at e p q
    where
      at :
          (e : Endian)
          → i * word_bytes e * 8 ≤ c
          → c < (i + 1) * word_bytes e * 8
          → c / word_bytes e / 8 ≡ i
      at Endian.little p q = omega arith
      at Endian.big p q = omega arith

  next_word : (i : ℕ) → i * word_bytes e * 8 ≤ (i + 1) * word_bytes e * 8
  next_word i = at e
    where
      at : (e : Endian) → i * word_bytes e * 8 ≤ (i + 1) * word_bytes e * 8
      at Endian.little = omega arith
      at Endian.big = omega arith

  module _ (start end : ℕ) where
    abbrev from_word : ℕ → ℕ
    from_word i = max (i * word_bytes e * 8) start

    scan_words-Found :
        (n i : ℕ)
        → end ≤ (i + n) * word_bytes e * 8
        → Found e bitmap (from_word i) end (scan_words e bitmap start end n i)
    unfolding scan_words
    scan_words-Found zero i last =
        let same : i + 0 ≡ i = omega arith in
        λ j p q. absurd (omega (arith, ap (λ (t : ℕ). t * word_bytes e * 8) same))
    scan_words-Found (suc n) i last =
        let lo = from_word i in
        let hi = min ((i + 1) * word_bytes e * 8) end in
        let shift : i + 1 + n ≡ i + suc n = omega arith in
        let rest = scan_words-Found n (i + 1) (rw shift last) in
        let append : AllUsed e bitmap lo hi
            → Found e bitmap lo end (scan_words e bitmap start end n (i + 1)) =
          λ first.
            Found-append lo hi (from_word (i + 1)) end (scan_words e bitmap start end n (i + 1))
              first (omega (arith, next_word i)) (λ j p q. omega arith) rest in
        let here = scan_bits e bitmap (hi - lo) lo in
        elim (Bool-cases (get_or bitmap i 0 == 2 ^ (word_bytes e * 8) - 1)) [
          | inl full ↦ rw full (
              append λ j p q.
                full_word e bitmap i j (ground arith) (word_of i j (omega arith) (omega arith)))
          | inr other ↦ rw other (branch here (scan_bits-Found (hi - lo) lo _ refl) append)
        ]
      where
        branch :
            (here : Option ℕ)
            → Found e bitmap
                (from_word i)
                (from_word i + (min ((i + 1) * word_bytes e * 8) end - from_word i))
                here
            → (AllUsed e bitmap (from_word i) (min ((i + 1) * word_bytes e * 8) end)
                → Found e bitmap (from_word i) end (scan_words e bitmap start end n (i + 1)))
            → Found e bitmap
                (from_word i)
                end
                (elim here [ some c ↦ some c | none ↦ scan_words e bitmap start end n (i + 1) ])
        branch none all append = append λ j p q. all j p (omega arith)
        branch (some c) first append =
            Found-widen (from_word i) _ end c (omega (arith, first.at_least, first.below)) first

-- What `find_bit_and_set` returns: the first free bit, taken, or the end mark.
abbrev pub Outcome : Endian → List ℕ → ℕ → ℕ → ℕ × List ℕ → Type 0
Outcome e bitmap start end (cluster, bitmap') =
    ((c : ℕ) × FirstFree e bitmap start end c
      × (cluster ≡ u32 (c + first_data_cluster))
      × (bitmap' ≡ bmap_set e bitmap c))
    ⊎ (AllUsed e bitmap start end × (cluster ≡ cluster_end) × (bitmap' ≡ bitmap))

module _ (e : Endian) (bitmap : List ℕ) (start end : ℕ) where
  abbrev first_word : ℕ
  first_word = start / word_bytes e / 8

  abbrev words : ℕ
  words = div_round_up end (word_bytes e * 8) - first_word

  starts : from_word e bitmap start end first_word ≡ start
  starts = at e
    where
      at : (e : Endian) → max (start / word_bytes e / 8 * word_bytes e * 8) start ≡ start
      at Endian.little = omega arith
      at Endian.big = omega arith

  reaches : end ≤ (first_word + words) * word_bytes e * 8
  reaches = at e
    where
      at :
          (e : Endian)
          → end
            ≤ (start / word_bytes e / 8
                + (div_round_up end (word_bytes e * 8) - start / word_bytes e / 8))
              * word_bytes e
              * 8
      at Endian.little = omega arith
      at Endian.big = omega arith

  scanned : Found e bitmap start end (scan_words e bitmap start end words first_word)
  scanned = rw starts at (scan_words-Found e bitmap start end words first_word reaches)

  -- The search of a range finds its first free bit, sets that bit and returns its cluster, or returns
  -- the end mark and the bitmap as it was when every bit of the range is set.
  pub find_bit_and_set-Outcome : Outcome e bitmap start end (find_bit_and_set e bitmap start end)
  unfolding find_bit_and_set
  find_bit_and_set-Outcome = report (scan_words e bitmap start end words first_word) scanned
    where
      report :
          (r : Option ℕ)
          → Found e bitmap start end r
          → Outcome e bitmap start end (elim r [
            | some c ↦ (u32 (c + first_data_cluster), bmap_set e bitmap c)
            | none ↦ (cluster_end, bitmap)
          ])
      report none all = inr (all, refl, refl)
      report (some c) first = inl (c, first, refl, refl)
