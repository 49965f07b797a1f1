-- ===== src/Checksum/Detect.antt =====
-- What the checksums detect, and what they leave out.
use exfat.Prelude.{
  ℕ, zero, suc, ◌+◌, ◌*◌, ◌/◌, ◌%◌, ◌^◌, ◌<◌, ◌≡◌, ◌≢◌, refl, ap, sym, ◌∙◌, inl, inr, Bool, true,
  false, List, [], ◌∷◌, if◌then◌else◌, get_or, set, length, arith, Bool-cases,
}
use exfat.Prelude.Fields.{bit_or_field}
use exfat.Checksum.{add_checksum_byte, add_vbr_byte, sum_bytes}

-- A step turns the sum by one bit and adds the byte.
add_checksum_byte_lem :
    (sum byte : ℕ)
    → sum < 2 ^ 16
    → add_checksum_byte sum byte ≡ (sum % 2 * 2 ^ 15 + sum / 2 + byte) % 2 ^ 16
unfolding add_checksum_byte
add_checksum_byte_lem sum byte h = omega (arith, bit_or_field 15 sum (sum / 2) (omega arith))

add_vbr_byte_lem :
    (sum byte : ℕ)
    → sum < 2 ^ 32
    → add_vbr_byte sum byte ≡ (sum % 2 * 2 ^ 31 + sum / 2 + byte) % 2 ^ 32
unfolding add_vbr_byte
add_vbr_byte_lem sum byte h =
    let top : sum * 2 ^ 31 % 2 ^ 32 ≡ sum % 2 * 2 ^ 31 = omega arith in
    rw top (omega (arith, bit_or_field 31 (sum % 2) (sum / 2) (omega arith)))

-- What the two steps have in common: no two sums, and no two bytes, are mixed up.
pub record IsMixing (limit : ℕ) (step : ℕ → ℕ → ℕ) : Type 0 where
  pub bounded : (sum byte : ℕ) → step sum byte < limit
  pub sums : (s t byte : ℕ) → s < limit → t < limit → step s byte ≡ step t byte → s ≡ t
  pub bytes : (s b c : ℕ) → s < limit → b < 256 → c < 256 → step s b ≡ step s c → b ≡ c

pub add_checksum_byte-IsMixing : IsMixing (2 ^ 16) add_checksum_byte
add_checksum_byte-IsMixing = record {
  bounded = λ s b. unfold add_checksum_byte in omega arith;
  sums = λ s t b hs ht e. omega (arith, add_checksum_byte_lem s b hs, add_checksum_byte_lem t b ht);
  bytes =
      λ s b c hs hb hc e. omega (arith, add_checksum_byte_lem s b hs, add_checksum_byte_lem s c hs);
}

pub add_vbr_byte-IsMixing : IsMixing (2 ^ 32) add_vbr_byte
add_vbr_byte-IsMixing = record {
  bounded = λ s b. unfold add_vbr_byte in omega arith;
  sums = λ s t b hs ht e. omega (arith, add_vbr_byte_lem s b hs, add_vbr_byte_lem t b ht);
  bytes = λ s b c hs hb hc e. omega (arith, add_vbr_byte_lem s b hs, add_vbr_byte_lem s c hs);
}

if_true : (x y : ℕ) (s : Bool) → s ≡ true → (if s then x else y) ≡ x
if_true x y s h = rw h

if_false : (x y : ℕ) (s : Bool) → s ≡ false → (if s then x else y) ≡ y
if_false x y s h = rw h

module _ (limit : ℕ) (step : ℕ → ℕ → ℕ) (skip : ℕ → Bool) (mix : IsMixing limit step) where
  pub sum_bytes-lt :
      (i : ℕ) (bytes : List ℕ) (sum : ℕ) → sum < limit → sum_bytes step skip i bytes sum < limit
  unfolding sum_bytes
  sum_bytes-lt i [] sum h = h
  sum_bytes-lt i (b ∷ bytes) sum h = sum_bytes-lt (i + 1) bytes _ (next (skip i))
    where
      next : (s : Bool) → (if s then sum else step sum b) < limit
      next true = h
      next false = mix.bounded sum b

  -- Sums that differ stay different over the same bytes.
  pub sum_bytes-injective :
      (i : ℕ) (bytes : List ℕ) (s t : ℕ)
      → s < limit
      → t < limit
      → sum_bytes step skip i bytes s ≡ sum_bytes step skip i bytes t
      → s ≡ t
  unfolding sum_bytes
  sum_bytes-injective i [] s t hs ht e = e
  sum_bytes-injective i (b ∷ bytes) s t hs ht e = elim (Bool-cases (skip i)) [
    | inl skipped ↦ sum_bytes-injective (i + 1) bytes s t hs ht (rw skipped at e)
    | inr read ↦ mix.sums s t b hs ht (
        sum_bytes-injective (i + 1) bytes (step s b) (step t b) (mix.bounded s b) (mix.bounded t b)
          (rw read at e))
  ]

  -- A position that is passed over does not count.
  pub sum_bytes-set_skipped :
      (i j : ℕ) (bytes : List ℕ) (v sum : ℕ)
      → skip (i + j) ≡ true
      → sum_bytes step skip i (set bytes j v) sum ≡ sum_bytes step skip i bytes sum
  unfolding sum_bytes
  sum_bytes-set_skipped i j [] v sum h = refl
  sum_bytes-set_skipped i zero (b ∷ bytes) v sum h =
      let here : i + 0 ≡ i = omega arith in
      ap (sum_bytes step skip (i + 1) bytes) (
        if_true _ _ (skip i) (ap skip (sym here) ∙ h)
        ∙ sym (if_true _ _ (skip i) (ap skip (sym here) ∙ h)))
  sum_bytes-set_skipped i (suc j) (b ∷ bytes) v sum h =
      let next : i + suc j ≡ i + 1 + j = omega arith in
      sum_bytes-set_skipped (i + 1) j bytes v _ (ap skip (sym next) ∙ h)

  -- A change of one byte that is read changes the sum.
  pub sum_bytes-set :
      (i j : ℕ) (bytes : List ℕ) (v sum : ℕ)
      → sum < limit
      → skip (i + j) ≡ false
      → j < length bytes
      → get_or bytes j 0 < 256
      → v < 256
      → v ≢ get_or bytes j 0
      → sum_bytes step skip i (set bytes j v) sum ≢ sum_bytes step skip i bytes sum
  unfolding sum_bytes
  sum_bytes-set i j [] v sum h read lt old new ne = elim lt [ ]
  sum_bytes-set i zero (b ∷ bytes) v sum h read lt old new ne =
      let here : i + 0 ≡ i = omega arith in
      let reads : skip i ≡ false = ap skip (sym here) ∙ read in
      λ e. ne (
        mix.bytes sum v b h new old (
          sum_bytes-injective (i + 1) bytes (step sum v) (step sum b) (mix.bounded sum v)
            (mix.bounded sum b)
            (ap (sum_bytes step skip (i + 1) bytes) (sym (if_false _ _ (skip i) reads))
              ∙ e
              ∙ ap (sum_bytes step skip (i + 1) bytes) (if_false _ _ (skip i) reads))))
  sum_bytes-set i (suc j) (b ∷ bytes) v sum h read lt old new ne =
      let next : i + suc j ≡ i + 1 + j = omega arith in
      sum_bytes-set (i + 1) j bytes v _ (bound (skip i)) (ap skip (sym next) ∙ read) (omega arith)
        old new ne
    where
      bound : (s : Bool) → (if s then sum else step sum b) < limit
      bound true = h
      bound false = mix.bounded sum b
