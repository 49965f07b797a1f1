-- ===== src/Bitmap/Words.antt =====
-- What the BMAP macros do to single bits, on both byte orders.
use mathlib.Core.Path.{ap}
use exfat.Prelude.{
  ℕ, ◌-◌, ◌*◌, ◌/◌, ◌%◌, ◌^◌, ◌<◌, bit_and, bit_or, ◌≡◌, ◌≢◌, ◌∙◌, ◌⊎◌, inl, inr, Bool, true, false,
  not, List, ◌==◌, if◌then◌else◌, get_or, set, length, get_or-set_self, get_or-set_ne, arith,
}
use exfat.Prelude.Bits.{
  bit, test_pow, bit-set_self, bit-set_ne, bit-clr_self, bit-clr_ne, bit_ones, complement,
}
use native.Mathlib.Decide.{ℕ_discrete}
use exfat.Bitmap.{Endian, word_bytes, bmap_mask, bmap_get, bmap_set, bmap_clr}

-- Whether a bit of the bitmap is set.
unfoldable pub used : Endian → List ℕ → ℕ → Bool
unfolding bmap_get
used e bitmap c = not (bmap_get e bitmap c == 0)

-- The same bit as 0 or 1.
abbrev pub bit_at : Endian → List ℕ → ℕ → ℕ
bit_at e bitmap c = bit (get_or bitmap (c / word_bytes e / 8) 0) (c % (word_bytes e * 8))

pub used-bit_at :
    (e : Endian) (bitmap : List ℕ) (c : ℕ) → used e bitmap c ≡ (bit_at e bitmap c == 1)
unfolding used bmap_get
used-bit_at e bitmap c =
    let k = c % (word_bytes e * 8) in
    let x = get_or bitmap (c / word_bytes e / 8) 0 in ground (arith, test_pow x k)

pub get-used :
    (e : Endian) (bitmap : List ℕ) (c : ℕ) → (bmap_get e bitmap c == 0) ≡ not (used e bitmap c)
unfolding used
get-used e bitmap c = ground arith

-- Two indices that differ lie in different words or at different places of one word.
apart :
    (e : Endian) (c d : ℕ)
    → c ≢ d
    → (c / word_bytes e / 8 ≢ d / word_bytes e / 8)
      ⊎ (c % (word_bytes e * 8) ≢ d % (word_bytes e * 8))
apart Endian.little c d ne = grind arith
apart Endian.big c d ne = grind arith

place-lt : (e : Endian) (c : ℕ) → c % (word_bytes e * 8) < word_bytes e * 8
place-lt Endian.little c = omega arith
place-lt Endian.big c = omega arith

module _ (e : Endian) (bitmap : List ℕ) (c : ℕ)
    (inside : c / word_bytes e / 8 < length bitmap) where
  written :
      (f : ℕ → ℕ)
      → bit_at e (set bitmap (c / word_bytes e / 8) (f (get_or bitmap (c / word_bytes e / 8) 0))) c
        ≡ bit (f (get_or bitmap (c / word_bytes e / 8) 0)) (c % (word_bytes e * 8))
  written f = rw (
      get_or-set_self bitmap (c / word_bytes e / 8) (f (get_or bitmap (c / word_bytes e / 8) 0)) 0
        inside)

  -- A write that spares the other bits of its word spares every other bit.
  spared :
      (f : ℕ → ℕ)
      → ((x j : ℕ) → j < word_bytes e * 8 → c % (word_bytes e * 8) ≢ j → bit (f x) j ≡ bit x j)
      → (d : ℕ) → c ≢ d
      → bit_at e (set bitmap (c / word_bytes e / 8) (f (get_or bitmap (c / word_bytes e / 8) 0))) d
        ≡ bit_at e bitmap d
  spared f h d ne = elim (ℕ_discrete (c / word_bytes e / 8) (d / word_bytes e / 8)) [
    | yes same ↦ rw (← same) (
        written_at d
        ∙ h _ (d % (word_bytes e * 8)) (place-lt e d) (other_place same (apart e c d ne)))
    | no other ↦ ap (λ x. bit x (d % (word_bytes e * 8))) (get_or-set_ne bitmap _ _ _ 0 other)
  ]
    where
      written_at :
          (j : ℕ)
          → bit
              (get_or
                (set bitmap (c / word_bytes e / 8) (f (get_or bitmap (c / word_bytes e / 8) 0)))
                (c / word_bytes e / 8)
                0)
              (j % (word_bytes e * 8))
            ≡ bit (f (get_or bitmap (c / word_bytes e / 8) 0)) (j % (word_bytes e * 8))
      written_at j = ap (λ x. bit x (j % (word_bytes e * 8))) (get_or-set_self bitmap _ _ 0 inside)

      other_place :
          c / word_bytes e / 8 ≡ d / word_bytes e / 8
          → (c / word_bytes e / 8 ≢ d / word_bytes e / 8)
            ⊎ (c % (word_bytes e * 8) ≢ d % (word_bytes e * 8))
          → c % (word_bytes e * 8) ≢ d % (word_bytes e * 8)
      other_place same (inl ne) = absurd (ne same)
      other_place same (inr ne) = ne

  bit_at-set_self : bit_at e (bmap_set e bitmap c) c ≡ 1
  unfolding bmap_set
  bit_at-set_self =
      written (λ x. bit_or x (bmap_mask e c)) ∙ bit-set_self _ (c % (word_bytes e * 8))

  bit_at-set_ne : (d : ℕ) → c ≢ d → bit_at e (bmap_set e bitmap c) d ≡ bit_at e bitmap d
  unfolding bmap_set
  bit_at-set_ne =
      spared (λ x. bit_or x (bmap_mask e c)) λ x j h ne. bit-set_ne x (c % (word_bytes e * 8)) j ne

  bit_at-clr_self : bit_at e (bmap_clr e bitmap c) c ≡ 0
  unfolding bmap_clr
  bit_at-clr_self =
      written (λ x. bit_and x (complement (word_bytes e * 8) (bmap_mask e c)))
      ∙ bit-clr_self (word_bytes e * 8) _ (c % (word_bytes e * 8)) (place-lt e c)

  bit_at-clr_ne : (d : ℕ) → c ≢ d → bit_at e (bmap_clr e bitmap c) d ≡ bit_at e bitmap d
  unfolding bmap_clr
  bit_at-clr_ne =
      spared (λ x. bit_and x (complement (word_bytes e * 8) (bmap_mask e c)))
        λ x j h ne. bit-clr_ne (word_bytes e * 8) x (c % (word_bytes e * 8)) j h ne

  -- A bit that is set, and no other, is then in use.
  pub used-set :
      (d : ℕ) → used e (bmap_set e bitmap c) d ≡ (if c == d then true else used e bitmap d)
  used-set d = elim (ℕ_discrete c d) [
    | yes p ↦ ground (
      arith,
      used-bit_at e (bmap_set e bitmap c) d,
      bit_at-set_self,
      ap (bit_at e (bmap_set e bitmap c)) p,
    )
    | no p ↦
        ground
          (arith, used-bit_at e (bmap_set e bitmap c) d, used-bit_at e bitmap d, bit_at-set_ne d p)
  ]

  -- A bit that is cleared, and no other, is then free.
  pub used-clr :
      (d : ℕ) → used e (bmap_clr e bitmap c) d ≡ (if c == d then false else used e bitmap d)
  used-clr d = elim (ℕ_discrete c d) [
    | yes p ↦ ground (
      arith,
      used-bit_at e (bmap_clr e bitmap c) d,
      bit_at-clr_self,
      ap (bit_at e (bmap_clr e bitmap c)) p,
    )
    | no p ↦
        ground
          (arith, used-bit_at e (bmap_clr e bitmap c) d, used-bit_at e bitmap d, bit_at-clr_ne d p)
  ]

pub inside-lt :
    (e : Endian) (bitmap : List ℕ) (c : ℕ)
    → c < word_bytes e * 8 * length bitmap
    → c / word_bytes e / 8 < length bitmap
inside-lt Endian.little bitmap c h = omega arith
inside-lt Endian.big bitmap c h = omega arith

-- A word of all ones has no free bit.
pub full_word :
    (e : Endian) (bitmap : List ℕ) (i c : ℕ)
    → get_or bitmap i 0 ≡ 2 ^ (word_bytes e * 8) - 1
    → c / word_bytes e / 8 ≡ i
    → used e bitmap c ≡ true
full_word e bitmap i c full at =
    let k = c % (word_bytes e * 8) in
    ground (
      arith,
      used-bit_at e bitmap c,
      ap (λ t. bit (get_or bitmap t 0) k) at,
      ap (λ t. bit t k) full,
      bit_ones (word_bytes e * 8) k (place-lt e c),
    )
