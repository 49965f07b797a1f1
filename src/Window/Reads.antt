-- ===== src/Window/Reads.antt =====
-- A read of the partition is the bytes of the medium.
use exfat.Prelude.{
  ℕ, zero, suc, ◌+◌, ◌-◌, ◌*◌, ◌/◌, ◌%◌, ◌^◌, ◌<◌, ◌≤◌, ◌≡◌, refl, sym, ap, subst, ◌∙◌, ◌⊎◌, inl,
  inr, true, false, min, bit_and, List, [], ◌==◌, ltb, leb, leb→le, ltb→lt, arith, Bool-cases,
  ==→eq, ==→ne,
}
use exfat.Prelude.Int.{pos}
use exfat.Prelude.Effect.{done, Op, pure}
use exfat.Bitmap.{u32}
use native.Mathlib.Nat.{mod-lt, mod_self, mul-mod_right, div-add-mod}
use exfat.Chain.{Device}
use exfat.Window.{
  Window, whole_blocks, chunk_of, is_refused, Dev, raw_read, bounced_read, join, aligned_read,
  block_part, read_tail, read_middle, read_head, partition_read,
}
use exfat.Prelude.Spans.{span}
use exfat.Window.Cache.{
  IsMedium, IsReady, Serves, Serves-pure, Serves-join, Serves-raw_read, Serves-bounced_read,
  Serves-block_part,
}
use exfat.Window.Blocks.{
  IsWindow, whole_add, whole_sub, at_least, block_pos, head_lem, whole_blocks-IsWhole,
  chunk_of-IsChunk, refused_lem,
}

module _ (w : Window) (k : ℕ) (is : IsWindow w k) where
  module _ (D : Device) (medium : D.Store) (content : ℕ → ℕ) (end : ℕ)
      (reads : IsMedium D w medium content end) (room : end < 2 ^ 64)
      (aligned_end : end % w.blocksize ≡ 0) where
    abbrev Gives : Op (Dev D) (List ℕ) → ℕ → ℕ → Type 0
    Gives = Serves D w medium content end

    -- One transfer of whole blocks, and the rest of them.
    more_lem :
        (m k : Op (Dev D) (List ℕ)) (len off n : ℕ)
        → n ≤ len
        → Gives m off n
        → Gives k (off + n) (len - n)
        → Gives (join D m k) off len
    more_lem m k len off n within first then =
        let sum : n + (len - n) ≡ len = omega (arith, within) in
        subst (Gives (join D m k) off) sum
          (Serves-join D w medium content end m k off n (len - n) first then)

    aligned_lem :
        (fuel len address off : ℕ)
        → len < fuel
        → len % w.blocksize ≡ 0
        → off % w.blocksize ≡ 0
        → off + len ≤ end
        → Gives (aligned_read D w fuel len address off) off len
    unfolding aligned_read
    aligned_lem zero len address off enough whole aligned inside = absurd (omega arith)
    aligned_lem (suc fuel) len address off enough whole aligned inside =
        let rest = λ (n : ℕ). aligned_read D w fuel (len - n) (u32 (address + n)) (off + n) in
        let rest_gives : (n : ℕ)
            → n % w.blocksize ≡ 0
            → n ≤ len
            → 0 < n
            → Gives (rest n) (off + n) (len - n) =
          λ n blocks within some_bytes.
            aligned_lem fuel (len - n) (u32 (address + n)) (off + n)
              (omega (arith, some_bytes, within))
              (whole_sub (w.blocksize) len n within whole blocks)
              (whole_add (w.blocksize) off n aligned blocks) (omega (arith, within)) in
        elim (Bool-cases (len == 0)) [
          | inl e ↦
              let whole_read : aligned_read D w (suc fuel) len address off ≡ pure [] = rw e refl in
              subst (λ m. Gives m off len) (sym whole_read)
                (subst (Gives (pure []) off) (sym (==→eq len 0 e))
                  (Serves-pure D w medium content end off))
          | inr e ↦
              let positive : 0 < len = omega (arith, ==→ne len 0 e) in
              elim (Bool-cases (is_refused w address)) [
                | inl refused ↦
                    let b = w.blocksize in
                    let least = at_least b len positive whole in
                    let one : aligned_read D w (suc fuel) len address off
                        ≡ join D (bounced_read D w off) (rest b) =
                      rw (e, refused) refl in
                    subst (λ m. Gives m off len) (sym one)
                      (more_lem (bounced_read D w off) (rest b) len off b least
                        (Serves-bounced_read D w medium content end reads
                          (refused_lem w address refused) off aligned (omega (arith, least, inside))
                          (block_pos w k is))
                        (rest_gives b (mod_self b) least (block_pos w k is)))
                | inr taken ↦
                    let n = chunk_of w len in
                    let chunk = chunk_of-IsChunk w k is len positive whole in
                    let one : aligned_read D w (suc fuel) len address off
                        ≡ join D (raw_read D n off) (rest n) =
                      rw (e, taken) refl in
                    subst (λ m. Gives m off len) (sym one)
                      (more_lem (raw_read D n off) (rest n) len off n (chunk.1.0)
                        (Serves-raw_read D w medium content end reads n off (chunk.0) aligned
                          (omega (arith, chunk.1.0, inside)))
                        (rest_gives n (chunk.0) (chunk.1.0) (chunk.1.1)))
              ]
        ]

    part_lem :
        (off head n : ℕ)
        → off % w.blocksize ≡ 0
        → head < w.blocksize
        → head + n ≤ w.blocksize
        → off < end
        → Gives (block_part D w off head n) (off + head) n
    part_lem off head n aligned low inside before =
        let blocks : w.blocksize ≤ end - off =
          at_least (w.blocksize) (end - off) (omega arith)
            (whole_sub (w.blocksize) end off (omega arith) aligned_end aligned) in
        Serves-block_part D w medium content end reads off head n aligned (omega (arith, blocks))
          (omega arith) low inside

    tail_lem :
        (remaining at : ℕ)
        → remaining < w.blocksize
        → at % w.blocksize ≡ 0
        → at + remaining ≤ end
        → Gives (read_tail D w remaining at) at remaining
    unfolding read_tail
    tail_lem remaining at short aligned inside = elim (Bool-cases (remaining == 0)) [
      | inl e ↦ rw e (
          subst (Gives (pure []) at) (sym (==→eq remaining 0 e))
            (Serves-pure D w medium content end at))
      | inr e ↦ rw e (
          let still : at + 0 ≡ at = omega arith in
          subst (λ t. Gives (block_part D w at 0 remaining) t remaining) still
            (part_lem at 0 remaining aligned (block_pos w k is) (omega arith)
              (omega (arith, ==→ne remaining 0 e))))
    ]

    middle_lem :
        (remaining address at : ℕ)
        → remaining < 2 ^ 32
        → at % w.blocksize ≡ 0
        → at + remaining ≤ end
        → Gives (read_middle D w remaining address at) at remaining
    unfolding read_middle
    middle_lem remaining address at short aligned inside =
        elim (Bool-cases (ltb remaining w.blocksize)) [
          | inl less ↦
              rw less (tail_lem remaining at (ltb→lt remaining w.blocksize less) aligned inside)
          | inr more ↦
              let n = whole_blocks w remaining in
              let blocks = whole_blocks-IsWhole w k is remaining short in
              let sum : n + (remaining - n) ≡ remaining = omega (arith, blocks.1.0) in
              rw more (
                subst (Gives _ at) sum (
                  Serves-join D w medium content end (aligned_read D w (suc n) n address at)
                    (read_tail D w (remaining - n) (at + n)) at n (remaining - n)
                    (aligned_lem (suc n) n address at (omega arith) (blocks.0) aligned
                      (omega (arith, blocks.1.0)))
                    (tail_lem (remaining - n) (at + n) (blocks.1.1)
                      (whole_add (w.blocksize) at n aligned (blocks.0))
                      (omega (arith, blocks.1.0)))))
        ]

    nothing_lem : (address at : ℕ) → Gives (read_middle D w 0 address at) at 0
    unfolding read_middle read_tail
    nothing_lem address at =
        let less : ltb 0 w.blocksize ≡ true = ground (arith, (block_pos w k is)) in
        rw less (Serves-pure D w medium content end at)

    -- Behind the first `n` bytes, with which a block ends or the request does.
    behind_lem :
        (size address at n : ℕ)
        → size < 2 ^ 32
        → n ≤ size
        → (size ≡ n) ⊎ ((at + n) % w.blocksize ≡ 0)
        → at + size ≤ end
        → Gives (read_middle D w (size - n) address (at + n)) (at + n) (size - n)
    behind_lem size address at n short within (inl all) inside =
        let none : 0 ≡ size - n = omega (arith, all) in
        subst (λ r. Gives (read_middle D w r address (at + n)) (at + n) r) none
          (nothing_lem address (at + n))
    behind_lem size address at n short within (inr aligned) inside =
        middle_lem (size - n) address (at + n) (omega arith) aligned (omega arith)

    head_read_lem :
        (size address at : ℕ)
        → 0 < size
        → size < 2 ^ 32
        → at + size ≤ end
        → Gives (read_head D w size address at) at size
    unfolding read_head
    head_read_lem size address at positive short inside =
        elim (Bool-cases (bit_and at (w.blocksize - 1) == 0)) [
          | inl e ↦
              let aligned = sym (head_lem w k is at) ∙ ==→eq (bit_and at (w.blocksize - 1)) 0 e in
              rw e (middle_lem size address at short aligned inside)
          | inr e ↦
              let head = bit_and at (w.blocksize - 1) in
              let n = min (w.blocksize - head) size in
              let below : head < w.blocksize =
                omega (arith, head_lem w k is at, mod-lt at (block_pos w k is)) in
              let start : at - head ≡ w.blocksize * (at / w.blocksize) =
                omega (arith, head_lem w k is at, div-add-mod at (w.blocksize)) in
              let start_aligned : (at - head) % w.blocksize ≡ 0 =
                ap (λ t. t % w.blocksize) start ∙ mul-mod_right (w.blocksize) (at / w.blocksize) in
              let from : head ≤ at =
                omega (arith, head_lem w k is at, div-add-mod at (w.blocksize)) in
              let place : at - head + head ≡ at = omega (arith, from) in
              let sum : n + (size - n) ≡ size = omega arith in
              let ends : (size ≡ n) ⊎ ((at + n) % w.blocksize ≡ 0) =
                elim (Bool-cases (leb (w.blocksize - head) size)) [
                  | inl fills ↦
                      let next : at + n ≡ at - head + w.blocksize =
                        omega (arith, from, below, leb→le _ _ fills) in
                      inr (
                        ap (λ t. t % w.blocksize) next
                        ∙ whole_add (w.blocksize) (at - head) (w.blocksize) start_aligned
                            (mod_self (w.blocksize)))
                  | inr short_of ↦
                      let less : size < w.blocksize - head = ground (arith, short_of) in
                      inl (omega (arith, less))
                ] in
              rw e (
                subst (Gives _ at) sum (
                  Serves-join D w medium content end (block_part D w (at - head) head n)
                    (read_middle D w (size - n) (u32 (address + n)) (at + n)) at n (size - n)
                    (subst (λ t. Gives (block_part D w (at - head) head n) t n) place
                      (part_lem (at - head) head n start_aligned below (omega (arith, below))
                        (omega (arith, from))))
                    (behind_lem size (u32 (address + n)) at n short (omega arith) ends inside)))
        ]

-- Reads at any place within a partition and of any length give the bytes of the medium there, whatever
-- addresses the mask refuses, and leave the buffer good for a read behind them: on a medium that reads whole
-- blocks, with a block size of a power of two, and from a buffer good for a read at that place, which is
-- empty, or holds the block that it is said to hold (at or before the place, unless the mask refuses no
-- address), or, under a mask that refuses one, is said to hold a block before the one of the place.
pub partition_read-span :
    (D : Device) (w : Window) (k : ℕ) (medium : D.Store) (content : ℕ → ℕ) (end : ℕ)
    → IsWindow w k
    → IsMedium D w medium content end
    → end < 2 ^ 64
    → end % w.blocksize ≡ 0
    → w.firstbyte + w.size ≤ end
    → (size address offset : ℕ) (s : Dev D) → size < 2 ^ 32
    → offset + size ≤ w.size
    → IsReady D w medium content end (w.firstbyte + offset) s
    → (s' : Dev D) × ((partition_read D w size address (pos offset) s
          ≡ done (span content (w.firstbyte + offset) size) s')
        × IsReady D w medium content end (w.firstbyte + offset + size) s')
unfolding partition_read
partition_read-span D w k medium content end is reads room aligned_end fits size address offset s
      short inside ready =
    elim (Bool-cases (size == 0)) [
      | inl e ↦ rw e (
          subst (λ n. Serves D w medium content end (pure []) (w.firstbyte + offset) n)
            (sym (==→eq size 0 e)) (Serves-pure D w medium content end (w.firstbyte + offset)) s
            ready)
      | inr e ↦
          let positive : 0 < size = omega (arith, ==→ne size 0 e) in
          let before : leb w.size offset ≡ false = ground (arith, positive, inside) in
          let within : ltb w.size (offset + size) ≡ false = ground (arith, inside) in
          let at = w.firstbyte + offset in
          let whole : partition_read D w size address (pos offset) ≡ read_head D w size address at =
            rw (partition_read, e, before, within) refl in
          subst (λ m. Serves D w medium content end m at size) (sym whole)
            (head_read_lem w k is D medium content end reads room aligned_end size address at
              positive short (omega (arith, inside, fits)))
            s ready
    ]
