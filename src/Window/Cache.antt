-- ===== src/Window/Cache.antt =====
-- What the buffer of one block holds, and the reads that go through it.
use exfat.Prelude.{
  ℕ, zero, suc, ◌+◌, ◌-◌, ◌*◌, ◌/◌, ◌%◌, ◌<◌, ◌≤◌, ◌≡◌, ◌≢◌, refl, sym, ap, subst, ◌∙◌, ◌⊎◌, inl,
  inr, some, List, [], ◌∷◌, ◌++◌, take, drop, ◌==◌, arith, Bool-cases, ==→eq, ==→ne,
}
use exfat.Prelude.Effect.{done, Op, ◌>>=◌, ◌>>◌, pure, gets, modify, branch}
use exfat.Prelude.Effect.Steps.{bind_done}
use native.Mathlib.Nat.{mod_self, mod-eq_of_lt, div-add-mod, add-mul-mod_self_left}
use exfat.Prelude.Spans.{span, span_split}
use exfat.Chain.{Device}
use exfat.Window.{Window, no_block, Dev, raw_read, bounced_read, join, fetch_block, block_part}
use exfat.Window.Blocks.{IsOpen, whole_add}

take-span : (content : ℕ → ℕ) (at n m : ℕ) → n ≤ m → take n (span content at m) ≡ span content at n
unfolding span
take-span content at zero m h = refl
take-span content at (suc n) zero h = absurd (omega arith)
take-span content at (suc n) (suc m) h =
    ap (λ xs. content at ∷ xs) (take-span content (at + 1) n m (omega arith))

drop-span :
    (content : ℕ → ℕ) (at n m : ℕ) → drop n (span content at (n + m)) ≡ span content (at + n) m
unfolding span
drop-span content at zero m =
    let none : 0 + m ≡ m = omega arith in
    let still : at + 0 ≡ at = omega arith in rw (none, still) refl
drop-span content at (suc n) m =
    let more : suc n + m ≡ suc (n + m) = omega arith in
    let on : at + suc n ≡ at + 1 + n = omega arith in rw (more, on) (drop-span content (at + 1) n m)

part-span :
    (content : ℕ → ℕ) (at block head n : ℕ)
    → head + n ≤ block
    → take n (drop head (span content at block)) ≡ span content (at + head) n
part-span content at block head n h =
    let whole : block ≡ head + (block - head) = omega arith in
    ap (λ b. take n (drop head (span content at b))) whole
    ∙ ap (take n) (drop-span content at head (block - head))
    ∙ take-span content (at + head) n (block - head) (omega arith)

module _ (D : Device) (w : Window) (medium : D.Store) (content : ℕ → ℕ) (end : ℕ) where
  -- Whole blocks of the medium up to `end` are read as they are.
  abbrev pub IsMedium : Type 0
  IsMedium =
      (len off : ℕ)
      → len % w.blocksize ≡ 0
      → off % w.blocksize ≡ 0
      → off + len ≤ end
      → D.pread medium len off ≡ some (span content off len)

  -- The buffer of one block is empty; or holds the block that it is said to hold, which lies at or before
  -- `at` unless the mask refuses no address; or, where the mask refuses one, is said to hold a block before
  -- the one of `at`, and may hold another.
  pub record IsReady (at : ℕ) (s : Dev D) : Type 0 where
    pub same : s.medium ≡ medium
    pub block :
        (s.bounce_lba ≡ no_block)
        ⊎ ((s.bounce ≡ span content s.bounce_lba w.blocksize) × (IsOpen w ⊎ (s.bounce_lba ≤ at)))
        ⊎ ((IsOpen w → ⊥) × (s.bounce_lba < at - at % w.blocksize))

  -- From a buffer good for a read at `at`, the operation gives the `n` bytes from there on, and leaves it
  -- good for a read behind them.
  abbrev pub Serves : Op (Dev D) (List ℕ) → ℕ → ℕ → Type 0
  Serves m at n =
      (s : Dev D)
      → IsReady at s
      → (s' : Dev D) × ((m s ≡ done (span content at n) s') × IsReady (at + n) s')

  pub Serves-pure : (at : ℕ) → Serves (pure []) at 0
  unfolding pure span
  Serves-pure at s h =
      let still : at ≡ at + 0 = omega arith in (s, (refl, subst (λ t. IsReady t s) still h))

  pub Serves-join :
      (m k : Op (Dev D) (List ℕ)) (at a b : ℕ)
      → Serves m at a
      → Serves k (at + a) b
      → Serves (join D m k) at (a + b)
  unfolding join ◌>>=◌ pure
  Serves-join m k at a b first second s h =
      let one = first s h in
      let two = second (one.0) (one.1.1) in
      let sum : at + a + b ≡ at + (a + b) = omega arith in
      (
        two.0,
        (
          bind_done m (λ x. k >>= λ y. pure (x ++ y)) s (one.0) (span content at a) (one.1.0)
              ∙ bind_done k (λ y. pure (span content at a ++ y)) (one.0) (two.0)
                  (span content (at + a) b) (two.1.0)
              ∙ ap (λ x. done x (two.0)) (sym (span_split content at a b)),
          subst (λ t. IsReady t (two.0)) sum (two.1.1),
        ),
      )

  -- Whole blocks further on.
  IsReady-whole_blocks :
      (at n : ℕ) (s : Dev D)
      → at % w.blocksize ≡ 0
      → n % w.blocksize ≡ 0
      → IsReady at s
      → IsReady (at + n) s
  IsReady-whole_blocks at n s aligned whole h =
      let next = whole_add (w.blocksize) at n aligned whole in
      record {
        same = h.same;
        block = elim (h.block) [
          | inl empty ↦ inl empty
          | inr (inl (bytes, inl opened)) ↦ inr (inl (bytes, inl opened))
          | inr (inl (bytes, inr before)) ↦ inr (inl (bytes, inr (omega (arith, before))))
          | inr (inr (refuses, behind)) ↦ inr (inr (refuses, omega (arith, behind, aligned, next)))
        ];
      }

  pub Serves-raw_read :
      IsMedium
      → (len off : ℕ) → len % w.blocksize ≡ 0
      → off % w.blocksize ≡ 0
      → off + len ≤ end
      → Serves (raw_read D len off) off len
  unfolding raw_read
  Serves-raw_read reads len off whole aligned inside s h = (
    s,
    (
      rw (raw_read, ap (λ t. D.pread t len off) (h.same) ∙ reads len off whole aligned inside) refl,
      IsReady-whole_blocks off len s aligned whole h,
    ),
  )

  -- A read through the buffer that does not say which block it holds afterwards.
  pub Serves-bounced_read :
      IsMedium
      → (IsOpen w → ⊥)
      → (off : ℕ) → off % w.blocksize ≡ 0
      → off + w.blocksize ≤ end
      → 0 < w.blocksize
      → Serves (bounced_read D w off) off (w.blocksize)
  unfolding bounced_read raw_read ◌>>=◌ ◌>>◌ pure modify
  Serves-bounced_read reads refuses off aligned inside positive s h =
      let bytes = span content off w.blocksize in
      let read : D.pread s.medium w.blocksize off ≡ some bytes =
        ap (λ t. D.pread t w.blocksize off) (h.same)
        ∙ reads w.blocksize off (mod_self w.blocksize) aligned inside in
      let next = whole_add (w.blocksize) off (w.blocksize) aligned (mod_self w.blocksize) in
      let filled : Dev D = record s { bounce = bytes } in
      let behind : s.bounce_lba < off → IsReady (off + w.blocksize) filled =
        λ less. record { same = h.same; block = inr (inr (refuses, omega (arith, less, next))) } in
      (
        filled,
        (
          rw (bounced_read, ◌>>◌, ◌>>=◌, raw_read, read) refl,
          elim (h.block) [
            | inl empty ↦ record { same = h.same; block = inl empty }
            | inr (inl (held, inl opened)) ↦ absurd (refuses opened)
            | inr (inl (held, inr before)) ↦ elim (Bool-cases (s.bounce_lba == off)) [
              | inl e ↦
                  let here = ==→eq (s.bounce_lba) off e in
                  record {
                    same = h.same;
                    block = inr (
                        inl (
                          ap (λ o. span content o w.blocksize) (sym here),
                          inr (omega (arith, here)),
                        ));
                  }
              | inr e ↦ behind (omega (arith, before, ==→ne (s.bounce_lba) off e))
            ]
            | inr (inr (also, less)) ↦ behind (omega (arith, less, aligned))
          ],
        ),
      )

  -- From a buffer good for a read within the block, its bytes, and the buffer good behind them.
  fetch_block-IsReady :
      IsMedium
      → (off head n : ℕ) → off % w.blocksize ≡ 0
      → off + w.blocksize ≤ end
      → off ≢ no_block
      → head < w.blocksize
      → (s : Dev D) → IsReady (off + head) s
      → (s' : Dev D) × ((fetch_block D w off s ≡ done (span content off w.blocksize) s')
          × IsReady (off + head + n) s')
  unfolding fetch_block raw_read ◌>>=◌ ◌>>◌ pure gets modify branch
  fetch_block-IsReady reads off head n aligned inside real low s h =
      elim (Bool-cases (s.bounce_lba == off)) [
        | inl e ↦
            let here = ==→eq (s.bounce_lba) off e in
            let split : off + head ≡ head + w.blocksize * (off / w.blocksize) =
              omega (arith, div-add-mod off (w.blocksize), aligned) in
            let start : (off + head) % w.blocksize ≡ head =
              ap (λ t. t % w.blocksize) split
              ∙ add-mul-mod_self_left head (w.blocksize) (off / w.blocksize)
              ∙ mod-eq_of_lt low in
            let held : s.bounce ≡ span content off w.blocksize = elim (h.block) [
              | inl empty ↦ absurd (real (sym here ∙ empty))
              | inr (inl (bytes, opened)) ↦ bytes ∙ ap (λ o. span content o w.blocksize) here
              | inr (inr (refuses, behind)) ↦ absurd (omega (arith, behind, here, start))
            ] in
            (
              s,
              (
                rw (fetch_block, branch, e) (ap (λ x. done x s) held),
                record {
                  same = h.same;
                  block = inr (
                      inl (
                        held ∙ ap (λ o. span content o w.blocksize) (sym here),
                        inr (omega (arith, here)),
                      ));
                },
              ),
            )
        | inr away ↦
            let bytes = span content off w.blocksize in
            let read : D.pread s.medium w.blocksize off ≡ some bytes =
              ap (λ t. D.pread t w.blocksize off) (h.same)
              ∙ reads w.blocksize off (mod_self w.blocksize) aligned inside in
            let fetched : Dev D = record s { bounce = bytes; bounce_lba = off } in
            (
              fetched,
              (
                rw (fetch_block, branch, away, ◌>>◌, ◌>>=◌, raw_read, read) refl,
                record { same = h.same; block = inr (inl (refl, inr (omega arith))) },
              ),
            )
      ]

  pub Serves-block_part :
      IsMedium
      → (off head n : ℕ) → off % w.blocksize ≡ 0
      → off + w.blocksize ≤ end
      → off ≢ no_block
      → head < w.blocksize
      → head + n ≤ w.blocksize
      → Serves (block_part D w off head n) (off + head) n
  unfolding block_part ◌>>=◌ pure
  Serves-block_part reads off head n aligned inside real low fits s h =
      let one = fetch_block-IsReady reads off head n aligned inside real low s h in
      (
        one.0,
        (
          bind_done (fetch_block D w off) (λ block. pure (take n (drop head block))) s (one.0)
                (span content off w.blocksize) (one.1.0)
              ∙ ap (λ x. done x (one.0)) (part-span content off w.blocksize head n fits),
          one.1.1,
        ),
      )
