-- ===== src/Io/Reads.antt =====
-- What a read returns.
use exfat.Prelude.{
  ℕ, zero, suc, ◌+◌, ◌-◌, ◌/◌, ◌%◌, ◌≤◌, ◌<◌, min, ◌≡◌, refl, ap, sym, ◌∙◌, if◌then◌else◌, not,
  ◌&&◌, Bool, true, false, Option, none, some, List, [], ltb, length, length-append, arith, ==→eq,
  ==→ne, Option-cases, inl, inr, subst,
}
use exfat.Prelude.Int.{ℤ}
use exfat.Prelude.Effect.Holds.{
  Holds, Holds-bind, Holds-branch, Holds-raise_if, Holds->>, Holds-or_stop,
}
use exfat.Prelude.Effect.{Rc, eio, ◌>>=◌, failed, done, pure, stop, gets, branch, modify}
use native.Mathlib.Nat.{mod-lt, mul-pos}
use exfat.Prelude.Bits.{pow_pos}
use exfat.Chain.{
  Device, SuperBlock, File, next_cluster, sb_cluster_size, sb_cluster_invalid, c2s, c2o, advance,
  advance_cluster,
}
use exfat.Bitmap.{u32}
use exfat.Chain.Resize.{seek, update}
use exfat.Io.{read_raw, read_clusters, read_valid, is_dir, update_atime}

-- A read that does not fail gives as many bytes as were asked for.
abbrev pub IsExact : Device → Type 0
IsExact D =
    (t : D.Store) (size offset : ℕ) (bytes : List ℕ)
    → D.pread t size offset ≡ some bytes
    → length bytes ≡ size

pub mod-lt_cluster :
    (sb : SuperBlock) (offset : ℕ) → offset % sb_cluster_size sb < sb_cluster_size sb
mod-lt_cluster sb offset = mod-lt offset (mul-pos (pow_pos sb.sector_bits) (pow_pos sb.spc_bits))

module _ (D : Device) where
  abbrev pub IsEio : Rc → File D → Type 0
  IsEio rc s = rc ≡ eio

  valid_least : (s : File D) (c : ℕ) → sb_cluster_invalid s.ef.sb c ≡ false → 2 ≤ c
  valid_least s c h = ground arith

  c2o-some : (s : File D) (c : ℕ) → 2 ≤ c → (o : ℕ) × (c2o s.ef.sb c ≡ some o)
  unfolding c2o c2s
  c2o-some s c h = elim (Option-cases (c2o s.ef.sb c)) [
    | inl e ↦ absurd (ground (arith, e, h))
    | inr found ↦ found
  ]

  next_cluster-some :
      (s : File D) (c : ℕ) → 2 ≤ c → (next : ℕ) × (next_cluster D s.ef s.node c ≡ some next)
  unfolding next_cluster
  next_cluster-some s c h = elim (Option-cases (next_cluster D s.ef s.node c)) [
    | inl e ↦ absurd (ground (arith, e, h))
    | inr found ↦ found
  ]

  -- The bytes that a step got, with the state left alone.
  abbrev Got : ℕ → File D → List ℕ → File D → Type 0
  Got size s bytes s' = (length bytes ≡ size) × (s' ≡ s)

  advance-some :
      (n : ℕ) (s : File D) (c : ℕ) → 2 ≤ c → (r : ℕ) × (advance D s.ef s.node n c ≡ some r)
  unfolding advance
  advance-some zero s c h = (c, refl)
  advance-some (suc n) s c h =
      let next = next_cluster-some s c h in
      rw (advance, next.1)
        (onward next.0 (sb_cluster_invalid s.ef.sb next.0) refl
          λ e. advance-some n s next.0 (valid_least s next.0 e))
    where
      onward :
          (next : ℕ) (b : Bool)
          → sb_cluster_invalid s.ef.sb next ≡ b
          → (sb_cluster_invalid s.ef.sb next ≡ false
              → (r : ℕ) × (advance D s.ef s.node n next ≡ some r))
          → (r : ℕ) × ((if b then some next else advance D s.ef s.node n next) ≡ some r)
      onward next true e go_on = (next, refl)
      onward next false e go_on = go_on e

  -- Sizes that an operation leaves.
  abbrev pub Sized : File D → File D → Type 0
  Sized s s' =
      (s'.node.size ≡ s.node.size) × (s'.node.valid_size ≡ s.node.valid_size) × (s'.ef.sb ≡ s.ef.sb)

  seek_lem :
      (count : ℕ) (s : File D)
      → 2 ≤ s.node.start_cluster
      → 2 ≤ s.node.fptr_cluster
      → Holds ⊥ IsEio (λ c. Sized s) (seek D count s)
  unfolding seek advance_cluster
  seek_lem count s start pointer =
      let rewind = ltb count s.node.fptr_index in
      let from = if rewind then s.node.start_cluster else s.node.fptr_cluster in
      let least : 2 ≤ from = ground (arith, start, pointer) in
      let r = advance-some (count - (if rewind then 0 else s.node.fptr_index)) s from least in
      rw (Holds, r.1) (refl, refl, refl)

  module _ (exact : IsExact D) where
    read_raw_lem :
        (size offset : ℕ) (s : File D) → Holds ⊥ IsEio (Got size s) (read_raw D size offset s)
    unfolding read_raw
    read_raw_lem size offset s = go (D.pread s.ef.dev size offset) refl
      where
        go :
            (o : Option (List ℕ))
            → D.pread s.ef.dev size offset ≡ o
            → Holds ⊥ IsEio
                (Got size s)
                (elim o [ none ↦ failed eio s | some bytes ↦ done bytes s ])
        go none h = refl
        go (some bytes) h = (exact s.ef.dev size offset bytes h, refl)

    read_clusters_lem :
        (n cs loffset remainder cluster : ℕ) (s : File D)
        → loffset < cs
        → remainder ≤ n
        → Holds ⊥ IsEio (Got remainder s) (read_clusters D n cs loffset remainder cluster s)
    unfolding read_clusters pure
    read_clusters_lem zero cs loffset remainder cluster s inside fuel =
        Holds-branch ⊥ IsEio (Got remainder s) _ (pure []) stop s
          (λ h. (omega (arith, ==→eq _ _ h), refl)) λ h. absurd (==→ne _ _ h (omega (arith, fuel)))
    read_clusters_lem (suc n) cs loffset remainder cluster s inside fuel =
        let now = min (cs - loffset) remainder in
        Holds-branch ⊥ IsEio (Got remainder s) _ (pure []) _ s
          (λ h. (omega (arith, ==→eq _ _ h), refl))
          λ h. Holds-raise_if ⊥ IsEio (Got remainder s) eio _ _ s refl λ good.
            let at = c2o-some s cluster (valid_least s cluster good) in
            Holds-or_stop ⊥ IsEio (Got remainder s) _ _ s at.0 at.1 (
              Holds-bind ⊥ IsEio (Got now s) (Got remainder s) (read_raw D now (at.0 + loffset)) _ s
                (read_raw_lem now (at.0 + loffset) s)
                λ bytes s1 got.
                  let next = next_cluster-some s1 cluster (
                    subst (λ (t : File D). 2 ≤ cluster) (sym got.1) (valid_least s cluster good)) in
                  Holds-or_stop ⊥ IsEio (Got remainder s) _ _ s1 next.0 next.1 (
                    Holds-bind ⊥ IsEio (Got (remainder - now) s1) (Got remainder s)
                      (read_clusters D n cs 0 (remainder - now) next.0) _ s1
                      (read_clusters_lem n cs 0 (remainder - now) next.0 s1 (omega (arith, inside))
                        (omega (arith, inside, fuel, ==→ne _ _ h)))
                      λ rest s2 all. (
                        rw (length-append bytes rest) (omega (arith, all.0, got.0)),
                        all.1 ∙ got.1,
                      )))

    -- The part of a read within the valid size.
    pub record IsPart (n : ℕ) (s : File D) (r : ℕ × List ℕ) (s' : File D) : Type 0 where
      pub ret : r.0 ≡ n
      pub stored : length r.1 ≡ n
      pub sizes : Sized s s'

    atime_lem :
        (atime : Bool) (now : ℤ) (s0 s : File D)
        → Sized s0 s
        → Holds ⊥ IsEio
            (λ u. Sized s0)
            (branch (λ s'. not (is_dir s'.node) && atime) (update D (update_atime now)) (pure tt) s)
    unfolding pure modify
    atime_lem atime now s0 s sized =
        Holds-branch ⊥ IsEio (λ u. Sized s0) _ (update D (update_atime now)) (pure tt) s
          (λ h. sized) λ h. sized

    pub read_valid_lem :
        (atime : Bool) (now : ℤ) (size offset : ℕ) (s : File D)
        → 2 ≤ s.node.start_cluster
        → 2 ≤ s.node.fptr_cluster
        → Holds ⊥ IsEio
            (IsPart (min size (s.node.size - offset)) s)
            (read_valid D atime now size offset s)
    unfolding read_valid gets ◌>>=◌ pure
    read_valid_lem atime now size offset s start pointer =
        let cs = sb_cluster_size s.ef.sb in
        let n = min size (s.node.size - offset) in
        Holds-bind ⊥ IsEio (λ c. Sized s) (IsPart n s) (seek D (u32 (offset / cs))) _ s
          (seek_lem (u32 (offset / cs)) s start pointer)
          λ cluster s1 kept.
            let m = min size (s1.node.size - offset) in
            let same : m ≡ n = ap (λ (k : ℕ). min size (k - offset)) kept.0 in
            Holds-raise_if ⊥ IsEio (IsPart n s) eio _ _ s1 refl λ good.
              Holds-bind ⊥ IsEio (Got m s1) (IsPart n s)
                (read_clusters D m cs (offset % cs) m cluster) _ s1
                (read_clusters_lem m cs (offset % cs) m cluster s1 (mod-lt_cluster s.ef.sb offset)
                  (omega arith))
                λ bytes s2 got.
                  Holds->> ⊥ IsEio (λ u. Sized s) (IsPart n s) _ (pure (m, bytes)) s2
                    (atime_lem atime now s s2 (subst (λ t. Sized s t) (sym got.1) kept))
                    λ u s3 sized. record { ret = same; stored = got.0 ∙ same; sizes = sized }
