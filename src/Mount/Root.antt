-- ===== src/Mount/Root.antt =====
-- The size of the root directory is that of its chain.
use exfat.Prelude.{
  ℕ, zero, suc, ◌+◌, ◌*◌, ◌%◌, ◌^◌, ◌<◌, ◌≡◌, refl, ap, ◌∙◌, ◌⊎◌, inl, inr, true, false, some, ◌==◌,
  arith, ==→eq, Bool-cases, Option-cases,
}
use exfat.Bitmap.{cluster_end}
use exfat.Dirent.{Node}
use exfat.Chain.{Device, Exfat, next_cluster, sb_cluster_size, sb_cluster_invalid}
use exfat.Chain.Pointer.{here, there, Walk}
use exfat.Mount.{rootdir_from, rootdir_size}

-- From a valid cluster, `k` more valid ones and then the mark of the end.
pub record IsClosed (D : Device) (ef : Exfat D) (root : Node) (start k : ℕ) : Type 0 where
  pub last : ℕ
  pub valid : sb_cluster_invalid ef.sb start ≡ false
  pub chain : Walk D ef root start k last
  pub end : next_cluster D ef root last ≡ some cluster_end

module _ (D : Device) (ef : Exfat D) (root : Node) where
  next_cluster-valid :
      (c : ℕ)
      → sb_cluster_invalid ef.sb c ≡ false
      → (next : ℕ) × (next_cluster D ef root c ≡ some next)
  unfolding next_cluster
  next_cluster-valid c good = elim (Option-cases (next_cluster D ef root c)) [
    | inl e ↦ absurd (ground (arith, e, good))
    | inr found ↦ found
  ]

  step_invalid :
      (n clusters c : ℕ)
      → sb_cluster_invalid ef.sb c ≡ true
      → rootdir_from D ef root (suc n) clusters c ≡ some 0
  unfolding rootdir_from
  step_invalid n clusters c bad = rw (rootdir_from, bad) refl

  step_end :
      (n clusters c : ℕ)
      → sb_cluster_invalid ef.sb c ≡ false
      → next_cluster D ef root c ≡ some cluster_end
      → rootdir_from D ef root (suc n) clusters c
        ≡ some ((clusters + 1) * sb_cluster_size ef.sb % 2 ^ 64)
  unfolding rootdir_from
  step_end n clusters c good next = rw (rootdir_from, good, next) refl

  step_on :
      (n clusters c b : ℕ)
      → sb_cluster_invalid ef.sb c ≡ false
      → next_cluster D ef root c ≡ some b
      → (b == cluster_end) ≡ false
      → rootdir_from D ef root (suc n) clusters c ≡ rootdir_from D ef root n (clusters + 1) b
  unfolding rootdir_from
  step_on n clusters c b good next ne = rw (rootdir_from, good, next, ne) refl

  -- What the loop returns with `n` rounds left.
  Outcome : ℕ → ℕ → ℕ → Type 0
  Outcome n clusters c =
      (rootdir_from D ef root n clusters c ≡ some 0)
      ⊎ ((k : ℕ) × IsClosed D ef root c k
          × (k < n)
          × (rootdir_from D ef root n clusters c
              ≡ some ((clusters + k + 1) * sb_cluster_size ef.sb % 2 ^ 64)))

  rootdir_from-Outcome : (n clusters c : ℕ) → Outcome n clusters c
  unfolding rootdir_from Outcome
  rootdir_from-Outcome zero clusters c = inl refl
  rootdir_from-Outcome (suc n) clusters c = elim (Bool-cases (sb_cluster_invalid ef.sb c)) [
    | inl bad ↦ inl (step_invalid n clusters c bad)
    | inr good ↦ onward good (next_cluster-valid c good) (rootdir_from-Outcome n (clusters + 1))
  ]
    where
      onward :
          (good : sb_cluster_invalid ef.sb c ≡ false)
          → (next : ℕ) × (next_cluster D ef root c ≡ some next)
          → ((b : ℕ) → Outcome n (clusters + 1) b)
          → Outcome (suc n) clusters c
      onward good (b, next) later = elim (Bool-cases (b == cluster_end)) [
        | inl e ↦
            let ends : next_cluster D ef root c ≡ some cluster_end =
              next ∙ ap some (==→eq b cluster_end e) in
            let one : clusters + 1 ≡ clusters + 0 + 1 = omega arith in
            inr (
              0,
              record { last = c; valid = good; chain = here; end = ends },
              omega arith,
              step_end n clusters c good ends
                  ∙ ap (λ (t : ℕ). some (t * sb_cluster_size ef.sb % 2 ^ 64)) one,
            )
        | inr ne ↦ elim (later b) [
          | inl failed ↦ inl (step_on n clusters c b good next ne ∙ failed)
          | inr (k, closed, small, value) ↦
              let more : clusters + 1 + k + 1 ≡ clusters + (k + 1) + 1 = omega arith in
              inr (
                suc k,
                record {
                  last = closed.last;
                  valid = good;
                  chain = there next closed.valid closed.chain;
                  end = closed.end;
                },
                omega (arith, small),
                step_on n clusters c b good next ne
                    ∙ value
                    ∙ ap (λ (t : ℕ). some (t * sb_cluster_size ef.sb % 2 ^ 64)) (omega arith),
              )
        ]
      ]

  closed_lem :
      (n k clusters c last : ℕ)
      → ef.sb.cluster_count + 2 < 2 ^ 32
      → sb_cluster_invalid ef.sb c ≡ false
      → Walk D ef root c k last
      → next_cluster D ef root last ≡ some cluster_end
      → k < n
      → rootdir_from D ef root n clusters c
        ≡ some ((clusters + k + 1) * sb_cluster_size ef.sb % 2 ^ 64)
  closed_lem zero k clusters c last few good chain end small = absurd (omega (arith, small))
  closed_lem (suc n) k clusters c last few good here end small =
      step_end n clusters c good end
      ∙ ap (λ (t : ℕ). some (t * sb_cluster_size ef.sb % 2 ^ 64)) (omega arith)
  closed_lem (suc n) k clusters c last few good (there {b = b} {n = m} next valid chain) end small =
      step_on n clusters c b good next (ground (arith, valid, few))
      ∙ closed_lem n m (clusters + 1) b last few valid chain end (omega (arith, small))
      ∙ ap (λ (t : ℕ). some (t * sb_cluster_size ef.sb % 2 ^ 64)) (omega arith)

-- The loop over the clusters of the root directory ends, on any table: with 0, or with the size of a
-- chain from its first cluster to the mark of the end, of valid clusters and no more than the volume
-- has.
pub rootdir_size-IsClosed :
    (D : Device) (ef : Exfat D) (root : Node)
    → (rootdir_size D ef root ≡ some 0)
      ⊎ ((k : ℕ) × IsClosed D ef root root.start_cluster k
          × (k < ef.sb.cluster_count)
          × (rootdir_size D ef root ≡ some ((k + 1) * sb_cluster_size ef.sb % 2 ^ 64)))
unfolding rootdir_size Outcome
rootdir_size-IsClosed D ef root =
    elim (rootdir_from-Outcome D ef root ef.sb.cluster_count 0 root.start_cluster) [
      | inl failed ↦ inl failed
      | inr (k, closed, small, value) ↦ inr (
        k,
        closed,
        small,
        value ∙ ap (λ (t : ℕ). some (t * sb_cluster_size ef.sb % 2 ^ 64)) (omega arith),
      )
    ]

-- When the chain of the root directory is closed and no longer than the clusters of the volume, and
-- cluster numbers fit 32 bits, the size is that of its clusters.
rootdir_size-Walk :
    (D : Device) (ef : Exfat D) (root : Node) (k : ℕ)
    → ef.sb.cluster_count + 2 < 2 ^ 32
    → IsClosed D ef root root.start_cluster k
    → k < ef.sb.cluster_count
    → rootdir_size D ef root ≡ some ((k + 1) * sb_cluster_size ef.sb % 2 ^ 64)
unfolding rootdir_size
rootdir_size-Walk D ef root k few closed small =
    closed_lem D ef root ef.sb.cluster_count k 0 root.start_cluster closed.last few closed.valid
      closed.chain closed.end small
    ∙ ap (λ (t : ℕ). some (t * sb_cluster_size ef.sb % 2 ^ 64)) (omega arith)
