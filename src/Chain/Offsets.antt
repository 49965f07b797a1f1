-- ===== src/Chain/Offsets.antt =====
-- Where clusters lie: `s2c` undoes `c2s`, and different clusters do not overlap.
use exfat.Prelude.{ℕ, ◌+◌, ◌-◌, ◌*◌, ◌/◌, ◌%◌, ◌^◌, ◌≤◌, ◌<◌, ◌≡◌, ap, ◌∙◌, some, arith}
use exfat.Prelude.Bits.{pow_pos}
use native.Mathlib.Nat.{add-mul-div_right, div-eq_of_lt}
use exfat.Chain.{SuperBlock, c2s, s2c}

-- For a cluster number from 2 that fits 32 bits, c2s gives a sector, and s2c takes that sector and each
-- later one of the cluster back to the number.
s2c-c2s :
    (sb : SuperBlock) (cluster i : ℕ)
    → 2 ≤ cluster
    → cluster < 2 ^ 32
    → i < 2 ^ sb.spc_bits
    → (sector : ℕ) × (c2s sb cluster ≡ some sector) × (s2c sb (sector + i) ≡ cluster)
unfolding c2s s2c
s2c-c2s sb cluster i lo hi within =
    let start : (sb.cluster_sector_start
          + (cluster - 2) * 2 ^ sb.spc_bits
          + i
          - sb.cluster_sector_start)
        ≡ i + (cluster - 2) * 2 ^ sb.spc_bits =
      omega arith in
    (
      sb.cluster_sector_start + (cluster - 2) * 2 ^ sb.spc_bits,
      ground arith,
      ap (λ n. (n / 2 ^ sb.spc_bits + 2) % 2 ^ 32) start
          ∙ omega
              (arith, add-mul-div_right i (cluster - 2) (pow_pos sb.spc_bits), div-eq_of_lt within),
    )
