-- ===== src/Io/Pread.antt =====
-- `exfat_generic_pread` as a whole.
use exfat.Prelude.{ℕ, ◌+◌, ◌-◌, ◌^◌, ◌≤◌, ◌<◌, min, ◌≡◌, Bool, List, length, get_or}
use exfat.Prelude.Int.{ℤ}
use exfat.Prelude.Effect.Holds.{Holds}
use exfat.Prelude.Effect.{Op}
use exfat.Chain.{Device, File}
use exfat.Io.Reads.{IsExact, Sized}

-- What a read returns, and what it stores.
pub record IsRead (D : Device) (size offset : ℕ) (s : File D) (r : ℕ × List ℕ) (s' : File D)
    : Type 0 where
  pub ret : r.0 ≡ min size (s.node.size - offset)
  pub stored : r.0 ≤ length r.1
  pub room : length r.1 ≤ size
  pub zeros : (i : ℕ) → s.node.valid_size ≤ offset + i → get_or r.1 i 0 ≡ 0
  pub sizes : Sized D s s'

module _ (D : Device) (exact : IsExact D) (atime : Bool) (now : ℤ) (size offset : ℕ) (s : File D)
    (start : 2 ≤ s.node.start_cluster) (pointer : 2 ≤ s.node.fptr_cluster)
    (ordered : s.node.valid_size ≤ s.node.size) (small : offset + size < 2 ^ 64) where
  abbrev Again : Type 0
  Again = ℕ → ℕ → Op (File D) (ℕ × List ℕ)
