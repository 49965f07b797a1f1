-- ===== src/Chain/Pointer.antt =====
-- The file pointer `fptr_index`, `fptr_cluster`: a cache that does not show in what
-- `exfat_advance_cluster` returns.
use exfat.Prelude.{ℕ, suc, ◌≡◌, false, Option, some}
use exfat.Dirent.{Node}
use exfat.Chain.{Device, SuperBlock, Exfat, next_cluster, sb_cluster_invalid}

-- `n` steps from `a` to `b` along `next`, each of which reaches a valid cluster.
pub data Steps (sb : SuperBlock) (next : ℕ → Option ℕ) : ℕ → ℕ → ℕ → Type 0 where
  here : {a : ℕ} → Steps sb next a 0 a
  there :
      {a b c n : ℕ}
      → next a ≡ some b
      → sb_cluster_invalid sb b ≡ false
      → Steps sb next b n c
      → Steps sb next a (suc n) c

module _ (D : Device) (ef : Exfat D) (node : Node) where
  abbrev pub Walk : ℕ → ℕ → ℕ → Type 0
  Walk = Steps ef.sb (next_cluster D ef node)

-- The pointer of a node is right when it is where the walk from the start gets to.
abbrev pub IsPointer : (D : Device) → Exfat D → Node → Type 0
IsPointer D ef node = Walk D ef node node.start_cluster node.fptr_index node.fptr_cluster
