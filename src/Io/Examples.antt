-- ===== src/Io/Examples.antt =====
-- A file on a device that is a function from places to bytes.
use exfat.Prelude.{
  ℕ, zero, suc, ◌+◌, ◌-◌, ◌≡◌, refl, ap, sym, ◌∙◌, true, false, some, [], ◌∷◌, ◌&&◌, ltb, leb,
  get_or, length, if◌then◌else◌, arith,
}
use mathlib.Core.Option.{some-injective}
use exfat.Prelude.Int.{pos}
use exfat.Prelude.Spans.{span, span_split}
use exfat.Prelude.Effect.Holds.{Holds}
use exfat.Bitmap.{Endian}
use exfat.Dirent.{allocate_node}
use exfat.Chain.{Device, File}
use exfat.Io.{generic_pwrite}
use exfat.Io.Reads.{IsExact}
use exfat.Io.Contiguous.{IsFlat}
use exfat.Io.Writes.{IsWritten, AtLeast, generic_pwrite-IsWritten}

length-span : (t : ℕ → ℕ) (offset n : ℕ) → length (span t offset n) ≡ n
unfolding span
length-span t offset zero = refl
length-span t offset (suc n) = ap suc (length-span t (offset + 1) n)

abbrev pub byte_device : Device
byte_device = record {
  Store = ℕ → ℕ;
  pread = λ t size offset. some (span t offset size);
  pwrite = λ t bytes offset. some λ i.
      if leb offset i && ltb i (offset + length bytes) then get_or bytes (i - offset) 0 else t i;
}

pub byte_device-IsExact : IsExact byte_device
byte_device-IsExact t size offset bytes h =
    ap length (sym (some-injective _ _ h)) ∙ length-span t offset size

pub byte_device-IsFlat : IsFlat byte_device
byte_device-IsFlat t a b offset bytes h = (
  span t offset a,
  span t (offset + a) b,
  refl,
  refl,
  sym (some-injective _ _ h) ∙ span_split t offset a b,
)

-- A contiguous file of 5,000 bytes in clusters 3 and 4, valid up to 4,500.
abbrev stored : File byte_device
stored = record {
  ef = record {
    dev = λ i. i;
    sb = record {
      fat_sector_start = 0;
      cluster_sector_start = 1;
      cluster_count = 6;
      sector_bits = 9;
      spc_bits = 3;
    };
    cmap = record { start_cluster = 2; size = 6; chunk = 0x07 ∷ []; chunk_size = 6; dirty = false };
  };
  node = record allocate_node {
    start_cluster = 3;
    fptr_cluster = 3;
    is_contiguous = true;
    valid_size = 4500;
    size = 5000;
  };
}

generic_pwrite-IsWritten_example :
    Holds
      (Unit {0})
      (AtLeast byte_device 5000)
      (IsWritten byte_device 2 6000 stored)
      (generic_pwrite byte_device Endian.big false (pos 9) (1 ∷ 2 ∷ []) (pos 6000) stored)
generic_pwrite-IsWritten_example =
    generic_pwrite-IsWritten byte_device Endian.big false (pos 9) (1 ∷ 2 ∷ []) 6000 stored
      (omega arith) (omega arith)
