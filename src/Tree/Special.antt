-- ===== src/Tree/Special.antt =====
-- The entries of the root directory that are not files: the upper case table, the clusters bitmap and the
-- label, as `readdir` of libexfat/node.c reads them, and the repair of unknown ones (libexfat/repair.c).
use exfat.Prelude.{
  ℕ, zero, suc, ◌+◌, ◌*◌, ◌/◌, ◌%◌, bit_and, true, false, not, ◌||◌, none, some, List, [], ◌∷◌,
  ◌==◌, ltb, if◌then◌else◌, get_or, set, length, drop,
}
use exfat.Prelude.Int.{ℤ, pos}
use exfat.Prelude.Effect.{
  eio, failed, done, Op, ◌>>=◌, ◌>>◌, pure, raise, stop, gets, or_stop, modify, raise_if, branch,
  recover,
}
use exfat.Bitmap.{Endian, bmap_size, word_bytes, div_round_up}
use exfat.Utf.{Converted, utf16_to_utf8}
use exfat.Dirent.{field, units, ename_max, entry_valid}
use exfat.Chain.{Device, c2o, sb_cluster_invalid}
use exfat.Io.{generic_pwrite}
use exfat.Tree.{Ptr, null, Fs, load, on_file}
use exfat.Tree.Entries.{entry_size, erased}

abbrev pub entry_bitmap : ℕ
entry_bitmap = 0x81

abbrev pub entry_upcase : ℕ
entry_upcase = 0x82

abbrev pub entry_label : ℕ
entry_label = 0x83

abbrev pub upcase_chars : ℕ
upcase_chars = 0x10000

abbrev pub label_buffer_max : ℕ
label_buffer_max = ename_max * 3 + 1

-- The units from `n` on.
unfoldable pub identity_from : ℕ → ℕ → List ℕ
identity_from zero c = []
identity_from (suc n) c = c ∷ identity_from n (c + 1)

-- The units of the source, of which 0xffff is followed by the length of a run that is left alone.
unfoldable pub decompress_from : List ℕ → ℕ → List ℕ → List ℕ
decompress_from [] oi output = output
decompress_from (ch ∷ []) oi output = if ltb oi upcase_chars then set output oi ch else output
decompress_from (ch ∷ run ∷ source) oi output = elim (ltb oi upcase_chars) [
  | false ↦ output
  | true ↦ elim (ch == 0xffff) [
    | true ↦ decompress_from source (oi + run) output
    | false ↦ decompress_from (run ∷ source) (oi + 1) (set output oi ch)
  ]
]

unfoldable pub decompress_upcase : List ℕ → List ℕ
unfolding identity_from decompress_from
decompress_upcase source = decompress_from source 0 (identity_from upcase_chars 0)

-- The words of the bitmap, from its bytes.
unfoldable pub words_of : ℕ → ℕ → List ℕ → List ℕ
words_of size zero bytes = []
words_of size (suc n) bytes = field size bytes 0 ∷ words_of size n (drop size bytes)

module _ (D : Device) where
  unfoldable pub read_bytes : ℕ → ℕ → Op (Fs D) (List ℕ)
  read_bytes size offset s = elim (D.pread s.ef.dev size offset) [
    | none ↦ failed eio s
    | some bytes ↦ done bytes s
  ]

  abbrev pub raise_invalid : ℕ → Op (Fs D) (Unit {0})
  raise_invalid cluster = raise_if eio λ s. sb_cluster_invalid s.ef.sb cluster

  -- The table is read once.
  unfoldable pub read_upcase : List ℕ → Op (Fs D) (Unit {0})
  unfolding ◌>>=◌ ◌>>◌ pure branch raise_if or_stop modify read_bytes decompress_upcase units
  read_upcase entry = do
    let cluster = field 4 entry 20
    let size = field 8 entry 24
    raise_invalid cluster
    raise_if eio λ s. size == 0 || ltb (upcase_chars * 2) size || not (size % 2 == 0)
    offset ← or_stop λ s. c2o s.ef.sb cluster
    bytes ← read_bytes size offset
    modify λ s. record s {
      volume = record s.volume { upcase = decompress_upcase (units (size / 2) bytes) };
    }

  unfoldable pub read_bitmap : Endian → List ℕ → Op (Fs D) (Unit {0})
  unfolding ◌>>=◌ ◌>>◌ raise_if or_stop gets modify read_bytes bmap_size words_of
  read_bitmap e entry = do
    let cluster = field 4 entry 20
    modify
        λ s. record s { ef = record s.ef { cmap = record s.ef.cmap { start_cluster = cluster } } }
    raise_invalid cluster
    modify λ s. record s {
      ef = record s.ef { cmap = record s.ef.cmap { size = s.ef.sb.cluster_count } };
    }
    count ← gets λ s. s.ef.sb.cluster_count
    raise_if eio λ s. ltb (field 8 entry 24) (div_round_up count 8)
    modify λ s. record s { ef = record s.ef { cmap = record s.ef.cmap { chunk_size = count } } }
    offset ← or_stop λ s. c2o s.ef.sb cluster
    bytes ← read_bytes (bmap_size e count) offset
    let chunk = words_of (word_bytes e) (bmap_size e count / word_bytes e) bytes
    modify λ s. record s { ef = record s.ef { cmap = record s.ef.cmap { chunk = chunk } } }

  unfoldable pub set_converted : Converted → Op (Fs D) (Unit {0})
  unfolding modify raise stop
  set_converted (Converted.done out) = modify λ s. record s { label = out }
  set_converted Converted.illegal = raise eio
  set_converted Converted.too_long = raise eio
  set_converted Converted.out_of_fuel = stop

  unfoldable pub read_label : List ℕ → Op (Fs D) (Unit {0})
  unfolding ◌>>◌ raise_if set_converted units utf16_to_utf8
  read_label entry = do
    raise_if eio λ s. ltb ename_max (get_or entry 1 0)
    set_converted (utf16_to_utf8 (units ename_max (drop 2 entry)) label_buffer_max)

  module _ (e : Endian) (now : ℤ) where
    -- `exfat_fix_unknown_entry` of libexfat/repair.c, asked for by EXFAT_REPAIR.
    unfoldable pub fix_unknown_entry : Ptr → List ℕ → ℕ → Op (Fs D) (Unit {0})
    unfolding ◌>>=◌ ◌>>◌ load on_file raise_if raise recover
    fix_unknown_entry dir entry offset = do
      raise_if eio λ s. not s.volume.ask_to_fix
      i ← load D dir
      size ←
          recover
            (on_file D dir
              (generic_pwrite D e (not (i.parent == null)) now (erased entry) (pos offset)))
            λ rc. raise eio
      raise_if eio λ s. not (size == entry_size)

    -- An entry that is not of a file; one that is not valid is passed over.
    unfoldable pub read_special : Ptr → List ℕ → ℕ → Op (Fs D) (Unit {0})
    unfolding branch read_upcase read_bitmap read_label pure fix_unknown_entry
    read_special dir entry offset =
        let type = get_or entry 0 0 in
        branch (λ s. type == entry_upcase)
          (branch (λ s. length s.volume.upcase == 0) (read_upcase entry) (pure tt))
          (branch (λ s. type == entry_bitmap) (read_bitmap e entry)
            (branch (λ s. type == entry_label) (read_label entry)
              (branch (λ s. bit_and type entry_valid == 0) (pure tt)
                (fix_unknown_entry dir entry offset))))
