-- ===== src/Io/Writes.antt =====
-- What `exfat_generic_pwrite` leaves of the sizes.
use exfat.Prelude.{
  ℕ, zero, suc, ◌+◌, ◌-◌, ◌/◌, ◌%◌, ◌^◌, ◌≤◌, ◌<◌, min, max, ◌≡◌, refl, ap, sym, ◌∙◌, Bool, true,
  false, Option, none, some, List, ◌==◌, ltb, take, drop, length, length-drop, arith, ==→eq, ltb→lt,
  if◌then◌else◌,
}
use exfat.Prelude.Int.{ℤ, pos}
use exfat.Prelude.Effect.{
  Rc, eio, Op, ◌>>=◌, Outcome, bug, failed, done, pure, stop, gets, or_stop, branch, modify,
}
use exfat.Prelude.Effect.Holds.{
  Holds, Holds-bind, Holds_map, Holds-branch, Holds-raise_if, Holds->>,
}
use exfat.Bitmap.{Endian, u32}
use exfat.Chain.{Device, File, sb_cluster_size}
use exfat.Chain.Resize.{seek, update, truncate}
use exfat.Chain.Sizes.{seek-Keeps}
use exfat.Chain.Truncate.{IsTruncated, IsUnchanged, truncate-IsTruncated}
use exfat.Io.{
  write_raw, write_clusters, write_chain, make_room, generic_pwrite, is_dir, update_mtime, u64,
}

module _ (D : Device) where
  -- The file is of size `size` and valid up to `valid`.
  abbrev Is : ℕ → ℕ → File D → Type 0
  Is size valid s = (s.node.size ≡ size) × (s.node.valid_size ≡ valid)

  abbrev pub AtLeast : ℕ → Rc → File D → Type 0
  AtLeast size rc s = size ≤ s.node.size

  any_option :
      {A C : Type 0} (Q : Rc → File D → Type 0) (P : C → File D → Type 0) (f : File D → Option A)
      (k : A → Op (File D) C) (s : File D)
      → ((a : A) → Holds (Unit {0}) Q P (k a s))
      → Holds (Unit {0}) Q P ((or_stop f >>= k) s)
  unfolding or_stop ◌>>=◌
  any_option {A} {C} Q P f k s holds = go (f s)
    where
      go :
          (o : Option A)
          → Holds
              (Unit {0})
              Q
              P
              (elim (elim o as (λ b. Outcome (File D) A) [ none ↦ bug | some a ↦ done a s ]) [
                | bug ↦ bug
                | failed rc s' ↦ failed rc s'
                | done a s' ↦ k a s'
              ])
      go none = tt
      go (some a) = holds a

  write_raw_lem :
      (size valid : ℕ) (bytes : List ℕ) (offset : ℕ) (s : File D)
      → Is size valid s
      → Holds (Unit {0}) (AtLeast size) (λ u. Is size valid) (write_raw D bytes offset s)
  unfolding write_raw
  write_raw_lem size valid bytes offset s i = go (D.pwrite s.ef.dev bytes offset)
    where
      go :
          (o : Option D.Store)
          → Holds
              (Unit {0})
              (AtLeast size)
              (λ u. Is size valid)
              (elim o [
                | none ↦ failed eio s
                | some dev ↦ done tt (record s { ef = record s.ef { dev = dev } })
              ])
      go none = omega (arith, i.0)
      go (some dev) = i

  -- The valid size after a write of `n` bytes that ends at `end`.
  abbrev written_to : ℕ → ℕ → ℕ → ℕ
  written_to valid n end = if n == 0 then valid else max valid end

  write_clusters_lem :
      (n cs end loffset cluster size valid : ℕ) (bytes : List ℕ) (s : File D)
      → length bytes ≤ end
      → end < 2 ^ 64
      → Is size valid s
      → Holds
          (Unit {0})
          (AtLeast size)
          (λ u. Is size (written_to valid (length bytes) end))
          (write_clusters D n cs end loffset bytes cluster s)
  unfolding write_clusters pure stop modify
  write_clusters_lem zero cs end loffset cluster size valid bytes s fits small i =
      Holds-branch (Unit {0}) (AtLeast size) (λ u. Is size (written_to valid (length bytes) end)) _
        (pure tt) stop s (λ h. (i.0, rw h i.1)) λ h. tt
  write_clusters_lem (suc n) cs end loffset cluster size valid bytes s fits small i =
      let Q = AtLeast size in
      let P = λ (u : Unit {0}). Is size (written_to valid (length bytes) end) in
      let lsize = min (cs - loffset) (length bytes) in
      let rest = drop lsize bytes in
      let reached = max valid (end - (length bytes - lsize)) in
      Holds-branch (Unit {0}) Q P _ (pure tt) _ s (λ h. (i.0, rw h i.1))
        λ h. Holds-raise_if (Unit {0}) Q P eio _ _ s (omega (arith, i.0)) λ good.
          any_option Q P _ _ s λ offset.
            Holds->> (Unit {0}) Q (λ u. Is size valid) P _ _ s
              (write_raw_lem size valid (take lsize bytes) (offset + loffset) s i)
              λ u s1 j.
                Holds->> (Unit {0}) Q (λ u'. Is size reached) P _ _ s1
                  (j.0, reached_lem lsize s1.node.valid_size j.1)
                  λ u' s2 k. any_option Q P _ _ s2 λ next.
                    Holds_map (Unit {0}) Q Q (λ u''. Is size (written_to reached (length rest) end))
                      P _
                      (write_clusters_lem n cs end 0 next size reached rest s2
                        (omega (arith, fits, length-drop lsize bytes)) small k)
                      (λ rc s3 least. least)
                      λ u'' s3 l. (l.0, l.1 ∙ whole_lem lsize (omega arith) h)
    where
      reached_lem :
          (lsize v : ℕ)
          → v ≡ valid
          → max v (u64 (end - (length bytes - lsize))) ≡ max valid (end - (length bytes - lsize))
      reached_lem lsize v same = omega (arith, same, small)

      whole_lem :
          (lsize : ℕ)
          → lsize ≤ length bytes
          → (length bytes == 0) ≡ false
          → written_to (max valid (end - (length bytes - lsize))) (length (drop lsize bytes)) end
            ≡ written_to valid (length bytes) end
      whole_lem lsize part some_bytes = rw (some_bytes, length-drop lsize bytes) (ground arith)

  stamped :
      (now : ℤ) (s : File D) (size valid : ℕ)
      → Is size valid s
      → Holds
          (Unit {0})
          (AtLeast size)
          (λ u. Is size valid)
          (branch (λ t. is_dir t.node) (pure tt) (update D (update_mtime now)) s)
  unfolding pure modify
  stamped now s size valid i =
      Holds-branch (Unit {0}) (AtLeast size) (λ u. Is size valid) _ (pure tt)
        (update D (update_mtime now)) s (λ h. i) λ h. i

  write_chain_lem :
      (now : ℤ) (offset size valid : ℕ) (bytes : List ℕ) (s : File D)
      → offset + length bytes < 2 ^ 64
      → Is size valid s
      → Holds
          (Unit {0})
          (AtLeast size)
          (λ n s'.
            (n ≡ length bytes)
            × Is size (written_to valid (length bytes) (offset + length bytes)) s')
          (write_chain D now bytes offset s)
  unfolding write_chain gets ◌>>=◌ pure
  write_chain_lem now offset size valid bytes s small i =
      let cs = sb_cluster_size s.ef.sb in
      let Q = AtLeast size in
      let end = offset + length bytes in
      let P = λ (n : ℕ) (s' : File D).
        (n ≡ length bytes) × Is size (written_to valid (length bytes) end) s' in
      Holds-bind (Unit {0}) Q (λ c. Is size valid) P (seek D (u32 (offset / cs))) _ s
        (Holds_map (Unit {0}) _ Q _ (λ c. Is size valid) (seek D (u32 (offset / cs)) s)
          ((seek-Keeps D s.ef.sb valid size s.node.references (u32 (offset / cs))).kept s
            (record { same_sb = refl; same_valid = i.1; same_size = i.0; same_references = refl }))
          (λ rc s' k. omega (arith, k.same_size)) λ c s' k. (k.same_size, k.same_valid))
        λ cluster s1 j. Holds-raise_if (Unit {0}) Q P eio _ _ s1 (omega (arith, j.0)) λ good.
          Holds->> (Unit {0}) Q (λ u. Is size (written_to valid (length bytes) end)) P _ _ s1
            (write_clusters_lem (length bytes) cs end (offset % cs) cluster size valid bytes s1
              (omega arith) small j)
            λ u s2 k.
              Holds->> (Unit {0}) Q (λ u'. Is size (written_to valid (length bytes) end)) P _ _ s2
                (stamped now s2 size (written_to valid (length bytes) end) k) λ u' s3 l. (refl, l)

-- What a write of `n` bytes at an offset returns and leaves of the sizes.
pub record IsWritten (D : Device) (n offset : ℕ) (s : File D) (ret : ℕ) (s' : File D) : Type 0 where
  pub returned : ret ≡ n
  pub size : s'.node.size ≡ max s.node.size (offset + n)
  pub valid_size : s'.node.valid_size ≡ (
      if n == 0
      then (if ltb s.node.size offset then offset else s.node.valid_size)
      else max s.node.valid_size (offset + n))

module _ (D : Device) (e : Endian) (attached : Bool) (now : ℤ) where
  -- One of the two truncations that make room.
  truncated_lem :
      (new : ℕ) (erase : Bool) (s : File D)
      → Holds
          (Unit {0})
          (AtLeast D s.node.size)
          (λ u. Is D (max s.node.size new) (
            if ltb s.node.size new
            then (if erase then new else min s.node.valid_size new)
            else s.node.valid_size))
          (branch (λ t. ltb t.node.size new) (truncate D e attached now new erase) (pure tt) s)
  unfolding pure
  truncated_lem new erase s =
      let Q = AtLeast D s.node.size in
      let P = λ (u : Unit {0}). Is D (max s.node.size new) (
        if ltb s.node.size new
        then (if erase then new else min s.node.valid_size new)
        else s.node.valid_size) in
      Holds-branch (Unit {0}) Q P _ (truncate D e attached now new erase) (pure tt) s
        (λ h.
          Holds_map (Unit {0}) (λ rc. IsUnchanged D s) Q (λ u. IsTruncated D s new erase) P
            (truncate D e attached now new erase s)
            (truncate-IsTruncated D e attached now new erase s) (λ rc s' k. omega (arith, k.0))
            λ u s' k.
              let ne : (s.node.size == new) ≡ false = ground (arith, h) in
              let v = s.node.valid_size in
              (
                omega (arith, k.0, ltb→lt _ _ h),
                rw h (
                    k.1
                    ∙ ap (λ (b : Bool). if b then v else (if erase then new else min v new)) ne),
              ))
        λ h. (ground (arith, h), rw h refl)

  uncut :
      (size valid new : ℕ) → valid ≤ size → (if ltb size new then min valid new else valid) ≡ valid
  uncut size valid new h = ground arith

  v_lem :
      (size valid offset : ℕ)
      → valid ≤ size
      → (if ltb size offset then offset else valid) ≤ max size offset
  v_lem size valid offset h = ground arith

  final_lem :
      (size valid offset n : ℕ)
      → valid ≤ size
      → written_to D (if ltb size offset then offset else valid) n (offset + n)
        ≡ (if n == 0 then (if ltb size offset then offset else valid) else max valid (offset + n))
  final_lem size valid offset n h = ground arith

  make_room_lem :
      (n offset : ℕ) (s : File D)
      → offset + n < 2 ^ 64
      → s.node.valid_size ≤ s.node.size
      → Holds
          (Unit {0})
          (AtLeast D s.node.size)
          (λ u.
            Is D
              (max s.node.size (offset + n))
              (if ltb s.node.size offset then offset else s.node.valid_size))
          (make_room D e attached now n offset s)
  unfolding make_room
  make_room_lem n offset s small ordered =
      let v = if ltb s.node.size offset then offset else s.node.valid_size in
      let Q = AtLeast D s.node.size in
      let P = λ (u : Unit {0}). Is D (max s.node.size (offset + n)) v in
      let wide : u64 (offset + n) ≡ offset + n = omega (arith, small) in
      Holds->> (Unit {0}) Q (λ u. Is D (max s.node.size offset) v) P _ _ s
        (truncated_lem offset true s)
        λ u s1 i.
          Holds_map (Unit {0}) (AtLeast D s1.node.size) Q
            (λ u'. Is D (max s1.node.size (u64 (offset + n))) (
              if ltb s1.node.size (u64 (offset + n))
              then min s1.node.valid_size (u64 (offset + n))
              else s1.node.valid_size))
            P _ (truncated_lem (u64 (offset + n)) false s1) (λ rc s2 k. omega (arith, k, i.0))
            λ u' s2 k. (
              omega (arith, k.0, i.0, wide),
              k.1
                  ∙ uncut s1.node.size s1.node.valid_size (u64 (offset + n))
                      (omega (arith, i.0, i.1, v_lem s.node.size s.node.valid_size offset ordered))
                  ∙ i.1,
            )

  -- On any device, when the sum of offset and length does not wrap and the valid size is at most the
  -- size: a write that fails has not shrunk the file; one that succeeds returns the length of its
  -- buffer, leaves the larger of the size and the end of the write as the size, and raises the valid
  -- size to that end, or, when it is empty, to an offset past the size.
  pub generic_pwrite-IsWritten :
      (bytes : List ℕ) (offset : ℕ) (s : File D)
      → offset + length bytes < 2 ^ 64
      → s.node.valid_size ≤ s.node.size
      → Holds
          (Unit {0})
          (AtLeast D s.node.size)
          (IsWritten D (length bytes) offset s)
          (generic_pwrite D e attached now bytes (pos offset) s)
  unfolding generic_pwrite pure
  generic_pwrite-IsWritten bytes offset s small ordered =
      let n = length bytes in
      let v = if ltb s.node.size offset then offset else s.node.valid_size in
      let Q = AtLeast D s.node.size in
      let P = IsWritten D n offset s in
      Holds->> (Unit {0}) Q (λ u. Is D (max s.node.size (offset + n)) v) P _ _ s
        (make_room_lem n offset s small ordered)
        λ u s1 i.
          Holds-branch (Unit {0}) Q P _ (pure 0) (write_chain D now bytes offset) s1
            (λ h. record { returned = sym (==→eq n 0 h); size = i.0; valid_size = i.1 ∙ rw h refl })
            λ h.
              Holds_map (Unit {0}) (AtLeast D (max s.node.size (offset + n))) Q
                (λ r s'.
                  (r ≡ n) × Is D (max s.node.size (offset + n)) (written_to D v n (offset + n)) s')
                P _ (write_chain_lem D now offset (max s.node.size (offset + n)) v bytes s1 small i)
                (λ rc s2 k. omega (arith, k))
                λ r s2 k. record {
                  returned = k.0;
                  size = k.1.0;
                  valid_size = k.1.1 ∙ final_lem s.node.size s.node.valid_size offset n ordered;
                }
