-- ===== src/Tree/Scan.antt =====
-- The search of a directory for free entries that follow each other: find_slot of libexfat/node.c.
use exfat.Prelude.{
  ℕ, zero, suc, ◌+◌, ◌-◌, ◌*◌, ◌<◌, ◌≤◌, ◌≡◌, ◌≢◌, refl, sym, ap, subst, ◌∙◌, true, false, List,
  arith, ◌==◌, leb, if◌then◌else◌, Bool-cases, ==→eq, ==→ne, inl, inr,
}
use exfat.Prelude.Int.{ℤ}
use exfat.Prelude.Effect.{done, ◌>>=◌, ◌>>◌, pure, branch, recover}
use exfat.Prelude.Effect.Steps.{bind_done}
use exfat.Bitmap.{Endian, bmap_get}
use exfat.Bitmap.Words.{used, get-used}
use exfat.Chain.{Device}
use exfat.Tree.{Ptr, Fs}
use exfat.Tree.Entries.{entry_size}
use exfat.Tree.Marks.{FreeRange}
use exfat.Tree.Slots.{Slot, slot, short, check_slot, slot_is_free, scan_slots}

module _ (e : Endian) where
  abbrev pub IsSlot : ℕ → ℕ → List ℕ → Slot → Type 0
  IsSlot n count dmap (slot offset) =
      (k : ℕ) × ((offset ≡ k * entry_size) × ((k + n ≤ count) × FreeRange e dmap k (k + n)))
  IsSlot n count dmap (short contiguous offset) =
      (contiguous < n)
      × ((contiguous ≤ count)
          × ((contiguous ≢ 0 → offset ≡ (count - contiguous) * entry_size)
              × FreeRange e dmap (count - contiguous) count))

  module _ (D : Device) (now : ℤ) (dir : Ptr) (n count : ℕ) (dmap : List ℕ) (s : Fs D)
      (other : dir ≢ s.root) where
    slot_is_free_lem : (offset : ℕ) → slot_is_free D now dir offset n s ≡ done true s
    unfolding slot_is_free check_slot pure ◌>>◌ ◌>>=◌
    slot_is_free_lem offset =
        let elsewhere : (dir == s.root) ≡ false = ground (arith, other) in
        rw (slot_is_free, recover, ◌>>◌, ◌>>=◌, check_slot, branch, elsewhere) refl

    abbrev Scans : ℕ → ℕ → ℕ → ℕ → Type 0
    Scans fuel i contiguous offset =
        (found : Slot) × ((scan_slots D e now dir n dmap count fuel i contiguous offset s
            ≡ done found s)
          × IsSlot n count dmap found)

    -- The free entries before `i`, of which there are `contiguous`, start at `offset`.
    pub record IsRun (i contiguous offset : ℕ) : Type 0 where
      pub inside : i ≤ count
      pub back : contiguous ≤ i
      pub few : contiguous < n
      pub start : contiguous ≢ 0 → offset ≡ (i - contiguous) * entry_size
      pub free : FreeRange e dmap (i - contiguous) i

    abbrev start_of : ℕ → ℕ → ℕ → ℕ
    start_of i contiguous offset = if contiguous == 0 then i * entry_size else offset

    start_lem :
        (i contiguous offset : ℕ)
        → IsRun i contiguous offset
        → start_of i contiguous offset ≡ (i - contiguous) * entry_size
    start_lem i c offset r = elim (Bool-cases (c == 0)) [
      | inl none_yet ↦ rw none_yet (omega (arith, ==→eq c 0 none_yet))
      | inr some_free ↦ rw some_free (r.start (==→ne c 0 some_free))
    ]

    grow_run :
        (i c : ℕ)
        → used e dmap i ≡ false
        → FreeRange e dmap (i - c) i
        → FreeRange e dmap (i - c) (i + 1)
    grow_run i c free run k low high = elim (Bool-cases (k == i)) [
      | inl here ↦ ap (used e dmap) (==→eq k i here) ∙ free
      | inr before ↦ run k low (omega (arith, ==→ne k i before, high))
    ]

    scan_end :
        (fuel i c offset : ℕ)
        → leb count i ≡ true
        → scan_slots D e now dir n dmap count (suc fuel) i c offset s ≡ done (short c offset) s
    unfolding scan_slots pure
    scan_end fuel i c offset over = rw (scan_slots, branch, over) refl

    scan_used :
        (fuel i c offset : ℕ)
        → leb count i ≡ false
        → (bmap_get e dmap i == 0) ≡ false
        → scan_slots D e now dir n dmap count (suc fuel) i c offset s
          ≡ scan_slots D e now dir n dmap count fuel (i + 1) 0 offset s
    unfolding scan_slots
    scan_used fuel i c offset on taken = rw (scan_slots, branch, on, taken) refl

    scan_free :
        (fuel i c offset : ℕ)
        → leb count i ≡ false
        → (bmap_get e dmap i == 0) ≡ true
        → (c + 1 == n) ≡ false
        → scan_slots D e now dir n dmap count (suc fuel) i c offset s
          ≡ scan_slots D e now dir n dmap count fuel (i + 1) (c + 1) (start_of i c offset) s
    unfolding scan_slots
    scan_free fuel i c offset on free more = rw (scan_slots, branch, on, free, more) refl

    scan_found :
        (fuel i c offset : ℕ)
        → leb count i ≡ false
        → (bmap_get e dmap i == 0) ≡ true
        → (c + 1 == n) ≡ true
        → scan_slots D e now dir n dmap count (suc fuel) i c offset s
          ≡ done (slot (start_of i c offset)) s
    unfolding scan_slots pure
    scan_found fuel i c offset on free enough =
        rw (scan_slots, branch, on, free, enough)
          (bind_done (slot_is_free D now dir (start_of i c offset) n)
            (λ found.
              branch (λ t. found) (pure (slot (start_of i c offset)))
                (scan_slots D e now dir n dmap count fuel (i - c + 1) 0 (start_of i c offset)))
            s s true (slot_is_free_lem (start_of i c offset)))

    pub scan_slots_lem :
        (fuel i c offset : ℕ) → count - i < fuel → IsRun i c offset → Scans fuel i c offset
    scan_slots_lem zero i c offset enough r = absurd (omega arith)
    scan_slots_lem (suc fuel) i c offset enough r = elim (Bool-cases (leb count i)) [
      | inl over ↦
          let at_end : count ≡ i = ground (arith, over, r.inside) in
          (
            short c offset,
            (
              scan_end fuel i c offset over,
              subst
                  (λ m.
                    (c < n)
                    × ((c ≤ m)
                        × ((c ≢ 0 → offset ≡ (m - c) * entry_size) × FreeRange e dmap (m - c) m)))
                  (sym at_end) (r.few, (r.back, (r.start, r.free))),
            ),
          )
      | inr on ↦
          let below : i < count = ground (arith, on) in
          elim (Bool-cases (bmap_get e dmap i == 0)) [
            | inl unset ↦
                let free : used e dmap i ≡ false = ground (arith, get-used e dmap i, unset) in
                elim (Bool-cases (c + 1 == n)) [
                  | inl whole ↦ (
                    slot (start_of i c offset),
                    (
                      scan_found fuel i c offset on unset whole,
                      (
                        i - c,
                        (
                          start_lem i c offset r,
                          (
                            omega (arith, ==→eq (c + 1) n whole, below, r.back),
                            let to : i - c + n ≡ i + 1 =
                                  omega (arith, ==→eq (c + 1) n whole, r.back) in
                                subst (FreeRange e dmap (i - c)) (sym to)
                                  (grow_run i c free r.free),
                          ),
                        ),
                      ),
                    ),
                  )
                  | inr part ↦
                      let rest =
                        scan_slots_lem fuel (i + 1) (c + 1) (start_of i c offset)
                          (omega (arith, enough, below))
                          (record {
                            inside = omega (arith, below);
                            back = omega (arith, r.back);
                            few = omega (arith, r.few, ==→ne (c + 1) n part);
                            start = λ m. start_lem i c offset r ∙ omega (arith, r.back);
                            free =
                                let from : i + 1 - (c + 1) ≡ i - c = omega arith in
                                subst (λ m. FreeRange e dmap m (i + 1)) (sym from)
                                  (grow_run i c free r.free);
                          }) in
                      (rest.0, (scan_free fuel i c offset on unset part ∙ rest.1.0, rest.1.1))
                ]
            | inr set_bit ↦
                let rest =
                  scan_slots_lem fuel (i + 1) 0 offset (omega (arith, enough, below)) (record {
                    inside = omega (arith, below);
                    back = omega arith;
                    few = omega (arith, r.few);
                    start = λ m. absurd (m refl);
                    free = λ k low high. absurd (omega (arith, low, high));
                  }) in
                (rest.0, (scan_used fuel i c offset on set_bit ∙ rest.1.0, rest.1.1))
          ]
    ]
