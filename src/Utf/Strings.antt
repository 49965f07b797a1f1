-- ===== src/Utf/Strings.antt =====
-- Whole strings: what `utf16_to_utf8` makes of a name, `utf8_to_utf16` turns back into it.
use mathlib.Core.List.{append_assoc}
use exfat.Prelude.{
  ℕ, zero, suc, ◌+◌, ◌-◌, ◌≤◌, ◌<◌, ◌≡◌, ◌≢◌, refl, ap, sym, ◌∙◌, false, Option, none, some, List,
  [], ◌∷◌, ◌++◌, ◌==◌, length, length-append, arith,
}
use exfat.Utf.{
  Converted, done, illegal, too_long, out_of_fuel, prepend, terminate, after_char, after_unit,
  utf16_to_wchar, wchar_to_utf8, utf16_loop, utf8_to_wchar, wchar_to_utf16, utf8_loop,
  utf16_to_utf8, utf8_to_utf16,
}
use exfat.Utf.Utf8.{utf8_to_wchar-wchar_to_utf8}
use exfat.Utf.Utf16.{IsText, Read, utf16_to_wchar-Read}

-- The string in `out` ends at its NUL, fits its buffer, and reads back as `input`.
pub record ReadsBack (input : List ℕ) (room : ℕ) (out : List ℕ) : Type 0 where
  pub text : List ℕ
  pub terminated : out ≡ text ++ 0 ∷ []
  pub bound : length out ≤ room
  pub back :
      (fuel room' : ℕ)
      → length text ≤ fuel
      → length input < room'
      → utf8_loop fuel text room' ≡ done (input ++ 0 ∷ [])

ReadsBack-nil : (room : ℕ) (out : List ℕ) → terminate room ≡ done out → ReadsBack [] room out
unfolding terminate utf8_loop
ReadsBack-nil room out h = record {
  text = [];
  terminated = ground arith;
  bound = ground arith;
  back = λ fuel room' f r. nil fuel room' r;
}
  where
    nil : (fuel room' : ℕ) → 0 < room' → utf8_loop fuel [] room' ≡ done (0 ∷ [])
    nil zero room' r = ground arith
    nil (suc fuel) room' r = ground arith

prepend-done :
    (bytes out : List ℕ) (c : Converted)
    → prepend bytes c ≡ done out
    → (more : List ℕ) × (c ≡ done more) × (out ≡ bytes ++ more)
unfolding prepend
prepend-done bytes out (done more) h = (more, refl, cc)
prepend-done bytes out illegal h = cc
prepend-done bytes out too_long h = cc
prepend-done bytes out out_of_fuel h = cc

-- One round of the reader.
loop_step :
    (bytes text : List ℕ) (wc fuel room : ℕ) (units : List ℕ)
    → utf8_to_wchar (bytes ++ text) ≡ some (wc, text)
    → 1 ≤ length bytes
    → length (bytes ++ text) ≤ suc fuel
    → wchar_to_utf16 wc room ≡ some units
    → wc ≢ 0
    → utf8_loop (suc fuel) (bytes ++ text) room
      ≡ prepend units (utf8_loop fuel text (room - length units))
unfolding utf8_loop after_unit
loop_step [] text wc fuel room units read some_bytes enough w nz = absurd (omega arith)
loop_step (b ∷ bs) text wc fuel room units read some_bytes enough w nz =
    let other : (wc == 0) ≡ false = ground arith in rw (read, utf8_loop) (rw (w, other))

module _ {wc : ℕ} (room : ℕ) {rest input bytes : List ℕ} (r : Read wc rest input)
    (w : wchar_to_utf8 wc room ≡ some bytes) where
  back_step :
      (text : List ℕ)
      → ((fuel room' : ℕ)
          → length text ≤ fuel
          → length rest < room'
          → utf8_loop fuel text room' ≡ done (rest ++ 0 ∷ []))
      → (fuel room' : ℕ) → length (bytes ++ text) ≤ fuel
      → length input < room'
      → utf8_loop fuel (bytes ++ text) room' ≡ done (input ++ 0 ∷ [])
  unfolding prepend
  back_step text ih zero room' f h =
      absurd
        (omega (arith, utf8_to_wchar-wchar_to_utf8 wc room bytes text w, length-append bytes text))
  back_step text ih (suc fuel) room' f h =
      let read = utf8_to_wchar-wchar_to_utf8 wc room bytes text w in
      let size : length input ≡ length r.units + length rest =
        ap length (sym r.whole) ∙ length-append r.units rest in
      loop_step bytes text wc fuel room' r.units read.0 read.2 f (r.back room' (omega arith))
        r.not_nul
      ∙ ap (prepend r.units) (
          ih fuel (room' - length r.units) (omega (arith, read.2, length-append bytes text))
            (omega arith))
      ∙ ap done (sym (append_assoc r.units rest (0 ∷ [])) ∙ ap (λ t. t ++ 0 ∷ []) r.whole)

  ReadsBack-step :
      (more : List ℕ)
      → ReadsBack rest (room - length bytes) more
      → ReadsBack input room (bytes ++ more)
  ReadsBack-step more m = record {
    text = bytes ++ m.text;
    terminated = ap (λ t. bytes ++ t) m.terminated ∙ sym (append_assoc bytes m.text (0 ∷ []));
    bound =
        omega (
          arith,
          m.bound,
          length-append bytes more,
          utf8_to_wchar-wchar_to_utf8 wc room bytes [] w,
        );
    back = back_step m.text m.back;
  }

-- The result of one round of the writer, from that of the rounds behind it.
char_step :
    (u fuel room : ℕ) (input out : List ℕ)
    → ((rest more : List ℕ) (room' : ℕ)
        → IsText rest
        → utf16_loop fuel rest room' ≡ done more
        → ReadsBack rest room' more)
    → IsText (u ∷ input)
    → utf16_loop (suc fuel) (u ∷ input) room ≡ done out
    → ReadsBack (u ∷ input) room out
unfolding utf16_loop after_char
char_step u fuel room input out ih t h = go (utf16_to_wchar (u ∷ input)) refl h
  where
    write :
        (wc : ℕ) (rest : List ℕ) (w : Option (List ℕ))
        → Read wc rest (u ∷ input)
        → wchar_to_utf8 wc room ≡ w
        → after_char wc w (λ n. utf16_loop fuel rest (room - n)) ≡ done out
        → ReadsBack (u ∷ input) room out
    write wc rest none r w h = cc
    write wc rest (some bytes) r w h =
        let other : (wc == 0) ≡ false = ground (arith, r.not_nul) in
        let (more, looped, whole) = prepend-done bytes out _ (rw other at h) in
        rw whole (ReadsBack-step room r w more (ih rest more (room - length bytes) r.text looped))

    go :
        (o : Option (ℕ × List ℕ))
        → utf16_to_wchar (u ∷ input) ≡ o
        → elim o [
          | none ↦ illegal
          | some (wc, rest) ↦
              after_char wc (wchar_to_utf8 wc room) (λ n. utf16_loop fuel rest (room - n))
        ]
          ≡ done out
        → ReadsBack (u ∷ input) room out
    go none e h = cc
    go (some (wc, rest)) e h =
        write wc rest (wchar_to_utf8 wc room) (utf16_to_wchar-Read u input wc rest t e) refl h

utf16_loop-ReadsBack :
    (fuel : ℕ) (input out : List ℕ) (room : ℕ)
    → IsText input
    → utf16_loop fuel input room ≡ done out
    → ReadsBack input room out
utf16_loop-ReadsBack zero [] out room t h = ReadsBack-nil room out (unfold utf16_loop in h)
utf16_loop-ReadsBack zero (u ∷ input) out room t h =
    let bad : out_of_fuel ≡ done out = unfold utf16_loop in h in cc bad
utf16_loop-ReadsBack (suc fuel) [] out room t h = ReadsBack-nil room out (unfold utf16_loop in h)
utf16_loop-ReadsBack (suc fuel) (u ∷ input) out room t h =
    char_step u fuel room input out (λ rest more room'. utf16_loop-ReadsBack fuel rest more room') t
      h

-- When a name of 16-bit units without NUL converts to UTF-8, the result fits the buffer and ends in
-- NUL, and the text before it converts back to the same name in any buffer that holds the name and its NUL.
pub utf8_to_utf16-utf16_to_utf8 :
    (input out : List ℕ) (outsize : ℕ)
    → IsText input
    → utf16_to_utf8 input outsize ≡ done out
    → (text : List ℕ) × (out ≡ text ++ 0 ∷ [])
      × (length out ≤ outsize)
      × ((room : ℕ) → length input < room → utf8_to_utf16 text room ≡ done (input ++ 0 ∷ []))
unfolding utf16_to_utf8 utf8_to_utf16
utf8_to_utf16-utf16_to_utf8 input out outsize t h =
    let r = utf16_loop-ReadsBack (length input) input out outsize t h in
    (r.text, r.terminated, r.bound, λ room fits. r.back (length r.text) room (omega arith) fits)
