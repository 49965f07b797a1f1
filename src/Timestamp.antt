-- ===== src/Timestamp.antt =====
-- Timestamps: libexfat/time.c. `exfat_timezone` is an argument, in seconds, positive west of UTC;
-- `time_t` has a sign and `time_bits` bits: 31 on AmigaOS, 63 on a 64-bit host. `exfat_tzset` asks
-- the C library for the zone and is not modelled.
pub mod Roundtrip
mod Examples
use exfat.Prelude.{
  ℕ, zero, suc, ◌+◌, ◌-◌, ◌*◌, ◌/◌, ◌%◌, ◌^◌, bit_and, bit_or, Bool, true, false, ◌&&◌, ◌||◌, List,
  [], ◌∷◌, ◌==◌, ltb, leb, if◌then◌else◌, get_or,
}
use exfat.Prelude.Int.{ℤ, pos, negsuc, pos_part, neg_part, ◌+ℤ◌, ◌-ℤ◌, ltb_ℤ}

abbrev pub sec_in_min : ℕ
sec_in_min = 60

abbrev pub sec_in_hour : ℕ
sec_in_hour = 60 * sec_in_min

abbrev pub sec_in_day : ℕ
sec_in_day = 24 * sec_in_hour

abbrev pub sec_in_year : ℕ
sec_in_year = 365 * sec_in_day

abbrev pub exfat_epoch_year : ℕ
exfat_epoch_year = 1980

abbrev pub epoch_diff_days : ℕ
epoch_diff_days = (exfat_epoch_year - 1970) * 365 + (exfat_epoch_year - 1970) / 4

abbrev pub epoch_diff_sec : ℕ
epoch_diff_sec = epoch_diff_days * sec_in_day

abbrev pub leap_years : ℕ → ℕ
leap_years year = (exfat_epoch_year + year - 1) / 4 - (exfat_epoch_year - 1) / 4

abbrev pub is_leap_year : ℕ → Bool
is_leap_year year = (exfat_epoch_year + year) % 4 == 0

abbrev pub days_in_year : List ℕ
days_in_year = 0 ∷ 0 ∷ 31 ∷ 59 ∷ 90 ∷ 120 ∷ 151 ∷ 181 ∷ 212 ∷ 243 ∷ 273 ∷ 304 ∷ 334 ∷ []

-- A stamp as it stands in a directory entry.
pub record Stamp : Type 0 where
  pub date : ℕ
  pub time : ℕ
  pub centisec : ℕ
  pub tzoffset : ℕ

-- The three checks, each of which logs an error and returns 0.
abbrev bad_date : ℕ → ℕ → Bool
bad_date day month = day == 0 || month == 0 || ltb 12 month

abbrev bad_time : ℕ → ℕ → ℕ → Bool
bad_time hour min twosec = ltb 23 hour || ltb 59 min || ltb 29 twosec

-- Seconds since the Unix epoch of a local date and time.
abbrev local_time : ℕ → ℕ → ℕ → ℕ → ℕ → ℕ → ℕ → ℕ
local_time year month day hour min twosec centisec =
    epoch_diff_sec
    + (year * sec_in_year + leap_years year * sec_in_day)
    + get_or days_in_year month 0 * sec_in_day
    + (if is_leap_year year && ltb 2 month then sec_in_day else 0)
    + (day - 1) * sec_in_day
    + hour * sec_in_hour
    + min * sec_in_min
    + twosec * 2
    + centisec / 100

-- `(int8_t)(tzoffset << 1) * 15 * 60 / 2`, which is even before the division.
abbrev zone_seconds : ℕ → ℤ
zone_seconds tzoffset =
    let doubled = tzoffset * 2 % 2 ^ 8 in
    if ltb doubled (2 ^ 7)
    then pos (doubled * 15 * 60 / 2)
    else pos 0 -ℤ pos ((2 ^ 8 - doubled) * 15 * 60 / 2)

module _ (timezone : ℤ) where
  -- `if (tzoffset & 0x80)`.
  to_utc : ℕ → ℕ → ℤ
  to_utc tzoffset unix_time =
      if bit_and tzoffset 0x80 == 0
      then pos unix_time +ℤ timezone
      else pos unix_time -ℤ zone_seconds tzoffset

  unfoldable pub unix_time_of : Stamp → ℤ
  unfolding to_utc
  unix_time_of s =
      let day = bit_and s.date 0x1f in
      let month = bit_and (s.date / 2 ^ 5) 0xf in
      let year = s.date / 2 ^ 9 in
      let twosec = bit_and s.time 0x1f in
      let min = bit_and (s.time / 2 ^ 5) 0x3f in
      let hour = s.time / 2 ^ 11 in
      if bad_date day month
      then pos 0
      else if bad_time hour min twosec
      then pos 0
      else if ltb 199 s.centisec
      then pos 0
      else to_utc s.tzoffset (local_time year month day hour min twosec s.centisec)

-- What a `time_t` of `bits` bits and a sign keeps of a number, which is summed modulo its range.
unfoldable pub to_time_t : ℕ → ℤ → ℤ
to_time_t bits (pos n) =
    let low = n % (2 * 2 ^ bits) in
    if ltb low (2 ^ bits) then pos low else negsuc (2 * 2 ^ bits - 1 - low)
to_time_t bits (negsuc n) =
    let low = n % (2 * 2 ^ bits) in
    if ltb low (2 ^ bits) then negsuc low else pos (2 * 2 ^ bits - 1 - low)

unfoldable pub exfat2unix : ℕ → ℤ → Stamp → ℤ
unfolding unix_time_of to_time_t
exfat2unix bits timezone s = to_time_t bits (unix_time_of timezone s)

-- The loop over the months `i`, `i + 1`, …, with `n` rounds left: the month, and the days behind
-- its start. `days - leap_sub < k` is written `days < k + leap_sub`.
unfoldable pub month_loop : Bool → ℕ → ℕ → ℕ → ℕ × ℕ
month_loop leap zero i days = (0, days)
month_loop leap (suc n) i days =
    let rest = month_loop leap n (i + 1) days in
    let leap_day = if leap && i == 2 then 1 else 0 in
    let leap_sub = if leap && leb 3 i then 1 else 0 in
    if i == 12 || ltb days (get_or days_in_year (i + 1) 0 + leap_day + leap_sub)
    then (i, days - (get_or days_in_year i 0 + leap_sub))
    else rest

-- `(uint8_t)(-exfat_timezone / 60 / 15) | 0x80`; division goes towards zero.
zone_byte : ℤ → ℕ
zone_byte timezone =
    bit_or ((neg_part timezone / 60 / 15 + 2 ^ 8 - pos_part timezone / 60 / 15 % 2 ^ 8) % 2 ^ 8)
      0x80

unfoldable pub pack_date : ℕ → ℕ → ℕ → ℕ
pack_date day month year = bit_or (bit_or day (month * 2 ^ 5)) (year * 2 ^ 9) % 2 ^ 16

unfoldable pub pack_time : ℕ → ℕ → ℕ → ℕ
pack_time twosec min hour = bit_or (bit_or twosec (min * 2 ^ 5)) (hour * 2 ^ 11) % 2 ^ 16

-- The stamp of a number of seconds since the exFAT epoch, in local time. The centiseconds are
-- stored where the caller wants them.
unfoldable pub stamp_of : ℤ → ℕ → Stamp
unfolding month_loop zone_byte pack_date pack_time
stamp_of timezone seconds =
    let days = seconds / sec_in_day in
    let year = 4 * days / (4 * 365 + 1) % 2 ^ 16 in
    let month_days = month_loop (is_leap_year year) 12 1 (days - (year * 365 + leap_years year)) in
    record {
      date = pack_date (month_days.1 + 1) month_days.0 year;
      time =
          pack_time (seconds % sec_in_min / 2) (seconds % sec_in_hour / sec_in_min)
            (seconds % sec_in_day / sec_in_hour);
      centisec = seconds % 2 * 100;
      tzoffset = zone_byte timezone;
    }

-- A time before the exFAT epoch is stored as the epoch.
unfoldable pub unix2exfat : ℤ → ℤ → Stamp
unfolding stamp_of
unix2exfat timezone unix_time =
    let shift = pos epoch_diff_sec +ℤ timezone in
    let from = if ltb_ℤ unix_time shift then shift else unix_time in
    stamp_of timezone (pos_part (from -ℤ shift))
