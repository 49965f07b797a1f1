-- ===== src/Timestamp/Roundtrip.antt =====
-- A time that is stored in a directory entry reads back as it was, in any reader's time zone.
use exfat.Prelude.{
  ℕ, suc, ◌+◌, ◌-◌, ◌*◌, ◌/◌, ◌%◌, ◌^◌, ◌≤◌, ◌<◌, bit_and, bit_or, ◌≡◌, refl, ap, ◌∙◌, inl, inr,
  Bool, true, false, ◌&&◌, ◌==◌, ==_iff, ltb, if◌then◌else◌, get_or, arith, Bool-cases,
}
use native.Mathlib.Nat.{mod-eq_of_lt}
use exfat.Prelude.Tables.{all_below, all_below_sound}
use exfat.Prelude.Fields.{field_bit_or, bit_and_low, bit_and_field}
use exfat.Prelude.Int.{ℤ, pos, negsuc, pos_part, ◌+ℤ◌, ◌-ℤ◌, ◌≤ℤ◌, ltb_ℤ, one_part, int_laws}
use exfat.Timestamp.{
  sec_in_day, epoch_diff_sec, leap_years, is_leap_year, days_in_year, bad_date, bad_time,
  local_time, to_utc, unix_time_of, exfat2unix, to_time_t, month_loop, zone_byte, pack_date,
  pack_time, stamp_of, unix2exfat,
}

-- The month and the day that the loop finds make up the day of the year.
month_ok : Bool → ℕ → Bool
month_ok leap doy =
    let (m, r) = month_loop leap 12 1 doy in
    (get_or days_in_year m 0 + (if leap && ltb 2 m then 1 else 0) + r == doy)
    && ltb r 31
    && ltb 0 m
    && ltb m 13

month_table : all_below 365 (month_ok false) ≡ true
unfolding all_below month_ok month_loop
month_table = refl

leap_month_table : all_below 366 (month_ok true) ≡ true
unfolding all_below month_ok month_loop
leap_month_table = refl

record IsMonth (leap : Bool) (doy m r : ℕ) : Type 0 where
  sum : get_or days_in_year m 0 + (if leap && ltb 2 m then 1 else 0) + r ≡ doy
  day : r < 31
  low : 0 < m
  high : m < 13

month_loop-IsMonth :
    (leap : Bool) (doy : ℕ)
    → doy < (if leap then 366 else 365)
    → IsMonth leap doy (month_loop leap 12 1 doy).0 (month_loop leap 12 1 doy).1
unfolding month_ok
month_loop-IsMonth leap doy h = open_up (checked leap h)
  where
    checked : (leap : Bool) → doy < (if leap then 366 else 365) → month_ok leap doy ≡ true
    checked true h = all_below_sound 366 (month_ok true) doy leap_month_table h
    checked false h = all_below_sound 365 (month_ok false) doy month_table h

    open_up :
        month_ok leap doy ≡ true
        → IsMonth leap doy (month_loop leap 12 1 doy).0 (month_loop leap 12 1 doy).1
    open_up e = record {
      sum = ground arith;
      day = ground arith;
      low = ground arith;
      high = ground arith;
    }

-- The year of a day, and the day of that year.
year_of : ℕ → ℕ
year_of days = 4 * days / 1461

day_of_year-lt :
    (days : ℕ)
    → days < 46752
    → (year_of days < 128)
      × (year_of days * 365 + leap_years (year_of days) ≤ days)
      × (days - (year_of days * 365 + leap_years (year_of days))
          < (if is_leap_year (year_of days) then 366 else 365))
unfolding year_of
day_of_year-lt days h = (omega arith, omega arith, ground arith)

module _ (day month year : ℕ) (d : day < 32) (m : month < 16) (y : year < 128) where
  pack_date-sum : pack_date day month year ≡ day + month * 32 + year * 512
  unfolding pack_date
  pack_date-sum = ground (arith, field_bit_or 5 month day, field_bit_or 9 year (day + month * 32))

  date_fields :
      (bit_and (pack_date day month year) 0x1f ≡ day)
      × (bit_and (pack_date day month year / 2 ^ 5) 0xf ≡ month)
      × (pack_date day month year / 2 ^ 9 ≡ year)
  date_fields = rw pack_date-sum (
    omega (arith, bit_and_low 5 (day + month * 32 + year * 512)),
    omega (arith, bit_and_low 4 ((day + month * 32 + year * 512) / 2 ^ 5)),
    omega arith,
  )

module _ (twosec min hour : ℕ) (t : twosec < 32) (m : min < 64) (h : hour < 32) where
  pack_time-sum : pack_time twosec min hour ≡ twosec + min * 32 + hour * 2048
  unfolding pack_time
  pack_time-sum =
      ground (arith, field_bit_or 5 min twosec, field_bit_or 11 hour (twosec + min * 32))

  time_fields :
      (bit_and (pack_time twosec min hour) 0x1f ≡ twosec)
      × (bit_and (pack_time twosec min hour / 2 ^ 5) 0x3f ≡ min)
      × (pack_time twosec min hour / 2 ^ 11 ≡ hour)
  time_fields = rw pack_time-sum (
    omega (arith, bit_and_low 5 (twosec + min * 32 + hour * 2048)),
    omega (arith, bit_and_low 6 ((twosec + min * 32 + hour * 2048) / 2 ^ 5)),
    omega arith,
  )

-- A stamp of good fields is read as they are.
unix_time_of-fields :
    (timezone : ℤ) (day month year twosec min hour centisec tzoffset : ℕ)
    → (0 < day) × (day < 32)
    → (0 < month) × (month < 13)
    → year < 128
    → (twosec < 30) × (min < 60) × (hour < 24)
    → centisec < 200
    → unix_time_of timezone (record {
      date = pack_date day month year;
      time = pack_time twosec min hour;
      centisec = centisec;
      tzoffset = tzoffset;
    })
      ≡ to_utc timezone tzoffset (local_time year month day hour min twosec centisec)
unfolding unix_time_of
unix_time_of-fields timezone day month year twosec min hour centisec tzoffset d m y t c =
    let (day_is, month_is, year_is) = date_fields day month year d.1 (omega arith) y in
    let (twosec_is, min_is, hour_is) =
      time_fields twosec min hour (omega arith) (omega arith) (omega arith) in
    let good_date : bad_date day month ≡ false = ground arith in
    let good_time : bad_time hour min twosec ≡ false = ground arith in
    let good_cs : ltb 199 centisec ≡ false = ground arith in
    rw (day_is, month_is, year_is, twosec_is, min_is, hour_is, good_date, good_time, good_cs)

sum_up :
    (seconds y l p q r : ℕ)
    → y * 365 + l ≤ seconds / 86400
    → p + q + r ≡ seconds / 86400 - (y * 365 + l)
    → 315532800
        + (y * 31536000 + l * 86400)
        + p * 86400
        + q * 86400
        + (r + 1 - 1) * 86400
        + seconds % 86400 / 3600 * 3600
        + seconds % 3600 / 60 * 60
        + seconds % 60 / 2 * 2
        + seconds % 2 * 100 / 100
      ≡ 315532800 + seconds
sum_up seconds y l p q r le e = omega arith

if_day : (b : Bool) → (if b then 86400 else 0) ≡ (if b then 1 else 0) * 86400
if_day true = refl
if_day false = refl

-- What `stamp_of` stores, read field by field.
module _ (timezone : ℤ) (seconds : ℕ) (small : seconds < 46752 * sec_in_day) where
  abbrev the_day : ℕ
  the_day = seconds / sec_in_day

  abbrev the_year : ℕ
  the_year = 4 * the_day / 1461 % 2 ^ 16

  abbrev the_month : ℕ × ℕ
  the_month =
      month_loop (is_leap_year the_year) 12 1 (the_day - (the_year * 365 + leap_years the_year))

  year_facts :
      (the_year < 128)
      × (the_year * 365 + leap_years the_year ≤ the_day)
      × IsMonth
          (is_leap_year the_year)
          (the_day - (the_year * 365 + leap_years the_year))
          the_month.0
          the_month.1
  unfolding year_of
  year_facts =
      let whole : the_year ≡ 4 * the_day / 1461 = omega arith in
      let days = day_of_year-lt the_day (omega arith) in
      rw whole (days.0, days.1, month_loop-IsMonth (is_leap_year (4 * the_day / 1461)) _ days.2)

  -- The six numbers make up the number of seconds.
  local_time-seconds :
      local_time the_year the_month.0
        (the_month.1 + 1)
        (seconds % 86400 / 3600)
        (seconds % 3600 / 60)
        (seconds % 60 / 2)
        (seconds % 2 * 100)
      ≡ epoch_diff_sec + seconds
  local_time-seconds =
      let m = the_month.0 in
      rw (if_day (is_leap_year the_year && ltb 2 m)) (
        sum_up seconds the_year (leap_years the_year) (get_or days_in_year m 0)
          (if is_leap_year the_year && ltb 2 m then 1 else 0) the_month.1 year_facts.1
          year_facts.2.sum)

  stamp_of-local :
      (here : ℤ)
      → unix_time_of here (stamp_of timezone seconds)
        ≡ to_utc here (zone_byte timezone) (epoch_diff_sec + seconds)
  unfolding stamp_of
  stamp_of-local here =
      unix_time_of-fields here (the_month.1 + 1) the_month.0 the_year (seconds % 60 / 2)
        (seconds % 3600 / 60) (seconds % 86400 / 3600) (seconds % 2 * 100) (zone_byte timezone)
        (omega (arith, year_facts.2.day)) (year_facts.2.low, year_facts.2.high) year_facts.0
        (omega arith) (omega arith)
      ∙ ap (to_utc here (zone_byte timezone)) local_time-seconds

-- A zone of whole quarters of an hour, from 63 behind UTC to 64 ahead... in seconds.
abbrev pub IsQuarters : ℤ → Type 0
IsQuarters (pos n) = (n % 900 ≡ 0) × (n ≤ 64 * 900)
IsQuarters (negsuc n) = ((n + 1) % 900 ≡ 0) × (n + 1 ≤ 63 * 900)

high_bit_table : all_below 256 (λ b. bit_or b 0x80 == 128 + b % 128) ≡ true
unfolding all_below
high_bit_table = refl

high_bit : (b : ℕ) → b < 256 → bit_or b 0x80 ≡ 128 + b % 128
high_bit b h = (==_iff _ _).0 (all_below_sound 256 _ b high_bit_table h)

-- Seven bits of two's complement under the mark bit.
marked_zone :
    (here : ℤ) (local b : ℕ)
    → b < 256
    → to_utc here (bit_or b 0x80) local ≡ (
        if ltb (b % 128) 64
        then pos local -ℤ pos (b % 128 * 900)
        else pos local -ℤ (pos 0 -ℤ pos ((128 - b % 128) * 900)))
unfolding to_utc
marked_zone here local b h =
    let byte : bit_or b 0x80 ≡ 128 + b % 128 = high_bit b h in
    let mark : (bit_and (128 + b % 128) 0x80 == 0) ≡ false =
      ground (arith, bit_and_field 7 1 (128 + b % 128)) in
    let doubled : (128 + b % 128) * 2 % 256 ≡ b % 128 * 2 = omega arith in
    let east : b % 128 * 2 * 15 * 60 / 2 ≡ b % 128 * 900 = omega arith in
    let west : (256 - b % 128 * 2) * 15 * 60 / 2 ≡ (128 - b % 128) * 900 = omega arith in
    let sign : ltb (b % 128 * 2) 128 ≡ ltb (b % 128) 64 = ground arith in
    rw (byte, mark, doubled, east, west, sign) (either (ltb (b % 128) 64))
  where
    either :
        (s : Bool)
        → (pos local -ℤ (if s then pos (b % 128 * 900) else pos 0 -ℤ pos ((128 - b % 128) * 900)))
          ≡ (if s
              then pos local -ℤ pos (b % 128 * 900)
              else pos local -ℤ (pos 0 -ℤ pos ((128 - b % 128) * 900)))
    either true = refl
    either false = refl

-- The recorded zone, whatever the reader's own is.
to_utc-zone_byte :
    (timezone here : ℤ) (local : ℕ)
    → IsQuarters timezone
    → to_utc here (zone_byte timezone) local ≡ pos local +ℤ timezone
unfolding zone_byte ◌+ℤ◌ ◌-ℤ◌
to_utc-zone_byte (pos n) here local q =
    rw (marked_zone here local ((256 - n / 60 / 15 % 256) % 256) (omega arith)) (ground arith)
to_utc-zone_byte (negsuc n) here local q =
    rw (marked_zone here local ((suc n / 60 / 15 + 256 - 0) % 256) (omega arith)) (ground arith)

stored :
    (timezone here from : ℤ)
    → IsQuarters timezone
    → pos epoch_diff_sec +ℤ timezone ≤ℤ from
    → from ≤ℤ pos (epoch_diff_sec + 46752 * sec_in_day - 1) +ℤ timezone
    → unix_time_of here (stamp_of timezone (pos_part (from -ℤ (pos epoch_diff_sec +ℤ timezone))))
      ≡ from
stored timezone here from q low top =
    let seconds = pos_part (from -ℤ (pos epoch_diff_sec +ℤ timezone)) in
    let sign = one_part (from -ℤ (pos epoch_diff_sec +ℤ timezone)) in
    stamp_of-local timezone seconds (omega int_laws) here
    ∙ to_utc-zone_byte timezone here (epoch_diff_sec + seconds) q
    ∙ omega int_laws

-- A number that a `time_t` holds.
abbrev pub IsTime : ℕ → ℤ → Type 0
IsTime bits (pos n) = n < 2 ^ bits
IsTime bits (negsuc n) = n < 2 ^ bits

to_time_t-IsTime : (bits : ℕ) (t : ℤ) → IsTime bits t → to_time_t bits t ≡ t
unfolding to_time_t
to_time_t-IsTime bits (pos n) h =
    let same : n % (2 * 2 ^ bits) ≡ n = mod-eq_of_lt (omega (arith, h)) in
    let low : ltb n (2 ^ bits) ≡ true = ground (arith, h) in rw (same, low) refl
to_time_t-IsTime bits (negsuc n) h =
    let same : n % (2 * 2 ^ bits) ≡ n = mod-eq_of_lt (omega (arith, h)) in
    let low : ltb n (2 ^ bits) ≡ true = ground (arith, h) in rw (same, low) refl

-- For a writer's zone of whole quarters of an hour, a time that the reader's time_t holds, as it holds the
-- epoch of the writer, and that is not after the 128 years from the exFAT epoch in that zone, reads back
-- exactly, whatever the zone of the reader; one before the epoch reads back as the epoch.
pub exfat2unix-unix2exfat :
    (bits : ℕ) (timezone here t : ℤ)
    → IsQuarters timezone
    → IsTime bits t
    → IsTime bits (pos epoch_diff_sec +ℤ timezone)
    → t ≤ℤ pos (epoch_diff_sec + 46752 * sec_in_day - 1) +ℤ timezone
    → exfat2unix bits here (unix2exfat timezone t)
      ≡ (if ltb_ℤ t (pos epoch_diff_sec +ℤ timezone) then pos epoch_diff_sec +ℤ timezone else t)
unfolding unix2exfat exfat2unix
exfat2unix-unix2exfat bits timezone here t q fits epoch_fits top =
    let shift = pos epoch_diff_sec +ℤ timezone in
    elim (Bool-cases (ltb_ℤ t shift)) [
      | inl early ↦ rw early (
          ap (to_time_t bits) (stored timezone here shift q (omega arith) (omega int_laws))
          ∙ to_time_t-IsTime bits shift epoch_fits)
      | inr late ↦ rw late (
          ap (to_time_t bits) (stored timezone here t q (ground arith) top)
          ∙ to_time_t-IsTime bits t fits)
    ]
