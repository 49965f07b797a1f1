-- ===== src/Timestamp/Examples.antt =====
-- A time of the year 2026, written one hour east of UTC.
use exfat.Prelude.{◌+◌, ◌*◌, ◌^◌, ◌≡◌, refl, arith}
use exfat.Prelude.Int.{pos, negsuc, ◌+ℤ◌, ◌-ℤ◌}
use exfat.Timestamp.{Stamp, exfat2unix, unix2exfat}
use exfat.Timestamp.Roundtrip.{exfat2unix-unix2exfat}

exfat2unix-unix2exfat_example :
    exfat2unix 31 (pos 0) (unix2exfat (negsuc 3599) (pos 1789000001)) ≡ pos 1789000001
unfolding ◌+ℤ◌
exfat2unix-unix2exfat_example =
    exfat2unix-unix2exfat 31 (negsuc 3599) (pos 0) (pos 1789000001) (refl, omega arith)
      (omega arith) (omega arith) (omega arith)

-- A stamp of the year 2040, in the two sizes of time_t.
abbrev later : Stamp
later = record { date = 60 * 2 ^ 9 + 1 * 2 ^ 5 + 1; time = 0; centisec = 0; tzoffset = 0x80 }

later_wide : exfat2unix 63 (pos 0) later ≡ pos 2208988800
unfolding exfat2unix ◌-ℤ◌
later_wide = refl

later_narrow : exfat2unix 31 (pos 0) later ≡ negsuc 2085978495
unfolding exfat2unix ◌-ℤ◌
later_narrow = refl
