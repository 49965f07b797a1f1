-- ===== src/Window/Examples.antt =====
-- A medium whose bytes are their places, in blocks of 4, and a partition at its 5th byte.
use exfat.Prelude.{ℕ, ◌^◌, ◌-◌, ◌≡◌, refl, none, some, [], ◌∷◌, inl, arith}
use exfat.Prelude.Int.{pos}
use exfat.Prelude.Effect.{done, ◌>>◌}
use exfat.Chain.{Device}
use exfat.Window.{Window, no_block, Dev, partition_read}
use exfat.Prelude.Spans.{span}
use exfat.Window.Cache.{IsMedium, IsReady}
use exfat.Window.Blocks.{IsWindow}
use exfat.Window.Reads.{partition_read-span}

abbrev place : ℕ → ℕ
place i = i

abbrev places : Device
places = record {
  Store = Unit {0};
  pread = λ t len off. some (span place off len);
  pwrite = λ t bytes off. none;
}

abbrev window : Window
window = record { firstbyte = 5; size = 100; blocksize = 4; maxtransfer = 8; mask = 2 ^ 32 - 2 }

abbrev fresh : Dev places
fresh = record { medium = tt; bounce = []; bounce_lba = no_block }

window-IsWindow : IsWindow window 2
window-IsWindow = record { bits = refl; small = omega arith; transfer = omega arith }

places-IsMedium : IsMedium places window tt place 108
places-IsMedium len off whole aligned inside = refl

fresh-IsReady : IsReady places window tt place 108 7 fresh
fresh-IsReady = record { same = refl; block = inl refl }

-- 18 bytes of a head, four blocks and a tail. The blocks go to an odd address, which the mask refuses.
partition_read-span_example :
    (s' : Dev places) × ((partition_read places window 18 0 (pos 2) fresh
        ≡ done (span place 7 18) s')
      × IsReady places window tt place 108 25 s')
partition_read-span_example =
    partition_read-span places window 2 tt place 108 window-IsWindow places-IsMedium (omega arith)
      refl (omega arith) 18 0 2 fresh (omega arith) (omega arith) fresh-IsReady

-- With a mask that refuses an address, a transfer through the buffer leaves it with a block that it is
-- not said to hold: the third read is at the place of the first and gives the bytes of the second.
abbrev masked : Window
masked = record { firstbyte = 0; size = 100; blocksize = 4; maxtransfer = 0; mask = 1 }

stale :
    (partition_read places masked 2 0 (pos 1)
        >> partition_read places masked 4 4 (pos 4)
        >> partition_read places masked 2 0 (pos 1))
      fresh
    ≡ done (5 ∷ 6 ∷ []) (record { medium = tt; bounce = 4 ∷ 5 ∷ 6 ∷ 7 ∷ []; bounce_lba = 0 })
unfolding partition_read ◌>>◌ span
stale = refl
