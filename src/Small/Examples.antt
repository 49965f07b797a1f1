-- ===== src/Small/Examples.antt =====
-- A division by the long loop, and the two short ways.
use exfat.Prelude.{ℕ, ◌/◌, ◌%◌, ◌<◌, ◌≡◌, ◌⊎◌, refl, some, arith}
use exfat.Small.{udivmod64}
use exfat.Small.Division.{udivmod64-div_mod}

abbrev thousand : ℕ
thousand = 1000

abbrev wide : ℕ
wide = 0x123456789abcdef0

udivmod64-div_mod_example :
    ((thousand ≡ 0) × (udivmod64 wide thousand ≡ some (0, 0)))
    ⊎ ((0 < thousand) × (udivmod64 wide thousand ≡ some (wide / 1000, wide % 1000)))
udivmod64-div_mod_example = udivmod64-div_mod wide thousand (omega arith) (omega arith)

by_shift : udivmod64 wide 512 ≡ some (wide / 512, wide % 512)
unfolding udivmod64
by_shift = refl

by_loop : udivmod64 wide thousand ≡ some (wide / 1000, wide % 1000)
unfolding udivmod64
by_loop = refl

by_words : udivmod64 1000 7 ≡ some (142, 6)
unfolding udivmod64
by_words = refl

by_zero : udivmod64 7 0 ≡ some (0, 0)
unfolding udivmod64
by_zero = refl
