-- ===== src/Window.antt =====
-- Reads of a partition in amiga/dev_io.c: the blocks of the medium that hold the bytes asked for, through
-- a buffer of one block. The medium is the interface Device, whose calls are raw_io: a transfer that fails
-- or is short is `none`. An address is that of the caller's buffer; a result is the bytes stored there,
-- whose number is the return value. A read of whole blocks through the buffer does not say which block it
-- then holds, as in the source.
pub mod Cache
pub mod Blocks
pub mod Reads
mod Examples
use exfat.Prelude.{
  ℕ, zero, suc, ◌+◌, ◌-◌, ◌%◌, ◌^◌, min, bit_and, Bool, true, false, not, ◌&&◌, if◌then◌else◌,
  Option, none, some, List, [], ◌∷◌, ◌++◌, take, drop, ◌==◌, ltb, leb,
}
use exfat.Prelude.Int.{ℤ, pos, negsuc}
use exfat.Prelude.Effect.{
  eio, failed, done, Op, ◌>>=◌, ◌>>◌, pure, raise, stop, gets, modify, branch,
}
use exfat.Bitmap.{u32}
use exfat.Chain.{Device}

-- The constant fields of `struct exfat_dev`.
pub record Window : Type 0 where
  pub firstbyte : ℕ
  pub size : ℕ
  pub blocksize : ℕ
  pub maxtransfer : ℕ
  pub mask : ℕ

abbrev pub no_block : ℕ
no_block = 2 ^ 64 - 1

-- `x & ~blockmask`, for 32 bits.
abbrev pub whole_blocks : Window → ℕ → ℕ
whole_blocks w x = bit_and x (2 ^ 32 - w.blocksize)

unfoldable pub chunk_of : Window → ℕ → ℕ
chunk_of w len =
    let limited =
      if not (w.maxtransfer == 0) && ltb w.maxtransfer len
      then whole_blocks w w.maxtransfer
      else len in
    if limited == 0 then w.blocksize else limited

abbrev pub is_refused : Window → ℕ → Bool
is_refused w address = not (bit_and address (2 ^ 32 - 1 - w.mask) == 0)

module _ (D : Device) where
  -- The fields that reads change, and the medium.
  pub record Dev : Type 0 where
    pub medium : D.Store
    pub bounce : List ℕ
    pub bounce_lba : ℕ

  unfoldable pub raw_read : ℕ → ℕ → Op Dev (List ℕ)
  raw_read len off s = elim (D.pread s.medium len off) [
    | none ↦ failed eio s
    | some bytes ↦ done bytes s
  ]

  -- What is read first, and behind it what is read then.
  unfoldable pub join : Op Dev (List ℕ) → Op Dev (List ℕ) → Op Dev (List ℕ)
  unfolding ◌>>=◌ pure
  join first second = first >>= λ x. second >>= λ y. pure (x ++ y)

  unfoldable pub bounced_read : Window → ℕ → Op Dev (List ℕ)
  unfolding ◌>>=◌ ◌>>◌ pure modify raw_read
  bounced_read w off = raw_read (w.blocksize) off >>= λ bytes.
      modify (λ s. record s { bounce = bytes }) >> pure bytes

  unfoldable pub aligned_read : Window → ℕ → ℕ → ℕ → ℕ → Op Dev (List ℕ)
  unfolding join bounced_read raw_read chunk_of stop pure
  aligned_read w zero len address off = stop
  aligned_read w (suc fuel) len address off =
      let rest =
        λ (chunk : ℕ). aligned_read w fuel (len - chunk) (u32 (address + chunk)) (off + chunk) in
      if len == 0
      then pure []
      else if is_refused w address
      then join (bounced_read w off) (rest (w.blocksize))
      else join (raw_read (chunk_of w len) off) (rest (chunk_of w len))

  unfoldable pub fetch_block : Window → ℕ → Op Dev (List ℕ)
  unfolding ◌>>=◌ ◌>>◌ pure modify raw_read branch gets
  fetch_block w blockoff =
      branch (λ s. s.bounce_lba == blockoff) (gets (λ s. s.bounce))
        (modify (λ s. record s { bounce_lba = no_block })
          >> (raw_read (w.blocksize) blockoff >>= λ bytes.
              modify (λ s. record s { bounce = bytes; bounce_lba = blockoff }) >> pure bytes))

  -- `n` bytes of a block, from `head` on.
  unfoldable pub block_part : Window → ℕ → ℕ → ℕ → Op Dev (List ℕ)
  unfolding ◌>>=◌ pure fetch_block
  block_part w blockoff head n = fetch_block w blockoff >>= λ block. pure (take n (drop head block))

  unfoldable pub read_tail : Window → ℕ → ℕ → Op Dev (List ℕ)
  unfolding block_part pure
  read_tail w remaining abs = if remaining == 0 then pure [] else block_part w abs 0 remaining

  unfoldable pub read_middle : Window → ℕ → ℕ → ℕ → Op Dev (List ℕ)
  unfolding read_tail aligned_read join
  read_middle w remaining address abs =
      let n = whole_blocks w remaining in
      if ltb remaining (w.blocksize)
      then read_tail w remaining abs
      else join (aligned_read w (suc n) n address abs) (read_tail w (remaining - n) (abs + n))

  unfoldable pub read_head : Window → ℕ → ℕ → ℕ → Op Dev (List ℕ)
  unfolding read_middle block_part join
  read_head w size address abs =
      let head = bit_and abs (w.blocksize - 1) in
      let n = min (w.blocksize - head) size in
      if head == 0
      then read_middle w size address abs
      else join (block_part w (abs - head) head n)
          (read_middle w (size - n) (u32 (address + n)) (abs + n))

  unfoldable pub partition_read : Window → ℕ → ℕ → ℤ → Op Dev (List ℕ)
  unfolding read_head pure raise
  partition_read w size address (negsuc k) = pure []
  partition_read w size address (pos offset) =
      if size == 0
      then pure []
      else if leb w.size offset
      then pure []
      else if ltb w.size (offset + size)
      then raise eio
      else read_head w size address (w.firstbyte + offset)
