-- ===== src/Device.antt =====
-- `libc_seek`, `stream_seek`, `libc_read` and `stream_read` of src/device.c. The system is a
-- parameter: whether a seek to a byte succeeds, and how many bytes a read at a byte gives of those
-- that are wanted. What is read are the bytes of the disc.
pub mod InSync
pub mod Vectors
pub mod Windows
pub mod Scatter
pub mod WindowsReads
pub mod WindowsBuffer
pub mod Choice
pub mod DefaultDrive
mod Tests
mod WindowsTests
use libdvdcss.Common.{
  ℕ, zero, suc, ◌+◌, ◌-◌, ◌*◌, ◌/◌, Bool, true, false, Option, none, some, List, [], ◌∷◌, ◌++◌,
  if◌then◌else◌, ◌==◌, ltb, take, drop,
}
use libdvdcss.Unscramble.{block_size}

-- `none` is -1.
pub record System : Type 0 where
  pub disc : List ℕ
  pub seeks : ℕ → Bool
  pub gives : (offset wanted : ℕ) → Option ℕ

-- `i_pos`, where `none` is -1, and the offset of the file in bytes.
pub record Handle : Type 0 where
  pub i_pos : Option ℕ
  pub offset : ℕ

unfoldable pub is_at : ℕ → Option ℕ → Bool
is_at blocks none = false
is_at blocks (some pos) = pos == blocks

-- `i_pos + n`
unfoldable pub advance : Option ℕ → ℕ → Option ℕ
advance (some pos) n = some (pos + n)
advance none zero = none
advance none (suc n) = some n

module _ (system : System) where
  -- `lseek` to an absolute offset returns it.
  unfoldable pub libc_seek : ℕ → Handle → Option ℕ × Handle
  libc_seek blocks h =
      let target = blocks * block_size in
      if is_at blocks h.i_pos
      then (some blocks, h)
      else if system.seeks target
      then (
        some (target / block_size),
        record { i_pos = some (target / block_size); offset = target },
      )
      else (none, record h { i_pos = none })

  -- The stream's `pf_seek` is given.
  unfoldable pub stream_seek : ℕ → Handle → Option ℕ × Handle
  stream_seek blocks h =
      let target = blocks * block_size in
      if is_at blocks h.i_pos
      then (some blocks, h)
      else if system.seeks target
      then (some blocks, record { i_pos = some blocks; offset = target })
      else (none, record h { i_pos = none })

  unfoldable pub bytes_at : ℕ → ℕ → List ℕ
  bytes_at offset n = take n (drop offset system.disc)

  -- The loop of `libc_read`: `got` bytes are in the buffer, `left` are wanted. Each round that goes
  -- on reads a byte at least, so that fuel of `left + 1` is enough. `none` is an error.
  unfoldable pub read_loop : (fuel got left : ℕ) → List ℕ → Handle → Option (ℕ × List ℕ) × Handle
  read_loop zero got left buffer h = (none, h)
  read_loop (suc fuel) got zero buffer h = (some (got, buffer), h)
  read_loop (suc fuel) got (suc left) buffer h = elim (system.gives h.offset (suc left)) [
    | none ↦ (none, record h { i_pos = none })
    | some zero ↦ (some (got, buffer), h)
    | some (suc n) ↦
        read_loop fuel (got + suc n) (suc left - suc n) (buffer ++ bytes_at h.offset (suc n))
          (record h { offset = h.offset + suc n })
  ]

  unfoldable pub settled : ℕ → List ℕ → Option ℕ × Handle → Option (ℕ × List ℕ) × Handle
  settled n buffer (none, h) = (none, h)
  settled n buffer (some reached, h) = (some (n, buffer), h)

  -- After a partial read the position is that of the blocks that are complete.
  unfoldable pub settle :
      (ℕ → Handle → Option ℕ × Handle)
      → Option ℕ
      → ℕ
      → List ℕ
      → Handle
      → Option (ℕ × List ℕ) × Handle
  settle seek none n buffer h = (none, h)
  settle seek (some pos) n buffer h = settled n buffer (seek pos (record h { i_pos = none }))

  unfoldable pub on_bytes :
      (ℕ → Handle → Option ℕ × Handle)
      → (Option ℕ → ℕ → Option ℕ)
      → ℕ
      → ℕ × List ℕ
      → Handle
      → Option (ℕ × List ℕ) × Handle
  on_bytes seek target blocks (ret, buffer) h =
      let n = ret / block_size in
      if ret == blocks * block_size
      then (some (n, buffer), record h { i_pos = advance h.i_pos n })
      else settle seek (target h.i_pos n) n buffer h

  unfoldable pub after_loop : ℕ → Option (ℕ × List ℕ) × Handle → Option (ℕ × List ℕ) × Handle
  after_loop blocks (none, h) = (none, h)
  after_loop blocks (some got, h) = on_bytes libc_seek advance blocks got h

  -- The number of blocks, with the bytes of the buffer, or `none` for an error.
  unfoldable pub libc_read : ℕ → Handle → Option (ℕ × List ℕ) × Handle
  libc_read blocks h =
      after_loop blocks (read_loop (blocks * block_size + 1) 0 (blocks * block_size) [] h)

  -- One call of the stream's `pf_read`; a partial read seeks to `i_ret_blocks`.
  unfoldable pub stream_read : ℕ → Handle → Option (ℕ × List ℕ) × Handle
  stream_read blocks h = elim (system.gives h.offset (blocks * block_size)) [
    | none ↦ (none, record h { i_pos = none })
    | some ret ↦
        on_bytes stream_seek (λ pos n. some n) blocks (ret, bytes_at h.offset ret)
          (record h { offset = h.offset + ret })
  ]
