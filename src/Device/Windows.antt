-- ===== src/Device/Windows.antt =====
-- `win2k_seek`, `win2k_read` and `win2k_readv` of src/device.c, over the system of Device.
-- `win2k_readv` reads into a buffer of its own and copies from it.
use libdvdcss.Common.{
  ℕ, zero, suc, ◌+◌, ◌-◌, ◌*◌, ◌/◌, ◌%◌, ◌^◌, Bool, true, ◌&&◌, Option, none, some, List, [], ◌∷◌,
  ◌++◌, if◌then◌else◌, ◌==◌, ltb, length, take, drop,
}
use libdvdcss.Unscramble.{block_size}
use libdvdcss.Device.{System, Handle, is_at, advance, bytes_at}
use libdvdcss.Device.Vectors.{total_length, on_readv}

-- `i_readv_buf_size`, and the bytes for which `p_readv_buffer` has room, `none` for NULL.
pub record Temporary : Type 0 where
  pub i_readv_buf_size : ℕ
  pub p_readv_buffer : Option ℕ

-- An access outside the buffer or past the last structure of `p_iovec`; or what is returned, with the
-- buffers that were written.
pub data Outcome : Type 0 where
  outside : Outcome
  finished : Option (ℕ × List (List ℕ)) → Handle → Outcome

unfoldable pub prepare : (mallocs : Bool) → ℕ → Temporary → Bool × Temporary
prepare mallocs count t =
    let size = count * block_size in
    if ltb t.i_readv_buf_size size
    then (
      mallocs,
      record { i_readv_buf_size = size; p_readv_buffer = if mallocs then some size else none },
    )
    else (true, t)

unfoldable pub put_first : List ℕ → Option (List (List ℕ)) → Option (List (List ℕ))
put_first buf none = none
put_first buf (some bufs) = some (buf ∷ bufs)

-- The copies: `contents` is in the buffer, and `left` of `blocks_read` blocks are to be copied.
module _ (contents : List ℕ) (capacity blocks_read : ℕ) where
  unfoldable pub scatter : ℕ → List ℕ → Option (List (List ℕ))
  scatter zero ls = some []
  scatter (suc left) [] = none
  scatter (suc left) (l ∷ ls) =
      let start = (blocks_read - suc left) * block_size in
      let rest = scatter (suc left - l / block_size) ls in
      if ltb capacity (start + l) then none else put_first (take l (drop start contents)) rest

-- What SetFilePointer returns, what is then in `li_seek.HighPart`, whether GetLastError gives another
-- value than NO_ERROR, and where the file stands.
pub record Moved : Type 0 where
  pub low : ℕ
  pub high : ℕ
  pub has_error : Bool
  pub reached : ℕ

abbrev pub invalid_set_file_pointer : ℕ
invalid_set_file_pointer = 0xffffffff

-- SetFilePointer is a parameter: the two halves of a distance from the start, and where the file
-- stands.
unfoldable pub win2k_seek : ((low high offset : ℕ) → Moved) → ℕ → Handle → Option ℕ × Handle
win2k_seek set_file_pointer blocks h =
    let quad = blocks * block_size in
    let moved = set_file_pointer (quad % 2 ^ 32) (quad / 2 ^ 32) h.offset in
    let block = (moved.high * 2 ^ 32 + moved.low) / block_size in
    if is_at blocks h.i_pos
    then (some blocks, h)
    else if moved.low == invalid_set_file_pointer && moved.has_error
    then (none, record { i_pos = none; offset = moved.reached })
    else (some block, record { i_pos = some block; offset = moved.reached })

module _ (system : System) where
  unfoldable pub win2k_read : ℕ → Handle → Option (ℕ × List ℕ) × Handle
  win2k_read blocks h = on_readv system (system.gives h.offset (blocks * block_size)) h

  unfoldable pub on_copied : ℕ → Handle → Option (List (List ℕ)) → Outcome
  on_copied blocks_read h none = outside
  on_copied blocks_read h (some bufs) =
      finished (some (blocks_read, bufs)) (record h { i_pos = advance h.i_pos blocks_read })

  -- After ReadFile has put `ret` bytes into the buffer, where `stale` follows them.
  unfoldable pub on_read_file : List ℕ → Option ℕ → List ℕ → ℕ → Handle → Outcome
  on_read_file stale none lengths ret h = outside
  on_read_file stale (some capacity) lengths ret h =
      let contents = bytes_at system h.offset ret ++ stale in
      let n = ret / block_size in
      if ltb capacity ret
      then outside
      else on_copied n (record h { offset = h.offset + ret })
          (scatter contents capacity n n lengths)

  unfoldable pub read_vectors : List ℕ → Option ℕ → List ℕ → Handle → Outcome
  read_vectors stale buffer lengths h =
      let total = total_length lengths in
      if total == 0 then finished (some (0, [])) h else elim (system.gives h.offset total) [
        | none ↦ finished none (record h { i_pos = none })
        | some ret ↦ on_read_file stale buffer lengths ret h
      ]

  unfoldable pub win2k_readv :
      (stale : List ℕ) (mallocs : Bool) (lengths : List ℕ)
      → Temporary
      → Handle
      → Outcome × Temporary
  win2k_readv stale mallocs lengths t h =
      let (ok, t') = prepare mallocs (length lengths) t in
      if ok
      then (read_vectors stale t'.p_readv_buffer lengths h, t')
      else (finished none (record h { i_pos = none }), t')
