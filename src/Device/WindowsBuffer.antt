-- ===== src/Device/WindowsBuffer.antt =====
-- The buffer of `win2k_readv` of src/device.c between calls, and its other calls on a file of Windows.
use libdvdcss.Common.{
  ℕ, zero, suc, ◌+◌, ◌*◌, ◌≤◌, Bool, true, false, some, List, [], ◌∷◌, ◌/◌, ◌%◌, ◌^◌, ◌≡◌, refl, ap,
  ◌∙◌, inl, inr, ◌==◌, ne→==, ltb, length, replicate, arith, Bool-cases,
}
use libdvdcss.Unscramble.{block_size}
use libdvdcss.Device.{System, Handle, is_at, libc_seek}
use libdvdcss.Device.Vectors.{libc_readv, on_readv, total_length}
use libdvdcss.Device.Windows.{
  Temporary, Outcome, outside, finished, prepare, Moved, invalid_set_file_pointer, win2k_seek,
  win2k_read, win2k_readv,
}
use libdvdcss.Device.Scatter.{lengths_of, blocks_of}
use libdvdcss.Device.WindowsReads.{room, Gives, ReadvFrom, win2k_readv_lem}

-- The size is that of a buffer that is there.
abbrev pub HasBuffer : Temporary → Type 0
HasBuffer t = t.i_readv_buf_size ≤ room t.p_readv_buffer

unfoldable pub is_outside : Outcome → Bool
is_outside outside = true
is_outside (finished r h) = false

prepare-HasBuffer :
    (count : ℕ) (t : Temporary)
    → HasBuffer t
    → let (ok, t') = prepare true count t in
      (ok ≡ true) × HasBuffer t' × (count * block_size ≤ room t'.p_readv_buffer)
unfolding prepare
prepare-HasBuffer count t h = elim (Bool-cases (ltb t.i_readv_buf_size (count * block_size))) [
  | inl e ↦ rw (e) (refl, omega arith, omega arith)
  | inr e ↦
      let enough : count * block_size ≤ t.i_readv_buf_size = ground arith in
      rw (e) (refl, h, omega arith)
]

blocks_of-replicate : (n : ℕ) → blocks_of (replicate n 0) ≡ n
blocks_of-replicate zero = refl
blocks_of-replicate (suc n) = omega (arith, blocks_of-replicate n)

length-lengths_of : (n : ℕ) → length (lengths_of (replicate n 0)) ≡ n
length-lengths_of zero = refl
length-lengths_of (suc n) = ap (λ (k : ℕ). suc k) (length-lengths_of n)

is_outside-ReadvFrom :
    (system : System) (gives : Gives system) (pos wanted capacity : ℕ) (outcome : Outcome)
    → ReadvFrom system gives pos wanted capacity outcome
    → wanted * block_size ≤ capacity
    → is_outside outcome ≡ false
unfolding is_outside
is_outside-ReadvFrom system gives pos wanted capacity outside h enough = absurd (omega arith)
is_outside-ReadvFrom system gives pos wanted capacity (finished r h') h enough = refl

-- With buffers of one block each, and while malloc gives memory, win2k_readv stays inside its buffer
-- and its size remains that of the buffer, from any buffer whose size is right. A read gives no more
-- bytes than are wanted and on the disc.
pub win2k_readv-HasBuffer :
    (system : System) (gives : Gives system) (pos : ℕ) (stale : List ℕ) (n : ℕ) (t : Temporary)
    (h : Handle)
    → h.i_pos ≡ some pos
    → h.offset ≡ pos * block_size
    → HasBuffer t
    → let (outcome, t') = win2k_readv system stale true (lengths_of (replicate n 0)) t h in
      (is_outside outcome ≡ false) × HasBuffer t'
unfolding win2k_readv
win2k_readv-HasBuffer system gives pos stale n t h at offset has =
    let ls = lengths_of (replicate n 0) in
    let (ok, has', enough) = prepare-HasBuffer (length ls) t has in
    let reads = win2k_readv_lem system gives pos stale true (replicate n 0) t h at offset in
    let (_, after) = prepare true (length ls) t in
    let room_left : blocks_of (replicate n 0) * block_size ≤ room after.p_readv_buffer =
      omega (arith, enough, blocks_of-replicate n, length-lengths_of n) in
    (
      is_outside-ReadvFrom system gives pos (blocks_of (replicate n 0)) _ _ reads
          (rw (ok) room_left),
      rw (ok) has',
    )

-- What the documentation of SetFilePointer says: after a success it gives the halves of the new
-- place, and where the lower one is INVALID_SET_FILE_POINTER GetLastError gives NO_ERROR, while of
-- other values it says nothing; after a failure it returns INVALID_SET_FILE_POINTER, GetLastError
-- gives an error and the file stands where it was.
pub record MovesFile (system : System) (set_file_pointer : (low high offset : ℕ) → Moved)
    : Type 0 where
  pub moves :
      (low high offset : ℕ)
      → system.seeks (high * 2 ^ 32 + low) ≡ true
      → let moved = set_file_pointer low high offset in
        (moved.low ≡ low)
        × (moved.high ≡ high)
        × (moved.reached ≡ high * 2 ^ 32 + low)
        × ((low ≡ invalid_set_file_pointer) → moved.has_error ≡ false)
  pub refuses :
      (low high offset : ℕ)
      → system.seeks (high * 2 ^ 32 + low) ≡ false
      → let moved = set_file_pointer low high offset in
        (moved.low ≡ invalid_set_file_pointer) × (moved.has_error ≡ true) × (moved.reached ≡ offset)

-- With a SetFilePointer that keeps to its documentation win2k_seek returns what libc_seek returns, and
-- leaves the position and the file as libc_seek does, whatever GetLastError gives after a success.
pub win2k_seek-libc_seek :
    (system : System) (set_file_pointer : (low high offset : ℕ) → Moved) (blocks : ℕ) (h : Handle)
    → MovesFile system set_file_pointer
    → win2k_seek set_file_pointer blocks h ≡ libc_seek system blocks h
unfolding win2k_seek libc_seek
win2k_seek-libc_seek system set_file_pointer blocks h documented =
    let quad = blocks * block_size in
    let low = quad % 2 ^ 32 in
    let high = quad / 2 ^ 32 in
    let same : high * 2 ^ 32 + low ≡ quad = omega arith in
    elim (Bool-cases (is_at blocks h.i_pos)) [
      | inl there ↦ rw (there) refl
      | inr away ↦ elim (Bool-cases (system.seeks quad)) [
        | inl seeks ↦
            let (lows, highs, reached, _) =
              documented.moves low high h.offset (ap system.seeks same ∙ seeks) in
            let valid : (low == invalid_set_file_pointer) ≡ false =
              ne→== low invalid_set_file_pointer (λ e. absurd (omega arith)) in
            rw (away, seeks, lows, highs, reached, valid, same) refl
        | inr fails ↦
            let (lows, error, reached) =
              documented.refuses low high h.offset (ap system.seeks same ∙ fails) in
            rw (away, fails, lows, error, reached) refl
      ]
    ]

-- win2k_read at block `pos`, where the file is too, keeps what libc_readv keeps with one buffer.
pub win2k_read-libc_readv :
    (system : System) (blocks : ℕ) (h : Handle)
    → win2k_read system blocks h ≡ libc_readv system (blocks * block_size ∷ []) h
unfolding win2k_read libc_readv total_length
win2k_read-libc_readv system blocks h =
    ap (λ (wanted : ℕ). on_readv system (system.gives h.offset wanted) h) (omega arith)
