-- ===== src/Device/WindowsTests.antt =====
-- Vectored reads of Windows from a concrete disc.
use libdvdcss.Common.{
  ◌*◌, ◌+◌, not, ◌==◌, ◌^◌, ℕ, ◌-◌, Option, none, some, List, [], ◌∷◌, true, false, ◌≡◌, refl, ap,
  arith, replicate, length-replicate, min,
}
use libdvdcss.Device.{System, Handle, libc_seek}
use libdvdcss.Device.Vectors.{total_length}
use libdvdcss.Device.Windows.{
  Moved, invalid_set_file_pointer, Temporary, prepare, win2k_seek, on_read_file, read_vectors,
  win2k_readv,
}
use libdvdcss.Device.Scatter.{lengths_of}
use libdvdcss.Device.WindowsReads.{Gives, ReadvFrom, win2k_readv_lem}
use libdvdcss.Device.WindowsBuffer.{
  MovesFile, HasBuffer, is_outside, win2k_readv-HasBuffer, win2k_seek-libc_seek,
}

abbrev disc : List ℕ
disc = replicate 8192 7

-- Four blocks, read as far as the disc goes.
abbrev four_blocks : System
four_blocks = record {
  disc = disc;
  seeks = λ offset. true;
  gives = λ offset wanted. some (min (8192 - offset) wanted);
}

abbrev value : Option ℕ → ℕ
value none = 0
value (some n) = n

four_blocks-Gives : Gives four_blocks
four_blocks-Gives start wanted n e =
    let has = ap value e in
    let size = length-replicate 8192 (value (some 7)) in
    (omega (arith, has), omega (arith, has, size))

abbrev at_start : Handle
at_start = record { i_pos = some 0; offset = 0 }

abbrev no_buffer : Temporary
no_buffer = record { i_readv_buf_size = 0; p_readv_buffer = none }

-- One buffer of two blocks: room is made for one block, and two are read into it.
two_blocks :
    is_outside (win2k_readv four_blocks [] true (lengths_of (1 ∷ [])) no_buffer at_start).0 ≡ true
unfolding win2k_readv prepare read_vectors on_read_file is_outside total_length
two_blocks = refl

-- Without memory the size is set all the same, and the next call reads to NULL.
no_memory :
    let after = (win2k_readv four_blocks [] false (lengths_of (0 ∷ [])) no_buffer at_start).1 in
    is_outside (win2k_readv four_blocks [] true (lengths_of (0 ∷ [])) after at_start).0 ≡ true
unfolding win2k_readv prepare read_vectors on_read_file is_outside total_length
no_memory = refl

win2k_readv_lem_example :
    ReadvFrom four_blocks four_blocks-Gives 0 2 4096
      (win2k_readv four_blocks [] true (lengths_of (0 ∷ 0 ∷ [])) no_buffer at_start).0
unfolding win2k_readv prepare
win2k_readv_lem_example =
    win2k_readv_lem four_blocks four_blocks-Gives 0 [] true (0 ∷ 0 ∷ []) no_buffer at_start refl
      refl

win2k_readv-HasBuffer_example :
    let (outcome, after) =
      win2k_readv four_blocks [] true (lengths_of (replicate 2 0)) no_buffer at_start in
    (is_outside outcome ≡ false) × HasBuffer after
win2k_readv-HasBuffer_example =
    win2k_readv-HasBuffer four_blocks four_blocks-Gives 0 [] 2 no_buffer at_start refl refl
      (omega arith)

-- GetLastError still gives an error of an earlier call after a success.
abbrev set_file_pointer : (low high offset : ℕ) → Moved
set_file_pointer low high offset = record {
  low = low;
  high = high;
  has_error = not (low == invalid_set_file_pointer);
  reached = high * 2 ^ 32 + low;
}

four_blocks-MovesFile : MovesFile four_blocks set_file_pointer
four_blocks-MovesFile = record {
  moves = λ low high offset seeks. (refl, refl, refl, λ e. ground arith);
  refuses = λ low high offset fails. absurd (cc);
}

win2k_seek-libc_seek_example :
    win2k_seek set_file_pointer 3 at_start ≡ libc_seek four_blocks 3 at_start
win2k_seek-libc_seek_example =
    win2k_seek-libc_seek four_blocks set_file_pointer 3 at_start four_blocks-MovesFile
