-- ===== src/Device/Tests.antt =====
-- Reads from a concrete disc, and the choice of a device.
use libdvdcss.Common.{
  ◌+◌, ◌<◌, ◌⊎◌, ◌∷◌, [], false, leb, ℕ, ◌-◌, [], ◌∷◌, true, Option, none, some, ◌≡◌, refl, min, ap,
  arith, replicate,
}
use libdvdcss.Device.{
  System, Handle, libc_read, stream_read, read_loop, after_loop, on_bytes, settle, settled,
  libc_seek, stream_seek, is_at, advance, bytes_at,
}
use libdvdcss.Device.Vectors.{
  libc_readv, on_readv, libc_readv_each, total_length, VectorsFrom, libc_readv_lem,
}
use libdvdcss.Cache.{windows, codes, is_empty}
use libdvdcss.Device.Choice.{
  Drives, Openings, win2k_calls, libc_calls, dvdcss_check_device, dvdcss_open_device,
  default_device, first_letter, in_mask, or_same, choose_calls, is_drive_name, open_by, letter,
}
use libdvdcss.Device.DefaultDrive.{IsFirst, default_drive_lem}
use libdvdcss.Device.InSync.{Obeys, ReadFrom, libc_read_lem}

-- Four blocks; a read gives at most 3000 bytes.
abbrev four_blocks : System
four_blocks = record {
  disc = replicate 8192 7;
  seeks = λ offset. true;
  gives = λ offset wanted. some (min (8192 - offset) (min 3000 wanted));
}

abbrev value : Option ℕ → ℕ
value none = 0
value (some n) = n

four_blocks-Obeys : Obeys four_blocks
four_blocks-Obeys offset wanted n e = omega (arith, ap value e)

abbrev at_block_two : Handle
at_block_two = record { i_pos = some 2; offset = 4096 }

-- Three blocks are wanted and two are there: libc_read stands behind them.
libc_position : (libc_read four_blocks 3 at_block_two).1.i_pos ≡ some 4
unfolding libc_read read_loop after_loop on_bytes settle settled libc_seek is_at advance bytes_at
libc_position = refl

-- One call gives a block and a part of the next: stream_read goes to block 1, not to block 3.
stream_position : (stream_read four_blocks 3 at_block_two).1.i_pos ≡ some 1
unfolding stream_read on_bytes settle settled stream_seek is_at advance bytes_at
stream_position = refl

libc_read_lem_example :
    ReadFrom four_blocks four_blocks-Obeys 2 3 (libc_read four_blocks 3 at_block_two)
libc_read_lem_example = libc_read_lem four_blocks four_blocks-Obeys 2 3 at_block_two refl refl

-- A read of 3000 bytes is one block; the file stands in the second one.
libc_vectors :
    (libc_readv four_blocks (2048 ∷ 2048 ∷ []) at_block_two).1
    ≡ record { i_pos = some 3; offset = 7096 }
unfolding libc_readv on_readv total_length advance
libc_vectors = refl

-- On Windows the blocks of one buffer are counted as bytes of the next one: of two blocks one is
-- counted.
each_vector :
    (libc_readv_each four_blocks (2048 ∷ 2048 ∷ []) 0 [] (record { i_pos = some 0; offset = 0 })).1
    ≡ record { i_pos = some 1; offset = 4096 }
unfolding libc_readv_each advance settle settled libc_seek is_at bytes_at
each_vector = refl

libc_readv_lem_example :
    VectorsFrom four_blocks four_blocks-Obeys 2 4096
      (some 3000)
      (libc_readv four_blocks (2048 ∷ 2048 ∷ []) at_block_two)
unfolding total_length
libc_readv_lem_example =
    libc_readv_lem four_blocks four_blocks-Obeys 2 (2048 ∷ 2048 ∷ []) at_block_two refl refl

-- The drives C:, D: and E:, of which the last two hold discs.
abbrev drives : Drives
drives = record {
  opens = λ name. false;
  logical_drives = 28;
  is_cdrom = λ i. leb 3 i;
  parameters = λ i. none;
}

abbrev openings : Openings
openings = record {
  opens_file = λ name. false;
  opens_drive = λ name. true;
  opens_drive_to_write = λ name. false;
}

chooses_d : dvdcss_check_device windows drives false [] ≡ codes "D:"
unfolding dvdcss_check_device default_device first_letter in_mask or_same is_empty
chooses_d = refl

-- The second attempt opens it.
opens_d : dvdcss_open_device windows openings false none (codes "D:") ≡ (win2k_calls, true)
unfolding dvdcss_open_device or_same choose_calls is_drive_name open_by letter
opens_d = refl

default_drive_lem_example :
    let name = dvdcss_check_device windows drives false [] in
    ((j : ℕ) × (name ≡ (65 + j) ∷ 58 ∷ [])
      × IsFirst (in_mask drives.logical_drives drives.is_cdrom) 32 0 j
      × ((dvdcss_open_device windows openings false none name).0 ≡ win2k_calls))
    ⊎ ((name ≡ [])
        × ((k : ℕ) → k < 32 → in_mask drives.logical_drives drives.is_cdrom k ≡ false)
        × ((dvdcss_open_device windows openings false none name).0 ≡ libc_calls))
default_drive_lem_example = default_drive_lem drives openings
