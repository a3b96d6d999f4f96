-- ===== src/Reading.antt =====
-- `dvdcss_seek` and `dvdcss_read` of src/libdvdcss.c: what a client calls.
pub mod Descrambled
pub mod Clients
mod Tests
use libdvdcss.Common.{
  ℕ, zero, suc, ◌+◌, Bool, true, false, not, ◌&&◌, ◌||◌, Option, none, some, List, [], ◌∷◌, ◌++◌,
  if◌then◌else◌, ◌==◌, take, drop, set, ◌&◌,
}
use libdvdcss.Keys.{DvdKey, byte, zero_key}
use libdvdcss.DiscKey.{key_eq}
use libdvdcss.Unscramble.{block_size, dvdcss_unscramble}
use libdvdcss.Dvdcss.{
  Dvdcss, Drive, Method, method_key, method_disc, method_title, pf_seek, pf_read,
}
use libdvdcss.Titles.{Library, Store, dvdcss_title}

-- `DVDCSS_SEEK_MPEG` and `DVDCSS_SEEK_KEY`.
pub record SeekFlags : Type 0 where
  pub seek_mpeg : Bool
  pub seek_key : Bool

unfoldable pub is_title : Method → Bool
is_title method_key = false
is_title method_disc = false
is_title method_title = true

unfoldable pub checks_title : SeekFlags → Method → Bool
checks_title flags method = (flags.seek_mpeg && not (is_title method)) || flags.seek_key

-- The result is the position reached, and `none` for -1.
unfoldable pub seek_blocks : Drive → ℕ → Library → Option ℕ × Library
seek_blocks drive blocks l =
    let (reached, css) = pf_seek drive blocks l.css in (reached, record l { css = css })

unfoldable pub seek_after : Drive → ℕ → Option (Bool × Library) → Option (Option ℕ × Library)
seek_after drive blocks none = none
seek_after drive blocks (some (true, l)) = some (seek_blocks drive blocks l)
seek_after drive blocks (some (false, l)) = some (none, l)

unfoldable pub dvdcss_seek :
    Drive → (DvdKey → Bool × DvdKey) → Store → ℕ → SeekFlags → Library → Option (Option ℕ × Library)
dvdcss_seek drive crack_disc_key store blocks flags l =
    if checks_title flags l.css.method
    then seek_after drive blocks (dvdcss_title drive crack_disc_key store blocks l)
    else some (seek_blocks drive blocks l)

-- A block at the head of the buffer is descrambled, and its scrambling bits are cleared.
unfoldable pub decrypt_block : DvdKey → List ℕ → List ℕ
decrypt_block key buffer =
    let clear = dvdcss_unscramble key buffer in set clear 0x14 (byte clear 0x14 & 0x8f)

unfoldable pub decrypt_blocks : DvdKey → ℕ → List ℕ → List ℕ
decrypt_blocks key zero buffer = buffer
decrypt_blocks key (suc n) buffer =
    let clear = decrypt_block key buffer in
    take block_size clear ++ decrypt_blocks key n (drop block_size clear)

-- Blocks that were read, with the title key; with a zero key they are only looked at.
unfoldable pub on_blocks : Dvdcss → Bool → ℕ × List ℕ → ℕ × List ℕ
on_blocks d decrypt (n, buffer) =
    if n == 0 || (not d.b_scrambled || (not decrypt || key_eq d.p_title_key zero_key))
    then (n, buffer)
    else (n, decrypt_blocks d.p_title_key n buffer)

unfoldable pub on_answer : Dvdcss → Bool → Option (ℕ × List ℕ) → Option (ℕ × List ℕ)
on_answer d decrypt none = none
on_answer d decrypt (some answer) = some (on_blocks d decrypt answer)

-- `decrypt` is `DVDCSS_READ_DECRYPT`. The result is the number of blocks and the buffer.
unfoldable pub dvdcss_read : Drive → ℕ → Bool → Dvdcss → Option (ℕ × List ℕ) × Dvdcss
dvdcss_read drive blocks decrypt d =
    let (answer, d') = pf_read drive blocks d in (on_answer d' decrypt answer, d')
