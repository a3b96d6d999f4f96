-- ===== src/Readv.antt =====
-- `dvdcss_readv` of src/libdvdcss.c: a read into several buffers.
pub mod Agree
mod Tests
use libdvdcss.Common.{
  ℕ, zero, suc, ◌+◌, Bool, true, false, not, ◌&&◌, ◌||◌, Option, none, some, List, [], ◌∷◌, ◌++◌,
  if◌then◌else◌, ◌==◌, ltb, length, take, drop, map, ◌&◌,
}
use libdvdcss.Keys.{DvdKey}
use libdvdcss.Unscramble.{block_size}
use libdvdcss.Dvdcss.{Dvdcss, Drive, pf_readv}
use libdvdcss.Reading.{decrypt_block}

-- How the loop ends, with the bytes of all buffers, one after the other: it decrypts all blocks, it
-- meets a length that is no multiple of 2048 and returns -1, or it goes on behind the end of a
-- buffer, or of the array of buffers, where the behaviour is undefined.
pub data Vectored : Type 0 where
  vectored : List ℕ → Vectored
  misaligned : List ℕ → Vectored
  overrun : Vectored

-- The bytes of buffers, one after the other.
unfoldable pub gather_bytes : List (List ℕ) → List ℕ
gather_bytes [] = []
gather_bytes (v ∷ vs) = v ++ gather_bytes vs

-- What has been decrypted goes in front.
unfoldable pub put_before : List ℕ → Vectored → Vectored
put_before clear (vectored bytes) = vectored (clear ++ bytes)
put_before clear (misaligned bytes) = misaligned (clear ++ bytes)
put_before clear overrun = overrun

-- `while( iov_len == 0 )`: the buffer to go on in, from where it is not decrypted yet, and those
-- behind it.
unfoldable pub skip_empty : List ℕ → List (List ℕ) → Option (List ℕ × List (List ℕ))
skip_empty (x ∷ xs) vs = some (x ∷ xs, vs)
skip_empty [] [] = none
skip_empty [] (v ∷ vs) = skip_empty v vs

-- The loop over `i_index`. `rest` is what `iov_base` and `iov_len` give.
unfoldable pub decrypt_vectors : DvdKey → ℕ → List ℕ → List (List ℕ) → Vectored
decrypt_vectors key zero rest vs = vectored (rest ++ gather_bytes vs)
decrypt_vectors key (suc n) rest vs =
    let onward : Vectored = elim (skip_empty rest vs) [
      | none ↦ overrun
      | some (v, ws) ↦
          let clear = decrypt_block key v in
          let after = decrypt_vectors key n (drop block_size clear) ws in
          if ltb (length v) block_size then overrun else put_before (take block_size clear) after
    ] in
    if length rest & 0x7ff == 0 then onward else misaligned (rest ++ gather_bytes vs)

-- `iov_base` and `iov_len` of the first buffer.
unfoldable pub decrypt_buffers : DvdKey → ℕ → List (List ℕ) → Vectored
decrypt_buffers key n [] = overrun
decrypt_buffers key n (v ∷ vs) = decrypt_vectors key n v vs

-- The number that is returned, where `none` is -1, with the buffers.
pub data VectorResult : Type 0 where
  gave : Option ℕ → List ℕ → VectorResult
  undefined : VectorResult

unfoldable pub finish_vectors : ℕ → Vectored → VectorResult
finish_vectors n (vectored bytes) = gave (some n) bytes
finish_vectors n (misaligned bytes) = gave none bytes
finish_vectors n overrun = undefined

unfoldable pub on_vectors : Dvdcss → Bool → ℕ × List (List ℕ) → VectorResult
on_vectors d decrypt (n, vs) =
    if n == 0 || (not d.b_scrambled || not decrypt)
    then gave (some n) (gather_bytes vs)
    else finish_vectors n (decrypt_buffers d.p_title_key n vs)

unfoldable pub on_vector_answer : Dvdcss → Bool → Option (ℕ × List (List ℕ)) → VectorResult
on_vector_answer d decrypt none = gave none []
on_vector_answer d decrypt (some answer) = on_vectors d decrypt answer

-- `decrypt` is `DVDCSS_READ_DECRYPT`. A failed read leaves nothing in the buffers that counts.
unfoldable pub dvdcss_readv : Drive → List ℕ → Bool → Dvdcss → VectorResult × Dvdcss
dvdcss_readv drive lengths decrypt d =
    let (answer, d') = pf_readv drive lengths d in (on_vector_answer d' decrypt answer, d')
