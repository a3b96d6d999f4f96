-- ===== src/Readv/Agree.antt =====
-- `dvdcss_readv` of src/libdvdcss.c does to its buffers what `dvdcss_read` does to one.
use libdvdcss.Common.{
  ℕ, zero, suc, ◌*◌, ◌%◌, ◌≤◌, ◌<◌, Bool, true, false, not, ◌||◌, Option, none, some, List, [], ◌∷◌,
  ◌++◌, ◌≡◌, ◌≢◌, refl, ◌∙◌, ap, arith, length, take, drop, ◌==◌, ◌&◌, inl, inr, Bool-cases,
  length-append, length-drop, ltb, take-append_le, drop-append_le, get_or-append, set-append,
  length-set,
}
use libdvdcss.Keys.{DvdKey, byte, zero_key}
use libdvdcss.DiscKey.{key_eq}
use libdvdcss.DiscKey.Laws.{key_eq→≡}
use libdvdcss.Common.Bits.Fields.{bit_and_mask}
use libdvdcss.Unscramble.{block_size, dvdcss_unscramble, is_scrambled, descramble, start}
use libdvdcss.Unscramble.RoundTrip.{length-descramble}
use libdvdcss.Dvdcss.{Dvdcss, Drive, read, readv, pf_read, pf_readv, issue}
use libdvdcss.Reading.{decrypt_block, decrypt_blocks, on_blocks, on_answer, dvdcss_read}
use libdvdcss.Reading.Descrambled.{dvdcss_unscramble-append, length-rewrite_payload}
use libdvdcss.Readv.{
  vectored, gather_bytes, put_before, skip_empty, decrypt_vectors, decrypt_buffers, VectorResult,
  gave, finish_vectors, on_vectors, on_vector_answer, dvdcss_readv,
}

-- All lengths are multiples of the size of a block.
abbrev pub AreAligned : List (List ℕ) → Type 0
AreAligned [] = Unit
AreAligned (v ∷ vs) = (length v % block_size ≡ 0) × AreAligned vs

length-dvdcss_unscramble :
    (key : DvdKey) (c : List ℕ)
    → block_size ≤ length c
    → length (dvdcss_unscramble key c) ≡ length c
unfolding dvdcss_unscramble
length-dvdcss_unscramble key c whole = elim (Bool-cases (is_scrambled c == 0)) [
  | inl clear ↦ rw (clear) refl
  | inr flagged ↦
      rw (flagged) (
        length-rewrite_payload (descramble (start key c)) c (length-descramble (start key c)) whole)
]

length-decrypt_block :
    (key : DvdKey) (c : List ℕ) → block_size ≤ length c → length (decrypt_block key c) ≡ length c
unfolding decrypt_block
length-decrypt_block key c whole =
    length-set (dvdcss_unscramble key c) 0x14 _ ∙ length-dvdcss_unscramble key c whole

decrypt_block-append :
    (key : DvdKey) (c rest : List ℕ)
    → block_size ≤ length c
    → decrypt_block key (c ++ rest) ≡ decrypt_block key c ++ rest
unfolding decrypt_block
decrypt_block-append key c rest whole =
    let clear = dvdcss_unscramble key c in
    let long : 0x14 < length clear = omega (arith, length-dvdcss_unscramble key c whole) in
    rw (dvdcss_unscramble-append key c rest whole, get_or-append clear rest 0x14 0 long)
      (set-append clear rest 0x14 (byte clear 0x14 & 0x8f) long)

-- Skipping empty buffers loses no bytes, and finds a buffer where bytes are left.
skip_empty_lem :
    (rest : List ℕ) (vs : List (List ℕ))
    → 0 < length (rest ++ gather_bytes vs)
    → length rest % block_size ≡ 0
    → AreAligned vs
    → (v : List ℕ) × (ws : List (List ℕ)) × (skip_empty rest vs ≡ some (v, ws))
      × (rest ++ gather_bytes vs ≡ v ++ gather_bytes ws)
      × (block_size ≤ length v)
      × (length v % block_size ≡ 0)
      × AreAligned ws
unfolding skip_empty gather_bytes
skip_empty_lem (x ∷ xs) vs more aligned all = (x ∷ xs, vs, refl, refl, omega arith, aligned, all)
skip_empty_lem [] [] more aligned all = absurd (omega arith)
skip_empty_lem [] (v ∷ vs) more aligned all = skip_empty_lem v vs more all.0 all.1

decrypt_vectors-decrypt_blocks :
    (key : DvdKey) (n : ℕ) (rest : List ℕ) (vs : List (List ℕ))
    → n * block_size ≤ length (rest ++ gather_bytes vs)
    → length rest % block_size ≡ 0
    → AreAligned vs
    → decrypt_vectors key n rest vs ≡ vectored (decrypt_blocks key n (rest ++ gather_bytes vs))
unfolding decrypt_vectors decrypt_blocks put_before
decrypt_vectors-decrypt_blocks key zero rest vs room aligned all = refl
decrypt_vectors-decrypt_blocks key (suc n) rest vs room aligned all =
    let (v, ws, is, same, whole, aligned', all') =
      skip_empty_lem rest vs (omega arith) aligned all in
    let passes : (length rest & 0x7ff == 0) ≡ true =
      ap (λ (x : ℕ). x == 0) (bit_and_mask 11 (length rest) ∙ aligned) in
    let enough : ltb (length v) block_size ≡ false = ground arith in
    let clear = decrypt_block key v in
    let size = length-decrypt_block key v whole in
    let left = drop block_size clear in
    let total = length-append v (gather_bytes ws) in
    let total' = length-append left (gather_bytes ws) in
    let dropped = length-drop block_size clear in
    let same_length = ap length same in
    let ih = decrypt_vectors-decrypt_blocks key n left ws (omega arith) (omega arith) all' in
    rw
      (
        passes,
        is,
        enough,
        same,
        decrypt_block-append key v (gather_bytes ws) whole,
        take-append_le block_size clear (gather_bytes ws) (omega arith),
        drop-append_le block_size clear (gather_bytes ws) (omega arith),
      )
      (ap (put_before (take block_size clear)) ih)

-- The result of a read into one buffer as one into several.
abbrev pub as_vectors : Option (ℕ × List ℕ) → VectorResult
as_vectors none = gave none []
as_vectors (some (n, buffer)) = gave (some n) buffer

decrypt_buffers-decrypt_blocks :
    (key : DvdKey) (n : ℕ) (vs : List (List ℕ))
    → 0 < n
    → n * block_size ≤ length (gather_bytes vs)
    → AreAligned vs
    → decrypt_buffers key n vs ≡ vectored (decrypt_blocks key n (gather_bytes vs))
unfolding decrypt_buffers gather_bytes
decrypt_buffers-decrypt_blocks key n [] more room all = absurd (omega arith)
decrypt_buffers-decrypt_blocks key n (v ∷ vs) more room all =
    decrypt_vectors-decrypt_blocks key n v vs room all.0 all.1

on_vectors-on_blocks :
    (d : Dvdcss) (decrypt : Bool) (n : ℕ) (vs : List (List ℕ))
    → n * block_size ≤ length (gather_bytes vs)
    → AreAligned vs
    → d.p_title_key ≢ zero_key
    → on_vectors d decrypt (n, vs) ≡ as_vectors (some (on_blocks d decrypt (n, gather_bytes vs)))
unfolding on_vectors on_blocks finish_vectors
on_vectors-on_blocks d decrypt n vs room all has_key =
    let key = d.p_title_key in
    let not_zero : key_eq key zero_key ≡ false = elim (Bool-cases (key_eq key zero_key)) [
      | inl e ↦ absurd (has_key (key_eq→≡ key zero_key e))
      | inr e ↦ e
    ] in
    elim (Bool-cases (n == 0 || (not d.b_scrambled || not decrypt))) [
      | inl skips ↦
          let skips' : (n == 0 || (not d.b_scrambled || (not decrypt || key_eq key zero_key)))
              ≡ true =
            ground arith in
          rw (skips, skips') refl
      | inr goes ↦
          let goes' : (n == 0 || (not d.b_scrambled || (not decrypt || key_eq key zero_key)))
              ≡ false =
            ground arith in
          let decrypts = decrypt_buffers-decrypt_blocks key n vs (ground arith) room all in
          rw (goes, goes', decrypts) refl
    ]

-- Where the drive reads the same blocks into buffers of whole blocks as into one buffer, with room
-- for them, and the title key is not zero, dvdcss_readv returns the number of blocks that
-- dvdcss_read returns, its loop stays inside the buffers, and these then hold, one after the other,
-- the bytes that dvdcss_read puts into its buffer, with or without decryption.
pub dvdcss_readv-dvdcss_read :
    (drive : Drive) (lengths : List ℕ) (blocks n : ℕ) (vs : List (List ℕ)) (decrypt : Bool)
    (d : Dvdcss)
    → drive.vectors (readv lengths ∷ d.log) ≡ some (n, vs)
    → drive.blocks (read blocks ∷ d.log) ≡ some (n, gather_bytes vs)
    → n * block_size ≤ length (gather_bytes vs)
    → AreAligned vs
    → d.p_title_key ≢ zero_key
    → (dvdcss_readv drive lengths decrypt d).0 ≡ as_vectors (dvdcss_read drive blocks decrypt d).0
unfolding dvdcss_readv dvdcss_read pf_readv pf_read issue on_vector_answer on_answer on_blocks
dvdcss_readv-dvdcss_read drive lengths blocks n vs decrypt d answer answer' room all has_key =
    rw (answer, answer') (on_vectors-on_blocks _ decrypt n vs room all has_key)
