-- ===== src/Reading/Descrambled.antt =====
-- `dvdcss_read` of src/libdvdcss.c gives back the sectors that were scrambled.
use libdvdcss.Common.{
  ℕ, ◌≤◌, ◌<◌, true, false, not, ◌||◌, some, List, [], ◌∷◌, ◌++◌, ◌≡◌, ◌≢◌, refl, sym, ◌∙◌, ap,
  arith, ◌==◌, take, drop, set, length, take-append, drop-append, take-append_le, get_or-append,
  drop-append_le, set-append, length-set, length-append, length-take, length-drop, ◌-◌, ◌&◌,
  Bool-cases, inl, inr,
}
use libdvdcss.Keys.{DvdKey, AllBytes, byte, zero_key}
use libdvdcss.DiscKey.{key_eq}
use libdvdcss.DiscKey.Laws.{key_eq→≡}
use mathlib.Core.List.{append_assoc}
use libdvdcss.Unscramble.{
  block_size, payload_offset, dvdcss_unscramble, rewrite_payload, is_scrambled, start, descramble,
}
use libdvdcss.Unscramble.RoundTrip.{
  scramble, scramble_bytes, length-scramble_bytes, start_ext, is_scrambled_ext,
  dvdcss_unscramble-scramble,
}
use libdvdcss.Dvdcss.{Dvdcss, Drive, read, pf_read, issue}
use libdvdcss.Reading.{decrypt_block, decrypt_blocks, on_blocks, on_answer, dvdcss_read}

-- Sectors of bytes.
abbrev pub AreSectors : List (List ℕ) → Type 0
AreSectors [] = Unit
AreSectors (sec ∷ secs) = ((length sec ≡ block_size) × AllBytes sec) × AreSectors secs

-- What stands on the disc, and what a client is to see.
abbrev pub scrambled_sectors : DvdKey → List (List ℕ) → List ℕ
scrambled_sectors key [] = []
scrambled_sectors key (sec ∷ secs) = scramble key sec ++ scrambled_sectors key secs

abbrev pub clear_sectors : List (List ℕ) → List ℕ
clear_sectors [] = []
clear_sectors (sec ∷ secs) = set sec 0x14 (byte sec 0x14 & 0x8f) ++ clear_sectors secs

rewrite_payload-append :
    (f : List ℕ → List ℕ) (c rest : List ℕ)
    → block_size ≤ length c
    → rewrite_payload f (c ++ rest) ≡ rewrite_payload f c ++ rest
unfolding rewrite_payload
rewrite_payload-append f c rest whole =
    let head = take payload_offset c in
    let body = f (take (block_size - payload_offset) (drop payload_offset c)) in
    let short : block_size - payload_offset ≤ length (drop payload_offset c) =
      omega (arith, length-drop payload_offset c) in
    rw
      (
        take-append_le payload_offset c rest (omega arith),
        drop-append_le payload_offset c rest (omega arith),
        take-append_le (block_size - payload_offset) (drop payload_offset c) rest short,
        drop-append_le block_size c rest whole,
      )
      (ap (λ t. head ++ t) (sym (append_assoc body (drop block_size c) rest))
        ∙ sym (append_assoc head (body ++ drop block_size c) rest))

pub dvdcss_unscramble-append :
    (key : DvdKey) (c rest : List ℕ)
    → block_size ≤ length c
    → dvdcss_unscramble key (c ++ rest) ≡ dvdcss_unscramble key c ++ rest
unfolding dvdcss_unscramble
dvdcss_unscramble-append key c rest whole =
    let same = λ (i : ℕ) (h : i < payload_offset). get_or-append c rest i 0 (omega arith) in
    elim (Bool-cases (is_scrambled c == 0)) [
      | inl clear ↦ rw (is_scrambled_ext c (c ++ rest) same, clear) refl
      | inr flagged ↦
          rw (is_scrambled_ext c (c ++ rest) same, flagged, start_ext key c (c ++ rest) same)
            (rewrite_payload-append (descramble (start key c)) c rest whole)
    ]

pub length-rewrite_payload :
    (f : List ℕ → List ℕ) (c : List ℕ)
    → ((bs : List ℕ) → length (f bs) ≡ length bs)
    → block_size ≤ length c
    → length (rewrite_payload f c) ≡ length c
unfolding rewrite_payload
length-rewrite_payload f c keeps whole =
    let payload = take (block_size - payload_offset) (drop payload_offset c) in
    omega (
      arith,
      length-append (take payload_offset c) (f payload ++ drop block_size c),
      length-append (f payload) (drop block_size c),
      keeps payload,
      length-take payload_offset c,
      length-take (block_size - payload_offset) (drop payload_offset c),
      length-drop payload_offset c,
      length-drop block_size c,
    )

length-scramble :
    (key : DvdKey) (sec : List ℕ) → block_size ≤ length sec → length (scramble key sec) ≡ length sec
unfolding scramble
length-scramble key sec whole = elim (Bool-cases (is_scrambled sec == 0)) [
  | inl clear ↦ rw (clear) refl
  | inr flagged ↦ rw (flagged) (
      length-rewrite_payload (scramble_bytes (start key sec)) sec
        (length-scramble_bytes (start key sec)) whole)
]

decrypt_block-scramble :
    (key : DvdKey) (sec rest : List ℕ)
    → length sec ≡ block_size
    → AllBytes sec
    → decrypt_block key (scramble key sec ++ rest) ≡ set sec 0x14 (byte sec 0x14 & 0x8f) ++ rest
unfolding decrypt_block
decrypt_block-scramble key sec rest whole bytes =
    let long : block_size ≤ length (scramble key sec) =
      omega (arith, length-scramble key sec (omega arith)) in
    let undone =
      dvdcss_unscramble-append key (scramble key sec) rest long
      ∙ ap (λ t. t ++ rest) (dvdcss_unscramble-scramble key sec (omega arith) bytes) in
    rw (undone, get_or-append sec rest 0x14 0 (omega arith))
      (set-append sec rest 0x14 (byte sec 0x14 & 0x8f) (omega arith))

decrypt_blocks-scrambled_sectors :
    (key : DvdKey) (secs : List (List ℕ))
    → AreSectors secs
    → decrypt_blocks key (length secs) (scrambled_sectors key secs) ≡ clear_sectors secs
unfolding decrypt_blocks
decrypt_blocks-scrambled_sectors key [] h = refl
decrypt_blocks-scrambled_sectors key (sec ∷ secs) h =
    let clear = set sec 0x14 (byte sec 0x14 & 0x8f) in
    let rest = scrambled_sectors key secs in
    let size = length-set sec 0x14 (byte sec 0x14 & 0x8f) ∙ h.0.0 in
    rw
      (
        decrypt_block-scramble key sec rest h.0.0 h.0.1,
        take-append block_size clear rest size,
        drop-append block_size clear rest size,
      )
      (ap (λ t. clear ++ t) (decrypt_blocks-scrambled_sectors key secs h.1))

-- When the drive reads sectors of a scrambled disc, each scrambled with the current title key where
-- its header says so, dvdcss_read with decryption returns all of them in clear, with the bits 0x70
-- of byte 0x14 cleared. The title key must not be zero, and at least one sector be read.
pub dvdcss_read-scrambled :
    (drive : Drive) (blocks : ℕ) (d : Dvdcss) (secs : List (List ℕ))
    → AreSectors secs
    → 0 < length secs
    → d.b_scrambled ≡ true
    → d.p_title_key ≢ zero_key
    → drive.blocks (read blocks ∷ d.log) ≡ some (length secs, scrambled_sectors d.p_title_key secs)
    → (dvdcss_read drive blocks true d).0 ≡ some (length secs, clear_sectors secs)
unfolding dvdcss_read pf_read issue on_answer on_blocks
dvdcss_read-scrambled drive blocks d secs sectors some_read scrambled has_key answer =
    let key = d.p_title_key in
    let not_zero : key_eq key zero_key ≡ false = elim (Bool-cases (key_eq key zero_key)) [
      | inl e ↦ absurd (has_key (key_eq→≡ key zero_key e))
      | inr e ↦ e
    ] in
    let decrypts : (length secs == 0 || (not d.b_scrambled || (not true || key_eq key zero_key)))
        ≡ false =
      ground arith in
    rw (answer, decrypts)
      (ap (λ b. some (length secs, b)) (decrypt_blocks-scrambled_sectors key secs sectors))
