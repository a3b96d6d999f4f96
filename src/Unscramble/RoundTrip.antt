-- ===== src/Unscramble/RoundTrip.antt =====
-- Unscrambling is undone by a scrambler that runs the same key stream, and the other way round.
use libdvdcss.Common.{
  ℕ, ◌-◌, ◌≤◌, ◌<◌, ◌≡◌, refl, ◌∙◌, ap, ap₂, List, [], ◌∷◌, ◌++◌, arith, if◌then◌else◌, ◌==◌,
  Bool-cases, inl, inr, length, take, drop, ◌⊕◌, length-take, length-drop, take-append, drop-append,
  drop-append-append, take-middle-drop, get_or-append, get_or-take,
}
use libdvdcss.Common.Bits.Xor.{bit_xor-lt, bit_xor_cancel}
use libdvdcss.Tables.Css.{css_tab1}
use libdvdcss.Tables.Laws.{css_tab1_inverse, css_tab1-css_tab1_inverse, css_tab1_inverse-css_tab1}
use libdvdcss.Keys.{DvdKey, AllBytes, AllBytes-take, AllBytes-drop, byte}
use libdvdcss.Unscramble.{
  Stream, start, round, key_byte, descramble, is_scrambled, rewrite_payload, dvdcss_unscramble,
  block_size, payload_offset,
}
use libdvdcss.Unscramble.Bounds.{key_byte-lt}

-- The scrambling that the disc's author applied: the inverse table after the same key stream.
pub scramble_bytes : Stream → List ℕ → List ℕ
scramble_bytes s [] = []
scramble_bytes s (b ∷ bs) = css_tab1_inverse (b ⊕ key_byte s) ∷ scramble_bytes (round s) bs

unfoldable pub scramble : DvdKey → List ℕ → List ℕ
unfolding scramble_bytes
scramble key sec =
    if is_scrambled sec == 0 then sec else rewrite_payload (scramble_bytes (start key sec)) sec

descramble-scramble_bytes :
    (s : Stream) (bs : List ℕ) → AllBytes bs → descramble s (scramble_bytes s bs) ≡ bs
unfolding descramble scramble_bytes
descramble-scramble_bytes s [] h = refl
descramble-scramble_bytes s (b ∷ bs) h =
    ap₂ ◌∷◌
      (ap (λ (t : ℕ). t ⊕ key_byte s)
          (css_tab1-css_tab1_inverse (b ⊕ key_byte s) (bit_xor-lt 8 _ _ h.0 (key_byte-lt s)))
        ∙ bit_xor_cancel b (key_byte s))
      (descramble-scramble_bytes (round s) bs h.1)

scramble_bytes-descramble :
    (s : Stream) (bs : List ℕ) → AllBytes bs → scramble_bytes s (descramble s bs) ≡ bs
unfolding descramble scramble_bytes
scramble_bytes-descramble s [] h = refl
scramble_bytes-descramble s (b ∷ bs) h =
    ap₂ ◌∷◌
      (ap css_tab1_inverse (bit_xor_cancel (css_tab1 b) (key_byte s))
        ∙ css_tab1_inverse-css_tab1 b h.0)
      (scramble_bytes-descramble (round s) bs h.1)

pub length-descramble : (s : Stream) (bs : List ℕ) → length (descramble s bs) ≡ length bs
unfolding descramble
length-descramble s [] = refl
length-descramble s (b ∷ bs) = omega (arith, length-descramble (round s) bs)

pub length-scramble_bytes : (s : Stream) (bs : List ℕ) → length (scramble_bytes s bs) ≡ length bs
unfolding scramble_bytes
length-scramble_bytes s [] = refl
length-scramble_bytes s (b ∷ bs) = omega (arith, length-scramble_bytes (round s) bs)

abbrev payload : List ℕ → List ℕ
payload sec = take (block_size - payload_offset) (drop payload_offset sec)

payload-AllBytes : (sec : List ℕ) → AllBytes sec → AllBytes (payload sec)
payload-AllBytes sec h =
    AllBytes-take (block_size - payload_offset) (drop payload_offset sec)
      (AllBytes-drop payload_offset sec h)

-- A rewriting that keeps the payload's length is followed by another on its result.
module _ (f : List ℕ → List ℕ) (sec : List ℕ) (whole : block_size ≤ length sec)
    (keeps : length (f (payload sec)) ≡ length (payload sec)) where
  abbrev head : List ℕ
  head = take payload_offset sec

  length-head : length head ≡ payload_offset
  length-head = omega (arith, length-take {0} payload_offset sec)

  length-payload : length (f (payload sec)) ≡ block_size - payload_offset
  length-payload = omega (
    arith,
    keeps,
    length-take {0} (block_size - payload_offset) (drop payload_offset sec),
    length-drop {0} payload_offset sec,
  )

  -- The bytes before the payload stay, and so does what is computed from them.
  pub byte-rewrite_payload :
      (i : ℕ) → i < payload_offset → byte (rewrite_payload f sec) i ≡ byte sec i
  unfolding rewrite_payload
  byte-rewrite_payload i h =
      get_or-append head _ i 0 (omega (arith, length-head)) ∙ get_or-take payload_offset sec i 0 h

  pub payload-rewrite_payload : payload (rewrite_payload f sec) ≡ f (payload sec)
  unfolding rewrite_payload
  payload-rewrite_payload =
      ap (take (block_size - payload_offset)) (drop-append payload_offset head _ length-head)
      ∙ take-append (block_size - payload_offset) (f (payload sec)) _ length-payload

  drop-rewrite_payload : drop block_size (rewrite_payload f sec) ≡ drop block_size sec
  unfolding rewrite_payload
  drop-rewrite_payload =
      drop-append-append head (f (payload sec)) (drop block_size sec) block_size
        (omega (arith, length-head, length-payload))

  take-rewrite_payload : take payload_offset (rewrite_payload f sec) ≡ head
  unfolding rewrite_payload
  take-rewrite_payload = take-append payload_offset head _ length-head

  -- A second rewriting that undoes the first on the payload gives the sector back.
  pub rewrite_payload_twice :
      (g : List ℕ → List ℕ)
      → g (f (payload sec)) ≡ payload sec
      → rewrite_payload g (rewrite_payload f sec) ≡ sec
  rewrite_payload_twice g undo =
      let once = rewrite_payload f sec in
      let opened : rewrite_payload g once
          ≡ take payload_offset once ++ (g (payload once) ++ drop block_size once) =
        unfold rewrite_payload in refl in
      opened
      ∙ ap (λ r. r ++ (g (payload once) ++ drop block_size once)) take-rewrite_payload
      ∙ ap (λ r. head ++ (g r ++ drop block_size once)) payload-rewrite_payload
      ∙ ap (λ r. head ++ (r ++ drop block_size once)) undo
      ∙ ap (λ r. head ++ (payload sec ++ r)) drop-rewrite_payload
      ∙ take-middle-drop payload_offset (block_size - payload_offset) sec

-- Two sectors that agree before the payload start the cipher alike.
pub start_ext :
    (key : DvdKey) (sec sec' : List ℕ)
    → ((i : ℕ) → i < payload_offset → byte sec' i ≡ byte sec i)
    → start key sec' ≡ start key sec
unfolding start
start_ext key sec sec' same = rw (
  same 0x54 (omega arith),
  same 0x55 (omega arith),
  same 0x56 (omega arith),
  same 0x57 (omega arith),
  same 0x58 (omega arith),
)

pub is_scrambled_ext :
    (sec sec' : List ℕ)
    → ((i : ℕ) → i < payload_offset → byte sec' i ≡ byte sec i)
    → is_scrambled sec' ≡ is_scrambled sec
unfolding is_scrambled
is_scrambled_ext sec sec' same = rw (same 0x14 (omega arith))

-- Descrambling gives back what was scrambled with the same key: a sector of bytes, its header
-- (with the seed and the scrambling flag) and whatever follows it in the buffer.
pub dvdcss_unscramble-scramble :
    (key : DvdKey) (sec : List ℕ)
    → block_size ≤ length sec
    → AllBytes sec
    → dvdcss_unscramble key (scramble key sec) ≡ sec
unfolding dvdcss_unscramble scramble
dvdcss_unscramble-scramble key sec whole bytes = elim (Bool-cases (is_scrambled sec == 0)) [
  | inl clear ↦ rw (clear, clear)
  | inr flagged ↦
      let f = scramble_bytes (start key sec) in
      let keeps = length-scramble_bytes (start key sec) (payload sec) in
      let same = byte-rewrite_payload f sec whole keeps in
      let undo =
        descramble-scramble_bytes (start key sec) (payload sec) (payload-AllBytes sec bytes) in
      rw
        (
          flagged,
          is_scrambled_ext sec (rewrite_payload f sec) same,
          flagged,
          start_ext key sec (rewrite_payload f sec) same,
        )
        (rewrite_payload_twice f sec whole keeps (descramble (start key sec)) undo)
]

-- Descrambling loses nothing: scrambling again with the same key gives the sector read from the
-- disc back.
pub scramble-dvdcss_unscramble :
    (key : DvdKey) (sec : List ℕ)
    → block_size ≤ length sec
    → AllBytes sec
    → scramble key (dvdcss_unscramble key sec) ≡ sec
unfolding dvdcss_unscramble scramble
scramble-dvdcss_unscramble key sec whole bytes = elim (Bool-cases (is_scrambled sec == 0)) [
  | inl clear ↦ rw (clear, clear)
  | inr flagged ↦
      let f = descramble (start key sec) in
      let keeps = length-descramble (start key sec) (payload sec) in
      let same = byte-rewrite_payload f sec whole keeps in
      let undo =
        scramble_bytes-descramble (start key sec) (payload sec) (payload-AllBytes sec bytes) in
      rw
        (
          flagged,
          is_scrambled_ext sec (rewrite_payload f sec) same,
          flagged,
          start_ext key sec (rewrite_payload f sec) same,
        )
        (rewrite_payload_twice f sec whole keeps (scramble_bytes (start key sec)) undo)
]
