-- ===== src/Titles/KeyText.antt =====
-- The text of a key in the cache of `dvdcss_title` in src/css.c is read back as the key.
use libdvdcss.Common.{
  ℕ, ◌+◌, ◌*◌, ◌/◌, ◌%◌, ◌<◌, Bool, true, false, not, ◌&&◌, ◌||◌, Option, none, some, List, [], ◌∷◌,
  ◌++◌, ◌≡◌, refl, sym, ◌∙◌, ap, inl, inr, Option-cases, all_below, all_below_sound, arith, ◌==◌,
  ==_iff, leb, length, u8,
}
use libdvdcss.Keys.{DvdKey, IsKey}
use libdvdcss.Titles.{
  hex_digit, hex_byte, print_key, is_space, digit_of, skip_space, more_digits, first_digit,
  scan_prefixed, scan_signed, scan_hex, scan_colon, scan_key, colon, cached_key,
}

abbrev is_value : ℕ → Option ℕ → Bool
is_value d none = false
is_value d (some e) = e == d

-- What a hexadecimal digit is read as: no space, no sign, no letter x, but the digit.
abbrev reads_back : ℕ → Bool
reads_back d =
    let c = hex_digit d in
    is_value d (digit_of c)
    && (not (is_space c) && (not (c == 45) && (not (c == 43) && not (c == 120 || c == 88))))

digits_read_back : all_below 16 reads_back ≡ true
unfolding all_below hex_digit digit_of is_space
digits_read_back = refl

record Printed (d : ℕ) : Type 0 where
  value : digit_of (hex_digit d) ≡ some d
  no_space : is_space (hex_digit d) ≡ false
  no_minus : (hex_digit d == 45) ≡ false
  no_plus : (hex_digit d == 43) ≡ false
  no_x : (hex_digit d == 120 || hex_digit d == 88) ≡ false

hex_digit-Printed : (d : ℕ) → d < 16 → Printed d
hex_digit-Printed d h =
    let c = hex_digit d in
    let all = all_below_sound 16 reads_back d digits_read_back h in
    let is_d : is_value d (digit_of c) ≡ true = ground arith in
    record {
      value = elim (Option-cases (digit_of c)) [
        | inl e ↦ absurd (cc (sym is_d ∙ ap (is_value d) e))
        | inr (v, e) ↦ e ∙ ap some ((==_iff v d).0 (sym (ap (is_value d) e) ∙ is_d))
      ];
      no_space = ground arith;
      no_minus = ground arith;
      no_plus = ground arith;
      no_x = ground arith;
    }

-- The text goes on with no digit.
abbrev Stops : List ℕ → Type 0
Stops [] = Unit
Stops (c ∷ cs) = digit_of c ≡ none

more_digits-Stops : (v : ℕ) (rest : List ℕ) → Stops rest → more_digits v rest ≡ (v, rest)
unfolding more_digits
more_digits-Stops v [] h = refl
more_digits-Stops v (c ∷ cs) h = rw (h, more_digits) refl

scan_hex-hex_byte :
    (b : ℕ) (rest : List ℕ) → b < 256 → Stops rest → scan_hex (hex_byte b rest) ≡ some (b, rest)
unfolding scan_hex skip_space scan_signed scan_prefixed first_digit more_digits hex_byte
scan_hex-hex_byte b rest h stops =
    let high = hex_digit-Printed (b / 16) (omega arith) in
    let low = hex_digit-Printed (b % 16) (omega arith) in
    let prefix : (hex_digit (b / 16) == 48
          && (hex_digit (b % 16) == 120 || hex_digit (b % 16) == 88))
        ≡ false =
      ground (arith, low.no_x) in
    let whole : b / 16 * 16 + b % 16 ≡ b = omega arith in
    rw
      (
        high.no_space, high.no_minus, high.no_plus, prefix, high.value, low.value, first_digit,
        more_digits,
      )
      (ap some (more_digits-Stops _ rest stops ∙ ap (λ (v : ℕ). (v, rest)) whole))

scan_colon-hex_byte :
    (b : ℕ) (rest : List ℕ)
    → b < 256
    → Stops rest
    → scan_colon (colon ∷ hex_byte b rest) ≡ some (b, rest)
unfolding scan_colon
scan_colon-hex_byte b rest h stops = scan_hex-hex_byte b rest h stops

-- The 14 bytes that are read.
abbrev text_of : DvdKey → List ℕ
text_of k = hex_byte k.k0 (
    colon
    ∷ hex_byte k.k1 (colon ∷ hex_byte k.k2 (colon ∷ hex_byte k.k3 (colon ∷ hex_byte k.k4 []))))

byte_is : (b : ℕ) → b < 256 → u8 b ≡ b
byte_is b h = omega arith

scan_key-text_of : (k : DvdKey) → IsKey k → scan_key (text_of k) ≡ some k
unfolding scan_key digit_of
scan_key-text_of k v =
    rw
      (
        scan_hex-hex_byte k.k0 _ v.byte0 refl,
        scan_colon-hex_byte k.k1 _ v.byte1 refl,
        scan_colon-hex_byte k.k2 _ v.byte2 refl,
        scan_colon-hex_byte k.k3 _ v.byte3 refl,
        scan_colon-hex_byte k.k4 [] v.byte4 tt,
      )
      (λ i. some (record {
        k0 = byte_is k.k0 v.byte0 i;
        k1 = byte_is k.k1 v.byte1 i;
        k2 = byte_is k.k2 v.byte2 i;
        k3 = byte_is k.k3 v.byte3 i;
        k4 = byte_is k.k4 v.byte4 i;
      }))

-- A key of five bytes that dvdcss_title writes at the start of a cache file is the key that it
-- reads from the file, whatever stands after it there.
pub cached_key-print_key :
    (k : DvdKey) (old : List ℕ) → IsKey k → cached_key (some (print_key k ++ old)) ≡ some k
unfolding cached_key print_key hex_byte
cached_key-print_key k old v =
    let long : leb 14 (length (print_key k ++ old)) ≡ true = ground arith in
    rw (long) (scan_key-text_of k v)
