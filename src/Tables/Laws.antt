-- ===== src/Tables/Laws.antt =====
-- What the proofs use of the tables: every entry is a byte, `p_css_tab1` is a permutation of the
-- bytes, and `p_css_tab4` is its own inverse.
use libdvdcss.Common.{
  ℕ, zero, suc, ◌<◌, ◌≡◌, refl, Bool, true, ◌&&◌, List, [], ◌∷◌, arith, ltb, ◌==◌, get_or,
  all_below, all_below_sound, ==_iff,
}
use libdvdcss.Tables.Crypt.{crypt_tab0, crypt_tab1, crypt_tab2, crypt_tab3}
use libdvdcss.Tables.Crypt.{p_crypt_tab0, p_crypt_tab1, p_crypt_tab2, p_crypt_tab3}
use libdvdcss.Keys.{AllBytes}
use libdvdcss.Tables.Css.{css_tab1, css_tab2, css_tab3, css_tab4, css_tab5}
use libdvdcss.Tables.Css.{p_css_tab1, p_css_tab2, p_css_tab3, p_css_tab4, p_css_tab5}

unfoldable pub all_bytes : List ℕ → Bool
all_bytes [] = true
all_bytes (x ∷ xs) = ltb x 256 && all_bytes xs

pub get_or-lt : (xs : List ℕ) (i : ℕ) → all_bytes xs ≡ true → get_or xs i 0 < 256
unfolding all_bytes
get_or-lt [] i h = omega arith
get_or-lt (x ∷ xs) zero h = ground arith
get_or-lt (x ∷ xs) (suc i) h = get_or-lt xs i (ground arith)

pub css_tab1-lt : (i : ℕ) → css_tab1 i < 256
unfolding css_tab1 all_bytes
css_tab1-lt i = get_or-lt p_css_tab1 i refl

pub css_tab2-lt : (i : ℕ) → css_tab2 i < 256
unfolding css_tab2 all_bytes
css_tab2-lt i = get_or-lt p_css_tab2 i refl

pub css_tab3-lt : (i : ℕ) → css_tab3 i < 256
unfolding css_tab3 all_bytes
css_tab3-lt i = get_or-lt p_css_tab3 i refl

pub css_tab4-lt : (i : ℕ) → css_tab4 i < 256
unfolding css_tab4 all_bytes
css_tab4-lt i = get_or-lt p_css_tab4 i refl

pub css_tab5-lt : (i : ℕ) → css_tab5 i < 256
unfolding css_tab5 all_bytes
css_tab5-lt i = get_or-lt p_css_tab5 i refl

-- The inverse of `p_css_tab1`.
abbrev pub tab1_inverse : List ℕ
tab1_inverse =
    0x33 ∷ 0x3b ∷ 0x73 ∷ 0x15 ∷ 0x53 ∷ 0x5b ∷ 0x13 ∷ 0x75 ∷ 0x3d ∷ 0x35 ∷ 0x7d ∷ 0x1b ∷ 0x5d ∷ 0x55
    ∷ 0x1d ∷ 0x7b ∷ 0x67 ∷ 0x6f ∷ 0x27 ∷ 0x81 ∷ 0xc7 ∷ 0xcf ∷ 0x87 ∷ 0x21 ∷ 0x69 ∷ 0x61 ∷ 0x29
    ∷ 0x8f ∷ 0xc9 ∷ 0xc1 ∷ 0x89 ∷ 0x2f ∷ 0xe3 ∷ 0xeb ∷ 0xa3 ∷ 0x05 ∷ 0x43 ∷ 0x4b ∷ 0x03 ∷ 0xa5
    ∷ 0xed ∷ 0xe5 ∷ 0xad ∷ 0x0b ∷ 0x4d ∷ 0x45 ∷ 0x0d ∷ 0xab ∷ 0xea ∷ 0xe2 ∷ 0xaa ∷ 0x00 ∷ 0x4a
    ∷ 0x42 ∷ 0x0a ∷ 0xa0 ∷ 0xe8 ∷ 0xe0 ∷ 0xa8 ∷ 0x02 ∷ 0x48 ∷ 0x40 ∷ 0x08 ∷ 0xa2 ∷ 0x3e ∷ 0x36
    ∷ 0x7e ∷ 0x14 ∷ 0x5e ∷ 0x56 ∷ 0x1e ∷ 0x74 ∷ 0x3c ∷ 0x34 ∷ 0x7c ∷ 0x16 ∷ 0x5c ∷ 0x54 ∷ 0x1c
    ∷ 0x76 ∷ 0x6a ∷ 0x62 ∷ 0x2a ∷ 0x80 ∷ 0xca ∷ 0xc2 ∷ 0x8a ∷ 0x20 ∷ 0x68 ∷ 0x60 ∷ 0x28 ∷ 0x82
    ∷ 0xc8 ∷ 0xc0 ∷ 0x88 ∷ 0x22 ∷ 0xee ∷ 0xe6 ∷ 0xae ∷ 0x04 ∷ 0x4e ∷ 0x46 ∷ 0x0e ∷ 0xa4 ∷ 0xec
    ∷ 0xe4 ∷ 0xac ∷ 0x06 ∷ 0x4c ∷ 0x44 ∷ 0x0c ∷ 0xa6 ∷ 0xe7 ∷ 0xef ∷ 0xa7 ∷ 0x01 ∷ 0x47 ∷ 0x4f
    ∷ 0x07 ∷ 0xa1 ∷ 0xe9 ∷ 0xe1 ∷ 0xa9 ∷ 0x0f ∷ 0x49 ∷ 0x41 ∷ 0x09 ∷ 0xaf ∷ 0x63 ∷ 0x6b ∷ 0x23
    ∷ 0x85 ∷ 0xc3 ∷ 0xcb ∷ 0x83 ∷ 0x25 ∷ 0x6d ∷ 0x65 ∷ 0x2d ∷ 0x8b ∷ 0xcd ∷ 0xc5 ∷ 0x8d ∷ 0x2b
    ∷ 0x37 ∷ 0x3f ∷ 0x77 ∷ 0x11 ∷ 0x57 ∷ 0x5f ∷ 0x17 ∷ 0x71 ∷ 0x39 ∷ 0x31 ∷ 0x79 ∷ 0x1f ∷ 0x59
    ∷ 0x51 ∷ 0x19 ∷ 0x7f ∷ 0xb3 ∷ 0xbb ∷ 0xf3 ∷ 0x95 ∷ 0xd3 ∷ 0xdb ∷ 0x93 ∷ 0xf5 ∷ 0xbd ∷ 0xb5
    ∷ 0xfd ∷ 0x9b ∷ 0xdd ∷ 0xd5 ∷ 0x9d ∷ 0xfb ∷ 0xba ∷ 0xb2 ∷ 0xfa ∷ 0x90 ∷ 0xda ∷ 0xd2 ∷ 0x9a
    ∷ 0xf0 ∷ 0xb8 ∷ 0xb0 ∷ 0xf8 ∷ 0x92 ∷ 0xd8 ∷ 0xd0 ∷ 0x98 ∷ 0xf2 ∷ 0x6e ∷ 0x66 ∷ 0x2e ∷ 0x84
    ∷ 0xce ∷ 0xc6 ∷ 0x8e ∷ 0x24 ∷ 0x6c ∷ 0x64 ∷ 0x2c ∷ 0x86 ∷ 0xcc ∷ 0xc4 ∷ 0x8c ∷ 0x26 ∷ 0x3a
    ∷ 0x32 ∷ 0x7a ∷ 0x10 ∷ 0x5a ∷ 0x52 ∷ 0x1a ∷ 0x70 ∷ 0x38 ∷ 0x30 ∷ 0x78 ∷ 0x12 ∷ 0x58 ∷ 0x50
    ∷ 0x18 ∷ 0x72 ∷ 0xbe ∷ 0xb6 ∷ 0xfe ∷ 0x94 ∷ 0xde ∷ 0xd6 ∷ 0x9e ∷ 0xf4 ∷ 0xbc ∷ 0xb4 ∷ 0xfc
    ∷ 0x96 ∷ 0xdc ∷ 0xd4 ∷ 0x9c ∷ 0xf6 ∷ 0xb7 ∷ 0xbf ∷ 0xf7 ∷ 0x91 ∷ 0xd7 ∷ 0xdf ∷ 0x97 ∷ 0xf1
    ∷ 0xb9 ∷ 0xb1 ∷ 0xf9 ∷ 0x9f ∷ 0xd9 ∷ 0xd1 ∷ 0x99 ∷ 0xff ∷ []

unfoldable pub css_tab1_inverse : ℕ → ℕ
css_tab1_inverse i = get_or tab1_inverse i 0

pub css_tab1_inverse-lt : (i : ℕ) → css_tab1_inverse i < 256
unfolding css_tab1_inverse all_bytes
css_tab1_inverse-lt i = get_or-lt tab1_inverse i refl

inverse_left : all_below 256 (λ x. css_tab1_inverse (css_tab1 x) == x) ≡ true
unfolding all_below css_tab1 css_tab1_inverse
inverse_left = refl

inverse_right : all_below 256 (λ x. css_tab1 (css_tab1_inverse x) == x) ≡ true
unfolding all_below css_tab1 css_tab1_inverse
inverse_right = refl

involution : all_below 256 (λ x. css_tab4 (css_tab4 x) == x) ≡ true
unfolding all_below css_tab4
involution = refl

pub css_tab1_inverse-css_tab1 : (x : ℕ) → x < 256 → css_tab1_inverse (css_tab1 x) ≡ x
css_tab1_inverse-css_tab1 x h = (==_iff _ x).0 (all_below_sound 256 _ x inverse_left h)

pub css_tab1-css_tab1_inverse : (x : ℕ) → x < 256 → css_tab1 (css_tab1_inverse x) ≡ x
css_tab1-css_tab1_inverse x h = (==_iff _ x).0 (all_below_sound 256 _ x inverse_right h)

pub css_tab4_involution : (x : ℕ) → x < 256 → css_tab4 (css_tab4 x) ≡ x
css_tab4_involution x h = (==_iff _ x).0 (all_below_sound 256 _ x involution h)

pub crypt_tab0-lt : (i : ℕ) → crypt_tab0 i < 256
unfolding crypt_tab0 all_bytes
crypt_tab0-lt i = get_or-lt p_crypt_tab0 i refl

pub crypt_tab1-lt : (i : ℕ) → crypt_tab1 i < 256
unfolding crypt_tab1 all_bytes
crypt_tab1-lt i = get_or-lt p_crypt_tab1 i refl

pub crypt_tab2-lt : (i : ℕ) → crypt_tab2 i < 256
unfolding crypt_tab2 all_bytes
crypt_tab2-lt i = get_or-lt p_crypt_tab2 i refl

pub crypt_tab3-lt : (i : ℕ) → crypt_tab3 i < 256
unfolding crypt_tab3 all_bytes
crypt_tab3-lt i = get_or-lt p_crypt_tab3 i refl

-- Bytes, by evaluation.
pub all_bytes-AllBytes : (xs : List ℕ) → all_bytes xs ≡ true → AllBytes xs
unfolding all_bytes
all_bytes-AllBytes [] h = tt
all_bytes-AllBytes (x ∷ xs) h = (ground arith, all_bytes-AllBytes xs (ground arith))
