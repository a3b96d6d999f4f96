-- ===== src/Keys.antt =====
-- `dvd_key` of src/css.h: five bytes, and keys as they stand in a buffer.
use libdvdcss.Common.Bits.Xor.{bit_xor-lt, bit_xor_cancel}
use libdvdcss.Common.{
  ◌≡◌, replicate, ◌⊕◌, zero, suc, take, drop, arith, ℕ, ◌+◌, ◌<◌, List, [], ◌∷◌, get_or,
}

pub record DvdKey : Type 0 where
  pub k0 : ℕ
  pub k1 : ℕ
  pub k2 : ℕ
  pub k3 : ℕ
  pub k4 : ℕ

-- A byte of a buffer.
abbrev pub byte : List ℕ → ℕ → ℕ
byte buf i = get_or buf i 0

-- The five bytes of `buf` from `i` on, which the code passes as `buf + i`.
abbrev pub key_at : List ℕ → ℕ → DvdKey
key_at buf i = record {
  k0 = byte buf i;
  k1 = byte buf (i + 1);
  k2 = byte buf (i + 2);
  k3 = byte buf (i + 3);
  k4 = byte buf (i + 4);
}

abbrev pub zero_key : DvdKey
zero_key = record { k0 = 0; k1 = 0; k2 = 0; k3 = 0; k4 = 0 }

pub record IsKey (k : DvdKey) : Type 0 where
  pub byte0 : k.k0 < 256
  pub byte1 : k.k1 < 256
  pub byte2 : k.k2 < 256
  pub byte3 : k.k3 < 256
  pub byte4 : k.k4 < 256

-- Every entry is a byte.
abbrev pub AllBytes : List ℕ → Type 0
AllBytes [] = Unit
AllBytes (x ∷ xs) = (x < 256) × AllBytes xs

pub AllBytes-take : (n : ℕ) (xs : List ℕ) → AllBytes xs → AllBytes (take n xs)
AllBytes-take zero xs h = tt
AllBytes-take (suc n) [] h = tt
AllBytes-take (suc n) (x ∷ xs) h = (h.0, AllBytes-take n xs h.1)

pub AllBytes-drop : (n : ℕ) (xs : List ℕ) → AllBytes xs → AllBytes (drop n xs)
AllBytes-drop zero xs h = h
AllBytes-drop (suc n) [] h = tt
AllBytes-drop (suc n) (x ∷ xs) h = AllBytes-drop n xs h.1

pub byte-lt : (xs : List ℕ) (i : ℕ) → AllBytes xs → byte xs i < 256
byte-lt [] i h = omega arith
byte-lt (x ∷ xs) zero h = h.0
byte-lt (x ∷ xs) (suc i) h = byte-lt xs i h.1

pub key_at-IsKey : (xs : List ℕ) (i : ℕ) → AllBytes xs → IsKey (key_at xs i)
key_at-IsKey xs i h = record {
  byte0 = byte-lt xs i h;
  byte1 = byte-lt xs (i + 1) h;
  byte2 = byte-lt xs (i + 2) h;
  byte3 = byte-lt xs (i + 3) h;
  byte4 = byte-lt xs (i + 4) h;
}

-- `a[i] ^ b[i]` for the five bytes.
abbrev pub xor_key : DvdKey → DvdKey → DvdKey
xor_key a b = record {
  k0 = a.k0 ⊕ b.k0;
  k1 = a.k1 ⊕ b.k1;
  k2 = a.k2 ⊕ b.k2;
  k3 = a.k3 ⊕ b.k3;
  k4 = a.k4 ⊕ b.k4;
}

pub xor_key-IsKey : {a b : DvdKey} → IsKey a → IsKey b → IsKey (xor_key a b)
xor_key-IsKey {a} {b} ha hb = record {
  byte0 = bit_xor-lt 8 _ _ ha.byte0 hb.byte0;
  byte1 = bit_xor-lt 8 _ _ ha.byte1 hb.byte1;
  byte2 = bit_xor-lt 8 _ _ ha.byte2 hb.byte2;
  byte3 = bit_xor-lt 8 _ _ ha.byte3 hb.byte3;
  byte4 = bit_xor-lt 8 _ _ ha.byte4 hb.byte4;
}

pub AllBytes-replicate : (n x : ℕ) → x < 256 → AllBytes (replicate n x)
AllBytes-replicate zero x h = tt
AllBytes-replicate (suc n) x h = (h, AllBytes-replicate n x h)

-- A key that is added twice goes away.
pub xor_key_cancel : (k seed : DvdKey) → xor_key (xor_key k seed) seed ≡ k
xor_key_cancel k seed = λ i. record {
  k0 = bit_xor_cancel k.k0 seed.k0 i;
  k1 = bit_xor_cancel k.k1 seed.k1 i;
  k2 = bit_xor_cancel k.k2 seed.k2 i;
  k3 = bit_xor_cancel k.k3 seed.k3 i;
  k4 = bit_xor_cancel k.k4 seed.k4 i;
}
