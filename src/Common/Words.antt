-- ===== src/Common/Words.antt =====
-- Machine words as native numbers: casts to a width, and the bit operators of C under C's order
-- of precedence.
use Prim.Native.Nat.{ℕ, ◌*◌, ◌/◌, ◌%◌, ◌^◌, bit_and, bit_or, bit_xor}

abbrev pub u8 : ℕ → ℕ
u8 n = n % 2 ^ 8

abbrev pub u32 : ℕ → ℕ
u32 n = n % 2 ^ 32

infixl 60 ◌<<◌ ◌>>◌
abbrev pub ◌<<◌ : ℕ → ℕ → ℕ
x << k = x * 2 ^ k

abbrev pub ◌>>◌ : ℕ → ℕ → ℕ
x >> k = x / 2 ^ k

infixl 58 ◌&◌
abbrev pub ◌&◌ : ℕ → ℕ → ℕ
x & y = bit_and x y

infixl 56 ◌⊕◌
abbrev pub ◌⊕◌ : ℕ → ℕ → ℕ
x ⊕ y = bit_xor x y

infixl 54 ◌‖◌
abbrev pub ◌‖◌ : ℕ → ℕ → ℕ
x ‖ y = bit_or x y
