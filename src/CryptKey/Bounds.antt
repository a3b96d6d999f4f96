-- ===== src/CryptKey/Bounds.antt =====
-- The ranges of the variables of `CryptKey` of src/css.c.
use libdvdcss.Common.{ℕ, ◌+◌, ◌<◌, arith, List}
use libdvdcss.Common.Bits.Xor.{bit_xor-lt}
use libdvdcss.Tables.Laws.{crypt_tab0-lt, crypt_tab2-lt, crypt_tab3-lt}
use libdvdcss.Keys.{DvdKey, IsKey, xor_key-IsKey, AllBytes, byte-lt, key_at}
use libdvdcss.CryptKey.{
  KeyType, crypt_key, mix_key, mix_pass, fold_first, mix_byte, mix_twice, scratch, scratch_key,
  seed_bytes, first_registers, after_bits, css_variant, i_cse,
}
use libdvdcss.CryptKey.Nonzero.{AreLive, first_registers-AreLive, after_bits-AreLive}

scratch-lt :
    (key_type : KeyType) (challenge : List ℕ) (i : ℕ)
    → AllBytes challenge
    → scratch key_type challenge i < 256
unfolding scratch
scratch-lt key_type challenge i h = byte-lt challenge _ h

scratch_key-IsKey :
    (key_type : KeyType) (challenge : List ℕ) (i : ℕ)
    → AllBytes challenge
    → IsKey (scratch_key key_type challenge i)
unfolding scratch_key
scratch_key-IsKey key_type challenge i h = record {
  byte0 = scratch-lt key_type challenge i h;
  byte1 = scratch-lt key_type challenge (i + 1) h;
  byte2 = scratch-lt key_type challenge (i + 2) h;
  byte3 = scratch-lt key_type challenge (i + 3) h;
  byte4 = scratch-lt key_type challenge (i + 4) h;
}

seed_bytes-IsKey :
    (key_type : KeyType) (challenge : List ℕ)
    → AllBytes challenge
    → IsKey (seed_bytes key_type challenge)
unfolding seed_bytes
seed_bytes-IsKey key_type challenge h =
    xor_key-IsKey
      (xor_key-IsKey (scratch_key-IsKey key_type challenge 5 h) (record {
        byte0 = omega arith;
        byte1 = omega arith;
        byte2 = omega arith;
        byte3 = omega arith;
        byte4 = omega arith;
      }))
      (record {
        byte0 = crypt_tab2-lt 0;
        byte1 = crypt_tab2-lt 1;
        byte2 = crypt_tab2-lt 2;
        byte3 = crypt_tab2-lt 3;
        byte4 = crypt_tab2-lt 4;
      })

mix_byte-lt : (cse term x : ℕ) → term < 256 → mix_byte cse term x < 256
unfolding mix_byte
mix_byte-lt cse term x h =
    bit_xor-lt 8 _ term (bit_xor-lt 8 _ _ (crypt_tab2-lt _) (crypt_tab3-lt _)) h

mix_twice-lt : (cse term x : ℕ) → term < 256 → mix_twice cse term x < 256
unfolding mix_twice
mix_twice-lt cse term x h = bit_xor-lt 8 _ _ (crypt_tab0-lt _) (crypt_tab2-lt _)

module _ (mix : ℕ → ℕ → ℕ) (mix_lt : (term x : ℕ) → term < 256 → mix term x < 256) where
  mix_pass-IsKey : (bits : DvdKey) {s : DvdKey} → IsKey s → IsKey (mix_pass mix bits s)
  unfolding mix_pass
  mix_pass-IsKey bits h = record {
    byte0 = mix_lt _ _ h.byte1;
    byte1 = mix_lt _ _ h.byte2;
    byte2 = mix_lt _ _ h.byte3;
    byte3 = mix_lt _ _ h.byte4;
    byte4 = mix_lt 0 _ (omega arith);
  }

fold_first-IsKey : {s : DvdKey} → IsKey s → IsKey (fold_first s)
unfolding fold_first
fold_first-IsKey h = record {
  byte0 = h.byte0;
  byte1 = h.byte1;
  byte2 = h.byte2;
  byte3 = h.byte3;
  byte4 = bit_xor-lt 8 _ _ h.byte4 h.byte0;
}

mix_key-IsKey : (cse : ℕ) (bits : List ℕ) {s : DvdKey} → IsKey s → IsKey (mix_key cse bits s)
unfolding mix_key
mix_key-IsKey cse bits h =
    let short = mix_byte-lt cse in
    let long = mix_twice-lt cse in
    let h1 = fold_first-IsKey (mix_pass-IsKey _ short (key_at bits 25) h) in
    let h2 = fold_first-IsKey (mix_pass-IsKey _ short (key_at bits 20) h1) in
    let h3 = fold_first-IsKey (mix_pass-IsKey _ long (key_at bits 15) h2) in
    let h4 = fold_first-IsKey (mix_pass-IsKey _ long (key_at bits 10) h3) in
    let h5 = fold_first-IsKey (mix_pass-IsKey _ short (key_at bits 5) h4) in
    mix_pass-IsKey _ short (key_at bits 0) h5

pub crypt_key-IsKey :
    (key_type : KeyType) (variant : ℕ) (challenge : List ℕ)
    → AllBytes challenge
    → IsKey (crypt_key key_type variant challenge)
unfolding crypt_key
crypt_key-IsKey key_type variant challenge h =
    mix_key-IsKey (i_cse (css_variant key_type variant)) _
      (scratch_key-IsKey key_type challenge 0 h)

-- For a challenge of bytes, `CryptKey` stores five bytes; and after any number of bits its shift
-- registers are below 2 ^ 32, the first is not zero in its lower 25 bits, the second not in its
-- lower 17 bits, and the carry is 0 or 1.
pub crypt_key_bounds :
    (key_type : KeyType) (variant : ℕ) (challenge : List ℕ)
    → AllBytes challenge
    → IsKey (crypt_key key_type variant challenge)
      × ((n : ℕ) → AreLive (after_bits n (first_registers (seed_bytes key_type challenge))))
crypt_key_bounds key_type variant challenge h = (
  crypt_key-IsKey key_type variant challenge h,
  λ n. after_bits-AreLive n (first_registers-AreLive _ (seed_bytes-IsKey key_type challenge h)),
)
