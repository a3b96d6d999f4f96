-- ===== src/CryptKey.antt =====
-- `CryptKey` of src/css.c: the cipher of the authentication with a drive.
pub mod Nonzero
pub mod Bounds
mod Tests
use libdvdcss.Common.{
  ℕ, zero, suc, ◌+◌, ◌-◌, ◌*◌, List, [], ◌∷◌, if◌then◌else◌, get_or, u8, u32, ◌<<◌, ◌>>◌, ◌&◌, ◌⊕◌,
  ◌‖◌, ◌==◌,
}
use libdvdcss.Tables.Crypt.{crypt_tab0, crypt_tab1, crypt_tab2, crypt_tab3}
use libdvdcss.Keys.{DvdKey, key_at, byte, xor_key}

-- `i_key_type`: 0, 1 and 2.
pub data KeyType : Type 0 where
  type_key1 : KeyType
  type_key2 : KeyType
  type_bus_key : KeyType

abbrev pub pp_perm_challenge : KeyType → List ℕ
pp_perm_challenge type_key1 = 1 ∷ 3 ∷ 0 ∷ 7 ∷ 5 ∷ 2 ∷ 9 ∷ 6 ∷ 4 ∷ 8 ∷ []
pp_perm_challenge type_key2 = 6 ∷ 1 ∷ 9 ∷ 3 ∷ 8 ∷ 5 ∷ 7 ∷ 4 ∷ 0 ∷ 2 ∷ []
pp_perm_challenge type_bus_key = 4 ∷ 0 ∷ 3 ∷ 5 ∷ 7 ∷ 2 ∷ 8 ∷ 6 ∷ 1 ∷ 9 ∷ []

-- The two rows of `pp_perm_variant`.
abbrev pub pp_perm_variant_key2 : List ℕ
pp_perm_variant_key2 =
    0x0a ∷ 0x08 ∷ 0x0e ∷ 0x0c ∷ 0x0b ∷ 0x09 ∷ 0x0f ∷ 0x0d ∷ 0x1a ∷ 0x18 ∷ 0x1e ∷ 0x1c ∷ 0x1b ∷ 0x19
    ∷ 0x1f ∷ 0x1d ∷ 0x02 ∷ 0x00 ∷ 0x06 ∷ 0x04 ∷ 0x03 ∷ 0x01 ∷ 0x07 ∷ 0x05 ∷ 0x12 ∷ 0x10 ∷ 0x16
    ∷ 0x14 ∷ 0x13 ∷ 0x11 ∷ 0x17 ∷ 0x15 ∷ []

abbrev pub pp_perm_variant_bus_key : List ℕ
pp_perm_variant_bus_key =
    0x12 ∷ 0x1a ∷ 0x16 ∷ 0x1e ∷ 0x02 ∷ 0x0a ∷ 0x06 ∷ 0x0e ∷ 0x10 ∷ 0x18 ∷ 0x14 ∷ 0x1c ∷ 0x00 ∷ 0x08
    ∷ 0x04 ∷ 0x0c ∷ 0x13 ∷ 0x1b ∷ 0x17 ∷ 0x1f ∷ 0x03 ∷ 0x0b ∷ 0x07 ∷ 0x0f ∷ 0x11 ∷ 0x19 ∷ 0x15
    ∷ 0x1d ∷ 0x01 ∷ 0x09 ∷ 0x05 ∷ 0x0d ∷ []

abbrev pub p_variants : List ℕ
p_variants =
    0xb7 ∷ 0x74 ∷ 0x85 ∷ 0xd0 ∷ 0xcc ∷ 0xdb ∷ 0xca ∷ 0x73 ∷ 0x03 ∷ 0xfe ∷ 0x31 ∷ 0x03 ∷ 0x52 ∷ 0xe0
    ∷ 0xb7 ∷ 0x42 ∷ 0x63 ∷ 0x16 ∷ 0xf2 ∷ 0x2a ∷ 0x79 ∷ 0x52 ∷ 0xff ∷ 0x1b ∷ 0x7a ∷ 0x11 ∷ 0xca
    ∷ 0x1a ∷ 0x9b ∷ 0x40 ∷ 0xad ∷ 0x01 ∷ []

-- `i_css_variant`.
unfoldable pub css_variant : KeyType → ℕ → ℕ
css_variant type_key1 variant = variant
css_variant type_key2 variant = get_or pp_perm_variant_key2 variant 0
css_variant type_bus_key variant = get_or pp_perm_variant_bus_key variant 0

abbrev pub p_secret : DvdKey
p_secret = record { k0 = 0x55; k1 = 0xd6; k2 = 0xc4; k3 = 0xc5; k4 = 0x28 }

-- `p_scratch[i]`.
unfoldable pub scratch : KeyType → List ℕ → ℕ → ℕ
scratch key_type challenge i = byte challenge (get_or (pp_perm_challenge key_type) i 0)

-- `p_scratch + i` as five bytes.
unfoldable pub scratch_key : KeyType → List ℕ → ℕ → DvdKey
scratch_key key_type challenge i = record {
  k0 = scratch key_type challenge i;
  k1 = scratch key_type challenge (i + 1);
  k2 = scratch key_type challenge (i + 2);
  k3 = scratch key_type challenge (i + 3);
  k4 = scratch key_type challenge (i + 4);
}

-- `i_lfsr0`, `i_lfsr1` and `i_carry`.
pub record Registers : Type 0 where
  pub lfsr0 : ℕ
  pub lfsr1 : ℕ
  pub carry : ℕ

-- `p_tmp1` before the registers are seeded.
unfoldable pub seed_bytes : KeyType → List ℕ → DvdKey
seed_bytes key_type challenge =
    xor_key (xor_key (scratch_key key_type challenge 5) p_secret) (record {
      k0 = crypt_tab2 0;
      k1 = crypt_tab2 1;
      k2 = crypt_tab2 2;
      k3 = crypt_tab2 3;
      k4 = crypt_tab2 4;
    })

unfoldable pub first_registers : DvdKey → Registers
first_registers t = record {
  lfsr0 = (t.k0 << 17) ‖ (t.k1 << 9) ‖ ((t.k2 & 0xf8) << 1) ‖ 8 ‖ (t.k2 & 7);
  lfsr1 = (t.k3 << 9) ‖ 0x100 ‖ t.k4;
  carry = 0;
}

-- `i_lfsr0_o` and `i_lfsr1_o`.
unfoldable pub lfsr0_o : ℕ → ℕ
lfsr0_o x = ((x >> 24) ⊕ (x >> 21) ⊕ (x >> 20) ⊕ (x >> 12)) & 1

unfoldable pub lfsr1_o : ℕ → ℕ
lfsr1_o x = ((x >> 16) ⊕ (x >> 2)) & 1

-- A register takes in its new bit, in 32 bits.
unfoldable pub shift_bit : ℕ → ℕ → ℕ
shift_bit x o = u32 (x << 1) ‖ o

-- `!o` of a bit.
unfoldable pub not_bit : ℕ → ℕ
not_bit o = if o == 0 then 1 else 0

-- `i_combined`.
unfoldable pub combined : Registers → ℕ
combined r = not_bit (lfsr1_o r.lfsr1) + r.carry + not_bit (lfsr0_o r.lfsr0)

unfoldable pub next_registers : Registers → Registers
next_registers r = record {
  lfsr0 = shift_bit r.lfsr0 (lfsr0_o r.lfsr0);
  lfsr1 = shift_bit r.lfsr1 (lfsr1_o r.lfsr1);
  carry = combined r >> 1 & 1;
}

-- The registers after `n` bits.
unfoldable pub after_bits : ℕ → Registers → Registers
after_bits zero r = r
after_bits (suc n) r = after_bits n (next_registers r)

-- `i_val` once the `n` bits from `i_bit` on are in.
unfoldable pub gather : (n i_bit val : ℕ) → Registers → ℕ
gather zero i_bit val r = val
gather (suc n) i_bit val r =
    gather n (i_bit + 1) (val ‖ ((combined r & 1) << i_bit)) (next_registers r)

-- `p_bits` with `n` bytes to come, which go before those that are there.
unfoldable pub fill_bits : ℕ → Registers → List ℕ → List ℕ
fill_bits zero r bits = bits
fill_bits (suc n) r bits = fill_bits n (after_bits 8 r) (gather 8 0 0 r ∷ bits)

unfoldable pub p_bits : KeyType → List ℕ → List ℕ
p_bits key_type challenge = fill_bits 30 (first_registers (seed_bytes key_type challenge)) []

unfoldable pub i_cse : ℕ → ℕ
i_cse variant = get_or p_variants variant 0 ⊕ crypt_tab2 variant

-- `p_crypt_tab1[x] ^ ~p_crypt_tab2[x] ^ i_cse` as a `uint8_t`, where `~` of a byte flips its bits.
unfoldable pub mix_index : ℕ → ℕ → ℕ
mix_index cse x = crypt_tab1 x ⊕ (crypt_tab2 x ⊕ 0xff) ⊕ cse

-- What a pass stores: the short form, and the one that looks up the tables once more.
unfoldable pub mix_byte : ℕ → ℕ → ℕ → ℕ
mix_byte cse term x = let index = mix_index cse x in crypt_tab2 index ⊕ crypt_tab3 index ⊕ term

unfoldable pub mix_twice : ℕ → ℕ → ℕ → ℕ
mix_twice cse term x = let index = mix_byte cse term x in crypt_tab0 index ⊕ crypt_tab2 index

-- A pass from the last byte to the first; `i_term` is the input byte that was used just before.
unfoldable pub mix_pass : (ℕ → ℕ → ℕ) → DvdKey → DvdKey → DvdKey
mix_pass mix bits s = record {
  k4 = mix 0 (bits.k4 ⊕ s.k4);
  k3 = mix s.k4 (bits.k3 ⊕ s.k3);
  k2 = mix s.k3 (bits.k2 ⊕ s.k2);
  k1 = mix s.k2 (bits.k1 ⊕ s.k1);
  k0 = mix s.k1 (bits.k0 ⊕ s.k0);
}

-- `p_tmp[4] ^= p_tmp[0]`, after all passes but the last.
unfoldable pub fold_first : DvdKey → DvdKey
fold_first s = record s { k4 = s.k4 ⊕ s.k0 }

unfoldable pub mix_key : ℕ → List ℕ → DvdKey → DvdKey
mix_key cse bits s =
    let t1 = fold_first (mix_pass (mix_byte cse) (key_at bits 25) s) in
    let t2 = fold_first (mix_pass (mix_byte cse) (key_at bits 20) t1) in
    let t3 = fold_first (mix_pass (mix_twice cse) (key_at bits 15) t2) in
    let t4 = fold_first (mix_pass (mix_twice cse) (key_at bits 10) t3) in
    let t5 = fold_first (mix_pass (mix_byte cse) (key_at bits 5) t4) in
    mix_pass (mix_byte cse) (key_at bits 0) t5

unfoldable pub crypt_key : KeyType → ℕ → List ℕ → DvdKey
crypt_key key_type variant challenge =
    mix_key (i_cse (css_variant key_type variant)) (p_bits key_type challenge)
      (scratch_key key_type challenge 0)
