-- ===== src/DecryptKey.antt =====
-- `DecryptKey` and `DecryptTitleKey` of src/css.c: the mangling cipher of the keys.
pub mod RoundTrip
pub mod Bounds
mod Tests
use libdvdcss.Common.{
  ℕ, zero, suc, ◌+◌, ◌-◌, ◌*◌, Bool, true, false, List, [], ◌∷◌, if◌then◌else◌, u8, u32, ◌<<◌, ◌>>◌,
  ◌&◌, ◌⊕◌, ◌‖◌,
}
use libdvdcss.Tables.Css.{css_tab1, css_tab2, css_tab3, css_tab4}
use libdvdcss.Keys.{DvdKey, key_at}

-- The variables `i_lfsr1_lo`, `i_lfsr1_hi`, `i_lfsr0` and `i_combined` at the head of the loop.
pub record Mangler : Type 0 where
  pub lfsr1_lo : ℕ
  pub lfsr1_hi : ℕ
  pub lfsr0 : ℕ
  pub combined : ℕ

-- The bytes of `i_lfsr0` through `p_css_tab4`, in reverse order.
unfoldable pub reverse_bits : ℕ → ℕ
reverse_bits x =
    (css_tab4 (x & 0xff) << 24)
    ‖ (css_tab4 (x >> 8 & 0xff) << 16)
    ‖ (css_tab4 (x >> 16 & 0xff) << 8)
    ‖ css_tab4 (x >> 24 & 0xff)

unfoldable pub first_mangler : DvdKey → Mangler
first_mangler key = record {
  lfsr1_lo = key.k0 ‖ 0x100;
  lfsr1_hi = key.k1;
  lfsr0 = reverse_bits (u32 (((key.k4 << 17) ‖ (key.k3 << 9) ‖ (key.k2 << 1)) + 8 - (key.k2 & 7)));
  combined = 0;
}

-- `o_lfsr1` as it is first computed.
unfoldable pub lfsr1_out : Mangler → ℕ
lfsr1_out m = css_tab2 m.lfsr1_hi ⊕ css_tab3 m.lfsr1_lo

-- `o_lfsr0`, a `uint8_t`.
unfoldable pub lfsr0_out : ℕ → ℕ
lfsr0_out x = u8 (((((x >> 8 ⊕ x) >> 1) ⊕ x) >> 3 ⊕ x) >> 7)

-- `i_combined` after the additions of a round.
unfoldable pub combine : ℕ → Mangler → ℕ
combine invert m = u32 (m.combined + ((lfsr0_out m.lfsr0 ⊕ invert) + css_tab4 (lfsr1_out m)))

unfoldable pub next_mangler : ℕ → Mangler → Mangler
next_mangler invert m = record {
  lfsr1_lo = ((m.lfsr1_lo & 1) << 8) ⊕ lfsr1_out m;
  lfsr1_hi = m.lfsr1_lo >> 1;
  lfsr0 = (m.lfsr0 >> 8) ‖ (lfsr0_out m.lfsr0 << 24);
  combined = combine invert m >> 8;
}

-- `k`, the bytes that the `n` rounds left will give.
unfoldable pub mangle_bytes : ℕ → ℕ → Mangler → List ℕ
mangle_bytes zero invert m = []
mangle_bytes (suc n) invert m =
    (combine invert m & 0xff) ∷ mangle_bytes n invert (next_mangler invert m)

unfoldable pub mangle_key : ℕ → DvdKey → DvdKey
mangle_key invert key = key_at (mangle_bytes 5 invert (first_mangler key)) 0

-- The two buffers. Where `p_crypted` and `p_result` are the same one, `alias` holds and a write
-- through the second is seen through the first.
pub record Buffers : Type 0 where
  pub crypted : DvdKey
  pub result : DvdKey

abbrev pub store : Bool → Buffers → DvdKey → Buffers
store alias m r = record { crypted = if alias then r else m.crypted; result = r }

-- The assignments to `p_result[4]` to `p_result[0]`, first from `p_crypted`, then in place.
unfoldable pub mangle_first : Bool → DvdKey → Buffers → Buffers
mangle_first alias k m =
    let m4 = store alias m (record m.result { k4 = k.k4 ⊕ css_tab1 m.crypted.k4 ⊕ m.crypted.k3 }) in
    let m3 =
      store alias m4 (record m4.result { k3 = k.k3 ⊕ css_tab1 m4.crypted.k3 ⊕ m4.crypted.k2 }) in
    let m2 =
      store alias m3 (record m3.result { k2 = k.k2 ⊕ css_tab1 m3.crypted.k2 ⊕ m3.crypted.k1 }) in
    let m1 =
      store alias m2 (record m2.result { k1 = k.k1 ⊕ css_tab1 m2.crypted.k1 ⊕ m2.crypted.k0 }) in
    store alias m1 (record m1.result { k0 = k.k0 ⊕ css_tab1 m1.crypted.k0 ⊕ m1.result.k4 })

unfoldable pub mangle_second : DvdKey → DvdKey → DvdKey
mangle_second k r =
    let r4 = record r { k4 = k.k4 ⊕ css_tab1 r.k4 ⊕ r.k3 } in
    let r3 = record r4 { k3 = k.k3 ⊕ css_tab1 r4.k3 ⊕ r4.k2 } in
    let r2 = record r3 { k2 = k.k2 ⊕ css_tab1 r3.k2 ⊕ r3.k1 } in
    let r1 = record r2 { k1 = k.k1 ⊕ css_tab1 r2.k1 ⊕ r2.k0 } in
    record r1 { k0 = k.k0 ⊕ css_tab1 r1.k0 }

unfoldable pub decrypt_key_in : Bool → ℕ → DvdKey → Buffers → Buffers
decrypt_key_in alias invert key m =
    let k = mangle_key invert key in
    let first = mangle_first alias k m in store alias first (mangle_second k first.result)

-- A call with distinct buffers: what `p_result` holds after it, whatever it held before.
unfoldable pub decrypt_key : ℕ → DvdKey → DvdKey → DvdKey
decrypt_key invert key crypted =
    (decrypt_key_in false invert key (record { crypted = crypted; result = crypted })).result

-- `DecryptTitleKey` decrypts in place.
unfoldable pub decrypt_title_key : DvdKey → DvdKey → DvdKey
decrypt_title_key disc_key title_key =
    (decrypt_key_in true 0xff disc_key (record { crypted = title_key; result = title_key })).result
