-- ===== src/DecryptKey/RoundTrip.antt =====
-- For each key the mangling cipher is a permutation of the five-byte blocks, and it may work in
-- place.
use libdvdcss.Common.{ℕ, ◌<◌, ◌≡◌, refl, sym, ◌∙◌, ap, true, false, bit_xor, ◌⊕◌}
use libdvdcss.Common.Bits.Xor.{bit_xor-lt, bit_xor_cancel, bit_xor_cancel_left}
use libdvdcss.Tables.Css.{css_tab1}
use libdvdcss.Tables.Laws.{
  css_tab1_inverse, css_tab1-lt, css_tab1_inverse-lt, css_tab1-css_tab1_inverse,
  css_tab1_inverse-css_tab1,
}
use libdvdcss.Keys.{DvdKey, IsKey}
use mathlib.Core.Path.{subst}
use libdvdcss.DecryptKey.Bounds.{mangle_key-IsKey}
use libdvdcss.DecryptKey.{
  Buffers, mangle_first, mangle_second, mangle_key, decrypt_key_in, decrypt_key,
}

-- One assignment `k ^ p_css_tab1[c] ^ x`, and its inverse in `c`.
abbrev mix : ℕ → ℕ → ℕ → ℕ
mix k c x = k ⊕ css_tab1 c ⊕ x

abbrev unmix : ℕ → ℕ → ℕ → ℕ
unmix k p x = css_tab1_inverse (bit_xor k (bit_xor p x))

unmix-mix : (k c x : ℕ) → c < 256 → unmix k (mix k c x) x ≡ c
unmix-mix k c x h =
    ap (λ (t : ℕ). css_tab1_inverse (bit_xor k t)) (bit_xor_cancel (bit_xor k (css_tab1 c)) x)
    ∙ ap css_tab1_inverse (bit_xor_cancel_left k (css_tab1 c))
    ∙ css_tab1_inverse-css_tab1 c h

mix-unmix : (k p x : ℕ) → k < 256 → p < 256 → x < 256 → mix k (unmix k p x) x ≡ p
mix-unmix k p x hk hp hx =
    ap (λ (t : ℕ). bit_xor (bit_xor k t) x)
      (css_tab1-css_tab1_inverse _ (bit_xor-lt 8 _ _ hk (bit_xor-lt 8 _ _ hp hx)))
    ∙ ap (λ (t : ℕ). bit_xor t x) (bit_xor_cancel_left k (bit_xor p x))
    ∙ bit_xor_cancel p x

mix-lt : (k c x : ℕ) → k < 256 → x < 256 → mix k c x < 256
mix-lt k c x hk hx = bit_xor-lt 8 _ _ (bit_xor-lt 8 _ _ hk (css_tab1-lt c)) hx

-- The two passes as functions, and their inverses.
abbrev first_pass : DvdKey → DvdKey → DvdKey
first_pass k c =
    let p4 = mix k.k4 c.k4 c.k3 in
    record {
      k0 = mix k.k0 c.k0 p4;
      k1 = mix k.k1 c.k1 c.k0;
      k2 = mix k.k2 c.k2 c.k1;
      k3 = mix k.k3 c.k3 c.k2;
      k4 = p4;
    }

abbrev second_pass : DvdKey → DvdKey → DvdKey
second_pass k p = record {
  k0 = k.k0 ⊕ css_tab1 p.k0;
  k1 = mix k.k1 p.k1 p.k0;
  k2 = mix k.k2 p.k2 p.k1;
  k3 = mix k.k3 p.k3 p.k2;
  k4 = mix k.k4 p.k4 p.k3;
}

mangle_second_eq : (k p : DvdKey) → mangle_second k p ≡ second_pass k p
unfolding mangle_second
mangle_second_eq k p = refl

decrypt_key_eq :
    (invert : ℕ) (key c r : DvdKey)
    → let k = mangle_key invert key in
      decrypt_key_in false invert key (record { crypted = c; result = r })
      ≡ record { crypted = c; result = second_pass k (first_pass k c) }
unfolding decrypt_key_in mangle_first mangle_second
decrypt_key_eq invert key c r = refl

-- Decrypting in place leaves in the one buffer what decrypting from another buffer gives.
pub decrypt_key_in-alias :
    (invert : ℕ) (key c r : DvdKey)
    → let apart = decrypt_key_in false invert key (record { crypted = c; result = r }) in
      (apart.crypted ≡ c)
      × (decrypt_key_in true invert key (record { crypted = c; result = c })
          ≡ record { crypted = apart.result; result = apart.result })
unfolding decrypt_key_in mangle_first mangle_second
decrypt_key_in-alias invert key c r = (refl, refl)

first_undo : DvdKey → DvdKey → DvdKey
first_undo k p =
    let c0 = unmix k.k0 p.k0 p.k4 in
    let c1 = unmix k.k1 p.k1 c0 in
    let c2 = unmix k.k2 p.k2 c1 in
    let c3 = unmix k.k3 p.k3 c2 in
    record { k0 = c0; k1 = c1; k2 = c2; k3 = c3; k4 = unmix k.k4 p.k4 c3 }

second_undo : DvdKey → DvdKey → DvdKey
second_undo k f =
    let p0 = css_tab1_inverse (bit_xor k.k0 f.k0) in
    let p1 = unmix k.k1 f.k1 p0 in
    let p2 = unmix k.k2 f.k2 p1 in
    let p3 = unmix k.k3 f.k3 p2 in
    record { k0 = p0; k1 = p1; k2 = p2; k3 = p3; k4 = unmix k.k4 f.k4 p3 }

unmix-mix_at : (k c x x' : ℕ) → c < 256 → x' ≡ x → unmix k (mix k c x) x' ≡ c
unmix-mix_at k c x x' h e = ap (unmix k (mix k c x)) e ∙ unmix-mix k c x h

module _ {k : DvdKey} (hk : IsKey k) where
  first_pass-IsKey : {c : DvdKey} → IsKey c → IsKey (first_pass k c)
  first_pass-IsKey {c} v = record {
    byte0 = mix-lt _ _ _ hk.byte0 (mix-lt k.k4 c.k4 c.k3 hk.byte4 v.byte3);
    byte1 = mix-lt _ _ _ hk.byte1 v.byte0;
    byte2 = mix-lt _ _ _ hk.byte2 v.byte1;
    byte3 = mix-lt _ _ _ hk.byte3 v.byte2;
    byte4 = mix-lt _ _ _ hk.byte4 v.byte3;
  }

  second_pass-IsKey : {p : DvdKey} → IsKey p → IsKey (second_pass k p)
  second_pass-IsKey {p} v = record {
    byte0 = bit_xor-lt 8 _ _ hk.byte0 (css_tab1-lt p.k0);
    byte1 = mix-lt _ _ _ hk.byte1 v.byte0;
    byte2 = mix-lt _ _ _ hk.byte2 v.byte1;
    byte3 = mix-lt _ _ _ hk.byte3 v.byte2;
    byte4 = mix-lt _ _ _ hk.byte4 v.byte3;
  }

  first_undo-IsKey : (p : DvdKey) → IsKey (first_undo k p)
  unfolding first_undo
  first_undo-IsKey p = record {
    byte0 = css_tab1_inverse-lt _;
    byte1 = css_tab1_inverse-lt _;
    byte2 = css_tab1_inverse-lt _;
    byte3 = css_tab1_inverse-lt _;
    byte4 = css_tab1_inverse-lt _;
  }

  second_undo-IsKey : (f : DvdKey) → IsKey (second_undo k f)
  unfolding second_undo
  second_undo-IsKey f = record {
    byte0 = css_tab1_inverse-lt _;
    byte1 = css_tab1_inverse-lt _;
    byte2 = css_tab1_inverse-lt _;
    byte3 = css_tab1_inverse-lt _;
    byte4 = css_tab1_inverse-lt _;
  }

  first_undo-first_pass : {c : DvdKey} → IsKey c → first_undo k (first_pass k c) ≡ c
  unfolding first_undo
  first_undo-first_pass {c} v =
      let e0 = unmix-mix k.k0 c.k0 (mix k.k4 c.k4 c.k3) v.byte0 in
      let e1 = unmix-mix_at k.k1 c.k1 c.k0 _ v.byte1 e0 in
      let e2 = unmix-mix_at k.k2 c.k2 c.k1 _ v.byte2 e1 in
      let e3 = unmix-mix_at k.k3 c.k3 c.k2 _ v.byte3 e2 in
      let e4 = unmix-mix_at k.k4 c.k4 c.k3 _ v.byte4 e3 in
      λ i. record { k0 = e0 i; k1 = e1 i; k2 = e2 i; k3 = e3 i; k4 = e4 i }

  second_undo-second_pass : {p : DvdKey} → IsKey p → second_undo k (second_pass k p) ≡ p
  unfolding second_undo
  second_undo-second_pass {p} v =
      let e0 =
        ap css_tab1_inverse (bit_xor_cancel_left k.k0 (css_tab1 p.k0))
        ∙ css_tab1_inverse-css_tab1 p.k0 v.byte0 in
      let e1 = unmix-mix_at k.k1 p.k1 p.k0 _ v.byte1 e0 in
      let e2 = unmix-mix_at k.k2 p.k2 p.k1 _ v.byte2 e1 in
      let e3 = unmix-mix_at k.k3 p.k3 p.k2 _ v.byte3 e2 in
      let e4 = unmix-mix_at k.k4 p.k4 p.k3 _ v.byte4 e3 in
      λ i. record { k0 = e0 i; k1 = e1 i; k2 = e2 i; k3 = e3 i; k4 = e4 i }

  first_pass-first_undo : {p : DvdKey} → IsKey p → first_pass k (first_undo k p) ≡ p
  unfolding first_undo
  first_pass-first_undo {p} v =
      let c = first_undo k p in
      let b = first_undo-IsKey p in
      let e4 = mix-unmix k.k4 p.k4 c.k3 hk.byte4 v.byte4 b.byte3 in
      let e0 = ap (mix k.k0 c.k0) e4 ∙ mix-unmix k.k0 p.k0 p.k4 hk.byte0 v.byte0 v.byte4 in
      let e1 = mix-unmix k.k1 p.k1 c.k0 hk.byte1 v.byte1 b.byte0 in
      let e2 = mix-unmix k.k2 p.k2 c.k1 hk.byte2 v.byte2 b.byte1 in
      let e3 = mix-unmix k.k3 p.k3 c.k2 hk.byte3 v.byte3 b.byte2 in
      λ i. record { k0 = e0 i; k1 = e1 i; k2 = e2 i; k3 = e3 i; k4 = e4 i }

  second_pass-second_undo : {f : DvdKey} → IsKey f → second_pass k (second_undo k f) ≡ f
  unfolding second_undo
  second_pass-second_undo {f} v =
      let p = second_undo k f in
      let b = second_undo-IsKey f in
      let e0 =
        ap (bit_xor k.k0) (css_tab1-css_tab1_inverse _ (bit_xor-lt 8 _ _ hk.byte0 v.byte0))
        ∙ bit_xor_cancel_left k.k0 f.k0 in
      let e1 = mix-unmix k.k1 f.k1 p.k0 hk.byte1 v.byte1 b.byte0 in
      let e2 = mix-unmix k.k2 f.k2 p.k1 hk.byte2 v.byte2 b.byte1 in
      let e3 = mix-unmix k.k3 f.k3 p.k2 hk.byte3 v.byte3 b.byte2 in
      let e4 = mix-unmix k.k4 f.k4 p.k3 hk.byte4 v.byte4 b.byte3 in
      λ i. record { k0 = e0 i; k1 = e1 i; k2 = e2 i; k3 = e3 i; k4 = e4 i }

-- The inverse of `DecryptKey` for a key.
pub encrypt_key : ℕ → DvdKey → DvdKey → DvdKey
encrypt_key invert key f = let k = mangle_key invert key in first_undo k (second_undo k f)

module _ (invert : ℕ) (key : DvdKey) where
  abbrev mangled : IsKey (mangle_key invert key)
  mangled = mangle_key-IsKey invert key

  decrypt_key_passes :
      (c : DvdKey)
      → decrypt_key invert key c
        ≡ second_pass (mangle_key invert key) (first_pass (mangle_key invert key) c)
  unfolding decrypt_key
  decrypt_key_passes c = ap Buffers.result (decrypt_key_eq invert key c c)

  pub decrypt_key-IsKey : {c : DvdKey} → IsKey c → IsKey (decrypt_key invert key c)
  decrypt_key-IsKey {c} v =
      subst IsKey (sym (decrypt_key_passes c))
        (second_pass-IsKey mangled (first_pass-IsKey mangled v))

  -- `DecryptKey` under any key and `invert` is a permutation of the blocks of five bytes: each is
  -- the decryption of exactly one.
  pub decrypt_key-encrypt_key :
      (block : DvdKey)
      → IsKey block
      → IsKey (encrypt_key invert key block)
        × (decrypt_key invert key (encrypt_key invert key block) ≡ block)
        × (encrypt_key invert key (decrypt_key invert key block) ≡ block)
  unfolding encrypt_key
  decrypt_key-encrypt_key block v =
      let k = mangle_key invert key in
      (
        first_undo-IsKey mangled (second_undo k block),
        decrypt_key_passes (first_undo k (second_undo k block))
            ∙ ap (second_pass k) (first_pass-first_undo mangled (second_undo-IsKey mangled block))
            ∙ second_pass-second_undo mangled v,
        ap (λ f. first_undo k (second_undo k f)) (decrypt_key_passes block)
            ∙ ap (first_undo k) (second_undo-second_pass mangled (first_pass-IsKey mangled v))
            ∙ first_undo-first_pass mangled v,
      )
