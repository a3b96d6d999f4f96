-- ===== src/CrackDisc/Ends.antt =====
-- The first steps of the search of `CrackDiscKey` of src/css.c: no index of the big table is too
-- large, and an attempt either gives a tested key or fails in both states.
use libdvdcss.Common.{
  ℕ, zero, suc, ◌+◌, ◌<◌, Bool, true, false, ◌&&◌, some, List, ◌≡◌, refl, sym, ap, ◌∙◌, inl, inr,
  Bool-cases, arith, leb, ◌&◌, ◌‖◌, ◌<<◌, ◌>>◌,
}
use libdvdcss.Common.Bits.Fields.{bit_or-lt, bit_and_mask}
use libdvdcss.Tables.Laws.{css_tab4-lt}
use libdvdcss.Keys.{DvdKey, byte}
use libdvdcss.DecryptKey.{decrypt_key}
use libdvdcss.DiscKey.Laws.{key_eq→≡}
use libdvdcss.CrackDisc.{
  Memory, Search, found, failed, goes_on, Half, write, investigate, lfsr2_bytes, big_index,
  big_size, state_index, fill_big, with_state, consistent, try_state, and_then, out2_0, out2_1,
  out2_4, try_half,
}

big_index-lt : (a b c : ℕ) → a < 256 → b < 256 → c < 256 → big_index a b c < big_size
unfolding big_index
big_index-lt a b c ha hb hc =
    bit_or-lt 24 ((a << 16) ‖ (b << 8)) c
      (bit_or-lt 24 (a << 16) (b << 8) (omega arith) (omega arith)) (omega arith)

state_index-lt : (i : ℕ) → state_index i < big_size
unfolding state_index lfsr2_bytes
state_index-lt i = big_index-lt _ _ _ (css_tab4-lt _) (css_tab4-lt _) (css_tab4-lt _)

pub fill_big_lem : (left i : ℕ) (table : Memory) → (m : Memory) × (fill_big left i table ≡ some m)
unfolding fill_big
fill_big_lem zero i table = (table, refl)
fill_big_lem (suc left) i table =
    let inside : leb big_size (state_index i) ≡ false = ground (arith, state_index-lt i) in
    let (m, is) = fill_big_lem left (i + 1) (write (state_index i) i table) in rw (inside) (m, is)

low_byte : (x : ℕ) → x & 0xff < 256
low_byte x = omega (arith, bit_and_mask 8 x)

-- A key that is found has been tested, no index is too large, and of a search that goes on, `P` is
-- known.
abbrev pub Ends : DvdKey → (DvdKey → Type 0) → Search → Type 0
Ends hash P (found c) = decrypt_key 0 c hash ≡ c
Ends hash P failed = ⊥
Ends hash P (goes_on c) = P c

pub and_then-Ends :
    (hash : DvdKey) (P Q : DvdKey → Type 0) (s : Search) (next : DvdKey → Search)
    → Ends hash P s
    → ((c : DvdKey) → P c → Ends hash Q (next c))
    → Ends hash Q (and_then s next)
unfolding and_then
and_then-Ends hash P Q (found c) next h onward = h
and_then-Ends hash P Q failed next h onward = h
and_then-Ends hash P Q (goes_on c) next h onward = onward c h

pub weaken :
    (hash : DvdKey) (P Q : DvdKey → Type 0) (s : Search)
    → Ends hash P s
    → ((c : DvdKey) → P c → Q c)
    → Ends hash Q s
weaken hash P Q (found c) h onward = h
weaken hash P Q failed h onward = h
weaken hash P Q (goes_on c) h onward = onward c h

out_index-lt : (x y z : ℕ) → big_index (x & 0xff) (y & 0xff) (z & 0xff) < big_size
out_index-lt x y z = big_index-lt _ _ _ (low_byte x) (low_byte y) (low_byte z)

-- The key of an attempt with the first two bytes `c0` and `c1` and a state from the big table, and
-- whether it passes the two tests.
unfoldable pub key_of : (c0 c1 state : ℕ) → DvdKey
key_of c0 c1 state = with_state state (record { k0 = c0; k1 = c1; k2 = 0; k3 = 0; k4 = 0 })

unfoldable pub passes : DvdKey → Half → DvdKey → Bool
passes hash h c = consistent hash h c && investigate hash c

-- The first two bytes of `C`.
abbrev pub Begins : (c0 c1 : ℕ) → DvdKey → Type 0
Begins c0 c1 c = (c.k0 ≡ c0) × (c.k1 ≡ c1)

with_state_lem :
    (c0 c1 state : ℕ) (c : DvdKey) → Begins c0 c1 c → with_state state c ≡ key_of c0 c1 state
unfolding with_state key_of
with_state_lem c0 c1 state c (e, f) = λ i. record {
  k0 = e i;
  k1 = f i;
  k2 = state & 0xff;
  k3 = state >> 8 & 0xff;
  k4 = state >> 16 & 0xff;
}

-- A state that does not pass, with `C` after it.
abbrev Rejected : Memory → DvdKey → Half → (c0 c1 index : ℕ) → DvdKey → Type 0
Rejected big hash h c0 c1 index c =
    Begins c0 c1 c × (passes hash h (key_of c0 c1 (big index)) ≡ false)

try_state-Ends :
    (big : Memory) (hash : DvdKey) (h : Half) (index c0 c1 : ℕ) (c : DvdKey)
    → Begins c0 c1 c
    → index < big_size
    → Ends hash (Rejected big hash h c0 c1 index) (try_state big hash h index c)
unfolding try_state investigate passes key_of with_state
try_state-Ends big hash h index c0 c1 c begins small =
    let inside : leb big_size index ≡ false = ground arith in
    let c' = with_state (big index) c in
    let same = with_state_lem c0 c1 (big index) c begins in
    elim (Bool-cases (consistent hash h c' && investigate hash c')) [
      | inl e ↦
          let tested : investigate hash c' ≡ true = ground arith in
          rw (inside, e) (key_eq→≡ (decrypt_key 0 c' hash) c' tested)
      | inr e ↦
          rw (inside, e)
            (
              (ap (λ (k : DvdKey). k.k0) same, ap (λ (k : DvdKey). k.k1) same),
              sym (ap (passes hash h) same) ∙ e,
            )
    ]

-- Both states of an attempt fail.
pub record Fails (big : Memory) (hash : DvdKey) (out1 : List ℕ) (h : Half) (c0 c1 : ℕ)
    : Type 0 where
  pub first :
      passes hash h (
        key_of c0 c1 (
          big (
            big_index
              (out2_0 h.h0 (byte out1 0))
              (out2_1 h.h0 (byte out1 0) h.h1 (byte out1 1))
              (out2_4 h.h4 (byte out1 4)))))
      ≡ false
  pub second :
      passes hash h (
        key_of c0 c1 (
          big (
            big_index
              (out2_0 h.h0 (byte out1 0))
              (out2_1 h.h0 (byte out1 0) h.h1 (byte out1 1))
              (out2_4 h.h4 (byte out1 4) + 0xff & 0xff))))
      ≡ false

pub try_half-Ends :
    (big : Memory) (hash : DvdKey) (out1 : List ℕ) (h : Half) (c0 c1 : ℕ) (c : DvdKey)
    → Begins c0 c1 c
    → Ends hash (λ c'. Begins c0 c1 c' × Fails big hash out1 h c0 c1) (try_half big hash out1 h c)
unfolding try_half out2_0 out2_1 out2_4
try_half-Ends big hash out1 h c0 c1 c begins =
    let x = out2_0 h.h0 (byte out1 0) in
    let y = out2_1 h.h0 (byte out1 0) h.h1 (byte out1 1) in
    let z = out2_4 h.h4 (byte out1 4) in
    let index = big_index x y z in
    let index' = big_index x y (z + 0xff & 0xff) in
    let Failed = λ (c' : DvdKey). Begins c0 c1 c' × Fails big hash out1 h c0 c1 in
    and_then-Ends hash (Rejected big hash h c0 c1 index) Failed (try_state big hash h index c)
      (try_state big hash h index')
      (try_state-Ends big hash h index c0 c1 c begins (out_index-lt _ _ _))
      (λ c' (begins', first).
        weaken hash (Rejected big hash h c0 c1 index') Failed (try_state big hash h index' c')
          (try_state-Ends big hash h index' c0 c1 c' begins' (out_index-lt _ _ _))
          (λ c'' (begins'', second). (begins'', record { first = first; second = second })))
