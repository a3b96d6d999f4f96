-- ===== src/CrackDisc.antt =====
-- `investigate` and `CrackDiscKey` of src/css.c: the disc key from its hash alone. A table in memory
-- is a function from addresses to what they hold, and `calloc` gives zeros.
pub mod Ends
pub mod Sound
mod Tests
use libdvdcss.Common.{
  ℕ, zero, suc, ◌+◌, ◌-◌, ◌*◌, ◌/◌, ◌%◌, Bool, true, false, not, ◌&&◌, ◌||◌, Option, none, some,
  List, [], ◌∷◌, if◌then◌else◌, ◌==◌, ltb, leb, u8, u32, ◌<<◌, ◌>>◌, ◌&◌, ◌⊕◌, ◌‖◌,
}
use libdvdcss.Tables.Css.{css_tab1, css_tab2, css_tab3, css_tab4}
use libdvdcss.Keys.{DvdKey, byte, key_at}
use libdvdcss.DecryptKey.{decrypt_key}
use libdvdcss.DiscKey.{key_eq}
use libdvdcss.Unscramble.{feedback}

abbrev pub Memory : Type 0
Memory = ℕ → ℕ

unfoldable pub write : ℕ → ℕ → Memory → Memory
write address value m = λ (a : ℕ). if a == address then value else m a

unfoldable pub calloc : Memory
calloc a = 0

-- `!investigate( hash, ckey )`
unfoldable pub investigate : DvdKey → DvdKey → Bool
investigate hash ckey = key_eq (decrypt_key 0 ckey hash) ckey

-- `K1TABLEWIDTH`: a row holds the number of its entries and the entries.
abbrev pub k1_width : ℕ
k1_width = 10

abbrev pub k1_row : ℕ → ℕ → ℕ
k1_row b0 c1 = k1_width * (256 * b0 + c1)

-- An entry `i` for the row at `base`.
unfoldable pub enter_k1 : ℕ → ℕ → Memory → Memory
enter_k1 base i table =
    let tmp4 = table base + 1 in
    let entered = if ltb tmp4 k1_width then write (base + tmp4) i table else table in
    write base (u8 tmp4) entered

-- The loop over `j`, of which `left` values are left; `tmp` is fixed, and `i` is a value of k[1].
unfoldable pub enter_row : (tmp i left j : ℕ) → Memory → Memory
enter_row tmp i zero j table = table
enter_row tmp i (suc left) j table =
    let tmp3 = j ⊕ css_tab1 (tmp ⊕ i) ⊕ i in
    enter_row tmp i left (j + 1) (enter_k1 (k1_row j tmp3) i table)

unfoldable pub enter_rows : (tmp left i : ℕ) → Memory → Memory
enter_rows tmp zero i table = table
enter_rows tmp (suc left) i table = enter_rows tmp left (i + 1) (enter_row tmp i 256 0 table)

unfoldable pub hash_tmp : DvdKey → ℕ
hash_tmp hash = hash.k0 ⊕ css_tab1 hash.k1

unfoldable pub k1_table : DvdKey → Memory
k1_table hash = enter_rows (hash_tmp hash) 256 0 calloc

-- The second shift register from the start state `i`: its first `n` bytes through `p_css_tab4`.
unfoldable pub lfsr2_start : ℕ → ℕ
lfsr2_start i = (i + i & 0x1fffff0) ‖ 0x8 ‖ (i & 0x7)

unfoldable pub lfsr2_bytes : ℕ → ℕ → List ℕ
lfsr2_bytes zero tmp = []
lfsr2_bytes (suc n) tmp = css_tab4 (feedback tmp) ∷ lfsr2_bytes n (u32 (tmp << 8) ‖ feedback tmp)

-- Three bytes of a register as an index.
unfoldable pub big_index : ℕ → ℕ → ℕ → ℕ
big_index out0 out1 out4 = (out0 << 16) ‖ (out1 << 8) ‖ out4

-- `BIGTABLESIZE`
abbrev pub big_size : ℕ
big_size = 16777216

unfoldable pub state_index : ℕ → ℕ
state_index i =
    let out2 = lfsr2_bytes 5 (lfsr2_start i) in big_index (byte out2 0) (byte out2 1) (byte out2 4)

-- `none` is the error of an index that is too large.
unfoldable pub fill_big : (left i : ℕ) → Memory → Option Memory
fill_big zero i table = some table
fill_big (suc left) i table =
    let j = state_index i in
    let rest = fill_big left (i + 1) (write j i table) in if leb big_size j then none else rest

-- The first shift register: `n` bytes through `p_css_tab4`.
unfoldable pub lfsr1_bytes : (n lfsr1a lfsr1b : ℕ) → List ℕ
lfsr1_bytes zero lfsr1a lfsr1b = []
lfsr1_bytes (suc n) lfsr1a lfsr1b =
    let tmp = css_tab2 lfsr1b ⊕ css_tab3 lfsr1a in
    css_tab4 tmp ∷ lfsr1_bytes n (((lfsr1a & 1) << 8) ⊕ tmp) (lfsr1a >> 1)

-- How the search goes on: it has a key and leaves all loops, an index is too large, or it goes on
-- with what is in `C`.
pub data Search : Type 0 where
  found : DvdKey → Search
  failed : Search
  goes_on : DvdKey → Search

-- The values of an attempt: `B[0]`, `B[1]`, `B[4]`, `k[0]`, `k[1]` and `k[4]`.
pub record Half : Type 0 where
  pub b0 : ℕ
  pub b1 : ℕ
  pub b4 : ℕ
  pub h0 : ℕ
  pub h1 : ℕ
  pub h4 : ℕ

-- The rest of `C` from a state of the second register, and the test of it.
unfoldable pub with_state : ℕ → DvdKey → DvdKey
with_state state c = record c { k2 = state & 0xff; k3 = state >> 8 & 0xff; k4 = state >> 16 & 0xff }

-- `B[3]`, `k[3]`, `B[2]` and `k[2]`, and the equation for `C[2]`.
unfoldable pub consistent : DvdKey → Half → DvdKey → Bool
consistent hash h c =
    let b3 = css_tab1 h.b4 ⊕ h.h4 ⊕ c.k4 in
    let k3 = hash.k2 ⊕ css_tab1 hash.k3 ⊕ b3 in
    let b2 = css_tab1 b3 ⊕ k3 ⊕ c.k3 in
    let k2 = hash.k1 ⊕ css_tab1 hash.k2 ⊕ b2 in (h.b1 ⊕ css_tab1 b2 ⊕ k2) == c.k2

unfoldable pub try_state : Memory → DvdKey → Half → ℕ → DvdKey → Search
try_state big hash h index c =
    let c' = with_state (big index) c in
    if leb big_size index
    then failed
    else if consistent hash h c' && investigate hash c'
    then found c'
    else goes_on c'

-- The second attempt follows when the first one goes on.
unfoldable pub and_then : Search → (DvdKey → Search) → Search
and_then (found c) next = found c
and_then failed next = failed
and_then (goes_on c) next = next c

-- The bytes of the second register that the first one and the key bytes leave: `out2[0]`, `out2[1]`
-- and `out2[4]`, and the two attempts.
unfoldable pub out2_0 : ℕ → ℕ → ℕ
out2_0 k0 out1_0 = 0x100 + k0 - out1_0 & 0xff

unfoldable pub out2_1 : (k0 out1_0 k1 out1_1 : ℕ) → ℕ
out2_1 k0 out1_0 k1 out1_1 =
    let borrow = if 0x100 + k0 - out1_0 & 0x100 == 0 then 0xff else 0x100 in
    borrow + k1 - out1_1 & 0xff

unfoldable pub out2_4 : ℕ → ℕ → ℕ
out2_4 k4 out1_4 = 0x100 + k4 - out1_4 & 0xff

unfoldable pub try_half : Memory → DvdKey → List ℕ → Half → DvdKey → Search
try_half big hash out1 h c =
    let out0 = out2_0 h.h0 (byte out1 0) in
    let out1' = out2_1 h.h0 (byte out1 0) h.h1 (byte out1 1) in
    let out4 = out2_4 h.h4 (byte out1 4) in
    and_then (try_state big hash h (big_index out0 out1' out4) c)
      (try_state big hash h (big_index out0 out1' (out4 + 0xff & 0xff)))

-- The half of an attempt with a value of k[1].
unfoldable pub half_of : DvdKey → (c0 b0 k1 : ℕ) → Half
half_of hash c0 b0 k1 =
    let k0 = css_tab1 b0 ⊕ c0 in
    let b4 = b0 ⊕ k0 ⊕ css_tab1 hash.k0 in
    record {
      b0 = b0;
      b1 = hash_tmp hash ⊕ k1;
      b4 = b4;
      h0 = k0;
      h1 = k1;
      h4 = b4 ⊕ (hash.k3 ⊕ css_tab1 hash.k4);
    }

module _ (table big : Memory) (hash : DvdKey) where
  -- The loop over `nTry`.
  unfoldable pub try_k1 : List ℕ → (c0 b0 c1 left try : ℕ) → DvdKey → Search
  try_k1 out1 c0 b0 c1 zero try c = goes_on c
  try_k1 out1 c0 b0 c1 (suc left) try c =
      and_then (try_half big hash out1 (half_of hash c0 b0 (table (k1_row b0 c1 + try + 1))) c)
        (try_k1 out1 c0 b0 c1 left (try + 1))

  -- The loop over `nStepB`.
  unfoldable pub try_b0 : List ℕ → (c0 c1 left b0 : ℕ) → DvdKey → Search
  try_b0 out1 c0 c1 zero b0 c = goes_on c
  try_b0 out1 c0 c1 (suc left) b0 c =
      and_then (try_k1 out1 c0 b0 c1 (table (k1_row b0 c1)) 0 c) (try_b0 out1 c0 c1 left (b0 + 1))

  -- The loop over `nStepA`.
  unfoldable pub try_starts : (left step : ℕ) → DvdKey → Search
  try_starts zero step c = goes_on c
  try_starts (suc left) step c =
      let c0 = step >> 8 in
      let c1 = step & 0xff in
      let out1 = lfsr1_bytes 5 (0x100 ‖ c0) c1 in
      and_then (try_b0 out1 c0 c1 256 0 (record c { k0 = c0; k1 = c1 }))
        (try_starts left (step + 1))

-- What is returned, where `none` is -1, with what is then in `p_disc_key`. After all loops the last
-- `C` is stored, as after a key that was found.
unfoldable pub store_key : DvdKey → Search → Bool × DvdKey
store_key hash (found c) = (true, c)
store_key hash failed = (false, hash)
store_key hash (goes_on c) = (true, c)

abbrev pub zero_c : DvdKey
zero_c = record { k0 = 0; k1 = 0; k2 = 0; k3 = 0; k4 = 0 }

unfoldable pub search_with : DvdKey → Option Memory → Bool × DvdKey
search_with hash none = (false, hash)
search_with hash (some big) = store_key hash (try_starts (k1_table hash) big hash 65536 0 zero_c)

unfoldable pub crack_disc_key : DvdKey → Bool × DvdKey
crack_disc_key hash = search_with hash (fill_big big_size 0 calloc)
