-- ===== src/Recover.antt =====
-- `RecoverTitleKey` of src/css.c: a title key from ten bytes of cipher text and the plain text
-- that they stand for.
pub mod Register
pub mod Matches
pub mod Deduce
pub mod Guess
pub mod Run
pub mod Attempt
pub mod Attempts
pub mod Correct
mod Tests
use libdvdcss.Common.{
  ℕ, zero, suc, ◌+◌, ◌-◌, ◌*◌, ◌^◌, Bool, true, false, Option, none, some, List, [], ◌∷◌,
  if◌then◌else◌, ltb, ◌==◌, take, drop, u32, ◌<<◌, ◌>>◌, ◌&◌, ◌⊕◌, ◌‖◌,
}
use libdvdcss.Tables.Css.{css_tab1, css_tab4, css_tab5}
use libdvdcss.Keys.{DvdKey, byte, xor_key}
use libdvdcss.Unscramble.{Stream, feedback, lfsr1, next_t1, shift_in, round, key_byte}

-- `p_buffer`: what the cipher added to the first `n` bytes.
unfoldable pub known_bytes : ℕ → List ℕ → List ℕ → List ℕ
known_bytes zero crypted decrypted = []
known_bytes (suc n) crypted decrypted =
    (css_tab1 (byte crypted 0) ⊕ byte decrypted 0)
    ∷ known_bytes n (drop 1 crypted) (drop 1 decrypted)

-- The `i_t6` that gives the byte `b` with the carry `t5` and the other register's `t4`.
unfoldable pub deduce_t6 : ℕ → ℕ → ℕ → ℕ
deduce_t6 t5 b t4 =
    let t6 = if t5 == 0 then b else (b + 0xff & 0x0ff) in
    let t6' = if ltb t6 t4 then t6 + 0x100 else t6 in t6' - t4

-- One round of the loop that deduces the second register's output, for the byte `b`.
unfoldable pub deduce : Stream → ℕ → Stream
deduce s b =
    let t4 = css_tab5 (lfsr1 s.t1 s.t2) in
    let t6 = deduce_t6 s.t5 b t4 in
    record {
      t1 = next_t1 s.t1 s.t2;
      t2 = s.t1 >> 1;
      t3 = shift_in s.t3 (css_tab4 t6);
      t5 = u32 (s.t5 + (t6 + t4)) >> 8;
    }

unfoldable pub deduce_all : Stream → List ℕ → Stream
deduce_all s [] = s
deduce_all s (b ∷ bs) = deduce_all (deduce s b) bs

-- The loop that runs the cipher on: whether it is left with `i == 10`.
unfoldable pub validate : Stream → List ℕ → Bool
validate s [] = true
validate s (b ∷ bs) = let rest = validate (round s) bs in if key_byte s == b then rest else false

-- `i_t3` with the byte `j` shifted in from above.
unfoldable pub with_top : ℕ → ℕ → ℕ
with_top t3 j = (t3 & 0x1ffff) ‖ (j << 17)

-- The search for that byte, with `left` values of `j` to try; `target` is `i_t1`.
unfoldable pub find_byte : ℕ → ℕ → ℕ → ℕ → ℕ
find_byte zero j target t3 = t3
find_byte (suc left) j target t3 =
    let rest = find_byte left (j + 1) target (with_top t3 j) in
    if feedback (with_top t3 j) == target then with_top t3 j else rest

-- One backward step of the second register.
unfoldable pub step_back : ℕ → ℕ
step_back t3 = find_byte 256 0 (t3 & 0xff) (t3 >> 8)

unfoldable pub steps_back : ℕ → ℕ → ℕ
steps_back zero t3 = t3
steps_back (suc n) t3 = steps_back n (step_back t3)

-- `i_exit` (-1 is `none`) and `p_key`.
pub record Recovered : Type 0 where
  pub exit : Option ℕ
  pub key : DvdKey

-- The key that is written for the 24-bit number `x`.
unfoldable pub key_from : ℕ → ℕ → DvdKey
key_from i_try x = record {
  k0 = i_try >> 8;
  k1 = i_try & 0xff;
  k2 = x & 0xff;
  k3 = x >> 8 & 0xff;
  k4 = x >> 16 & 0xff;
}

-- `i_t4 + i_t5`, and the test that it leads to `i_t3`.
unfoldable pub guess : ℕ → ℕ → ℕ
guess t3 t5 = u32 (u32 ((t3 >> 1) + 2 ^ 32 - 4) + t5)

unfoldable pub guess_fits : ℕ → ℕ → Bool
guess_fits t3 x = u32 (x * 2 + 8 - (x & 7)) == t3

-- The loop over `i_t5`, with `left` values to try.
unfoldable pub set_key : ℕ → ℕ → ℕ → ℕ → Recovered → Recovered
set_key zero t5 i_try t3 out = out
set_key (suc left) t5 i_try t3 out = set_key left (t5 + 1) i_try t3 (
    if guess_fits t3 (guess t3 t5)
    then record { exit = some (i_try + 1); key = key_from i_try (guess t3 t5) }
    else out)

-- The registers at the start of a try.
unfoldable pub first_guess : ℕ → Stream
first_guess i_try = record { t1 = i_try >> 8 ‖ 0x100; t2 = i_try & 0xff; t3 = 0; t5 = 0 }

unfoldable pub attempt : List ℕ → ℕ → Recovered → Recovered
attempt buffer i_try out =
    let s = deduce_all (first_guess i_try) (take 4 buffer) in
    if validate s (drop 4 buffer) then set_key 8 0 i_try (steps_back 4 s.t3) out else out

-- The loop over `i_try`, with `left` values to try.
unfoldable pub attempts : ℕ → List ℕ → ℕ → Recovered → Recovered
attempts zero buffer i_try out = out
attempts (suc left) buffer i_try out = attempts left buffer (i_try + 1) (attempt buffer i_try out)

-- At the end, `p_key[i] ^= p_sector_seed[i]` if a key was found.
unfoldable pub with_seed : DvdKey → Recovered → Recovered
with_seed seed r = elim r.exit [
  | none ↦ r
  | some e ↦ record { exit = some e; key = xor_key r.key seed }
]

unfoldable pub recover_title_key : ℕ → List ℕ → List ℕ → DvdKey → DvdKey → Recovered
recover_title_key i_start crypted decrypted seed key = with_seed seed (
    attempts (0x10000 - i_start) (known_bytes 10 crypted decrypted) i_start
      (record { exit = none; key = key }))
