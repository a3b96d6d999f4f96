-- ===== src/Recover/Guess.antt =====
-- The loop of `RecoverTitleKey` that turns the initial register into three bytes of the key: it
-- finds the one number that leads to the register, if there is one.
use libdvdcss.Common.{
  ℕ, zero, suc, ◌+◌, ◌-◌, ◌*◌, ◌/◌, ◌%◌, ◌^◌, ◌≤◌, ◌<◌, ◌≡◌, refl, sym, ◌∙◌, ap, ◌⊎◌, inl, inr,
  some, false, arith, ◌==◌, eq→==, ne→==, ==→ne, ◌≢◌, Bool-cases, ==_iff, bit_and, bit_or,
}
use native.Mathlib.Decide.{dec_lt}
use libdvdcss.Common.Bits.Fields.{bit_and_mask, bit_or_fields_left}
use libdvdcss.Keys.{IsKey}
use libdvdcss.Unscramble.Start.{spread, join24, stream_of}
use libdvdcss.Recover.{Recovered, key_from, guess, guess_fits, set_key, first_guess}
use libdvdcss.Recover.Matches.{with_t3}

guess_fits_eq : (t3 x : ℕ) → guess_fits t3 x ≡ ((x * 2 + 8 - x % 8) % 2 ^ 32 == t3)
unfolding guess_fits
guess_fits_eq t3 x = ap (λ (m : ℕ). (x * 2 + 8 - m) % 2 ^ 32 == t3) (bit_and_mask 3 x)

-- The value of `i_t5` at which the number is met.
abbrev meets_at : ℕ → ℕ
meets_at x = x % 8 - x % 8 / 2

-- The loop while the number is still to come, and after it.
module _ (i_try t3 x : ℕ) (bound : x < 2 ^ 24) (leads : spread x ≡ t3) where
  guess_meets : guess t3 (meets_at x) ≡ x
  unfolding guess
  guess_meets = omega arith

  misses : (d : ℕ) → d < 8 → d ≢ meets_at x → (spread (guess t3 d)) % 2 ^ 32 ≢ t3
  unfolding guess
  misses d h ne = omega arith

  fits_at : (d : ℕ) → d < 8 → guess_fits t3 (guess t3 d) ≡ (d == meets_at x)
  fits_at d h = elim (Bool-cases (d == meets_at x)) [
    | inl here ↦
        let is : guess t3 d ≡ x = ap (guess t3) ((==_iff d _).0 here) ∙ guess_meets in
        guess_fits_eq t3 (guess t3 d) ∙ eq→== _ _ (rw is (omega arith)) ∙ sym here
    | inr away ↦ guess_fits_eq t3 (guess t3 d) ∙ ne→== _ _ (misses d h (==→ne d _ away)) ∙ sym away
  ]

  set_key_past :
      (left d : ℕ) (out : Recovered)
      → meets_at x < d
      → d + left ≤ 8
      → set_key left d i_try t3 out ≡ out
  unfolding set_key
  set_key_past zero d out past room = refl
  set_key_past (suc left) d out past room =
      rw (fits_at d (omega arith), ne→== d (meets_at x) (omega arith))
        (set_key_past left (d + 1) out (omega arith) (omega arith))

  set_key_hit :
      (left d : ℕ) (out : Recovered)
      → d ≤ meets_at x
      → meets_at x < d + left
      → d + left ≤ 8
      → set_key left d i_try t3 out ≡ record { exit = some (i_try + 1); key = key_from i_try x }
  unfolding set_key
  set_key_hit zero d out lo hi room = absurd (omega arith)
  set_key_hit (suc left) d out lo hi room = elim (Bool-cases (d == meets_at x)) [
    | inl here ↦
        let is : guess t3 d ≡ x = ap (guess t3) ((==_iff d _).0 here) ∙ guess_meets in
        let now = (==_iff d _).0 here in
        rw (fits_at d (omega arith), here, is)
          (set_key_past left (d + 1) _ (omega arith) (omega arith))
    | inr away ↦
        let later = ==→ne d _ away in
        rw (fits_at d (omega arith), away)
          (set_key_hit left (d + 1) out (omega arith) (omega arith) (omega arith))
  ]

never : (t3 d : ℕ) → t3 < 2 ^ 25 → t3 % 16 < 8 → d < 8 → (spread (guess t3 d)) % 2 ^ 32 ≢ t3
unfolding guess
never t3 d bound clear h = omega arith

-- No number leads to a register whose bit 3 is not set.
fits_never : (t3 d : ℕ) → t3 < 2 ^ 25 → t3 % 16 < 8 → d < 8 → guess_fits t3 (guess t3 d) ≡ false
fits_never t3 d bound clear h = guess_fits_eq t3 (guess t3 d) ∙ ne→== _ _ (never t3 d bound clear h)

set_key_miss :
    (left d i_try t3 : ℕ) (out : Recovered)
    → t3 < 2 ^ 25
    → t3 % 16 < 8
    → d + left ≤ 8
    → set_key left d i_try t3 out ≡ out
unfolding set_key
set_key_miss zero d i_try t3 out bound clear room = refl
set_key_miss (suc left) d i_try t3 out bound clear room =
    rw (fits_never t3 d bound clear (omega arith))
      (set_key_miss left (d + 1) i_try t3 out bound clear (omega arith))

-- The loop writes the key of the number that leads to the register, and nothing if there is none.
pub set_key_lem :
    (i_try x : ℕ) (out : Recovered)
    → x < 2 ^ 24
    → set_key 8 0 i_try (spread x) out ≡ record { exit = some (i_try + 1); key = key_from i_try x }
set_key_lem i_try x out bound =
    set_key_hit i_try (spread x) x bound refl 8 0 out (omega arith) (omega arith) (omega arith)

pub set_key_cases :
    (i_try t3 : ℕ) (out : Recovered)
    → t3 < 2 ^ 25
    → (set_key 8 0 i_try t3 out ≡ out)
      ⊎ ((x : ℕ) × (x < 2 ^ 24)
          × (spread x ≡ t3)
          × (set_key 8 0 i_try t3 out ≡ record { exit = some (i_try + 1); key = key_from i_try x }))
set_key_cases i_try t3 out bound = elim (dec_lt (t3 % 16) 8) [
  | yes clear ↦ inl (set_key_miss 8 0 i_try t3 out bound clear (omega arith))
  | no flag ↦
      let x = t3 / 16 * 8 + (t3 % 16 - 8) in
      let leads : spread x ≡ t3 = omega arith in
      inr (
        x,
        omega arith,
        leads,
        (set_key_hit i_try t3 x (omega arith) leads 8 0 out (omega arith) (omega arith)
            (omega arith)),
      )
]

-- The bytes that are written make up the number and the value of `i_try`.
pub key_from_lem :
    (i_try x : ℕ)
    → i_try < 2 ^ 16
    → x < 2 ^ 24
    → IsKey (key_from i_try x)
      × (stream_of (key_from i_try x) ≡ with_t3 (first_guess i_try) (spread x))
unfolding key_from first_guess
key_from_lem i_try x hi hx =
    let low = bit_and_mask 8 in
    let t1 : 256 + i_try / 2 ^ 8 ≡ bit_or (i_try / 2 ^ 8) 0x100 =
      sym (bit_or_fields_left 8 1 (i_try / 2 ^ 8) (omega arith)) in
    let joined : join24 (bit_and x 0xff) (bit_and (x / 2 ^ 8) 0xff) (bit_and (x / 2 ^ 16) 0xff)
        ≡ x =
      omega (arith, low x, low (x / 2 ^ 8), low (x / 2 ^ 16)) in
    (
      omega (arith, low x, low (x / 2 ^ 8), low (x / 2 ^ 16), low i_try),
      (λ i. record { t1 = t1 i; t2 = bit_and i_try 0xff; t3 = spread (joined i); t5 = 0 }),
    )
