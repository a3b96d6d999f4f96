-- ===== src/Recover/Attempt.antt =====
-- One value of `i_try`: when it writes a key, and which.
use libdvdcss.Common.{
  ℕ, ◌+◌, ◌/◌, ◌%◌, ◌^◌, ◌<◌, ◌≡◌, refl, sym, ◌∙◌, ap, ◌⊎◌, inl, inr, true, some, List, [], ◌∷◌,
  arith, Bool-cases,
}
use libdvdcss.Common.Bits.Fields.{bit_and_mask, bit_or_fields_left}
use libdvdcss.Keys.{AllBytes}
use libdvdcss.Unscramble.{Stream, key_byte}
use libdvdcss.Unscramble.Bounds.{run, IsStream}
use libdvdcss.Unscramble.Start.{spread}
use libdvdcss.Recover.{
  Recovered, key_from, first_guess, deduce_all, validate, steps_back, step_back, attempt,
}
use libdvdcss.Recover.Register.{step_back_lem}
use libdvdcss.Recover.Matches.{
  Matches, with_t3, validate→Matches, Matches→validate, Matches-with_t3,
}
use libdvdcss.Recover.Guess.{set_key_lem, set_key_cases}
use libdvdcss.Recover.Run.{
  Matches-split, Matches-join, pushed_four, deduce_all-run, steps_back-run, run_of_deduce_four,
}

pub first_guess-IsStream :
    (i_try x : ℕ) → i_try < 2 ^ 16 → x < 2 ^ 32 → IsStream (with_t3 (first_guess i_try) x)
unfolding first_guess
first_guess-IsStream i_try x h hx =
    omega (arith, bit_or_fields_left 8 1 (i_try / 2 ^ 8) (omega arith), bit_and_mask 8 i_try)

first_guess_t3 : (i_try : ℕ) → with_t3 (first_guess i_try) 0 ≡ first_guess i_try
unfolding first_guess
first_guess_t3 i_try = refl

steps_back_four-lt : (u : ℕ) → steps_back 4 u < 2 ^ 25
unfolding steps_back
steps_back_four-lt u = (step_back_lem (step_back (step_back (step_back u)))).0

module _ (b b1 b2 b3 : ℕ) (rest : List ℕ) (i_try : ℕ) (out : Recovered) (try_in : i_try < 2 ^ 16)
    (first_four : AllBytes (b ∷ b1 ∷ b2 ∷ b3 ∷ [])) where
  abbrev four : List ℕ
  four = b ∷ b1 ∷ b2 ∷ b3 ∷ []

  abbrev buffer : List ℕ
  buffer = b ∷ b1 ∷ b2 ∷ b3 ∷ rest

  -- The cipher that a 24-bit number starts.
  abbrev from : ℕ → Stream
  from x = with_t3 (first_guess i_try) (spread x)

  abbrev deduced : Stream
  deduced = deduce_all (first_guess i_try) four

  -- If the cipher of the number gives the buffer, the key of that number is written.
  pub attempt_complete :
      (x : ℕ)
      → x < 2 ^ 24
      → Matches (from x) buffer
      → attempt buffer i_try out ≡ record { exit = some (i_try + 1); key = key_from i_try x }
  unfolding attempt
  attempt_complete x bound m =
      let s = from x in
      let v = first_guess-IsStream i_try (spread x) try_in (omega arith) in
      let parts = Matches-split 4 s buffer (omega arith) m in
      let run_on : deduced ≡ with_t3 (run 4 s) (run 4 s).t3 =
        ap (λ t. deduce_all t four) (sym (first_guess_t3 i_try))
        ∙ deduce_all-run four s 0 v first_four parts.0
        ∙ ap (with_t3 (run 4 s)) (pushed_four s 0) in
      let valid : validate deduced rest ≡ true =
        ap (λ t. validate t rest) run_on ∙ Matches→validate (run 4 s) rest parts.1 in
      let initial : steps_back 4 deduced.t3 ≡ spread x = omega (
        arith,
        steps_back-run 4 s deduced.t3 (ap (λ t. t.t3 % 2 ^ 25) run_on),
        steps_back_four-lt deduced.t3,
      ) in
      rw (valid, initial) (set_key_lem i_try x out bound)

  -- Otherwise `p_key` stays as it was, or the key that is written gives the buffer, if it gives
  -- the first byte.
  pub attempt_cases :
      (attempt buffer i_try out ≡ out)
      ⊎ ((x : ℕ) × (x < 2 ^ 24)
          × (attempt buffer i_try out ≡ record { exit = some (i_try + 1); key = key_from i_try x })
          × (key_byte (from x) ≡ b → Matches (from x) buffer))
  unfolding attempt
  attempt_cases = elim (Bool-cases (validate deduced rest)) [
    | inr invalid ↦ inl (rw invalid refl)
    | inl valid ↦
        let c = deduced.t3 in
        elim (set_key_cases i_try (steps_back 4 c) out (steps_back_four-lt c)) [
          | inl same ↦ inl (rw valid same)
          | inr (x, bound, leads, written) ↦ inr (
            x,
            bound,
            rw valid written,
            λ given.
                let s = from x in
                let v = first_guess-IsStream i_try (spread x) try_in (omega arith) in
                let same : deduce_all (with_t3 s 0) four ≡ deduced =
                  ap (λ t. deduce_all t four) (first_guess_t3 i_try) in
                let ran =
                  run_of_deduce_four b b1 b2 b3 s 0 v first_four
                    (leads ∙ ap (λ t. steps_back 4 t.t3) (sym same)) given in
                let later : Matches (with_t3 (run 4 s) c) rest = validate→Matches _ rest (
                  ap (λ t. validate t rest)
                    (ap (with_t3 (run 4 s)) (ap (λ t. t.t3) (sym same)) ∙ sym ran.1 ∙ same)
                  ∙ valid) in
                Matches-join 4 s buffer (omega arith) ran.0 (
                  Matches-with_t3 rest (run 4 s) (run 4 s).t3 c
                    (ran.2 ∙ ap (λ t. t.t3 % 2 ^ 25) same) later),
          )
        ]
  ]
