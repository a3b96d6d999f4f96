-- ===== src/Recover/Attempts.antt =====
-- The loop of `RecoverTitleKey` of src/css.c over all values of `i_try`.
use libdvdcss.Common.{
  ℕ, zero, suc, ◌+◌, ◌*◌, ◌/◌, ◌^◌, ◌≤◌, ◌<◌, ◌≡◌, refl, ◌∙◌, ap, ◌⊎◌, inl, inr, some, List, [],
  ◌∷◌, arith, drop,
}
use native.Mathlib.Decide.{ℕ_discrete}
use libdvdcss.Common.Bits.Xor.{bit_xor-lt}
use libdvdcss.Common.Bits.Fields.{bit_and_mask}
use libdvdcss.Tables.Laws.{css_tab1-lt}
use libdvdcss.Keys.{DvdKey, IsKey, AllBytes}
use libdvdcss.Unscramble.{Stream, key_byte}
use libdvdcss.Unscramble.Start.{spread, join24}
use libdvdcss.Recover.{Recovered, key_from, first_guess, attempt, attempts, known_bytes}
use libdvdcss.Recover.Matches.{Matches, with_t3}
use libdvdcss.Recover.Attempt.{attempt_complete, attempt_cases}

abbrev pub from : ℕ → ℕ → Stream
from i_try x = with_t3 (first_guess i_try) (spread x)

abbrev pub wrote : ℕ → ℕ → Recovered
wrote i_try x = record { exit = some (i_try + 1); key = key_from i_try x }

-- `r` was written at a value of `i_try` from `lo` on, below `hi`.
pub record Wrote (b : ℕ) (bs : List ℕ) (lo hi : ℕ) (r : Recovered) : Type 0 where
  pub i_try : ℕ
  pub x : ℕ
  pub after_lo : lo ≤ i_try
  pub before_hi : i_try < hi
  pub x_in : x < 2 ^ 24
  pub is : r ≡ wrote i_try x
  pub gives : key_byte (from i_try x) ≡ b → Matches (from i_try x) (b ∷ bs)

pub Wrote-earlier :
    {b : ℕ} {bs : List ℕ} {lo lo' hi hi' : ℕ} {r : Recovered}
    → lo' ≤ lo
    → hi ≤ hi'
    → Wrote b bs lo hi r
    → Wrote b bs lo' hi' r
Wrote-earlier h h' w = record {
  i_try = w.i_try;
  x = w.x;
  after_lo = omega (arith, w.after_lo);
  before_hi = omega (arith, w.before_hi);
  x_in = w.x_in;
  is = w.is;
  gives = w.gives;
}

module _ (b b1 b2 b3 : ℕ) (rest : List ℕ) (first_four : AllBytes (b ∷ b1 ∷ b2 ∷ b3 ∷ [])) where
  abbrev pub tail : List ℕ
  tail = b1 ∷ b2 ∷ b3 ∷ rest

  pub attempts_cases :
      (left i : ℕ) (out : Recovered)
      → i + left ≤ 2 ^ 16
      → let r = attempts left (b ∷ tail) i out in (r ≡ out) ⊎ Wrote b tail i (i + left) r
  unfolding attempts
  attempts_cases zero i out room = inl refl
  attempts_cases (suc left) i out room =
      elim (attempts_cases left (i + 1) (attempt (b ∷ tail) i out) (omega arith)) [
        | inr w ↦ inr (Wrote-earlier (omega arith) (omega arith) w)
        | inl same ↦ elim (attempt_cases b b1 b2 b3 rest i out (omega arith) first_four) [
          | inl kept ↦ inl (same ∙ kept)
          | inr (x, x_in, is, gives) ↦ inr (record {
            i_try = i;
            x = x;
            after_lo = omega arith;
            before_hi = omega arith;
            x_in = x_in;
            is = same ∙ is;
            gives = gives;
          })
        ]
      ]

  -- A number whose cipher gives the buffer is found, unless a later try finds another.
  pub attempts_complete :
      (left i : ℕ) (out : Recovered) (t x : ℕ)
      → i + left ≤ 2 ^ 16
      → i ≤ t
      → t < i + left
      → x < 2 ^ 24
      → Matches (from t x) (b ∷ tail)
      → let r = attempts left (b ∷ tail) i out in
        (r ≡ wrote t x) ⊎ Wrote b tail (t + 1) (i + left) r
  unfolding attempts
  attempts_complete zero i out t x room lo hi x_in m = absurd (omega arith)
  attempts_complete (suc left) i out t x room lo hi x_in m = elim (ℕ_discrete i t) [
    | yes here ↦
        let now = attempt_complete b b1 b2 b3 rest t out (omega arith) first_four x x_in m in
        let now' : attempt (b ∷ tail) i out ≡ wrote t x =
          ap (λ k. attempt (b ∷ tail) k out) here ∙ now in
        elim (attempts_cases left (i + 1) (attempt (b ∷ tail) i out) (omega arith)) [
          | inl same ↦ inl (same ∙ now')
          | inr w ↦ inr (Wrote-earlier (omega arith) (omega arith) w)
        ]
    | no later ↦
        elim (attempts_complete left (i + 1) (attempt (b ∷ tail) i out) t x (omega arith)
          (omega arith) (omega arith) x_in m) [
            | inl same ↦ inl same
            | inr w ↦ inr (Wrote-earlier (omega arith) (omega arith) w)
          ]
  ]

pub known_bytes-AllBytes :
    (n : ℕ) (crypted decrypted : List ℕ)
    → AllBytes decrypted
    → AllBytes (known_bytes n crypted decrypted)
unfolding known_bytes
known_bytes-AllBytes zero c d h = tt
known_bytes-AllBytes (suc n) c [] h =
    (bit_xor-lt 8 _ _ (css_tab1-lt _) (omega arith), known_bytes-AllBytes n (drop 1 c) [] tt)
known_bytes-AllBytes (suc n) c (d ∷ ds) h =
    (bit_xor-lt 8 _ _ (css_tab1-lt _) h.0, known_bytes-AllBytes n (drop 1 c) ds h.1)

-- The value of `i_try` and the 24-bit number that stand for five bytes.
abbrev pub try_of : DvdKey → ℕ
try_of k = k.k0 * 2 ^ 8 + k.k1

pub key_from-try_of : {k : DvdKey} → IsKey k → key_from (try_of k) (join24 k.k2 k.k3 k.k4) ≡ k
unfolding key_from
key_from-try_of {k} v =
    let low = bit_and_mask 8 in
    let x = join24 k.k2 k.k3 k.k4 in
    ground (arith, low (try_of k), low x, low (x / 2 ^ 8), low (x / 2 ^ 16))
