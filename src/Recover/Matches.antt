-- ===== src/Recover/Matches.antt =====
-- A key stream that starts with given bytes: what the validation of `RecoverTitleKey` tests, and
-- what descrambling a known plain text means.
use libdvdcss.Common.{
  ℕ, zero, suc, ◌%◌, ◌^◌, ◌≤◌, ◌≡◌, refl, sym, ◌∙◌, ap, ap₂, List, [], ◌∷◌, true, inl, inr, arith,
  bit_xor, ◌==◌, ==_iff, eq→==, Bool-cases, get_or, length, take, drop, ◌↔◌,
}
use libdvdcss.Common.Bits.Xor.{bit_xor_cancel_left}
use libdvdcss.Tables.Css.{css_tab1}
use libdvdcss.Unscramble.{Stream, feedback, shift_in, sum_t5, round, key_byte, descramble}
use libdvdcss.Unscramble.Bounds.{feedback-lt, shift_in_lem}
use libdvdcss.Recover.{known_bytes, validate}
use libdvdcss.Recover.Register.{feedback-mod}

abbrev pub Matches : Stream → List ℕ → Type 0
Matches s [] = Unit
Matches s (b ∷ bs) = (key_byte s ≡ b) × Matches (round s) bs

pub validate→Matches : (s : Stream) (bs : List ℕ) → validate s bs ≡ true → Matches s bs
unfolding validate
validate→Matches s [] h = tt
validate→Matches s (b ∷ bs) h = elim (Bool-cases (key_byte s == b)) [
  | inl same ↦ ((==_iff _ b).0 same, validate→Matches (round s) bs (rw same at h))
  | inr other ↦ cc (rw other at h)
]

pub Matches→validate : (s : Stream) (bs : List ℕ) → Matches s bs → validate s bs ≡ true
unfolding validate
Matches→validate s [] h = refl
Matches→validate s (b ∷ bs) h = rw (eq→== _ _ h.0) (Matches→validate (round s) bs h.1)

-- Descrambling the cipher text gives the plain text exactly if the key stream is their sum.
pub Matches-known_bytes :
    (n : ℕ) (s : Stream) (crypted decrypted : List ℕ)
    → n ≤ length crypted
    → n ≤ length decrypted
    → Matches s (known_bytes n crypted decrypted)
      ↔ (descramble s (take n crypted) ≡ take n decrypted)
unfolding known_bytes descramble
Matches-known_bytes zero s c d hc hd = ((λ m. refl), (λ e. tt))
Matches-known_bytes (suc n) s [] d hc hd = absurd (omega arith)
Matches-known_bytes (suc n) s (c ∷ cs) [] hc hd = absurd (omega arith)
Matches-known_bytes (suc n) s (c ∷ cs) (d ∷ ds) hc hd =
    let rest = Matches-known_bytes n (round s) cs ds (omega arith) (omega arith) in
    let sum = css_tab1 c in
    (
      (λ m. ap₂ ◌∷◌ (ap (λ (t : ℕ). bit_xor sum t) m.0 ∙ bit_xor_cancel_left sum d) (rest.0 m.1)),
      (λ e. (
        sym (bit_xor_cancel_left sum (key_byte s))
            ∙ ap (λ (t : ℕ). bit_xor sum t) (ap (λ l. get_or l 0 0) e),
        rest.1 (ap (drop 1) e),
      )),
    )

-- The state with another value of the second register.
abbrev pub with_t3 : Stream → ℕ → Stream
with_t3 s x = record s { t3 = x }

pub round-with_t3 :
    (s : Stream) (x y : ℕ)
    → x % 2 ^ 25 ≡ y % 2 ^ 25
    → (key_byte (with_t3 s x) ≡ key_byte (with_t3 s y))
      × (round (with_t3 s x) ≡ with_t3 (round (with_t3 s y)) (shift_in x (feedback x)))
      × (shift_in x (feedback x) % 2 ^ 25 ≡ shift_in y (feedback y) % 2 ^ 25)
unfolding round key_byte sum_t5
round-with_t3 s x y h =
    let fed : feedback x ≡ feedback y = sym (feedback-mod x) ∙ ap feedback h ∙ feedback-mod y in
    (
      rw fed refl,
      rw fed refl,
      omega (
        arith,
        fed,
        shift_in_lem x (feedback x) (feedback-lt x),
        shift_in_lem y (feedback y) (feedback-lt y),
      ),
    )

-- The key stream sees 25 bits of it.
pub Matches-with_t3 :
    (bs : List ℕ) (s : Stream) (x y : ℕ)
    → x % 2 ^ 25 ≡ y % 2 ^ 25
    → Matches (with_t3 s y) bs
    → Matches (with_t3 s x) bs
Matches-with_t3 [] s x y h m = tt
Matches-with_t3 (b ∷ bs) s x y h m =
    let step = round-with_t3 s x y h in
    let ih =
      Matches-with_t3 bs (round (with_t3 s y)) (shift_in x (feedback x)) (shift_in y (feedback y))
        step.2 (unfold round in m.1) in
    (step.0 ∙ m.0, rw step.1 ih)
