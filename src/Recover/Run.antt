-- ===== src/Recover/Run.antt =====
-- Four rounds of the cipher, and four backward steps of its second register.
use libdvdcss.Common.{
  ℕ, zero, suc, ◌+◌, ◌*◌, ◌%◌, ◌^◌, ◌≤◌, ◌≡◌, refl, sym, ◌∙◌, ap, List, [], ◌∷◌, arith, length,
  take, drop,
}
use libdvdcss.Keys.{AllBytes}
use libdvdcss.Unscramble.{Stream, feedback, shift_in, round, key_byte}
use libdvdcss.Unscramble.Bounds.{run, IsStream, round-IsStream, feedback-lt, shift_in_lem}
use libdvdcss.Recover.{deduce, deduce_all, step_back, steps_back}
use libdvdcss.Recover.Register.{step_back_lem, step_back_unique, feedback-mod}
use libdvdcss.Recover.Matches.{Matches, with_t3}
use libdvdcss.Recover.Deduce.{deduce-t3, deduce-round, key_byte_of_deduce}

run-suc : (n : ℕ) (s : Stream) → run (suc n) s ≡ round (run n s)
run-suc zero s = refl
run-suc (suc n) s = run-suc n (round s)

pub Matches-split :
    (n : ℕ) (s : Stream) (bs : List ℕ)
    → n ≤ length bs
    → Matches s bs
    → Matches s (take n bs) × Matches (run n s) (drop n bs)
Matches-split zero s bs h m = (tt, m)
Matches-split (suc n) s [] h m = absurd (omega arith)
Matches-split (suc n) s (b ∷ bs) h m =
    let rest = Matches-split n (round s) bs (omega arith) m.1 in ((m.0, rest.0), rest.1)

pub Matches-join :
    (n : ℕ) (s : Stream) (bs : List ℕ)
    → n ≤ length bs
    → Matches s (take n bs)
    → Matches (run n s) (drop n bs)
    → Matches s bs
Matches-join zero s bs h first rest = rest
Matches-join (suc n) s [] h first rest = absurd (omega arith)
Matches-join (suc n) s (b ∷ bs) h first rest =
    (first.0, Matches-join n (round s) bs (omega arith) first.1 rest)

-- Another value of the second register, with the same bytes shifted in.
abbrev pub pushed : ℕ → Stream → ℕ → ℕ
pushed zero s x = x
pushed (suc n) s x = pushed n (round s) (shift_in x (feedback s.t3))

round-t3 : (s : Stream) → (round s).t3 ≡ s.t3 % 2 ^ 24 * 256 + feedback s.t3
unfolding round
round-t3 s = shift_in_lem s.t3 (feedback s.t3) (feedback-lt s.t3)

push-t3 : (s : Stream) (x : ℕ) → shift_in x (feedback s.t3) ≡ x % 2 ^ 24 * 256 + feedback s.t3
push-t3 s x = shift_in_lem x (feedback s.t3) (feedback-lt s.t3)

-- Four bytes fill the 32 bits.
pub pushed_four : (s : Stream) (x : ℕ) → pushed 4 s x ≡ (run 4 s).t3
pushed_four s x =
    let s1 = round s in
    let s2 = round s1 in
    let s3 = round s2 in
    let x1 = shift_in x (feedback s.t3) in
    let x2 = shift_in x1 (feedback s1.t3) in
    let x3 = shift_in x2 (feedback s2.t3) in
    omega (
      arith,
      push-t3 s x,
      push-t3 s1 x1,
      push-t3 s2 x2,
      push-t3 s3 x3,
      round-t3 s,
      round-t3 s1,
      round-t3 s2,
      round-t3 s3,
    )

-- On the bytes of the cipher the deducing loop shifts in what the cipher does.
pub deduce_all-run :
    (bs : List ℕ) (s : Stream) (x : ℕ)
    → IsStream s
    → AllBytes bs
    → Matches s bs
    → deduce_all (with_t3 s x) bs ≡ with_t3 (run (length bs) s) (pushed (length bs) s x)
unfolding deduce_all
deduce_all-run [] s x v h m = refl
deduce_all-run (b ∷ bs) s x v h m =
    ap (λ t. deduce_all t bs) (deduce-round s v x b h.0 m.0)
    ∙ deduce_all-run bs (round s) (shift_in x (feedback s.t3)) (round-IsStream v) h.1 m.1

-- A backward step undoes a round, up to the 25 bits that the register has.
step_back-round :
    (s : Stream) (u : ℕ) → u % 2 ^ 25 ≡ (round s).t3 % 2 ^ 25 → step_back u ≡ s.t3 % 2 ^ 25
step_back-round s u h =
    step_back_unique u (s.t3 % 2 ^ 25) (omega arith) (omega (arith, round-t3 s, feedback-lt s.t3))
      (feedback-mod s.t3 ∙ omega (arith, round-t3 s, feedback-lt s.t3))

pub steps_back-run :
    (n : ℕ) (s : Stream) (u : ℕ)
    → u % 2 ^ 25 ≡ (run n s).t3 % 2 ^ 25
    → steps_back n u % 2 ^ 25 ≡ s.t3 % 2 ^ 25
unfolding steps_back
steps_back-run zero s u h = h
steps_back-run (suc n) s u h = steps_back-run n s (step_back u) (
    omega
      (arith, step_back-round (run n s) u (h ∙ ap (λ (t : Stream). t.t3 % 2 ^ 25) (run-suc n s))))

steps_back-suc : (n u : ℕ) → steps_back (suc n) u ≡ step_back (steps_back n u)
unfolding steps_back
steps_back-suc zero u = refl
steps_back-suc (suc n) u = steps_back-suc n (step_back u)

-- A round from the register before `u` leads to `u`.
round-step_back :
    (s : Stream) (u : ℕ)
    → s.t3 % 2 ^ 25 ≡ step_back u % 2 ^ 25
    → (feedback s.t3 ≡ u % 2 ^ 8) × ((round s).t3 % 2 ^ 25 ≡ u % 2 ^ 25)
round-step_back s u h =
    let before = step_back_lem u in
    let fed : feedback s.t3 ≡ u % 2 ^ 8 =
      sym (feedback-mod s.t3) ∙ ap feedback h ∙ feedback-mod (step_back u) ∙ before.2 in
    (fed, omega (arith, round-t3 s, fed, before.1, h))

-- At most two backward steps from the deduced register show the byte that was shifted in last
-- before them.
last_byte :
    (d : Stream) (bs : List ℕ)
    → length bs ≤ 2
    → steps_back (length bs) (deduce_all d bs).t3 % 2 ^ 8 ≡ d.t3 % 2 ^ 8
unfolding steps_back deduce_all
last_byte d [] h = refl
last_byte d (b ∷ []) h = let c = (deduce d b).t3 in omega (arith, step_back_lem c, deduce-t3 d b)
last_byte d (b ∷ b' ∷ []) h =
    let d1 = deduce d b in
    let c = (deduce d1 b').t3 in
    omega (arith, step_back_lem c, step_back_lem (step_back c), deduce-t3 d1 b', deduce-t3 d b)
last_byte d (b ∷ b' ∷ b'' ∷ bs) h = absurd (omega arith)

-- The deduced bytes are those of the cipher that starts where the backward steps end.
pub run_of_deduce_all :
    (bs : List ℕ) (s : Stream) (x : ℕ)
    → IsStream s
    → AllBytes bs
    → length bs ≤ 3
    → let c = (deduce_all (with_t3 s x) bs).t3 in
      s.t3 % 2 ^ 25 ≡ steps_back (length bs) c % 2 ^ 25
      → Matches s bs
        × (deduce_all (with_t3 s x) bs ≡ with_t3 (run (length bs) s) c)
        × ((run (length bs) s).t3 % 2 ^ 25 ≡ c % 2 ^ 25)
unfolding deduce_all steps_back
run_of_deduce_all [] s x v h short e = (tt, refl, e)
run_of_deduce_all (b ∷ bs) s x v h short e =
    let d = deduce (with_t3 s x) b in
    let u = steps_back (length bs) (deduce_all d bs).t3 in
    let back =
      round-step_back s u
        (e ∙ ap (λ (t : ℕ). t % 2 ^ 25) (steps_back-suc (length bs) (deduce_all d bs).t3)) in
    let given = key_byte_of_deduce s v x b h.0 (sym (last_byte d bs (omega arith)) ∙ sym back.0) in
    let next = deduce-round s v x b h.0 given in
    let rest =
      run_of_deduce_all bs (round s) (shift_in x (feedback s.t3)) (round-IsStream v) h.1
        (omega arith)
        (back.1 ∙ ap (λ t. steps_back (length bs) (deduce_all t bs).t3 % 2 ^ 25) next) in
    let same = ap (λ t. deduce_all t bs) next in
    (
      (given, rest.0),
      same ∙ rest.1 ∙ ap (λ t. with_t3 (run (length bs) (round s)) t.t3) (sym same),
      rest.2 ∙ ap (λ t. t.t3 % 2 ^ 25) (sym same),
    )

-- With the first byte known to be right, so are all four.
pub run_of_deduce_four :
    (b b1 b2 b3 : ℕ) (s : Stream) (x : ℕ)
    → IsStream s
    → AllBytes (b ∷ b1 ∷ b2 ∷ b3 ∷ [])
    → let c = (deduce_all (with_t3 s x) (b ∷ b1 ∷ b2 ∷ b3 ∷ [])).t3 in
      s.t3 ≡ steps_back 4 c
      → key_byte s ≡ b
      → Matches s (b ∷ b1 ∷ b2 ∷ b3 ∷ [])
        × (deduce_all (with_t3 s x) (b ∷ b1 ∷ b2 ∷ b3 ∷ []) ≡ with_t3 (run 4 s) c)
        × ((run 4 s).t3 % 2 ^ 25 ≡ c % 2 ^ 25)
unfolding deduce_all
run_of_deduce_four b b1 b2 b3 s x v h e given =
    let bs : List ℕ = b1 ∷ b2 ∷ b3 ∷ [] in
    let d = deduce (with_t3 s x) b in
    let c = (deduce_all d bs).t3 in
    let back =
      round-step_back s (steps_back 3 c) (ap (λ (t : ℕ). t % 2 ^ 25) (e ∙ steps_back-suc 3 c)) in
    let next = deduce-round s v x b h.0 given in
    let rest =
      run_of_deduce_all bs (round s) (shift_in x (feedback s.t3)) (round-IsStream v) h.1
        (omega arith) (back.1 ∙ ap (λ t. steps_back 3 (deduce_all t bs).t3 % 2 ^ 25) next) in
    let same = ap (λ t. deduce_all t bs) next in
    (
      (given, rest.0),
      same ∙ rest.1 ∙ ap (λ t. with_t3 (run 3 (round s)) t.t3) (sym same),
      rest.2 ∙ ap (λ t. t.t3 % 2 ^ 25) (sym same),
    )
