-- ===== src/Device/Scatter.antt =====
-- The copies of `win2k_readv` of src/device.c from its buffer.
use libdvdcss.Common.{
  ℕ, zero, suc, ◌+◌, ◌-◌, ◌*◌, ◌/◌, ◌≤◌, ◌<◌, true, false, Option, none, some, List, [], ◌∷◌, ◌++◌,
  ◌≡◌, refl, ap, ap₂, sym, ◌∙◌, inl, inr, ltb, length, take, drop, arith, Bool-cases, take-plus,
  take-append, drop-append, drop-drop, take-append_le, take-take, length-take, length-drop,
}
use libdvdcss.Unscramble.{block_size}
use libdvdcss.Device.Vectors.{total_length}
use libdvdcss.Device.Windows.{put_first, scatter}

pub ltb→lt : (a b : ℕ) → ltb a b ≡ true → a < b
ltb→lt a b h = ground arith

pub ltb→ge : (a b : ℕ) → ltb a b ≡ false → b ≤ a
ltb→ge a b h = ground arith

-- Buffers of whole blocks, one at least each: their lengths and their sum.
abbrev pub lengths_of : List ℕ → List ℕ
lengths_of [] = []
lengths_of (b ∷ bs) = suc b * block_size ∷ lengths_of bs

abbrev pub blocks_of : List ℕ → ℕ
blocks_of [] = 0
blocks_of (b ∷ bs) = suc b + blocks_of bs

pub total_length-lengths_of :
    (bs : List ℕ) → total_length (lengths_of bs) ≡ blocks_of bs * block_size
unfolding total_length
total_length-lengths_of [] = refl
total_length-lengths_of (b ∷ bs) = omega (arith, total_length-lengths_of bs)

abbrev pub joined : List (List ℕ) → List ℕ
joined [] = []
joined (buf ∷ bufs) = buf ++ joined bufs

joined_more :
    (l m : ℕ) (xs ys : List ℕ)
    → l ≤ length xs
    → take m ys ≡ take m (drop l xs)
    → take (l + m) (take l xs ++ ys) ≡ take (l + m) xs
joined_more l m xs ys enough same =
    let whole = length-take l xs ∙ omega (arith, enough) in
    take-plus l m (take l xs ++ ys)
    ∙ ap₂ (λ (a b : List ℕ). a ++ take m b) (take-append l (take l xs) ys whole)
        (drop-append l (take l xs) ys whole)
    ∙ ap (λ (b : List ℕ). take l xs ++ b) same
    ∙ sym (take-plus l m xs)

joined_last : (l m : ℕ) (xs : List ℕ) → m ≤ l → m ≤ length xs → take m (take l xs ++ []) ≡ take m xs
joined_last l m xs below enough =
    take-append_le m (take l xs) [] (omega (arith, length-take l xs)) ∙ take-take m l xs below

module _ (contents : List ℕ) (capacity n : ℕ) (enough : n * block_size ≤ length contents) where
  -- The copies of `left` blocks from `start` on leave the buffer, which is smaller than all that is
  -- wanted, or give the blocks.
  abbrev pub Scattered : (start left wanted : ℕ) → Option (List (List ℕ)) → Type 0
  Scattered start left wanted none = capacity < (start + wanted) * block_size
  Scattered start left wanted (some bufs) =
      take (left * block_size) (joined bufs)
      ≡ take (left * block_size) (drop (start * block_size) contents)

  put_first-Scattered :
      (b start left wanted first total : ℕ) (rest : Option (List (List ℕ)))
      → n ≡ start + suc b + left
      → first ≡ start * block_size
      → total ≡ suc b + left
      → Scattered (start + suc b) left wanted rest
      → Scattered start total
          (suc b + wanted)
          (put_first (take (suc b * block_size) (drop first contents)) rest)
  unfolding put_first
  put_first-Scattered b start left wanted first total none at here all h = omega arith
  put_first-Scattered b start left wanted first total (some bufs) at here all h =
      let from = drop (start * block_size) contents in
      let l = suc b * block_size in
      let long = length-drop (start * block_size) contents in
      let next =
        h
        ∙ ap (λ (k : ℕ). take (left * block_size) (drop k contents)) (omega arith)
        ∙ ap (λ (xs : List ℕ). take (left * block_size) xs)
            (sym (drop-drop l (start * block_size) contents)) in
      let more = joined_more l (left * block_size) from (joined bufs) (omega (arith, long)) next in
      let size : total * block_size ≡ l + left * block_size = omega arith in
      ap₂ (λ (k o : ℕ). take k (take l (drop o contents) ++ joined bufs)) size here
      ∙ more
      ∙ ap (λ (k : ℕ). take k from) (sym size)

  pub scatter-Scattered :
      (bs : List ℕ) (start left : ℕ)
      → n ≡ start + left
      → left ≤ blocks_of bs
      → Scattered start left (blocks_of bs) (scatter contents capacity n left (lengths_of bs))
  unfolding scatter put_first
  scatter-Scattered bs start zero at fits = refl
  scatter-Scattered [] start (suc left) at fits = absurd (omega arith)
  scatter-Scattered (b ∷ bs) start (suc left) at fits =
      let l = suc b * block_size in
      let first = (n - suc left) * block_size in
      let here : first ≡ start * block_size = omega arith in
      elim (Bool-cases (ltb capacity (first + l))) [
        | inl e ↦ rw (e) (omega (arith, ltb→lt capacity (first + l) e))
        | inr e ↦ elim (Bool-cases (ltb left (suc b))) [
          | inl last ↦
              let below = ltb→lt left (suc b) last in
              let none_left : suc left - l / block_size ≡ 0 = omega arith in
              let long = length-drop (start * block_size) contents in
              rw (e, none_left)
                (ap (λ (o : ℕ). take (suc left * block_size) (take l (drop o contents) ++ [])) here
                  ∙ joined_last l (suc left * block_size) (drop (start * block_size) contents)
                      (omega arith) (omega (arith, long)))
          | inr more ↦
              let above = ltb→ge left (suc b) more in
              let some_left : suc left - l / block_size ≡ left - b = omega arith in
              rw (e, some_left)
                (put_first-Scattered b start (left - b) (blocks_of bs) first (suc left)
                  (scatter contents capacity n (left - b) (lengths_of bs)) (omega arith) here
                  (omega arith)
                  (scatter-Scattered bs (start + suc b) (left - b) (omega arith) (omega arith)))
        ]
      ]
