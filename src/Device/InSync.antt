-- ===== src/Device/InSync.antt =====
-- `libc_read` of src/device.c reads what stands at its position, and keeps the position.
use libdvdcss.Common.{
  ℕ, zero, suc, ◌+◌, ◌-◌, ◌*◌, ◌/◌, ◌≤◌, ◌<◌, Option, none, some, List, [], ◌++◌, ◌≡◌, refl, sym,
  ◌∙◌, ap, ap₂, inl, inr, arith, ◌==◌, Bool-cases, Option-cases, take, drop, take-plus, take-take,
  drop-drop, ==_iff,
}
use mathlib.Core.Path.{subst}
use libdvdcss.Unscramble.{block_size}
use libdvdcss.Device.{
  System, Handle, is_at, advance, libc_seek, bytes_at, read_loop, settle, settled, on_bytes,
  after_loop, libc_read,
}

-- A read gives no more bytes than are wanted.
abbrev pub Obeys : System → Type 0
Obeys system = (offset wanted n : ℕ) → system.gives offset wanted ≡ some n → n ≤ wanted

module _ (system : System) (obeys : Obeys system) where
  bytes_at-plus :
      (start a b : ℕ)
      → bytes_at system start a ++ bytes_at system (start + a) b ≡ bytes_at system start (a + b)
  unfolding bytes_at
  bytes_at-plus start a b =
      ap (λ xs. take a (drop start system.disc) ++ take b xs) (sym (drop-drop a start system.disc))
      ∙ sym (take-plus a b (drop start system.disc))

  -- The outcome of the loop from `start` on, where `limit` bytes are wanted in all.
  abbrev Looped : (start limit : ℕ) → Option ℕ → Option (ℕ × List ℕ) × Handle → Type 0
  Looped start limit pos (none, h) = h.i_pos ≡ none
  Looped start limit pos (some (ret, buffer), h) =
      (ret ≤ limit)
      × (buffer ≡ bytes_at system start ret)
      × (h.offset ≡ start + ret)
      × (h.i_pos ≡ pos)

  read_loop_lem :
      (fuel got left start : ℕ) (buffer : List ℕ) (h : Handle)
      → left < fuel
      → buffer ≡ bytes_at system start got
      → h.offset ≡ start + got
      → Looped start (got + left) h.i_pos (read_loop system fuel got left buffer h)
  unfolding read_loop
  read_loop_lem zero got left start buffer h room has at = elim room [ ]
  read_loop_lem (suc fuel) got zero start buffer h room has at = (omega arith, has, at, refl)
  read_loop_lem (suc fuel) got (suc left) start buffer h room has at =
      elim (Option-cases (system.gives h.offset (suc left))) [
        | inl e ↦ rw (e, read_loop) refl
        | inr (zero, e) ↦ rw (e, read_loop) (omega arith, has, at, refl)
        | inr (suc n, e) ↦
            let fits = obeys h.offset (suc left) (suc n) e in
            let same : got + suc n + (suc left - suc n) ≡ got + suc left = omega arith in
            let has' : buffer ++ bytes_at system h.offset (suc n)
                ≡ bytes_at system start (got + suc n) =
              ap₂ (λ xs o. xs ++ bytes_at system o (suc n)) has at
              ∙ bytes_at-plus start got (suc n) in
            let next =
              read_loop_lem fuel (got + suc n) (suc left - suc n) start
                (buffer ++ bytes_at system h.offset (suc n))
                (record h { offset = h.offset + suc n }) (omega arith) has' (omega arith) in
            rw (e, read_loop)
              (subst
                (λ (limit : ℕ). Looped start limit h.i_pos (
                  read_loop system fuel (got + suc n) (suc left - suc n)
                    (buffer ++ bytes_at system h.offset (suc n))
                    (record h { offset = h.offset + suc n })))
                same next)
      ]

  -- What a read from block `pos` on must give.
  abbrev pub ReadFrom : (pos blocks : ℕ) → Option (ℕ × List ℕ) × Handle → Type 0
  ReadFrom pos blocks (none, h) = h.i_pos ≡ none
  ReadFrom pos blocks (some (n, buffer), h) =
      (n ≤ blocks)
      × (take (n * block_size) buffer ≡ bytes_at system (pos * block_size) (n * block_size))
      × (h.i_pos ≡ some (pos + n))
      × (h.offset ≡ (pos + n) * block_size)

  pub take-bytes_at :
      (start ret n : ℕ) → n ≤ ret → take n (bytes_at system start ret) ≡ bytes_at system start n
  unfolding bytes_at
  take-bytes_at start ret n h = take-take n ret (drop start system.disc) h

  -- What a seek from a lost position must give.
  abbrev Sought : ℕ → Option ℕ × Handle → Type 0
  Sought target (none, h) = h.i_pos ≡ none
  Sought target (some reached, h) = (h.i_pos ≡ some target) × (h.offset ≡ target * block_size)

  libc_seek_lem :
      (target offset : ℕ)
      → Sought target (libc_seek system target (record { i_pos = none; offset = offset }))
  unfolding libc_seek is_at
  libc_seek_lem target offset = elim (Bool-cases (system.seeks (target * block_size))) [
    | inl e ↦
        let whole : target * block_size / block_size ≡ target = omega arith in
        rw (e) (ap some whole, refl)
    | inr e ↦ rw (e) refl
  ]

  settled_lem :
      (pos blocks n : ℕ) (buffer : List ℕ) (r : Option ℕ × Handle)
      → n ≤ blocks
      → take (n * block_size) buffer ≡ bytes_at system (pos * block_size) (n * block_size)
      → Sought (pos + n) r
      → ReadFrom pos blocks (settled system n buffer r)
  unfolding settled
  settled_lem pos blocks n buffer (none, h) few has lost = lost
  settled_lem pos blocks n buffer (some reached, h) few has there = (few, has, there.0, there.1)

  settle_lem :
      (pos blocks n : ℕ) (buffer : List ℕ) (h : Handle)
      → n ≤ blocks
      → take (n * block_size) buffer ≡ bytes_at system (pos * block_size) (n * block_size)
      → ReadFrom pos blocks (settle system (libc_seek system) (some (pos + n)) n buffer h)
  unfolding settle
  settle_lem pos blocks n buffer h few has =
      settled_lem pos blocks n buffer (libc_seek system (pos + n) (record h { i_pos = none })) few
        has (libc_seek_lem (pos + n) h.offset)

  on_bytes_lem :
      (pos blocks ret : ℕ) (buffer : List ℕ) (h : Handle)
      → Looped (pos * block_size) (blocks * block_size) (some pos) (some (ret, buffer), h)
      → ReadFrom pos blocks (on_bytes system (libc_seek system) advance blocks (ret, buffer) h)
  unfolding on_bytes advance
  on_bytes_lem pos blocks ret buffer h (most, has, offset, at) =
      let n = ret / block_size in
      let few : n ≤ blocks = omega arith in
      let blocks_of : take (n * block_size) buffer
          ≡ bytes_at system (pos * block_size) (n * block_size) =
        ap (take (n * block_size)) has
        ∙ take-bytes_at (pos * block_size) ret (n * block_size) (omega arith) in
      let there = record h { i_pos = some pos } in
      let same : there ≡ h = λ i. record { i_pos = sym at i; offset = h.offset } in
      subst
        (λ x.
          ReadFrom pos blocks (on_bytes system (libc_seek system) advance blocks (ret, buffer) x))
        same
        (elim (Bool-cases (ret == blocks * block_size)) [
          | inl e ↦
              let all = (==_iff ret (blocks * block_size)).0 e in
              rw (e) (few, blocks_of, refl, omega arith)
          | inr e ↦ rw (e) (settle_lem pos blocks n buffer there few blocks_of)
        ])

  after_loop_lem :
      (pos blocks : ℕ) (r : Option (ℕ × List ℕ) × Handle)
      → Looped (pos * block_size) (blocks * block_size) (some pos) r
      → ReadFrom pos blocks (after_loop system blocks r)
  unfolding after_loop
  after_loop_lem pos blocks (none, h) lost = lost
  after_loop_lem pos blocks (some (ret, buffer), h) looped =
      on_bytes_lem pos blocks ret buffer h looped

  -- With a system that reads no more than is wanted, libc_read at block `pos`, where the file is
  -- too, either fails and forgets its position, or returns a number of blocks that is no more than
  -- was asked for, with the bytes of the disc from that block on, and position and file are that
  -- many blocks further, after a partial read too.
  pub libc_read_lem :
      (pos blocks : ℕ) (h : Handle)
      → h.i_pos ≡ some pos
      → h.offset ≡ pos * block_size
      → ReadFrom pos blocks (libc_read system blocks h)
  unfolding libc_read bytes_at
  libc_read_lem pos blocks h at offset =
      let size = blocks * block_size in
      let looped =
        read_loop_lem (size + 1) 0 size (pos * block_size) [] h (omega arith) refl (omega arith) in
      after_loop_lem pos blocks (read_loop system (size + 1) 0 size [] h) (
        subst
          (λ (p : Option ℕ).
            Looped (pos * block_size) size p (read_loop system (size + 1) 0 size [] h))
          at
          (subst
            (λ (limit : ℕ).
              Looped (pos * block_size) limit h.i_pos (read_loop system (size + 1) 0 size [] h))
            (omega arith) looped))
