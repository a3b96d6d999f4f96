-- ===== src/Device/WindowsReads.antt =====
-- What `win2k_readv` of src/device.c gives, and when it leaves its buffer.
use libdvdcss.Common.{
  ℕ, zero, suc, ◌+◌, ◌-◌, ◌*◌, ◌/◌, ◌≤◌, ◌<◌, Bool, Option, none, some, List, ◌++◌, ◌≡◌, refl, ap,
  ◌∙◌, inl, inr, ◌==◌, ltb, length, take, drop, arith, Option-cases, Bool-cases, take-append_le,
  length-append, ◌≢◌, ==→ne, length-take, length-drop,
}
use libdvdcss.Unscramble.{block_size}
use libdvdcss.Device.{System, Handle, advance, bytes_at}
use libdvdcss.Device.InSync.{take-bytes_at}
use libdvdcss.Device.Vectors.{total_length}
use libdvdcss.Device.Windows.{
  Temporary, Outcome, outside, finished, prepare, scatter, on_copied, on_read_file, read_vectors,
  win2k_readv,
}
use libdvdcss.Device.Scatter.{
  ltb→lt, lengths_of, blocks_of, total_length-lengths_of, joined, Scattered, scatter-Scattered,
}

positive : (b total : ℕ) → total ≡ b * block_size → total ≢ 0 → 0 < b
positive zero total e h = absurd (h e)
positive (suc b) total e h = omega arith

-- The room of a buffer; NULL has none.
abbrev pub room : Option ℕ → ℕ
room none = 0
room (some capacity) = capacity

-- A number of bytes that are on the disc, and no more than are wanted.
abbrev pub Gives : System → Type 0
Gives system =
    (start wanted n : ℕ)
    → system.gives start wanted ≡ some n
    → (n ≤ wanted) × (n ≤ length system.disc - start)

module _ (system : System) (gives : Gives system) where
  -- What a vectored read from block `pos` on must give with a buffer of `capacity` bytes: the call
  -- leaves it only if more is wanted than it has room for.
  abbrev pub ReadvFrom : (pos wanted capacity : ℕ) → Outcome → Type 0
  ReadvFrom pos wanted capacity outside = capacity < wanted * block_size
  ReadvFrom pos wanted capacity (finished none h) = h.i_pos ≡ none
  ReadvFrom pos wanted capacity (finished (some (n, bufs)) h) =
      (n ≤ wanted)
      × (take (n * block_size) (joined bufs) ≡ bytes_at system (pos * block_size) (n * block_size))
      × (h.i_pos ≡ some (pos + n))

  on_copied-ReadvFrom :
      (pos n capacity : ℕ) (bs : List ℕ) (contents : List ℕ) (h : Handle)
      (copied : Option (List (List ℕ)))
      → h.i_pos ≡ some pos
      → n ≤ blocks_of bs
      → take (n * block_size) contents ≡ bytes_at system (pos * block_size) (n * block_size)
      → (enough : n * block_size ≤ length contents)
      → Scattered contents capacity n enough 0 n (blocks_of bs) copied
      → ReadvFrom pos (blocks_of bs) capacity (on_copied system n h copied)
  unfolding on_copied advance
  on_copied-ReadvFrom pos n capacity bs contents h none at fits bytes enough s = omega arith
  on_copied-ReadvFrom pos n capacity bs contents h (some bufs) at fits bytes enough s =
      rw (at) (fits, s ∙ bytes, refl)

  length-bytes_at :
      (start n : ℕ) → n ≤ length system.disc - start → length (bytes_at system start n) ≡ n
  unfolding bytes_at
  length-bytes_at start n there =
      length-take n (drop start system.disc) ∙ omega (arith, length-drop start system.disc)

  on_read_file-ReadvFrom :
      (pos ret : ℕ) (stale : List ℕ) (bs : List ℕ) (buffer : Option ℕ) (h : Handle)
      → h.i_pos ≡ some pos
      → h.offset ≡ pos * block_size
      → 0 < blocks_of bs
      → ret ≤ blocks_of bs * block_size
      → ret ≤ length system.disc - h.offset
      → ReadvFrom pos
          (blocks_of bs)
          (room buffer)
          (on_read_file system stale buffer (lengths_of bs) ret h)
  unfolding on_read_file
  on_read_file-ReadvFrom pos ret stale bs none h at offset some_wanted fits there = omega arith
  on_read_file-ReadvFrom pos ret stale bs (some capacity) h at offset some_wanted fits there =
      elim (Bool-cases (ltb capacity ret)) [
        | inl e ↦ rw (e) (omega (arith, ltb→lt capacity ret e))
        | inr e ↦
            let n = ret / block_size in
            let whole = bytes_at system h.offset ret in
            let contents = whole ++ stale in
            let long = length-bytes_at h.offset ret there in
            let enough : n * block_size ≤ length contents =
              omega (arith, length-append whole stale, long) in
            let bytes =
              take-append_le (n * block_size) whole stale (omega (arith, long))
              ∙ take-bytes_at system (λ o w k is. (gives o w k is).0) h.offset ret (n * block_size)
                  (omega arith)
              ∙ ap (λ (o : ℕ). bytes_at system o (n * block_size)) offset in
            rw (e) (
              on_copied-ReadvFrom pos n capacity bs contents (record h { offset = h.offset + ret })
                (scatter contents capacity n n (lengths_of bs)) at (omega arith) bytes enough
                (scatter-Scattered contents capacity n enough bs 0 n (omega arith) (omega arith)))
      ]

  read_vectors-ReadvFrom :
      (pos : ℕ) (stale : List ℕ) (bs : List ℕ) (buffer : Option ℕ) (h : Handle)
      → h.i_pos ≡ some pos
      → h.offset ≡ pos * block_size
      → ReadvFrom pos
          (blocks_of bs)
          (room buffer)
          (read_vectors system stale buffer (lengths_of bs) h)
  unfolding read_vectors bytes_at
  read_vectors-ReadvFrom pos stale bs buffer h at offset =
      let total = total_length (lengths_of bs) in
      let wanted = total_length-lengths_of bs in
      elim (Bool-cases (total == 0)) [
        | inl e ↦ rw (e) (omega arith, refl, at ∙ ap (λ (p : ℕ). some p) (omega arith))
        | inr e ↦ elim (Option-cases (system.gives h.offset total)) [
          | inl f ↦ rw (e, f) refl
          | inr (ret, f) ↦
              let some_wanted = ==→ne total 0 e in
              let (fits, there) = gives h.offset total ret f in
              rw (e, f)
                (on_read_file-ReadvFrom pos ret stale bs buffer h at offset
                  (positive (blocks_of bs) total wanted some_wanted) (omega arith) there)
        ]
      ]

  -- For buffers of whole blocks win2k_readv at block `pos`, where the file is too, either fails and
  -- forgets its position, or returns no more blocks than fit in the buffers, which then hold the
  -- bytes of the disc, and its position moves on by the blocks; or it leaves its own buffer, and then
  -- more bytes are wanted than that has room for. A read gives no more bytes than are wanted and on
  -- the disc.
  pub win2k_readv_lem :
      (pos : ℕ) (stale : List ℕ) (mallocs : Bool) (bs : List ℕ) (t : Temporary) (h : Handle)
      → h.i_pos ≡ some pos
      → h.offset ≡ pos * block_size
      → let (outcome, t') = win2k_readv system stale mallocs (lengths_of bs) t h in
        ReadvFrom pos (blocks_of bs) (room t'.p_readv_buffer) outcome
  unfolding win2k_readv
  win2k_readv_lem pos stale mallocs bs t h at offset =
      let (ok, t') = prepare mallocs (length (lengths_of bs)) t in
      elim (Bool-cases ok) [
        | inl e ↦ rw (e) (read_vectors-ReadvFrom pos stale bs t'.p_readv_buffer h at offset)
        | inr e ↦ rw (e) refl
      ]
