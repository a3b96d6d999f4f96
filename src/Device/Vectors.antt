-- ===== src/Device/Vectors.antt =====
-- `libc_readv` and `stream_readv` of src/device.c: reads into several buffers, whose lengths are
-- those of the first `i_blocks` structures of `p_iovec`. The bytes that are read are given one after
-- the other.
use libdvdcss.Common.{
  ℕ, zero, suc, ◌+◌, ◌*◌, ◌/◌, ◌≤◌, ◌<◌, Bool, Option, none, some, List, [], ◌∷◌, ◌++◌, ◌≡◌, refl,
  ap, inl, inr, if◌then◌else◌, ◌==◌, arith, Option-cases,
}
use libdvdcss.Unscramble.{block_size}
use libdvdcss.Device.{System, Handle, advance, libc_seek, bytes_at, settle}
use libdvdcss.Device.InSync.{Obeys}

unfoldable pub total_length : List ℕ → ℕ
total_length [] = 0
total_length (l ∷ ls) = l + total_length ls

module _ (system : System) where
  -- One `readv`, or one call of the stream's `pf_readv`: a number of bytes, or an error.
  unfoldable pub on_readv : Option ℕ → Handle → Option (ℕ × List ℕ) × Handle
  on_readv none h = (none, record h { i_pos = none })
  on_readv (some ret) h = (
    some (ret / block_size, bytes_at system h.offset ret),
    record { i_pos = advance h.i_pos (ret / block_size); offset = h.offset + ret },
  )

  unfoldable pub libc_readv : List ℕ → Handle → Option (ℕ × List ℕ) × Handle
  libc_readv lengths h = on_readv (system.gives h.offset (total_length lengths)) h

  -- `has_readv` is whether the stream has a `pf_readv`.
  unfoldable pub stream_readv : Bool → List ℕ → Handle → Option (ℕ × List ℕ) × Handle
  stream_readv has_readv lengths h =
      if has_readv then on_readv (system.gives h.offset (total_length lengths)) h else (none, h)

  -- The branch of `libc_readv` for Windows: a loop of reads, with `i_total` and the bytes so far.
  unfoldable pub libc_readv_each : List ℕ → ℕ → List ℕ → Handle → Option (ℕ × List ℕ) × Handle
  libc_readv_each [] total buffer h =
      (some (total, buffer), record h { i_pos = advance h.i_pos total })
  libc_readv_each (zero ∷ ls) total buffer h = libc_readv_each ls total buffer h
  libc_readv_each (suc l ∷ ls) total buffer h = elim (system.gives h.offset (suc l)) [
    | none ↦ (none, record h { i_pos = none })
    | some n ↦
        let total' = (total + n) / block_size in
        let buffer' = buffer ++ bytes_at system h.offset n in
        let h' = record h { offset = h.offset + n } in
        let rest = libc_readv_each ls total' buffer' h' in
        if n == suc l
        then rest
        else settle system (libc_seek system) (some total') total' buffer' h'
  ]

  module _ (obeys : Obeys system) where
    -- What a read of `wanted` bytes from block `pos` on must give after the system's answer: an
    -- error, or a number of bytes. The blocks that are returned are all that are whole, the position
    -- goes on by them, and the file by the bytes.
    abbrev pub VectorsFrom : (pos wanted : ℕ) → Option ℕ → Option (ℕ × List ℕ) × Handle → Type 0
    VectorsFrom pos wanted none (r, h) = (r ≡ none) × (h.i_pos ≡ none)
    VectorsFrom pos wanted (some ret) (none, h) = ⊥
    VectorsFrom pos wanted (some ret) (some (n, buffer), h) =
        (ret ≤ wanted)
        × (n * block_size ≤ ret)
        × (ret < (n + 1) * block_size)
        × (buffer ≡ bytes_at system (pos * block_size) ret)
        × (h.i_pos ≡ some (pos + n))
        × (h.offset ≡ pos * block_size + ret)

    -- With a system that reads no more than is wanted, libc_readv at block `pos`, where the file is
    -- too: if the system fails, it returns an error and forgets its position. If the system reads
    -- `ret` bytes, it returns the number of whole blocks in them, and the buffers hold the `ret` bytes
    -- of the disc from that block on; the position is then that many blocks further, and the file
    -- `ret` bytes.
    pub libc_readv_lem :
        (pos : ℕ) (lengths : List ℕ) (h : Handle)
        → h.i_pos ≡ some pos
        → h.offset ≡ pos * block_size
        → VectorsFrom pos
            (total_length lengths)
            (system.gives h.offset (total_length lengths))
            (libc_readv lengths h)
    unfolding libc_readv on_readv advance
    libc_readv_lem pos lengths h at offset =
        let wanted = total_length lengths in
        elim (Option-cases (system.gives h.offset wanted)) [
          | inl e ↦ rw (e) (refl, refl)
          | inr (ret, e) ↦
              let fits = obeys h.offset wanted ret e in
              let bytes = ap (λ (o : ℕ). bytes_at system o ret) offset in
              rw (e, at) (fits, omega arith, omega arith, bytes, refl, omega (arith, offset))
        ]
