-- ===== src/CrackDisc/Sound.antt =====
-- What `CrackDiscKey` of src/css.c returns, from what its attempts give.
use libdvdcss.Common.{ℕ, ◌+◌, ◌≤◌, ◌<◌, List, ◌&◌, ◌‖◌, ◌>>◌}
use libdvdcss.Keys.{DvdKey}
use libdvdcss.CrackDisc.{Memory, k1_row, lfsr1_bytes, half_of}
use libdvdcss.CrackDisc.Ends.{Ends, Begins, Fails}

module _ (table big : Memory) (hash : DvdKey) where
  -- All values of k[1] from the row fail.
  abbrev pub K1Fails : List ℕ → (c0 c1 b0 t : ℕ) → Type 0
  K1Fails out1 c0 c1 b0 t =
      Fails big hash out1 (half_of hash c0 b0 (table (k1_row b0 c1 + t + 1))) c0 c1

  abbrev pub RowFails : List ℕ → (c0 c1 b0 : ℕ) → Type 0
  RowFails out1 c0 c1 b0 = (t : ℕ) → t < table (k1_row b0 c1) → K1Fails out1 c0 c1 b0 t

  abbrev pub StartFails : ℕ → Type 0
  StartFails step =
      (b0 : ℕ)
      → b0 < 256
      → RowFails (lfsr1_bytes 5 (0x100 ‖ (step >> 8)) (step & 0xff)) (step >> 8) (step & 0xff) b0

  abbrev K1Tried : List ℕ → (c0 c1 b0 left try : ℕ) → DvdKey → Type 0
  K1Tried out1 c0 c1 b0 left try c =
      Begins c0 c1 c × ((t : ℕ) → try ≤ t → t < try + left → K1Fails out1 c0 c1 b0 t)

  abbrev RowsTried : List ℕ → (c0 c1 left b0 : ℕ) → Type 0
  RowsTried out1 c0 c1 left b0 = (b : ℕ) → b0 ≤ b → b < b0 + left → RowFails out1 c0 c1 b

  abbrev StartsTried : (left step : ℕ) → Type 0
  StartsTried left step = (a : ℕ) → step ≤ a → a < step + left → StartFails a
