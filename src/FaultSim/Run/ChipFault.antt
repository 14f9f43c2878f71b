-- ===== src/FaultSim/Run/ChipFault.antt =====
-- A chip fault under Chipkill: `error_injection_CHIPKILL` and then the case AMDCHIPKILL of `main`.
use row_armor.Base.{
  ℕ, ◌+◌, ◌<◌, ◌≤◌, ◌≡◌, List, length, some, get_or, arith, ◌-◌, ◌%◌, ltb, leb, ◌==◌, not, ◌&&◌,
  if◌then◌else◌, bit_xor, Bool, true, false,
}
use row_armor.FaultSim.Config.{ce, amdchipkill}
use row_armor.FaultSim.Field.Table.{IsPowerTable}
use row_armor.FaultSim.Grid.{Grid, cell, blank, blank-IsGrid, cell-blank}
use row_armor.FaultSim.Inject.{error_injection_chipkill}
use row_armor.FaultSim.Inject.Chipkill.{IsFlipped, error_injection_chipkill-IsFlipped, drop}
use row_armor.FaultSim.Run.{run_amdchipkill}
use row_armor.FaultSim.Run.Amd.{IsOneChip, run_amdchipkill_one_chip}

flip_bit : (b : Bool) → (if b then bit_xor 0 1 else 0) < 2
flip_bit true = omega arith
flip_bit false = omega arith

flipped-IsOneChip :
    (chip : ℕ) (rs : List ℕ) (g : Grid) → IsFlipped chip 0 64 rs blank g → IsOneChip chip g
flipped-IsOneChip chip rs g f = record {
  grid = f.grid;
  bits = λ i b h.
      rw (f.cells i b, cell-blank i b)
        (flip_bit
          (chip == i && (leb 0 b && (ltb b (0 + 64) && not (get_or rs (b - 0) 0 % 2 == 0)))));
  others = λ i b h away. ground (arith, f.cells i b, cell-blank i b);
}

-- Whatever 64 random values a chip fault draws, in whatever chip of the ten: the injection returns,
-- and the run under Chipkill on a table of powers answers `CE` with no wrong bit left.
pub chip_fault_ce :
    (row : List ℕ) (t : IsPowerTable row) (junk : ℕ) (junk_p junk_q : ℕ → ℕ) (chip : ℕ)
    (rs : List ℕ)
    → chip < 10
    → 64 ≤ length rs
    → (g : Grid) × (error_injection_chipkill chip blank amdchipkill rs ≡ some (g, drop 64 rs))
      × ((run_amdchipkill row junk junk_p junk_q g).1 ≡ ce)
      × ((i b : ℕ) → i < 10 → b < 64 → cell (run_amdchipkill row junk junk_p junk_q g).0 i b ≡ 0)
chip_fault_ce row t junk junk_p junk_q chip rs chip_lt enough =
    let (g, h, f) =
      error_injection_chipkill-IsFlipped chip blank amdchipkill rs (omega arith) enough
        blank-IsGrid in
    let (r, clean) =
      run_amdchipkill_one_chip row t junk chip chip_lt junk_p junk_q g
        (flipped-IsOneChip chip rs g f) in
    (g, h, r, clean)
