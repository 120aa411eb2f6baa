-- ===== src/Clint/Registers.antt =====
-- What is read back of what was written.
use friscv_soc.Common.{ℕ, ◌+◌, ◌*◌, ◌^◌, ◌<◌, ◌≡◌, true, false, arith, ◌⊎◌, ◌==◌}
use friscv_soc.Bus.{Access}
use friscv_soc.Clint.{ClintModel, mtime_lo, mtime_hi, mtimecmp_lo, mtimecmp_hi, cycle}
use friscv_soc.Clint.Timer.{IsValid}

abbrev pub write_access : ℕ → ℕ → Access
write_access offset value = record {
  size = 2;
  offset = offset;
  wdata = value;
  w_en = true;
  r_en = false;
  burst_en = false;
}

abbrev pub read_access : ℕ → Access
read_access offset = record {
  size = 2;
  offset = offset;
  wdata = 0;
  w_en = false;
  r_en = true;
  burst_en = false;
}

-- A half of the time or of the compare register that is written is read back in the next cycle:
-- a write to the time also holds the tick back for the cycle of the write, so the count does not
-- move in between.
pub timer_read-write :
    (c : ClintModel) (value offset : ℕ)
    → IsValid c
    → value < 2 ^ 32
    → (((offset == mtime_lo) ≡ true) ⊎ ((offset == mtime_hi) ≡ true))
      ⊎ (((offset == mtimecmp_lo) ≡ true) ⊎ ((offset == mtimecmp_hi) ≡ true))
    → (cycle (cycle c (write_access offset value)) (read_access offset)).out.rdata ≡ value
unfolding cycle
timer_read-write c value offset v h which = ground arith

-- Writing the compare register by its two halves, in either order, gives the 64-bit value.
pub write_halves :
    (c : ClintModel) (lo hi : ℕ)
    → IsValid c
    → lo < 2 ^ 32
    → hi < 2 ^ 32
    → ((cycle (cycle c (write_access mtimecmp_lo lo)) (write_access mtimecmp_hi hi)).mtimecmp
        ≡ hi * 2 ^ 32 + lo)
      × ((cycle (cycle c (write_access mtimecmp_hi hi)) (write_access mtimecmp_lo lo)).mtimecmp
          ≡ hi * 2 ^ 32 + lo)
unfolding cycle
write_halves c lo hi v hl hh = ground arith
