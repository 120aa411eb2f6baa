-- ===== src/Uart16550/Registers.antt =====
-- What the registers keep and what reaches the output.
use friscv_soc.Common.{
  ℕ, ◌%◌, ◌≡◌, Bool, true, false, not, ◌&&◌, ◌||◌, List, [], ◌∷◌, ◌++◌, ◌==◌, if◌then◌else◌, arith,
}
use mathlib.Core.List.{append-nil}
use friscv_soc.Bus.{Access}
use friscv_soc.Uart16550.{
  Uart16550Model, reg_of, reg_rbr_thr_dll, reg_iir_fcr, reg_lsr, dlab, cycle,
}

-- The characters that one access sends.
unfoldable pub sent : Uart16550Model → Access → List ℕ
sent u a =
    if a.w_en && (reg_of a.offset == reg_rbr_thr_dll) && not (dlab u)
    then (a.wdata % 256) ∷ []
    else []

-- An access prints exactly the low byte of a write to the transmit register with the divisor latch
-- closed, behind what was printed before, and nothing else prints.
pub cycle-printed : (u : Uart16550Model) (a : Access) → (cycle u a).printed ≡ u.printed ++ sent u a
unfolding cycle sent
cycle-printed u a = ground (arith, append-nil u.printed)

-- A register that keeps what is written: all but the transmit register with the latch closed, the
-- interrupt identification and the two status registers.
abbrev pub keeps : Uart16550Model → ℕ → Bool
keeps u reg =
    (dlab u || not (reg == reg_rbr_thr_dll))
    && not (reg == reg_iir_fcr)
    && not (reg == reg_lsr)
    && not (reg == 6)

-- A register that keeps what is written, with the latch as it stands before the write, reads back
-- the low byte of what was written.
pub register_read-write :
    (u : Uart16550Model) (w r : Access)
    → keeps u (reg_of w.offset) ≡ true
    → reg_of r.offset ≡ reg_of w.offset
    → w.w_en ≡ true
    → r.w_en ≡ false
    → r.r_en ≡ true
    → (cycle (cycle u w) r).out.rdata ≡ w.wdata % 256
unfolding cycle
register_read-write u w r k e ww rw' rr = ground arith
