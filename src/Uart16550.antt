-- ===== src/Uart16550.antt =====
-- target/sim/cpp/uart16550_model.{hpp,cpp}: the registers of a 16550, transmit only. Characters
-- sent go to the standard output, here the list `printed`.
use friscv_soc.Common.{
  ℕ, ◌/◌, ◌%◌, Bool, true, false, not, ◌&&◌, List, [], ◌∷◌, ◌++◌, ◌==◌, if◌then◌else◌,
}
use friscv_soc.Common.Words.{test_bit}
use friscv_soc.Bus.{BusOut, idle_out, Access, BusDevice}
pub mod Registers
mod Tests

abbrev pub reg_rbr_thr_dll : ℕ
reg_rbr_thr_dll = 0

abbrev pub reg_ier_dlm : ℕ
reg_ier_dlm = 1

abbrev pub reg_iir_fcr : ℕ
reg_iir_fcr = 2

abbrev pub reg_lcr : ℕ
reg_lcr = 3

abbrev pub reg_mcr : ℕ
reg_mcr = 4

abbrev pub reg_lsr : ℕ
reg_lsr = 5

abbrev pub reg_scr : ℕ
reg_scr = 7

abbrev pub iir_no_int_pending : ℕ
iir_no_int_pending = 0x01

abbrev pub lsr_thre_temt : ℕ
lsr_thre_temt = 0x60

-- `class Uart16550Model`
pub record Uart16550Model : Type 0 where
  pub out : BusOut
  pub ier : ℕ
  pub lcr : ℕ
  pub mcr : ℕ
  pub scr : ℕ
  pub dll : ℕ
  pub dlm : ℕ
  pub printed : List ℕ

pub new_uart : Uart16550Model
new_uart = record {
  out = idle_out;
  ier = 0;
  lcr = 0;
  mcr = 0;
  scr = 0;
  dll = 0;
  dlm = 0;
  printed = [];
}

pub dlab : Uart16550Model → Bool
dlab u = test_bit u.lcr 7

-- `(offset >> 2) & 0x7`
abbrev pub reg_of : ℕ → ℕ
reg_of offset = offset / 4 % 8

-- The `switch` of a write.
pub write_reg : Uart16550Model → ℕ → ℕ → Uart16550Model
unfolding dlab
write_reg u reg byte =
    if reg == reg_rbr_thr_dll
    then (if dlab u
        then record u { dll = byte }
        else record u { printed = u.printed ++ (byte ∷ []) })
    else if reg == reg_ier_dlm
    then (if dlab u then record u { dlm = byte } else record u { ier = byte })
    else if reg == reg_iir_fcr
    then u
    else if reg == reg_lcr
    then record u { lcr = byte }
    else if reg == reg_mcr
    then record u { mcr = byte }
    else if reg == reg_scr
    then record u { scr = byte }
    else u

-- The `switch` of a read.
pub read_reg : Uart16550Model → ℕ → ℕ
unfolding dlab
read_reg u reg =
    if reg == reg_rbr_thr_dll
    then (if dlab u then u.dll else 0)
    else if reg == reg_ier_dlm
    then (if dlab u then u.dlm else u.ier)
    else if reg == reg_iir_fcr
    then iir_no_int_pending
    else if reg == reg_lcr
    then u.lcr
    else if reg == reg_mcr
    then u.mcr
    else if reg == reg_lsr
    then lsr_thre_temt
    else if reg == reg_scr
    then u.scr
    else 0

-- `Uart16550Model::cycle`
pub cycle : Uart16550Model → Access → Uart16550Model
unfolding read_reg write_reg
cycle u a =
    let t = record u { out = idle_out } in
    let reg = reg_of a.offset in
    if not a.w_en && not a.r_en
    then t
    else if a.w_en
    then write_reg t reg (a.wdata % 256)
    else record t { out = record idle_out { rdata = read_reg t reg } }

unfoldable pub uart_device : BusDevice Uart16550Model
uart_device = record { cycle = cycle; out = λ u. u.out }
