-- ===== src/Clint.antt =====
-- target/sim/cpp/clint_model.{hpp,cpp}: the timer and software interrupt device of the core
-- testbench. Registers are 64 bits wide and accessed by halves.
use friscv_soc.Common.{
  ℕ, ◌+◌, ◌*◌, ◌/◌, ◌%◌, ◌^◌, Bool, true, false, not, ◌==◌, leb, if◌then◌else◌, of_bool,
}
use friscv_soc.Common.Words.{u32, u64}
use friscv_soc.Bus.{BusOut, idle_out, Access, BusDevice}
pub mod Timer
pub mod Registers
mod Tests

abbrev pub msip_reg : ℕ
msip_reg = 0x0000

abbrev pub mtimecmp_lo : ℕ
mtimecmp_lo = 0x4000

abbrev pub mtimecmp_hi : ℕ
mtimecmp_hi = 0x4004

abbrev pub mtime_lo : ℕ
mtime_lo = 0xBFF8

abbrev pub mtime_hi : ℕ
mtime_hi = 0xBFFC

abbrev pub mtime_div : ℕ
mtime_div = 5

-- `class ClintModel`
pub record ClintModel : Type 0 where
  pub out : BusOut
  pub mtime : ℕ
  pub mtimecmp : ℕ
  pub msip : Bool
  pub suppress_tick : Bool
  pub prescaler : ℕ

-- `reset`, which the constructor calls.
pub reset_clint : ClintModel
reset_clint = record {
  out = idle_out;
  mtime = 0;
  mtimecmp = 0xffff_ffff_ffff_ffff;
  msip = false;
  suppress_tick = false;
  prescaler = 0;
}

pub get_mtip : ClintModel → Bool
get_mtip c = leb c.mtimecmp c.mtime

pub tick : ClintModel → ClintModel
tick c =
    if c.suppress_tick
    then record c { suppress_tick = false }
    else if u32 (c.prescaler + 1) == mtime_div
    then record c { prescaler = 0; mtime = u64 (c.mtime + 1) }
    else record c { prescaler = u32 (c.prescaler + 1) }

pub read_reg : ClintModel → ℕ → ℕ
read_reg c offset =
    if offset == msip_reg
    then of_bool c.msip
    else if offset == mtimecmp_lo
    then u32 c.mtimecmp
    else if offset == mtimecmp_hi
    then u32 (c.mtimecmp / 2 ^ 32)
    else if offset == mtime_lo
    then u32 c.mtime
    else if offset == mtime_hi
    then u32 (c.mtime / 2 ^ 32)
    else 0

-- The low and the high half of a 64-bit register, replaced by 32 bits of data.
abbrev pub set_low : ℕ → ℕ → ℕ
set_low x value = x / 2 ^ 32 * 2 ^ 32 + value

abbrev pub set_high : ℕ → ℕ → ℕ
set_high x value = value * 2 ^ 32 + x % 2 ^ 32

pub write_reg : ClintModel → ℕ → ℕ → ClintModel
write_reg c offset value =
    if offset == msip_reg
    then record c { msip = value % 2 == 1 }
    else if offset == mtimecmp_lo
    then record c { mtimecmp = set_low c.mtimecmp value }
    else if offset == mtimecmp_hi
    then record c { mtimecmp = set_high c.mtimecmp value }
    else if offset == mtime_lo
    then record c { mtime = set_low c.mtime value; prescaler = 0; suppress_tick = true }
    else if offset == mtime_hi
    then record c { mtime = set_high c.mtime value; prescaler = 0; suppress_tick = true }
    else c

-- `ClintModel::cycle`
pub cycle : ClintModel → Access → ClintModel
unfolding tick read_reg write_reg
cycle c a =
    let t = record c {
      out = record idle_out { rdata = if a.r_en then read_reg c a.offset else 0 };
    } in
    tick (if a.w_en then write_reg t a.offset a.wdata else t)

unfoldable pub clint_device : BusDevice ClintModel
clint_device = record { cycle = cycle; out = λ c. c.out }
