-- ===== src/Clint/Timer.antt =====
-- The rate of the timer and its interrupt.
use friscv_soc.Common.{◌+◌, ◌/◌, ◌%◌, ◌^◌, ◌<◌, ◌≡◌, false, List, [], ◌∷◌, leb, arith}
use friscv_soc.Common.Words.{u64}
use friscv_soc.Common.Arrays.{length}
use friscv_soc.Bus.{Access}
use friscv_soc.Clint.{ClintModel, reset_clint, mtime_div, get_mtip, cycle}

pub record IsValid (c : ClintModel) : Type 0 where
  pub prescaler_in : c.prescaler < mtime_div
  pub mtime_in : c.mtime < 2 ^ 64
  pub mtimecmp_in : c.mtimecmp < 2 ^ 64

pub reset_clint-IsValid : IsValid reset_clint
unfolding reset_clint
reset_clint-IsValid = omega arith

-- Every cycle keeps the prescaler below the divider and both registers within 64 bits, for data of
-- 32 bits.
pub cycle-IsValid :
    (c : ClintModel) (a : Access) → a.wdata < 2 ^ 32 → IsValid c → IsValid (cycle c a)
unfolding cycle
cycle-IsValid c a h v = ground arith

-- The state after the cycles of a list of accesses.
pub run : ClintModel → List Access → ClintModel
run c [] = c
run c (a ∷ bs) = run (cycle c a) bs

-- No access of the list writes.
abbrev pub NoWrite : List Access → Type 0
NoWrite [] = Unit
NoWrite (a ∷ bs) = (a.w_en ≡ false) × NoWrite bs

quiet_cycle :
    (c : ClintModel) (a : Access)
    → IsValid c
    → c.suppress_tick ≡ false
    → a.w_en ≡ false
    → ((cycle c a).mtime ≡ u64 (c.mtime + (c.prescaler + 1) / mtime_div))
      × ((cycle c a).prescaler ≡ (c.prescaler + 1) % mtime_div)
      × ((cycle c a).mtimecmp ≡ c.mtimecmp)
      × ((cycle c a).suppress_tick ≡ false)
unfolding cycle
quiet_cycle c a v q w = ground arith

quiet_cycle-IsValid :
    (c : ClintModel) (a : Access) → IsValid c → a.w_en ≡ false → IsValid (cycle c a)
unfolding cycle
quiet_cycle-IsValid c a v w = ground arith

-- Over cycles that write nothing, the timer counts one for every `mtime_div` cycles, the prescaler
-- carrying what is left over, and wraps at 64 bits; the compare register does not move.
pub run-mtime :
    (bs : List Access) (c : ClintModel)
    → IsValid c
    → c.suppress_tick ≡ false
    → NoWrite bs
    → ((run c bs).mtime ≡ u64 (c.mtime + (c.prescaler + length bs) / mtime_div))
      × ((run c bs).prescaler ≡ (c.prescaler + length bs) % mtime_div)
      × ((run c bs).mtimecmp ≡ c.mtimecmp)
unfolding run
run-mtime [] c v q n = omega arith
run-mtime (a ∷ bs) c v q n = omega (
  arith,
  quiet_cycle c a v q n.0,
  run-mtime bs (cycle c a) (quiet_cycle-IsValid c a v n.0) (quiet_cycle c a v q n.0).3 n.1,
)

-- Over cycles that write nothing and do not wrap the timer, the timer interrupt is up exactly when
-- the compare register is at most the time that `mtime_div` cycles a count make.
pub run-get_mtip :
    (bs : List Access) (c : ClintModel)
    → IsValid c
    → c.suppress_tick ≡ false
    → NoWrite bs
    → c.mtime + (c.prescaler + length bs) / mtime_div < 2 ^ 64
    → get_mtip (run c bs) ≡ leb c.mtimecmp (c.mtime + (c.prescaler + length bs) / mtime_div)
unfolding get_mtip
run-get_mtip bs c v q n h = ground (arith, run-mtime bs c v q n)
