-- ===== src/Clint/Tests.antt =====
-- The timer at concrete values.
use friscv_soc.Common.{◌≡◌, refl, false, List, [], ◌∷◌, arith}
use friscv_soc.Bus.{Access}
use friscv_soc.Clint.{reset_clint, mtime_hi, mtimecmp_lo, get_mtip, cycle}
use friscv_soc.Clint.Timer.{
  IsValid, reset_clint-IsValid, cycle-IsValid, run, run-mtime, run-get_mtip,
}
use friscv_soc.Clint.Registers.{write_access, read_access}

abbrev seven_reads : List Access
seven_reads = let a = read_access mtime_hi in a ∷ a ∷ a ∷ a ∷ a ∷ a ∷ a ∷ []

cycle-IsValid_example : IsValid (cycle reset_clint (write_access mtimecmp_lo 7))
cycle-IsValid_example =
    cycle-IsValid reset_clint (write_access mtimecmp_lo 7) (omega arith) reset_clint-IsValid

run-mtime_example :
    ((run reset_clint seven_reads).mtime ≡ 1)
    × ((run reset_clint seven_reads).prescaler ≡ 2)
    × ((run reset_clint seven_reads).mtimecmp ≡ 0xffff_ffff_ffff_ffff)
unfolding reset_clint
run-mtime_example =
    run-mtime seven_reads reset_clint reset_clint-IsValid refl
      (refl, (refl, (refl, (refl, (refl, (refl, (refl, tt)))))))

run-get_mtip_example : get_mtip (run reset_clint seven_reads) ≡ false
unfolding reset_clint
run-get_mtip_example =
    run-get_mtip seven_reads reset_clint reset_clint-IsValid refl
      (refl, (refl, (refl, (refl, (refl, (refl, (refl, tt))))))) (omega arith)
