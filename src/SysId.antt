-- ===== src/SysId.antt =====
-- verif/directed/sysid.c: the program that checks the identification block of the system control
-- block, with the registers and masks of sw/sdk/vernii.h that it uses. The registers themselves are
-- a parameter, the `Registers` of the boot loader. A mask is written as the place and the width of
-- its field, and an `|` of values without a common bit as a sum.
use friscv_soc.Common.{
  ℕ, zero, suc, ◌+◌, ◌-◌, ◌*◌, ◌/◌, ◌%◌, ◌^◌, Bool, true, false, not, ◌&&◌, List, [], ◌∷◌, ◌==◌,
  leb,
}
use friscv_soc.Common.Attempts.{Attempt, done, gave_up, Run, on_done, ◌>>=◌, ◌>>◌, pure, check}
use friscv_soc.Loader.{Registers}
pub mod Verdict
pub mod Reference
mod Tests

abbrev pub halt : ℕ
halt = 0x50000000

abbrev pub pass : ℕ
pass = 0xaabbccdd

abbrev pub scratch0 : ℕ
scratch0 = 0x03000000

-- The identification block: the address of its word `i`.
abbrev pub ident : ℕ → ℕ
ident i = 0x03000100 + 4 * i

abbrev pub sysid : ℕ
sysid = 0x03000100

abbrev pub sysimpl : ℕ
sysimpl = 0x03000104

abbrev pub sysver : ℕ
sysver = 0x03000108

abbrev pub sysfeat : ℕ
sysfeat = 0x0300010c

abbrev pub syscachecfg : ℕ
syscachecfg = 0x03000110

abbrev pub sysmmucfg : ℕ
sysmmucfg = 0x03000114

abbrev pub sysirqcfg : ℕ
sysirqcfg = 0x03000118

abbrev pub sysbuscfg : ℕ
sysbuscfg = 0x0300011c

abbrev pub sysbootcfg : ℕ
sysbootcfg = 0x03000120

abbrev pub sysocmbase : ℕ
sysocmbase = 0x03000124

abbrev pub sysocmsize : ℕ
sysocmsize = 0x03000128

abbrev pub sysextbase : ℕ
sysextbase = 0x0300012c

abbrev pub sysextsize : ℕ
sysextsize = 0x03000130

abbrev pub syscachedbase : ℕ
syscachedbase = 0x03000134

abbrev pub syscachedsize : ℕ
syscachedsize = 0x03000138

abbrev pub magic_valid : ℕ
magic_valid = 0x5645524e

abbrev pub system_vernii : ℕ
system_vernii = 0x00010000

abbrev pub variant_reference : ℕ
variant_reference = 0

-- The errors, in the order of the `enum`.
pub data SysError : Type 0 where
  magic system variant ver_rsvd feat cachecfg mmucfg irqcfg buscfg bootselw zsblwords ocmbase
        ocmsize extbase extsize cachedbase cachedsize readonly :
      SysError

unfoldable pub number : SysError → ℕ
number magic = 1
number system = 2
number variant = 3
number ver_rsvd = 4
number feat = 5
number cachecfg = 6
number mmucfg = 7
number irqcfg = 8
number buscfg = 9
number bootselw = 10
number zsblwords = 11
number ocmbase = 12
number ocmsize = 13
number extbase = 14
number extsize = 15
number cachedbase = 16
number cachedsize = 17
number readonly = 18

abbrev pub sim_ocm_base : ℕ
sim_ocm_base = 0

abbrev pub sim_ocm_size : ℕ
sim_ocm_size = 0x00002000

abbrev pub sim_ext_base : ℕ
sim_ext_base = 0x80000000

abbrev pub sim_ext_size : ℕ
sim_ext_size = 0x01000000

abbrev pub sysfeat_ocm_bm : ℕ
sysfeat_ocm_bm = 0x00000001

abbrev pub sysfeat_llc_bm : ℕ
sysfeat_llc_bm = 0x00000002

abbrev pub sysfeat_sramtags_bm : ℕ
sysfeat_sramtags_bm = 0x00000004

abbrev pub sysfeat_mmu_bm : ℕ
sysfeat_mmu_bm = 0x00000010

abbrev pub sysfeat_isam_bm : ℕ
sysfeat_isam_bm = 0x00000200

abbrev pub sysfeat_isaa_bm : ℕ
sysfeat_isaa_bm = 0x00000400

abbrev pub sysfeat_zsblrom_bm : ℕ
sysfeat_zsblrom_bm = 0x00001000

abbrev pub sysfeat_haltonend_bm : ℕ
sysfeat_haltonend_bm = 0x00010000

abbrev pub sim_sysfeat : ℕ
sim_sysfeat =
    sysfeat_ocm_bm + sysfeat_llc_bm + sysfeat_sramtags_bm + sysfeat_mmu_bm + sysfeat_isam_bm
    + sysfeat_isaa_bm + sysfeat_zsblrom_bm + sysfeat_haltonend_bm

abbrev pub syscachecfg_ways_off : ℕ
syscachecfg_ways_off = 16

abbrev pub sysmmucfg_dtlb_off : ℕ
sysmmucfg_dtlb_off = 8

abbrev pub sysirqcfg_gpioairq_off : ℕ
sysirqcfg_gpioairq_off = 8

-- `SIM_LINE_BYTES` and `SIM_WAYS`.
abbrev pub sim_syscachecfg : ℕ
sim_syscachecfg = 32 + 4 * 2 ^ syscachecfg_ways_off

abbrev pub sim_sysmmucfg : ℕ
sim_sysmmucfg = 2 + 4 * 2 ^ sysmmucfg_dtlb_off

-- `SIM_EXT_IRQ` and `SIM_GPIO_A_IRQ`.
abbrev pub sim_sysirqcfg : ℕ
sim_sysirqcfg = 2 + 8 * 2 ^ sysirqcfg_gpioairq_off

abbrev pub sim_m_reg_rules : ℕ
sim_m_reg_rules = 2

abbrev pub sim_boot_sel_w : ℕ
sim_boot_sel_w = 2

abbrev pub zsbl_slot_words : ℕ
zsbl_slot_words = 1024

-- READ_FIELD and READ_BIT, for a mask of `width` bits from the bit `off` on.
abbrev pub read_field : ℕ → ℕ → ℕ → ℕ
read_field off width value = value / 2 ^ off % 2 ^ width

abbrev pub read_bit : ℕ → ℕ → ℕ → ℕ
read_bit off width value = value / 2 ^ off % 2 ^ width * 2 ^ off

-- The complement of a word.
abbrev pub inverted : ℕ → ℕ
inverted word = 0xffffffff - word

-- The number that `sysid_main` hands to `finish`.
unfoldable pub value_of : Attempt SysError (Unit {0}) → ℕ
value_of (done _) = pass
value_of (gave_up error) = 0xf0000000 + number error

module _ {S : Type 0} (regs : Registers S) where
  abbrev rd : ℕ → Run S SysError ℕ
  rd address s = let (value, t) = regs.read address s in (done value, t)

  -- A register is read, and the error is returned if its value fails the test.
  unfoldable pub expect : ℕ → (ℕ → Bool) → SysError → Run S SysError (Unit {0})
  expect address test error = rd address >>= λ value. check (test value) error

  -- The three loops over the block, from the word `i` on.
  unfoldable pub read_block : ℕ → ℕ → Run S SysError (List ℕ)
  read_block zero i s = (done [], s)
  read_block (suc n) i s =
      on_done (rd (ident i) s)
        (λ word t. on_done (read_block n (i + 1) t) (λ words u. (done (word ∷ words), u)))

  unfoldable pub invert_block : List ℕ → ℕ → S → S
  invert_block [] i s = s
  invert_block (word ∷ before) i s =
      invert_block before (i + 1) (regs.write (ident i) (inverted word) s)

  unfoldable pub compare_block : List ℕ → ℕ → Run S SysError (Unit {0})
  compare_block [] i s = (done tt, s)
  compare_block (word ∷ before) i s =
      on_done (expect (ident i) (λ value. value == word) readonly s)
        (λ _ t. compare_block before (i + 1) t)

  -- The write of every word of the block, and the comparison after it.
  unfoldable pub probe : Run S SysError (Unit {0})
  probe s =
      on_done (read_block 15 0 s) (λ before t. compare_block before 0 (invert_block before 0 t))

  -- `check`
  unfoldable pub check_block : Run S SysError (Unit {0})
  check_block = do
    expect sysid (λ value. value == magic_valid) magic
    expect sysimpl (λ value. read_bit 16 16 value == system_vernii) system
    expect sysimpl (λ value. read_bit 0 16 value == variant_reference) variant
    expect sysver (λ value. read_bit 1 7 value == 0) ver_rsvd
    expect sysfeat (λ value. value == sim_sysfeat) feat
    expect syscachecfg (λ value. value == sim_syscachecfg) cachecfg
    expect sysmmucfg (λ value. value == sim_sysmmucfg) mmucfg
    expect sysirqcfg (λ value. value == sim_sysirqcfg) irqcfg
    expect sysbuscfg (λ value. value == sim_m_reg_rules) buscfg
    expect sysbootcfg (λ value. read_field 16 8 value == sim_boot_sel_w) bootselw
    expect sysbootcfg
        (λ value. not (read_field 0 16 value == 0) && leb (read_field 0 16 value) zsbl_slot_words)
        zsblwords
    expect sysocmbase (λ value. value == sim_ocm_base) ocmbase
    expect sysocmsize (λ value. value == sim_ocm_size) ocmsize
    expect sysextbase (λ value. value == sim_ext_base) extbase
    expect sysextsize (λ value. value == sim_ext_size) extsize
    expect syscachedbase (λ value. value == sim_ext_base) cachedbase
    expect syscachedsize (λ value. value == sim_ext_size) cachedsize
    probe

  -- `finish`, up to its endless loop.
  unfoldable pub finish : ℕ → S → ℕ × S
  finish value s = (value, regs.write halt 0 (regs.write scratch0 value s))

  unfoldable pub sysid_main : S → ℕ × S
  sysid_main s = let (r, t) = check_block s in finish (value_of r) t
