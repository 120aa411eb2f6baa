-- ===== src/SysId/Tests.antt =====
-- The program on a read-only block.
use friscv_soc.Common.{ℕ, ◌<◌, ◌≡◌, ◌↔◌, refl, not, ◌&&◌, ◌==◌, leb, ltb, if◌then◌else◌}
use friscv_soc.Common.Arrays.{update}
use friscv_soc.Loader.{Registers}
use friscv_soc.SysId.{
  ident, number, value_of, pass, sysid_main, finish, check_block, expect, probe, read_block,
  invert_block, compare_block,
}
use friscv_soc.SysId.Verdict.{IsBlock, first_error, sysid_main-first_error}
use friscv_soc.SysId.Reference.{IsReference, complemented, sysid_main-IsReference}

-- The words of the block cannot be written.
abbrev board : Registers (ℕ → ℕ)
board = record {
  read = λ address s. (s address, s);
  write = λ address value s.
      if leb 0x03000100 address && ltb address 0x0300013c then s else update s address value;
}

abbrev word : (ℕ → ℕ) → ℕ → ℕ
word s i = s (ident i)

board-IsBlock : IsBlock board word
board-IsBlock = record { reads = λ i s h. refl }

-- The base of the on-chip memory, the word 9, can be written, unlike the other words.
abbrev soft_board : Registers (ℕ → ℕ)
soft_board = record {
  read = λ address s. (s address, s);
  write = λ address value s.
      if not (address == 0x03000124) && leb 0x03000100 address && ltb address 0x0300013c
      then s
      else update s address value;
}

soft_board-IsBlock : IsBlock soft_board word
soft_board-IsBlock = record { reads = λ i s h. refl }

-- The reference configuration, but for the word of the system, which is the parameter.
abbrev configured : ℕ → ℕ → ℕ
configured system address =
    if address == 0x03000100
    then 0x5645524e
    else if address == 0x03000104
    then system
    else if address == 0x0300010c
    then 0x11617
    else if address == 0x03000110
    then 0x40020
    else if address == 0x03000114
    then 0x402
    else if address == 0x03000118
    then 0x802
    else if address == 0x0300011c
    then 2
    else if address == 0x03000120
    then 0x20010
    else if address == 0x03000128
    then 0x2000
    else if address == 0x0300012c
    then 0x80000000
    else if address == 0x03000130
    then 0x1000000
    else if address == 0x03000134
    then 0x80000000
    else if address == 0x03000138
    then 0x1000000
    else 0

sysid_main-first_error_example : (sysid_main board (configured 0x00020000)).0 ≡ 0xf0000002
unfolding first_error value_of number
sysid_main-first_error_example =
    sysid_main-first_error board word board-IsBlock (configured 0x00020000)

sysid_main-IsReference_example :
    let s = configured 0x00010000 in
    ((sysid_main soft_board s).0 ≡ pass) ↔ (
      IsReference (word s)
      × ((i : ℕ) → i < 15 → word (complemented soft_board 15 0 (word s) s) i ≡ word s i))
sysid_main-IsReference_example =
    sysid_main-IsReference soft_board word soft_board-IsBlock (configured 0x00010000)

-- Neither side holds: the complement of the base of the on-chip memory stays.
complement_stays :
    complemented soft_board 15 0 (word (configured 0x00010000)) (configured 0x00010000) 0x03000124
    ≡ 0xffffffff
unfolding complemented
complement_stays = refl

write_fails : (sysid_main soft_board (configured 0x00010000)).0 ≡ 0xf0000012
unfolding sysid_main finish check_block expect probe read_block invert_block compare_block value_of
    number
write_fails = refl

-- Both sides hold on the read-only block.
reference_passes : (sysid_main board (configured 0x00010000)).0 ≡ pass
unfolding sysid_main finish check_block expect probe read_block invert_block compare_block value_of
reference_passes = refl
