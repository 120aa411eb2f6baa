-- ===== src/SocMain/TestCommand/Tests.antt =====
-- The whole program on a small image and a scripted system.
use Prim.Native.String.{String, compare}
use Prim.Native.Nat.{Ordering}
use friscv_soc.Common.{
  ℕ, ◌+◌, ◌-◌, ◌*◌, ◌/◌, ◌≡◌, refl, Bool, true, false, ◌&&◌, ◌||◌, List, [], ◌∷◌, none, some, ltb,
  leb, if◌then◌else◌,
}
use friscv_soc.Common.Words.{test_bit}
use friscv_soc.Common.Arrays.{get_or, drop}
use friscv_soc.Common.Results.{ok}
use friscv_soc.Elf.{ElfHeader, read_elf, in_file, check_range, read_at, read_segment, read_segments}
use friscv_soc.Elf
use friscv_soc.Jtag.{
  pulse, move_tap, idle, shift_from, shift_bits, shift_ir, shift_dr, reset_dmi, encode_dmi,
  dmi_status, dmi_data, dmi_transfer, dmi_retry, dmi_access, dmi_read, dmi_write, word_bytes,
  pack_word,
}
use friscv_soc.Jtag.Debug.{
  jtag_dmi, initialize, read_ir, reset_soc, sba_write, write_memory, sba_read, wait_sba_from,
  wait_sba, read_memory,
}
use friscv_soc.SocMain.Args.{Text, Host, env_u64, env_u32}
use friscv_soc.SocMain.Image.{is_external, validate, holds_entry, check_segment, check_segments}
use friscv_soc.SocMain.TestCommand.{Tested, main-Tested}
use friscv_soc.SocMain.{
  Soc, main, dispatch, caught, attempt, run_command, uses_jtag, cmd_test, prepare_image, park,
  park_from, apply_hyperbus_config, apply_cache_config, apply_uart_config, apply_media,
  find_command, find_in, takes, read_word, wait_end, close_line, verdict, run_to_end, test,
}

abbrev is_test : String → Bool
is_test name = elim (compare name "test") [ Ordering.eq ↦ true | _ ↦ false ]

-- A host with one file, and a system whose JTAG output has an answer at each pulse where the
-- program looks for one: the identification, the versions, the parking value and the pass value.
abbrev file_host : Host
file_host = record {
  getenv = λ name. none;
  strtoul = λ number_base text. (get_or text 0 0 - 48, drop 1 text);
  read_all = λ path. some (1 ∷ 2 ∷ 3 ∷ 4 ∷ []);
  same_text = λ text name. is_test name;
}

abbrev small_elf : ElfHeader
small_elf = record {
  ehdr_size = 1;
  phdr_size = 1;
  ehdr = λ bytes. record {
    e_ident = 0 ∷ 1 ∷ 1 ∷ [];
    e_machine = 243;
    e_entry = 16;
    e_phoff = 0;
    e_phentsize = 1;
    e_phnum = 1;
  };
  phdr = λ bytes. record {
    p_type = 1;
    p_offset = 0;
    p_paddr = 16;
    p_filesz = 4;
    p_memsz = 4;
    p_flags = 1;
  };
  has_magic = λ bytes. true;
  ei_class = 1;
  elfclass32 = 1;
  ei_data = 2;
  elfdata2lsb = 1;
  pt_load = 1;
  is_executable = λ flags. true;
}

abbrev window : ℕ → ℕ → ℕ → Bool
window start value n = leb start n && (ltb (n - start) 41 && test_bit value (n - start))

abbrev output_at : ℕ → Bool
output_at n =
    window 21 0x00000db3 n
    || (window 69 0x71 n
        || (window 282 (0x20000404 * 4) n
            || (window 960 (1 * 4) n || window 1849 (0xaabbccdd * 4) n)))

abbrev scripted : Soc ℕ
scripted = record {
  pins = record {
    set_data = λ tms tdi s. s;
    set_tck = λ tck s. s;
    tdo = λ s. output_at (s / 4);
    run_cycles = λ n s. s + n;
  };
  exception = λ s. none;
  end_o = leb 5792;
  cycles = λ s. s;
  reset = λ s. s;
  set_boot_sel = λ n s. s;
  at_line_start = λ s. true;
  set_uart_divisor = λ n s. s;
  set_rx_divisor = λ n s. s;
  set_bit_cycles = λ n s. s;
  send = λ bytes s. s;
  set_miso_delay = λ n s. s;
  flash_preload = λ a bytes s. (ok tt, s);
  sd_preload = λ a bytes s. (ok tt, s);
  ext_preload = λ a bytes s. (ok tt, s);
  sram_preload = λ i a s. (ok tt, s);
  serve = λ port s. (ok tt, s);
  print = λ m s. s;
}

abbrev test_line : List Text
test_line = (1 ∷ []) ∷ (2 ∷ []) ∷ (3 ∷ []) ∷ []

exits : (main scripted file_host small_elf 0 test_line 0).0 ≡ 0
unfolding main dispatch caught attempt run_command uses_jtag cmd_test prepare_image park park_from
    apply_hyperbus_config apply_cache_config apply_uart_config apply_media reset_soc initialize
    read_ir sba_write write_memory read_elf in_file check_range read_at Elf.validate read_segment
    read_segments validate is_external check_segment check_segments holds_entry env_u32 run_to_end
    env_u64 wait_end close_line read_word verdict jtag_dmi sba_read wait_sba_from wait_sba
    read_memory pulse move_tap idle shift_from shift_bits shift_ir shift_dr reset_dmi encode_dmi
    dmi_status dmi_data dmi_transfer dmi_retry dmi_access dmi_read dmi_write word_bytes pack_word
    find_command find_in takes
exits = refl

-- The clock raises an exception from cycle 5000 on: the program ends with 1.
abbrev stuck : Soc ℕ
stuck = record scripted { exception = λ s. if leb 5000 s then some "bad command" else none }

stuck_exits : (main stuck file_host small_elf 0 test_line 0).0 ≡ 1
unfolding main dispatch caught attempt run_command uses_jtag cmd_test prepare_image park park_from
    apply_hyperbus_config apply_cache_config apply_uart_config apply_media reset_soc initialize
    read_ir sba_write write_memory read_elf in_file check_range read_at Elf.validate read_segment
    read_segments validate is_external check_segment check_segments holds_entry env_u32 run_to_end
    env_u64 wait_end close_line read_word verdict jtag_dmi sba_read wait_sba_from wait_sba
    read_memory pulse move_tap idle shift_from shift_bits shift_ir shift_dr reset_dmi encode_dmi
    dmi_status dmi_data dmi_transfer dmi_retry dmi_access dmi_read dmi_write word_bytes pack_word
    find_command find_in takes
stuck_exits = refl

finds : find_command file_host test_line ≡ some test
unfolding find_command find_in takes
finds = refl

main-Tested_example : Tested scripted file_host small_elf 0 (3 ∷ []) 0
main-Tested_example = main-Tested scripted file_host small_elf 0 test_line 0 finds exits
