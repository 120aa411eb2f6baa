-- ===== src/SocMain.antt =====
-- target/sim/cpp/tb_soc_main.cpp: the commands of the SoC testbench. The testbench, with its device
-- models and its outputs, is an interface; the JTAG driver is the one of Jtag on its pins.
use Prim.Native.String.{String}
use friscv_soc.Common.{
  ℕ, zero, suc, ◌+◌, ◌-◌, ◌*◌, ◌/◌, ◌%◌, ◌^◌, Bool, true, false, not, ◌&&◌, ◌||◌, List, [], ◌∷◌,
  ◌++◌, Option, none, some, ltb, leb, ◌==◌, if◌then◌else◌,
}
use friscv_soc.Common.Words.{u32, sub32}
use friscv_soc.Common.Arrays.{length, get_or, drop}
use friscv_soc.Common.Results.{
  Result, ok, thrown, Act, pure, throw, then_do, ◌>>=◌, ◌>>◌, require, lift, modify,
}
use friscv_soc.Elf.{ElfHeader, ElfSegment, ElfImage, read_elf}
use friscv_soc.Jtag.{Bench, word_bytes, pack_word}
use friscv_soc.Jtag.Debug.{Dmi, jtag_dmi, initialize, reset_soc, read_memory, write_memory}
use friscv_soc.SocMain.Args.{
  Text, Host, is_empty, parse_u32, parse_port, parse_bytes, env_u64, env_u32, check_range,
}
use friscv_soc.SocMain.Image.{mem_base, parked, zsbl_stage_bytes, is_external, validate, uart_stage}
pub mod Args
pub mod Image
pub mod Validate
pub mod Startable
pub mod Stage
pub mod Verdict
pub mod Hyperbus
pub mod TestCommand
mod Tests

-- What is printed, with the numbers in it.
pub data Message : Type 0 where
  flash_image : ℕ → Message
  sd_image : ℕ → Message
  hyperbus_cfg : ℕ → ℕ → Message
  line_end : Message
  passed : ℕ → Message
  failed : ℕ → ℕ → Message
  stage_too_long : ℕ → Message
  stage_sent : ℕ → ℕ → Message
  row_start : ℕ → Message
  row_byte : ℕ → Message
  wrote : ℕ → ℕ → Message
  usage : Message
  simulation_failed : String → Message

-- `SocTestbench` with its devices, `preload_sram`, `RemoteBitbang(testbench).serve`, and the output.
-- The clock may raise an exception, through the flash: a call of `reset` and of the clock of `pins`
-- leaves it in the state, where `exception` finds it. From there on the clock stands still.
pub record Soc (S : Type 0) : Type 0 where
  pub pins : Bench S
  pub exception : S → Option String
  pub end_o : S → Bool
  pub cycles : S → ℕ
  pub reset : S → S
  pub set_boot_sel : ℕ → S → S
  pub at_line_start : S → Bool
  pub set_uart_divisor : ℕ → S → S
  pub set_rx_divisor : ℕ → S → S
  pub set_bit_cycles : ℕ → S → S
  pub send : List ℕ → S → S
  pub set_miso_delay : ℕ → S → S
  pub flash_preload : ℕ → List ℕ → Act S (Unit {0})
  pub sd_preload : ℕ → List ℕ → Act S (Unit {0})
  pub ext_preload : ℕ → List ℕ → Act S (Unit {0})
  pub sram_preload : ElfImage → ℕ → Act S (Unit {0})
  pub serve : ℕ → Act S (Unit {0})
  pub print : Message → S → S

abbrev pub uart0_base : ℕ
uart0_base = 0x03010000

abbrev pub scb_llcsel : ℕ
scb_llcsel = 0x0300000c

abbrev pub hyper_cfg_base : ℕ
hyper_cfg_base = 0x04010000

abbrev pub scratch_address : ℕ
scratch_address = 0x03000000

abbrev pub pass_value : ℕ
pass_value = 0xaabbccdd

abbrev pub run_limit : ℕ
run_limit = 2000

abbrev pub test_cycles : ℕ
test_cycles = 10000000

abbrev pub zsbl_uart_div : ℕ
zsbl_uart_div = 27

-- A function that throws and changes no state, within an action.
abbrev pub run_pure : {S A : Type 0} → Result A → Act S A
run_pure r s = (r, s)

-- `if (getenv(name))`, with an action on the text.
abbrev pub when_set : {S : Type 0} → Option Text → (Text → Act S (Unit {0})) → Act S (Unit {0})
when_set none f = pure tt
when_set (some text) f = f text

-- `COMMANDS`; `argc` counts the program's name, and a negative count is a minimum.
pub data Command : Type 0 where
  load test qspiboot uartboot read write server : Command

unfoldable pub takes : Command → ℕ → Bool
takes load argc = argc == 3
takes test argc = argc == 3
takes qspiboot argc = argc == 3
takes uartboot argc = argc == 3
takes read argc = argc == 4
takes write argc = leb 4 argc
takes server argc = leb 2 argc

unfoldable pub uses_jtag : Command → Bool
uses_jtag server = false
uses_jtag load = true
uses_jtag test = true
uses_jtag qspiboot = true
uses_jtag uartboot = true
uses_jtag read = true
uses_jtag write = true

abbrev pub commands : List (String × Command)
commands =
    ("load", load)
    ∷ ("test", test)
    ∷ ("qspiboot", qspiboot)
    ∷ ("uartboot", uartboot)
    ∷ ("read", read)
    ∷ ("write", write)
    ∷ ("server", server)
    ∷ []

-- The loop of `find_command`.
unfoldable pub find_in : Host → List (String × Command) → List Text → Text → Option Command
find_in host [] argv name = none
find_in host ((known, command) ∷ table) argv name =
    let rest = find_in host table argv name in
    if host.same_text name known
    then (if takes command (length argv) then some command else none)
    else rest

unfoldable pub find_command : Host → List Text → Option Command
find_command host [] = none
find_command host (program ∷ []) = none
find_command host (program ∷ name ∷ args) = find_in host commands (program ∷ name ∷ args) name

-- What is left of an action if an exception has been raised in it.
abbrev pub unless_raised : {A : Type 0} → Option String → Result A → Result A
unless_raised none r = r
unless_raised (some e) r = thrown e

module _ {S : Type 0} (soc : Soc S) (host : Host) (elf : ElfHeader) (sram_base : ℕ) where
  -- An action that runs the clock. An exception of the clock ends it.
  abbrev pub raising : {A : Type 0} → Act S A → Act S A
  raising act s = let r = act s in (unless_raised (soc.exception r.1) r.0, r.1)

  abbrev pub jtag : Dmi S
  jtag = jtag_dmi soc.pins

  abbrev pub run_cycles : ℕ → Act S (Unit {0})
  run_cycles n = raising (modify (soc.pins.run_cycles n))

  abbrev pub reset : Act S (Unit {0})
  reset = raising (modify soc.reset)

  abbrev pub start_jtag : Act S (Unit {0})
  start_jtag = raising (initialize soc.pins)

  abbrev pub write_bytes : ℕ → List ℕ → Act S (Unit {0})
  write_bytes address bytes = raising (write_memory jtag address bytes)

  abbrev pub read_bytes : ℕ → ℕ → Act S (List ℕ)
  read_bytes address size = raising (read_memory jtag address size)

  abbrev pub write_word : ℕ → ℕ → Act S (Unit {0})
  write_word address value = write_bytes address (word_bytes value)

  unfoldable pub read_word : ℕ → Act S ℕ
  read_word address = do
    bytes ← read_bytes address 4
    pure (pack_word (get_or bytes 0 0) (get_or bytes 1 0) (get_or bytes 2 0) (get_or bytes 3 0))

  -- The loop of `park`, with `n` attempts left.
  unfoldable pub park_from : ℕ → Act S (Unit {0})
  park_from zero = throw "boot ROM did not park"
  park_from (suc n) = read_word scratch_address >>= λ word. elim (word == parked) [
    | true ↦ pure tt
    | false ↦ run_cycles 8 >> park_from n
  ]

  unfoldable pub park : Act S (Unit {0})
  park = raising (reset_soc jtag) >> park_from 1000

  abbrev pub start_image : ℕ → Act S (Unit {0})
  start_image entry = write_word scratch_address entry

  abbrev pub print : Message → Act S (Unit {0})
  print message = modify (soc.print message)

  unfoldable pub read_file : Text → Act S (List ℕ)
  read_file path = elim (host.read_all path) [
    | none ↦ throw "cannot open"
    | some bytes ↦ pure bytes
  ]

  unfoldable pub preload_flash : Text → Act S (Unit {0})
  preload_flash path = do
    bytes ← read_file path
    soc.flash_preload 0 bytes
    print (flash_image (length bytes))

  unfoldable pub preload_sd : Text → Act S (Unit {0})
  preload_sd path = do
    bytes ← read_file path
    soc.sd_preload 0 bytes
    print (sd_image (length bytes))

  abbrev pub after_comma : Text → Text
  after_comma [] = []
  after_comma (c ∷ text) = if c == 0x2c then text else c ∷ text

  -- The end of a round of the loop of `apply_hyperbus_config`; what is left of the text is given.
  unfoldable pub store_pair : ℕ → ℕ → Text → Act S Text
  store_pair index value end = do
    write_word (u32 (hyper_cfg_base + index * 4)) (u32 value)
    print (hyperbus_cfg index value)
    pure (after_comma end)

  -- The round after its first `strtoul`.
  unfoldable pub read_pair : Text → ℕ → Text → Act S Text
  read_pair spec index [] = throw "VERNII_HB_CFG wants reg:value pairs"
  read_pair spec index (c ∷ number) =
      let (value, end) = host.strtoul 0 number in
      do
        require (not (suc (length number) == length spec) && (c == 0x3a))
            "VERNII_HB_CFG wants reg:value pairs"
        require (not (length end == length number)) "VERNII_HB_CFG wants reg:value pairs"
        store_pair index value end

  unfoldable pub hyperbus_pair : Text → Act S Text
  hyperbus_pair spec = let (index, colon) = host.strtoul 0 spec in read_pair spec index colon

  -- The loop, with at most `n` pairs; a pair takes at least one character.
  unfoldable pub hyperbus_from : ℕ → Text → Act S (Unit {0})
  hyperbus_from n [] = pure tt
  hyperbus_from zero (c ∷ spec) = throw "VERNII_HB_CFG is not read to its end"
  hyperbus_from (suc n) (c ∷ spec) = hyperbus_pair (c ∷ spec) >>= hyperbus_from n

  unfoldable pub apply_hyperbus_config : Act S (Unit {0})
  apply_hyperbus_config =
      when_set (host.getenv "VERNII_HB_CFG") (λ spec. hyperbus_from (length spec) spec)

  unfoldable pub apply_cache_config : Act S (Unit {0})
  apply_cache_config =
      when_set (host.getenv "VERNII_LLCSEL")
        (λ text. run_pure (env_u32 host "VERNII_LLCSEL" 0) >>= write_word scb_llcsel)

  unfoldable pub program_divisor : ℕ → Act S (Unit {0})
  program_divisor divisor = do
    write_word (uart0_base + 0x0c) 0x80
    write_word (uart0_base + 0x00) (divisor % 256)
    write_word (uart0_base + 0x04) (divisor / 256)
    write_word (uart0_base + 0x0c) 0x03
    modify (soc.set_uart_divisor divisor)

  unfoldable pub apply_uart_config : Act S (Unit {0})
  apply_uart_config =
      when_set (host.getenv "VERNII_UART_DIV")
        (λ text. run_pure (env_u32 host "VERNII_UART_DIV" 0) >>= program_divisor)

  unfoldable pub apply_media : Act S (Unit {0})
  apply_media = do
    when_set (host.getenv "VERNII_FLASH") preload_flash
    when_set (host.getenv "VERNII_SD_IMAGE") preload_sd

  unfoldable pub prepare_image : Text → Act S ElfImage
  prepare_image path = do
    image ← run_pure (read_elf elf (host.read_all path))
    run_pure (validate sram_base image)
    park
    apply_hyperbus_config
    apply_cache_config
    apply_uart_config
    apply_media
    pure image

  unfoldable pub boot : ℕ → Act S (Unit {0})
  boot boot_sel = do modify (soc.set_boot_sel boot_sel); reset; start_jtag

  -- The loop of `run_to_end`, with `n` cycles left.
  unfoldable pub wait_end : ℕ → Act S (Unit {0})
  wait_end zero s = (ok tt, s)
  wait_end (suc n) s = elim (soc.end_o s) [
    | true ↦ (ok tt, s)
    | false ↦ then_do (run_cycles 1 s) (λ _. wait_end n)
  ]

  unfoldable pub close_line : S → S
  close_line s = if soc.at_line_start s then s else soc.print line_end s

  unfoldable pub verdict : ℕ → Act S ℕ
  verdict result s =
      if soc.end_o s && (result == pass_value)
      then (ok 0, soc.print (passed (soc.cycles s)) s)
      else (ok 1, soc.print (failed result (soc.cycles s)) s)

  unfoldable pub run_to_end : Act S ℕ
  run_to_end = do
    limit ← run_pure (env_u64 host "VERNII_TEST_CYCLES" test_cycles)
    wait_end limit
    modify close_line
    result ← read_word scratch_address
    verdict result

  -- The loops of `cmd_load` and `cmd_test` over the segments.
  unfoldable pub write_segments : List ElfSegment → Act S (Unit {0})
  write_segments [] = pure tt
  write_segments (segment ∷ segments) =
      write_bytes segment.address segment.bytes >> write_segments segments

  unfoldable pub preload_segments : List ElfSegment → Act S (Unit {0})
  preload_segments [] = pure tt
  preload_segments (segment ∷ segments) =
      soc.ext_preload (sub32 segment.address mem_base) segment.bytes >> preload_segments segments

  unfoldable pub cmd_load : Text → Act S ℕ
  cmd_load path = do
    image ← prepare_image path
    write_segments image.segments
    start_image image.entry
    run_cycles run_limit
    pure 0

  unfoldable pub cmd_test : Text → Act S ℕ
  cmd_test path = do
    image ← prepare_image path
    if is_external sram_base image.entry
        then preload_segments image.segments
        else soc.sram_preload image sram_base
    start_image image.entry
    run_to_end

  unfoldable pub cmd_qspiboot : Text → Act S ℕ
  cmd_qspiboot path = do
    preload_flash path
    when_set (host.getenv "VERNII_SD_IMAGE") preload_sd
    divisor ← run_pure (env_u32 host "VERNII_UART_DIV" 0)
    modify (soc.set_uart_divisor divisor)
    boot 1
    run_to_end

  -- What follows the test of the size in `cmd_uartboot`.
  unfoldable pub send_stage : List ℕ → Act S ℕ
  send_stage file = do
    divisor ← run_pure (env_u32 host "VERNII_UART_DIV" zsbl_uart_div)
    modify (soc.set_uart_divisor divisor)
    modify (soc.set_rx_divisor divisor)
    bit_cycles ← run_pure (env_u32 host "VERNII_UART_BIT_CYCLES" (u32 (16 * divisor)))
    modify (soc.set_bit_cycles bit_cycles)
    boot_sel ← run_pure (env_u32 host "VERNII_BOOT_SEL" 2)
    boot boot_sel
    modify (soc.send (uart_stage file))
    print (stage_sent (length (uart_stage file)) divisor)
    run_to_end

  unfoldable pub cmd_uartboot : Text → Act S ℕ
  cmd_uartboot path = do
    file ← read_file path
    if ltb zsbl_stage_bytes (length file)
        then print (stage_too_long (length file)) >> pure 1
        else send_stage file

  -- `print_memory`, from an offset on.
  unfoldable pub print_from : ℕ → ℕ → List ℕ → S → S
  print_from address offset [] s = s
  print_from address offset (b ∷ bytes) s =
      let t = if offset % 16 == 0 then soc.print (row_start (u32 (address + offset))) s else s in
      let u = soc.print (row_byte b) t in
      let v = if (offset % 16 == 15) || (length bytes == 0) then soc.print line_end u else u in
      print_from address (offset + 1) bytes v

  unfoldable pub cmd_read : Text → Text → Act S ℕ
  cmd_read address_text size_text = do
    address ← run_pure (parse_u32 host address_text)
    size ← run_pure (parse_u32 host size_text)
    run_pure (check_range address size)
    park
    bytes ← read_bytes address size
    modify (print_from address 0 bytes)
    pure 0

  unfoldable pub cmd_write : Text → List Text → Act S ℕ
  cmd_write address_text byte_texts = do
    address ← run_pure (parse_u32 host address_text)
    bytes ← run_pure (parse_bytes host byte_texts)
    run_pure (check_range address (length bytes))
    park
    write_bytes address bytes
    print (wrote (length bytes) address)
    pure 0

  unfoldable pub cmd_server : List Text → Act S ℕ
  cmd_server args = do
    port ← run_pure (elim args [
      | [] ↦ ok 9824
      | text ∷ others ↦ if length others == 0 then parse_port host text else ok 9824
    ])
    soc.serve port
    pure 0

  -- `command->run`, on the arguments after the command's name.
  unfoldable pub run_command : Command → List Text → Act S ℕ
  run_command load args = cmd_load (get_or args 0 [])
  run_command test args = cmd_test (get_or args 0 [])
  run_command qspiboot args = cmd_qspiboot (get_or args 0 [])
  run_command uartboot args = cmd_uartboot (get_or args 0 [])
  run_command read args = cmd_read (get_or args 0 []) (get_or args 1 [])
  run_command write args = cmd_write (get_or args 0 []) (drop 1 args)
  run_command server args = cmd_server args

  -- The body of the `try` block of `main`, and its handler. The state is the one that the constructor
  -- of the testbench leaves, which runs the clock's evaluation too.
  unfoldable pub attempt : Command → List Text → Act S ℕ
  attempt command args = do
    raising (pure tt)
    delay ← run_pure (env_u32 host "VERNII_SD_MISO_DELAY" 0)
    modify (soc.set_miso_delay delay)
    reset
    if uses_jtag command then start_jtag else pure tt
    run_command command args

  unfoldable pub caught : (Result ℕ × S) → ℕ × S
  caught (ok code, s) = (code, s)
  caught (thrown e, s) = (1, soc.print (simulation_failed e) s)

  unfoldable pub dispatch : Option Command → List Text → S → ℕ × S
  dispatch none argv s = (1, soc.print usage s)
  dispatch (some command) argv s = caught (attempt command (drop 2 argv) s)

  unfoldable pub main : List Text → S → ℕ × S
  main argv s = dispatch (find_command host argv) argv s
