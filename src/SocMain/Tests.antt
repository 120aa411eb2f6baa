-- ===== src/SocMain/Tests.antt =====
-- Two images, a stage of three bytes, a reader of numbers that takes one character at a time, and a
-- testbench that counts its cycles.
use friscv_soc.Common.{
  ℕ, ◌↔◌, inl, inr, false, ◌+◌, ◌-◌, ◌≤◌, ◌≡◌, refl, true, false, [], ◌∷◌, none, leb, arith,
}
use friscv_soc.Common.Arrays.{length, get_or, drop}
use friscv_soc.Common.Results.{ok}
use friscv_soc.Elf.{ElfHeader, ElfImage}
use friscv_soc.Elf.Load.{image_view}
use friscv_soc.SocMemory.{Sram, preload_sram}
use friscv_soc.SocMemory.Preload.{sram_view}
use friscv_soc.SocMain.Args.{Text, Host}
use friscv_soc.SocMain.Image.{is_external, validate, holds_entry, check_segment, check_segments}
use friscv_soc.SocMain.Validate.{is_ok, validated_preload}
use friscv_soc.SocMain.Startable.{Startable, EverySegment, SomeSegment, validate-Startable}
use friscv_soc.SocMain.Hyperbus.{hyperbus_from_lem}
use friscv_soc.SocMain.{Soc, hyperbus_from}

abbrev image : ElfImage
image = record {
  machine = 243;
  entry = 16;
  segments =
      record { address = 16; executable = true; bytes = 17 ∷ 34 ∷ 51 ∷ [] }
      ∷ record { address = 18; executable = false; bytes = 68 ∷ 85 ∷ [] }
      ∷ [];
}

validate-Startable_example : (validate 0 image ≡ ok tt) ↔ Startable 0 image
validate-Startable_example = validate-Startable 0 image

-- Both sides hold.
image-Startable : Startable 0 image
unfolding EverySegment SomeSegment
image-Startable = record {
  for_riscv = refl;
  one_place =
      inr
        (omega arith, omega arith, ((omega arith, omega arith), ((omega arith, omega arith), tt)));
  aligned = refl;
  runs = inl (refl, omega arith, omega arith);
}

-- Neither holds for an entry behind the last executable byte.
refused : is_ok (validate 0 (record image { entry = 20 })) ≡ false
unfolding validate is_external check_segment check_segments holds_entry
refused = refl

abbrev blank : Sram
blank way i = 0

let_through : validate 0 image ≡ ok tt
unfolding validate is_external check_segment check_segments holds_entry
let_through = refl

internal : is_external 0 16 ≡ false
unfolding is_external
internal = refl

validated_preload_example :
    let r = preload_sram false image 0 blank in
    (r.0 ≡ ok tt)
    × (sram_view false 0 r.1 18 ≡ image_view image.segments (sram_view false 0 blank) 18)
validated_preload_example =
    validated_preload false 0 image blank 18 (omega arith) let_through internal
      ((omega arith, (omega arith, (omega arith, tt))), ((omega arith, (omega arith, tt)), tt))
      (omega arith)

abbrev digit_host : Host
digit_host = record {
  getenv = λ name. none;
  strtoul = λ number_base text. (get_or text 0 0 - 48, drop 1 text);
  read_all = λ path. none;
  same_text = λ text name. false;
}

drop-shorter : (text : Text) → length (drop 1 text) ≤ length text
drop-shorter [] = omega arith
drop-shorter (c ∷ text) = omega arith

abbrev elf : ElfHeader
elf = record {
  ehdr_size = 52;
  phdr_size = 32;
  ehdr = λ bytes. record {
    e_ident = bytes;
    e_machine = 243;
    e_entry = 0;
    e_phoff = 0;
    e_phentsize = 32;
    e_phnum = 0;
  };
  phdr = λ bytes. record {
    p_type = 1;
    p_offset = 0;
    p_paddr = 0;
    p_filesz = 0;
    p_memsz = 0;
    p_flags = 0;
  };
  has_magic = λ bytes. true;
  ei_class = 4;
  elfclass32 = 1;
  ei_data = 5;
  elfdata2lsb = 1;
  pt_load = 1;
  is_executable = λ flags. true;
}

-- The state is the number of cycles.
abbrev counting : Soc ℕ
counting = record {
  pins = record {
    set_data = λ tms tdi s. s;
    set_tck = λ tck s. s;
    tdo = λ s. false;
    run_cycles = λ n s. s + n;
  };
  exception = λ s. none;
  end_o = leb 4;
  cycles = λ s. s;
  reset = λ s. s;
  set_boot_sel = λ n s. s;
  at_line_start = λ s. true;
  set_uart_divisor = λ n s. s;
  set_rx_divisor = λ n s. s;
  set_bit_cycles = λ n s. s;
  send = λ bytes s. s;
  set_miso_delay = λ n s. s;
  flash_preload = λ a bytes s. (ok tt, s);
  sd_preload = λ a bytes s. (ok tt, s);
  ext_preload = λ a bytes s. (ok tt, s);
  sram_preload = λ i a s. (ok tt, s);
  serve = λ port s. (ok tt, s);
  print = λ m s. s;
}

hyperbus_from_lem_example :
    hyperbus_from counting digit_host elf 0 7 (49 ∷ 58 ∷ 50 ∷ []) 0
    ≡ hyperbus_from counting digit_host elf 0 3 (49 ∷ 58 ∷ 50 ∷ []) 0
hyperbus_from_lem_example =
    hyperbus_from_lem counting digit_host elf 0 (λ number_base text. drop-shorter text)
      (49 ∷ 58 ∷ 50 ∷ []) 7 0 (omega arith)
