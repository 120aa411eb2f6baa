-- ===== src/SocMain/TestCommand.antt =====
-- When the program exits with 0 after the command `test`.
use Prim.Native.String.{String}
use friscv_soc.Common.{
  ℕ, zero, suc, ◌+◌, ◌≡◌, ◌≢◌, refl, sym, ap, ◌∙◌, Bool, true, false, List, [], ◌∷◌, Option, none,
  some, arith, if◌then◌else◌,
}
use friscv_soc.Common.Arrays.{get_or, drop}
use friscv_soc.Common.Results.{
  Result, ok, thrown, Act, then_do, then_do-ok, ok-injective, ◌>>=◌, ◌>>◌, modify, pure,
}
use friscv_soc.Elf.{ElfHeader, ElfImage, read_elf}
use friscv_soc.SocMain.Args.{Text, Host, env_u32}
use friscv_soc.SocMain.Image.{validate, is_external}
use friscv_soc.SocMain.Startable.{Startable, validate-Startable}
use friscv_soc.SocMain.Verdict.{Passed, run_to_end-Passed}
use friscv_soc.SocMain.{
  Soc, unless_raised, reset, start_jtag, Command, load, test, scratch_address, find_command,
  run_command, prepare_image, preload_segments, cmd_test, start_image, write_word, run_to_end,
  attempt, caught, dispatch, main, uses_jtag, park, apply_hyperbus_config, apply_cache_config,
  apply_uart_config, apply_media,
}
mod Tests

unless_raised-ok : (o : Option String) → unless_raised {A = Unit {0}} o (ok tt) ≡ ok tt → o ≡ none
unless_raised-ok none h = refl
unless_raised-ok (some e) h = ground (arith, h)

module _ {S : Type 0} (soc : Soc S) (host : Host) (elf : ElfHeader) (sram_base : ℕ) where
  -- How the image gets to its memory.
  abbrev pub preload : ElfImage → Act S (Unit {0})
  preload image =
      if is_external sram_base image.entry
      then preload_segments soc host elf sram_base image.segments
      else soc.sram_preload image sram_base

  -- A test of the image at `path`, started in the state `s`, that has passed. One step after the
  -- other went through, each from the state that the one before it left.
  pub record Tested (path : Text) (s : S) : Type 0 where
    pub constructed : soc.exception s ≡ none
    pub delay : ℕ
    pub delay_ok : env_u32 host "VERNII_SD_MISO_DELAY" 0 ≡ ok delay
    pub was_reset : S
    pub reset_ok : reset soc host elf sram_base (soc.set_miso_delay delay s) ≡ (ok tt, was_reset)
    pub ready : S
    pub ready_ok : start_jtag soc host elf sram_base was_reset ≡ (ok tt, ready)
    pub image : ElfImage
    pub image_ok : read_elf elf (host.read_all path) ≡ ok image
    pub startable : Startable sram_base image
    pub prepared : S
    pub prepared_ok : prepare_image soc host elf sram_base path ready ≡ (ok image, prepared)
    pub loaded : S
    pub loaded_ok : preload image prepared ≡ (ok tt, loaded)
    pub started : S
    pub start_ok : start_image soc host elf sram_base image.entry loaded ≡ (ok tt, started)
    pub passed : Passed soc host elf sram_base started

  prepare_image-ok :
      (path : Text) (s : S) (image : ElfImage)
      → (prepare_image soc host elf sram_base path s).0 ≡ ok image
      → (read_elf elf (host.read_all path) ≡ ok image) × (validate sram_base image ≡ ok tt)
  unfolding prepare_image
  prepare_image-ok path s out h =
      let (image, read_ok, h1) = then_do-ok (read_elf elf (host.read_all path)) s _ out h in
      let (u, valid, h2) = then_do-ok (validate sram_base image) s _ out h1 in
      let a = park soc host elf sram_base s in
      let (_, _, h3) = then_do-ok a.0 a.1 _ out h2 in
      let b = apply_hyperbus_config soc host elf sram_base a.1 in
      let (_, _, h4) = then_do-ok b.0 b.1 _ out h3 in
      let c = apply_cache_config soc host elf sram_base b.1 in
      let (_, _, h5) = then_do-ok c.0 c.1 _ out h4 in
      let d = apply_uart_config soc host elf sram_base c.1 in
      let (_, _, h6) = then_do-ok d.0 d.1 _ out h5 in
      let e = apply_media soc host elf sram_base d.1 in
      let (_, _, h7) = then_do-ok e.0 e.1 _ out h6 in
      let same : image ≡ out = ok-injective image out h7 in
      (read_ok ∙ ap ok same, sym (ap (validate sram_base) same) ∙ valid)

  -- The steps of the command itself, from the state after the reset.
  record Ran (path : Text) (s : S) : Type 0 where
    image : ElfImage
    prepared : S
    prepared_ok : prepare_image soc host elf sram_base path s ≡ (ok image, prepared)
    loaded : S
    loaded_ok : preload image prepared ≡ (ok tt, loaded)
    started : S
    start_ok : start_image soc host elf sram_base image.entry loaded ≡ (ok tt, started)
    passed : Passed soc host elf sram_base started

  cmd_test-Ran :
      (path : Text) (s : S) → (cmd_test soc host elf sram_base path s).0 ≡ ok 0 → Ran path s
  unfolding cmd_test
  cmd_test-Ran path s h =
      let a = prepare_image soc host elf sram_base path s in
      let (image, ready, h1) = then_do-ok a.0 a.1 _ 0 h in
      let b = preload image a.1 in
      let (_, placed, h2) = then_do-ok b.0 b.1 _ 0 h1 in
      let c = start_image soc host elf sram_base image.entry b.1 in
      let (_, begun, h3) = then_do-ok c.0 c.1 _ 0 h2 in
      record {
        image = image;
        prepared = a.1;
        prepared_ok = λ i. (ready i, a.1);
        loaded = b.1;
        loaded_ok = λ i. (placed i, b.1);
        started = c.1;
        start_ok = λ i. (begun i, c.1);
        passed = run_to_end-Passed soc host elf sram_base c.1 h3;
      }

  caught-ok : (r : Result ℕ) (t : S) → (caught soc host elf sram_base (r, t)).0 ≡ 0 → r ≡ ok 0
  unfolding caught
  caught-ok (ok code) t h = ap ok h
  caught-ok (thrown e) t h = absurd (omega (arith, h))

  attempt-Tested :
      (args : List Text) (s : S)
      → (attempt soc host elf sram_base test args s).0 ≡ ok 0
      → Tested (get_or args 0 []) s
  unfolding attempt run_command uses_jtag
  attempt-Tested args s h =
      let path = get_or args 0 [] in
      let (_, built, h0) = then_do-ok (unless_raised (soc.exception s) (ok tt)) s _ 0 h in
      let (delay, delay_ok, h1) = then_do-ok (env_u32 host "VERNII_SD_MISO_DELAY" 0) s _ 0 h0 in
      let a = reset soc host elf sram_base (soc.set_miso_delay delay s) in
      let (_, reset_ok, h2) = then_do-ok a.0 a.1 _ 0 h1 in
      let b = start_jtag soc host elf sram_base a.1 in
      let (_, ready_ok, h3) = then_do-ok b.0 b.1 _ 0 h2 in
      let ran = cmd_test-Ran path b.1 h3 in
      let (image_ok, valid) = prepare_image-ok path b.1 ran.image (ap (λ r. r.0) ran.prepared_ok) in
      record {
        constructed = unless_raised-ok (soc.exception s) built;
        delay = delay;
        delay_ok = delay_ok;
        was_reset = a.1;
        reset_ok = λ i. (reset_ok i, a.1);
        ready = b.1;
        ready_ok = λ i. (ready_ok i, b.1);
        image = ran.image;
        image_ok = image_ok;
        startable = (validate-Startable sram_base ran.image).0 valid;
        prepared = ran.prepared;
        prepared_ok = ran.prepared_ok;
        loaded = ran.loaded;
        loaded_ok = ran.loaded_ok;
        started = ran.started;
        start_ok = ran.start_ok;
        passed = ran.passed;
      }

  -- With the command `test` the program exits with 0 only if each step has gone through without an
  -- exception, from the state that the step before it left: the system was reset and its debug
  -- module started, the image was read, is one that can be started, was prepared and preloaded, its
  -- entry was written to the scratch register, and the run from there on passed: the loop stopped
  -- within the limit, none of its cycles raised an exception, the scratch register then read as the
  -- value for a pass, and the end was signalled after that read.
  pub main-Tested :
      (argv : List Text) (s : S)
      → find_command host argv ≡ some test
      → (main soc host elf sram_base argv s).0 ≡ 0
      → Tested (get_or (drop 2 argv) 0 []) s
  unfolding main dispatch
  main-Tested argv s found h =
      let run = attempt soc host elf sram_base test (drop 2 argv) s in
      attempt-Tested (drop 2 argv) s (
        caught-ok run.0 run.1
          (sym (ap (λ o. (dispatch soc host elf sram_base o argv s).0) found) ∙ h))
