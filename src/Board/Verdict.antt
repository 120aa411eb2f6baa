-- ===== src/Board/Verdict.antt =====
-- When the core testbench ends with exit code 0.
use friscv_soc.Common.{
  ℕ, zero, suc, ◌+◌, ◌^◌, ◌<◌, ◌≤◌, ◌≡◌, ◌↔◌, refl, sym, ap, ◌∙◌, Bool, true, false, ◌||◌, not,
  List, [], ◌∷◌, ◌++◌, Option, none, some, leb, ◌==◌, arith, if◌then◌else◌, ==_iff,
}
use mathlib.Core.Path.{subst}
use friscv_soc.Common.Attempts.{Attempt, done, gave_up, done-injective}
use friscv_soc.Common.Results.{Result, ok, thrown}
use friscv_soc.Memory.{PagedMem, new_mem}
use friscv_soc.MemModel.{MemModel, WaitConfig, new_mem_model}
use friscv_soc.Elf.{ElfHeader, load_elf}
use friscv_soc.Board.{
  Core, Bench, simulate, stops, last_write_of, gpio_index, pass_value, exit_code,
}
use friscv_soc.Board.Run.{run-stops}
use friscv_soc.Board.CommandLine.{
  Text, Host, Message, Options, Ended, and_then, find_check_pass, parse_max_cycles, find_max_cycles,
  find_wait_cycles, find_elf, require_elf, read_options, run_loaded, main_with, main, mem_base_addr,
  mem_size, default_max_cycles, default_wait_cycles,
}
mod Tests

-- `strtol` gives 64 bits.
abbrev pub GivesLong : Host → Type 0
GivesLong host = (text : Text) → (host.strtol text).0 < 2 ^ 64

and_then-done :
    {A B : Type 0}
    → (r : Attempt Message A) (f : A → Attempt Message B) (b : B) → and_then r f ≡ done b
    → (a : A) × (r ≡ done a) × (f a ≡ done b)
and_then-done (done a) f b h = (a, refl, h)
and_then-done (gave_up message) f b h = ground (arith, h)

either_way :
    {A G : Type 0}
    → (b : Bool) (x y z : A) → elim b [ true ↦ x | false ↦ y ] ≡ z
    → (x ≡ z → G)
    → (y ≡ z → G)
    → G
either_way true x y z h left right = left h
either_way false x y z h left right = right h

module _ (host : Host) where
  parse_max_cycles-lt :
      (text : Text) (n : ℕ) → GivesLong host → parse_max_cycles host text ≡ done n → n < 2 ^ 64
  unfolding parse_max_cycles
  parse_max_cycles-lt text n long h = let bound = long text in ground (arith, h, bound)

  find_max_cycles-lt :
      (args : List Text) (n m : ℕ)
      → GivesLong host
      → n < 2 ^ 64
      → find_max_cycles host args n ≡ done m
      → m < 2 ^ 64
  unfolding find_max_cycles
  find_max_cycles-lt [] n m long hn h = subst (λ k. k < 2 ^ 64) (done-injective n m h) hn
  find_max_cycles-lt (name ∷ []) n m long hn h = subst (λ k. k < 2 ^ 64) (done-injective n m h) hn
  find_max_cycles-lt (name ∷ next ∷ rest) n m long hn h =
      let given = and_then (parse_max_cycles host next) (find_max_cycles host (next ∷ rest)) in
      either_way (host.same_text name "--max-cycles") given (find_max_cycles host (next ∷ rest) n)
        (done m) h
        (λ e.
          let (v, parsed, later) =
            and_then-done (parse_max_cycles host next) (find_max_cycles host (next ∷ rest)) m e in
          find_max_cycles-lt (next ∷ rest) v m long (parse_max_cycles-lt next v long parsed) later)
        (λ e. find_max_cycles-lt (next ∷ rest) n m long hn e)

  find_check_pass-true : (args : List Text) → find_check_pass host args true ≡ true
  unfolding find_check_pass
  find_check_pass-true [] = refl
  find_check_pass-true (name ∷ rest) =
      let e : host.same_text name "--check-pass" || true ≡ true = ground arith in
      ap (find_check_pass host rest) e ∙ find_check_pass-true rest

  find_check_pass-from :
      (before after : List Text) (name : Text) (found : Bool)
      → host.same_text name "--check-pass" ≡ true
      → find_check_pass host (before ++ name ∷ after) found ≡ true
  unfolding find_check_pass
  find_check_pass-from [] after name found h =
      ap (λ b. find_check_pass host after (b || found)) h ∙ find_check_pass-true after
  find_check_pass-from (other ∷ before) after name found h =
      find_check_pass-from before after name (host.same_text other "--check-pass" || found) h

  -- What the options that are read come from.
  record OptionsRead (args : List Text) (o : Options) : Type 0 where
    limit_found : find_max_cycles host args default_max_cycles ≡ done o.max_cycles
    check_found : o.check_pass ≡ find_check_pass host args false

  read_options-OptionsRead :
      (args : List Text) (o : Options) → read_options host args ≡ done o → OptionsRead args o
  unfolding read_options
  read_options-OptionsRead args o h =
      let collect : Text → ℕ → WaitConfig → Options = λ path limit wait. record {
        elf_path = path;
        max_cycles = limit;
        wait_cycles = wait;
        check_pass = find_check_pass host args false;
      } in
      let after_limit : Text → ℕ → Attempt Message Options = λ path limit.
        and_then (find_wait_cycles host args default_wait_cycles)
          (λ wait. done (collect path limit wait)) in
      let (path, found, h1) =
        and_then-done (require_elf host (find_elf host args none))
          (λ path. and_then (find_max_cycles host args default_max_cycles) (after_limit path)) o
          h in
      let (limit, limited, h2) =
        and_then-done (find_max_cycles host args default_max_cycles) (after_limit path) o h1 in
      let (wait, waited, h3) =
        and_then-done (find_wait_cycles host args default_wait_cycles)
          (λ wait. done (collect path limit wait)) o h2 in
      let e : collect path limit wait ≡ o = done-injective (collect path limit wait) o h3 in
      record {
        limit_found = limited ∙ ap (λ o. done o.max_cycles) e;
        check_found = sym (ap (λ o. o.check_pass) e);
      }

module _ {C : Type 0} (core : Core C) (elf : ElfHeader) (host : Host) (fill : ℕ → ℕ → ℕ)
    (uniform : ℕ → ℕ → ℕ → ℕ) where
  -- What an exit code of 0 stands for: the options are read, the ELF file is loaded into a fresh
  -- memory, and the main loop, run from there, has ended by its own condition with the pass value in
  -- the GPIO.
  pub record Passed (args : List Text) (top : C) : Type 0 where
    pub options : Options
    pub options_read : read_options host args ≡ done options
    pub entry : ℕ
    pub mem_pool : PagedMem
    pub elf_loaded :
        load_elf elf (host.read_file options.elf_path) (new_mem fill mem_base_addr mem_size)
        ≡ (ok entry, mem_pool)
    pub final : Bench C
    pub simulated :
        (simulate core true options.max_cycles top
          (new_mem_model uniform mem_pool options.wait_cycles)).1
        ≡ final
    pub stopped : stops core options.max_cycles final ≡ true
    pub pass_written : last_write_of (final.store gpio_index) ≡ pass_value

  run_loaded-ok :
      (o : Options) (top : C) (r : Result ℕ × PagedMem)
      → (run_loaded core elf host fill uniform o top r).status ≡ 0
      → (entry : ℕ) × (r ≡ (ok entry, r.1))
  unfolding run_loaded
  run_loaded-ok o top (ok entry, mem_pool) h = (entry, refl)
  run_loaded-ok o top (thrown e, mem_pool) h = absurd (omega (arith, h))

  main_with-done :
      (r : Attempt Message Options) (top : C)
      → (main_with core elf host fill uniform r top).status ≡ 0
      → (o : Options) × (r ≡ done o)
  unfolding main_with
  main_with-done (done o) top h = (o, refl)
  main_with-done (gave_up message) top h = absurd (omega (arith, h))

  simulate-passed :
      (limit : ℕ) (top : C) (dram : MemModel)
      → limit < 2 ^ 64
      → (simulate core true limit top dram).0 ≡ 0
      → (stops core limit (simulate core true limit top dram).1 ≡ true)
        × (last_write_of ((simulate core true limit top dram).1.store gpio_index) ≡ pass_value)
  unfolding simulate exit_code
  simulate-passed limit top dram small h =
      (run-stops core limit limit _ small (omega arith), ground (arith, h))

  -- The exit code is a function of the last word that the GPIO has been given.
  simulate-checked :
      (limit : ℕ) (top : C) (dram : MemModel)
      → (simulate core true limit top dram).0
        ≡ exit_code true (last_write_of ((simulate core true limit top dram).1.store gpio_index))
  unfolding simulate
  simulate-checked limit top dram = refl

  exit_code-pass : exit_code true pass_value ≡ 0
  unfolding exit_code
  exit_code-pass = refl

  run_loaded-Passed :
      (args : List Text) (o : Options) (top : C)
      → read_options host args ≡ done o
      → o.max_cycles < 2 ^ 64
      → o.check_pass ≡ true
      → let r = load_elf elf (host.read_file o.elf_path) (new_mem fill mem_base_addr mem_size) in
        (run_loaded core elf host fill uniform o top r).status ≡ 0 → Passed args top
  unfolding run_loaded
  run_loaded-Passed args o top read small checked h =
      let r = load_elf elf (host.read_file o.elf_path) (new_mem fill mem_base_addr mem_size) in
      let (entry, loaded) = run_loaded-ok o top r h in
      let dram = new_mem_model uniform r.1 o.wait_cycles in
      let run = simulate core true o.max_cycles top dram in
      let zero_code : run.0 ≡ 0 =
        ap (λ b. (simulate core b o.max_cycles top dram).0) (sym checked)
        ∙ sym (ap (λ r. (run_loaded core elf host fill uniform o top r).status) loaded)
        ∙ h in
      let (ended, written) = simulate-passed o.max_cycles top dram small zero_code in
      record {
        options = o;
        options_read = read;
        entry = entry;
        mem_pool = r.1;
        elf_loaded = loaded;
        final = run.1;
        simulated = refl;
        stopped = ended;
        pass_written = written;
      }

  -- With --check-pass among the arguments the program exits with 0 exactly if it has passed.
  pub main-Passed :
      (before after : List Text) (name : Text) (top : C)
      → GivesLong host
      → host.same_text name "--check-pass" ≡ true
      → let args = before ++ name ∷ after in
        ((main core elf host fill uniform args top).status ≡ 0) ↔ Passed args top
  unfolding main main_with run_loaded
  main-Passed before after name top long asked =
      let args = before ++ name ∷ after in
      (
        (λ h.
            let (o, read) = main_with-done (read_options host args) top h in
            let options = read_options-OptionsRead host args o read in
            let checked =
              options.check_found ∙ find_check_pass-from host before after name false asked in
            let small =
              find_max_cycles-lt host args default_max_cycles o.max_cycles long (omega arith)
                options.limit_found in
            run_loaded-Passed args o top read small checked
              (sym (ap (λ r. (main_with core elf host fill uniform r top).status) read) ∙ h)),
        λ p.
            let o = p.options in
            let dram = new_mem_model uniform p.mem_pool o.wait_cycles in
            let options = read_options-OptionsRead host args o p.options_read in
            let checked =
              options.check_found ∙ find_check_pass-from host before after name false asked in
            ap (λ r. (main_with core elf host fill uniform r top).status) p.options_read
            ∙ ap (λ r. (run_loaded core elf host fill uniform o top r).status) p.elf_loaded
            ∙ ap (λ b. (simulate core b o.max_cycles top dram).0) checked
            ∙ simulate-checked o.max_cycles top dram
            ∙ ap (λ b. exit_code true (last_write_of (b.store gpio_index))) p.simulated
            ∙ ap (exit_code true) p.pass_written
            ∙ exit_code-pass,
      )
