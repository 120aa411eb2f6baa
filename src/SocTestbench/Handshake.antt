-- ===== src/SocTestbench/Handshake.antt =====
-- The testbench keeps the handshake invariant of its memory, and counts its cycles.
use friscv_soc.Common.{
  ℕ, zero, suc, ◌+◌, ◌<◌, ◌≡◌, refl, Bool, true, false, not, ◌&&◌, ◌||◌, none, some, Option,
  if◌then◌else◌, ◌==◌,
}
use friscv_soc.Common.Results.{Result, ok, thrown, Act, then_do, ◌>>◌, modify}
use friscv_soc.Common.Words.{u64}
use friscv_soc.AxiMem.{AxiMem, Sample, Driven, process, drive, new_axi}
use friscv_soc.AxiMem
use friscv_soc.AxiMem.Channels.{IsHandshake, process-IsHandshake, new_axi-IsHandshake}
use friscv_soc.QspiFlash.{QspiFlash}
use friscv_soc.QspiFlash
use friscv_soc.SocTestbench.{
  Module, SocTestbench, update_ext_mem, update_flash, with_flash, eval, drive_miso, run_cycle,
  run_loop, run_cycles, serial_lines, set_clock, count_cycles, new_testbench,
}

-- The length signal of a burst has eight bits.
abbrev pub ShortBursts : {T : Type 0} → Module T → Type 0
ShortBursts {T} m = (t : T) → (m.master t).ar_len < 256

-- The clock does not matter to the invariant.
clocked-IsHandshake :
    (s : AxiMem) (clock : Bool) → IsHandshake s → IsHandshake (record s { clock = clock })
clocked-IsHandshake s clock h = record {
  write_state = h.write_state;
  read_state = h.read_state;
  beats_left = h.beats_left;
  beats_in = h.beats_in;
  last_beat = h.last_beat;
}

if_holds : {A : Type 0} (P : A → Type 0) (b : Bool) (x y : A) → P x → P y → P (if b then x else y)
if_holds P true x y px py = px
if_holds P false x y px py = py

update-IsHandshake :
    (s : AxiMem) (clk_i : ℕ) (p : Sample)
    → p.ar_len < 256
    → IsHandshake s
    → IsHandshake (AxiMem.update s clk_i p).0
unfolding AxiMem.update
update-IsHandshake s clk_i p hp h =
    let clock = not (clk_i == 0) in
    let t = record s { clock = clock } in
    let th = clocked-IsHandshake s clock h in
    if_holds (λ (r : AxiMem × Option Driven). IsHandshake r.0)
      ((clock && s.clock) || (not clock && not s.clock)) (s, none)
      (if clock then (t, none) else (process p t, some (drive s))) h
      (if_holds (λ (r : AxiMem × Option Driven). IsHandshake r.0) clock (t, none)
        (process p t, some (drive s)) th (process-IsHandshake p t hp th))

-- An action that keeps what holds of the state, whether or not it throws.
abbrev Keeps : {S A : Type 0} → (S → Type 0) → Act S A → Type 0
Keeps {S} P act = (s : S) → P s → P (act s).1

then_do-Keeps :
    {S A B : Type 0}
    → (P : S → Type 0) (r : Result A) (t : S) (f : A → Act S B) → P t
    → ((a : A) → Keeps P (f a))
    → P (then_do (r, t) f).1
then_do-Keeps P (ok a) t f h k = k a t h
then_do-Keeps P (thrown e) t f h k = h

>>-Keeps :
    {S A : Type 0}
    → (P : S → Type 0) (a : Act S (Unit {0})) (b : Act S A) → Keeps P a
    → Keeps P b
    → Keeps P (a >> b)
>>-Keeps P a b ka kb s h = then_do-Keeps P (a s).0 (a s).1 (λ _. b) (ka s h) (λ _. kb)

-- What holds of the memory and of the cycle counter.
abbrev At : {T : Type 0} → ℕ → SocTestbench T → Type 0
At n s = IsHandshake s.ext_mem × (s.cycles ≡ n)

flash_result-At :
    {T : Type 0} (n : ℕ) (s : SocTestbench T) (o : Option QspiFlash)
    → At n s
    → At n (with_flash s o).1
flash_result-At n s none h = h
flash_result-At n s (some flash) h = h

module _ {T : Type 0} (m : Module T) (short : ShortBursts m) (n : ℕ) where
  eval-At : Keeps (At n) (eval m)
  unfolding eval update_ext_mem update_flash drive_miso
  eval-At s h =
      let axi =
        update-IsHandshake s.ext_mem (m.ports (m.step s.top)).clk_i (m.master (m.step s.top))
          (short (m.step s.top)) h.0 in
      let t = update_ext_mem m (record s { top = m.step s.top }) in
      let o = QspiFlash.update t.flash (m.ports t.top) in
      then_do-Keeps (At n) (with_flash t o).0 (with_flash t o).1 _
        (flash_result-At n t o (axi, h.1)) (λ _ u hu. hu)

  run_cycle-At : Keeps (At n) (run_cycle m)
  unfolding run_cycle serial_lines
  run_cycle-At s h =
      >>-Keeps (At n) (eval m) (modify (set_clock m 0) >> eval m) eval-At
        (λ u hu. eval-At (set_clock m 0 u) hu) (set_clock m 1 (serial_lines m s)) h

  run_loop-At : (k : ℕ) → Keeps (At n) (run_loop m k)
  unfolding run_loop
  run_loop-At zero s h = h
  run_loop-At (suc k) s h =
      >>-Keeps (At n) (run_cycle m) (run_loop m k) run_cycle-At (run_loop-At k) s h

module _ {T : Type 0} (m : Module T) (short : ShortBursts m) where
  -- However many cycles run, and also if the flash refuses a command in one of them, the write
  -- channels of the memory stay in exactly one of their three states and the read channels in
  -- exactly one of two, for bursts whose length fits the eight bits of the length signal, and the
  -- cycle counter is ahead by the full count, at 64 bits.
  pub run_cycles-IsHandshake :
      (count : ℕ) (s : SocTestbench T)
      → IsHandshake s.ext_mem
      → let t = (run_cycles m count s).1 in
        IsHandshake t.ext_mem × (t.cycles ≡ u64 (s.cycles + count))
  unfolding run_cycles
  run_cycles-IsHandshake count s h =
      run_loop-At m short (u64 (s.cycles + count)) count (count_cycles m count s) (h, refl)

  -- The testbench that the constructor builds has the invariant.
  pub new_testbench-IsHandshake :
      (fill : ℕ → ℕ → ℕ) (top : T) → IsHandshake (new_testbench m fill top).1.ext_mem
  unfolding new_testbench
  new_testbench-IsHandshake fill top = (eval-At m short 0 _ (new_axi-IsHandshake fill, refl)).0
