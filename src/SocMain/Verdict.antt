-- ===== src/SocMain/Verdict.antt =====
-- How the run of a test ends.
use Prim.Native.String.{String}
use friscv_soc.Common.{
  ℕ, zero, suc, ◌≤◌, ◌<◌, ◌≡◌, refl, ap, ◌∙◌, ◌⊎◌, inl, inr, true, false, Bool-cases, Option, none,
  some, arith, sym,
}
use friscv_soc.Common.Results.{Result, ok, thrown, then_do, then_do-ok, Result-cases}
use friscv_soc.Elf.{ElfHeader}
use friscv_soc.SocMain.Args.{Host, env_u64}
use friscv_soc.SocMain.{
  Soc, test_cycles, scratch_address, pass_value, wait_end, close_line, read_word, verdict,
  run_to_end,
}

Option-cases : {A : Type 0} → (o : Option A) → (o ≡ none) ⊎ ((a : A) × (o ≡ some a))
Option-cases none = inl refl
Option-cases (some a) = inr (a, refl)

module _ {S : Type 0} (soc : Soc S) (host : Host) (elf : ElfHeader) (sram_base : ℕ) where
  -- The state after `n` single cycles.
  unfoldable pub ran : ℕ → S → S
  ran zero s = s
  ran (suc n) s = ran n (soc.pins.run_cycles 1 s)

  -- The loop stops after `n` of at most `limit` cycles, the first time that the end is signalled or
  -- else at the limit, and none of the cycles raises an exception.
  pub record Stopped (limit n : ℕ) (s : S) : Type 0 where
    pub in_limit : n ≤ limit
    pub state_ok : wait_end soc host elf sram_base limit s ≡ (ok tt, ran n s)
    pub not_raised : (k : ℕ) → k < n → soc.exception (ran (suc k) s) ≡ none
    pub not_before : (k : ℕ) → k < n → soc.end_o (ran k s) ≡ false
    pub at_end : (soc.end_o (ran n s) ≡ true) ⊎ (n ≡ limit)

  earlier :
      (n : ℕ) (s : S)
      → soc.end_o s ≡ false
      → ((k : ℕ) → k < n → soc.end_o (ran k (soc.pins.run_cycles 1 s)) ≡ false)
      → (k : ℕ) → k < suc n
      → soc.end_o (ran k s) ≡ false
  unfolding ran
  earlier n s f rest zero h = f
  earlier n s f rest (suc k) h = rest k (omega arith)

  later :
      (limit n : ℕ) (s : S)
      → (soc.end_o (ran n (soc.pins.run_cycles 1 s)) ≡ true) ⊎ (n ≡ limit)
      → (soc.end_o (ran (suc n) s) ≡ true) ⊎ (suc n ≡ suc limit)
  unfolding ran
  later limit n s (inl e) = inl e
  later limit n s (inr e) = inr (ap suc e)

  wait_end-ended :
      (limit : ℕ) (s : S)
      → soc.end_o s ≡ true
      → wait_end soc host elf sram_base (suc limit) s ≡ (ok tt, s)
  unfolding wait_end
  wait_end-ended limit s t = ground arith

  wait_end-running :
      (limit : ℕ) (s : S)
      → soc.end_o s ≡ false
      → soc.exception (soc.pins.run_cycles 1 s) ≡ none
      → wait_end soc host elf sram_base (suc limit) s
        ≡ wait_end soc host elf sram_base limit (soc.pins.run_cycles 1 s)
  unfolding wait_end
  wait_end-running limit s f quiet = ground (arith, f, quiet)

  wait_end-raised :
      (limit : ℕ) (s : S) (e : String)
      → soc.end_o s ≡ false
      → soc.exception (soc.pins.run_cycles 1 s) ≡ some e
      → wait_end soc host elf sram_base (suc limit) s ≡ (thrown e, soc.pins.run_cycles 1 s)
  unfolding wait_end
  wait_end-raised limit s e f raised = ground (arith, f, raised)

  quiet_cycles :
      (n : ℕ) (s : S)
      → soc.exception (soc.pins.run_cycles 1 s) ≡ none
      → ((k : ℕ) → k < n → soc.exception (ran (suc k) (soc.pins.run_cycles 1 s)) ≡ none)
      → (k : ℕ) → k < suc n
      → soc.exception (ran (suc k) s) ≡ none
  unfolding ran
  quiet_cycles n s quiet rest zero h = quiet
  quiet_cycles n s quiet rest (suc k) h = rest k (omega arith)

  ok≢thrown : {A : Type 0} → (a : A) (e : String) → ¬ (ok a ≡ thrown e)
  ok≢thrown a e h = ground arith

  -- A loop that ends without an exception has run as many single cycles as its condition allows.
  wait_end_lem :
      (limit : ℕ) (s : S)
      → (wait_end soc host elf sram_base limit s).0 ≡ ok tt
      → (n : ℕ) × Stopped limit n s
  unfolding wait_end ran
  wait_end_lem zero s ended = (
    0,
    record {
      in_limit = omega arith;
      state_ok = refl;
      not_raised = λ k h. absurd (omega arith);
      not_before = λ k h. absurd (omega arith);
      at_end = inr refl;
    },
  )
  wait_end_lem (suc limit) s ended = elim (Bool-cases (soc.end_o s)) [
    | inl t ↦ (
      0,
      record {
        in_limit = omega arith;
        state_ok = wait_end-ended limit s t;
        not_raised = λ k h. absurd (omega arith);
        not_before = λ k h. absurd (omega arith);
        at_end = inl t;
      },
    )
    | inr f ↦ elim (Option-cases (soc.exception (soc.pins.run_cycles 1 s))) [
      | inl quiet ↦
          let same = wait_end-running limit s f quiet in
          let (n, rest) =
            wait_end_lem limit (soc.pins.run_cycles 1 s) (ap (λ r. r.0) (sym same) ∙ ended) in
          (
            suc n,
            record {
              in_limit = omega (arith, rest.in_limit);
              state_ok = same ∙ rest.state_ok;
              not_raised = quiet_cycles n s quiet rest.not_raised;
              not_before = earlier n s f rest.not_before;
              at_end = later limit n s rest.at_end;
            },
          )
      | inr (e, raised) ↦
          absurd (ok≢thrown tt e (sym ended ∙ ap (λ r. r.0) (wait_end-raised limit s e f raised)))
    ]
  ]

  -- What has happened when a run from `s` is a pass. The end signal is tested after the scratch
  -- register is read.
  pub record Passed (s : S) : Type 0 where
    pub limit : ℕ
    pub limit_ok : env_u64 host "VERNII_TEST_CYCLES" test_cycles ≡ ok limit
    pub count : ℕ
    pub stopped : Stopped limit count s
    pub scratch_ok :
        (read_word soc host elf sram_base scratch_address
          (close_line soc host elf sram_base (ran count s))).0
        ≡ ok pass_value
    pub end_ok :
        soc.end_o
          (read_word soc host elf sram_base scratch_address
            (close_line soc host elf sram_base (ran count s))).1
        ≡ true

  verdict-passed :
      (r : Result ℕ) (t : S)
      → (then_do (r, t) (verdict soc host elf sram_base)).0 ≡ ok 0
      → (r ≡ ok pass_value) × (soc.end_o t ≡ true)
  unfolding verdict
  verdict-passed (ok w) t h = ground arith
  verdict-passed (thrown e) t h = ground arith

  after_limit : Result ℕ → S → Result ℕ × S
  after_limit r s =
      then_do (r, s)
        (λ limit t. then_do (wait_end soc host elf sram_base limit t) (λ _ u.
          then_do
            (read_word soc host elf sram_base scratch_address (close_line soc host elf sram_base u))
            (verdict soc host elf sram_base)))

  after_limit-Passed :
      (limit : ℕ) (s : S)
      → env_u64 host "VERNII_TEST_CYCLES" test_cycles ≡ ok limit
      → (after_limit (ok limit) s).0 ≡ ok 0
      → Passed s
  unfolding after_limit
  after_limit-Passed limit s e h =
      let w = wait_end soc host elf sram_base limit s in
      let (_, ended, h1) = then_do-ok w.0 w.1 _ 0 h in
      let (n, stop) = wait_end_lem limit s ended in
      let r =
        read_word soc host elf sram_base scratch_address
          (close_line soc host elf sram_base (ran n s)) in
      let run : (then_do (r.0, r.1) (verdict soc host elf sram_base)).0 ≡ ok 0 =
        ap
          (λ t.
            (then_do
              (read_word soc host elf sram_base scratch_address
                (close_line soc host elf sram_base t))
              (verdict soc host elf sram_base)).0)
          (sym (ap (λ r. r.1) stop.state_ok))
        ∙ h1 in
      let (scratch, end_o_ok) = verdict-passed r.0 r.1 run in
      record {
        limit = limit;
        limit_ok = e;
        count = n;
        stopped = stop;
        scratch_ok = scratch;
        end_ok = end_o_ok;
      }

  -- A run gives the exit code 0 only if the limit on cycles is a number, the loop has stopped without
  -- an exception after at most that many single cycles, at the first that signals the end or at the limit, the scratch
  -- register then reads as the value for a pass, and the end is signalled after that read.
  pub run_to_end-Passed : (s : S) → (run_to_end soc host elf sram_base s).0 ≡ ok 0 → Passed s
  unfolding run_to_end after_limit
  run_to_end-Passed s h = elim (Result-cases (env_u64 host "VERNII_TEST_CYCLES" test_cycles)) [
    | inl (limit, e) ↦ after_limit-Passed limit s e (ap (λ r. (after_limit r s).0) (sym e) ∙ h)
    | inr (m, e) ↦ absurd (ok≢thrown 0 m (sym h ∙ ap (λ r. (after_limit r s).0) e))
  ]
