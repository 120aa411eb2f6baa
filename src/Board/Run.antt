-- ===== src/Board/Run.antt =====
-- The main loop ends.
use friscv_soc.Common.{ℕ, zero, suc, ◌+◌, ◌≤◌, ◌<◌, ◌^◌, ◌≡◌, Bool, true, false, refl, arith}
use friscv_soc.Board.{Core, Bench, stops, cycle, run}

module _ {C : Type 0} (core : Core C) where
  stops_late :
      (max_cycles : ℕ) (b : Bench C) → max_cycles ≤ b.cycle_count → stops core max_cycles b ≡ true
  unfolding stops
  stops_late max_cycles b h = ground arith

  cycle-count :
      (max_cycles : ℕ) (b : Bench C)
      → max_cycles < 2 ^ 64
      → stops core max_cycles b ≡ false
      → (cycle core b).cycle_count ≡ b.cycle_count + 1
  unfolding stops cycle
  cycle-count max_cycles b h s = ground arith

  stops_case :
      (m : ℕ) (t : Bool) (b c : Bench C)
      → (t ≡ true → stops core m b ≡ true)
      → (t ≡ false → stops core m c ≡ true)
      → stops core m (elim t [ true ↦ b | false ↦ c ]) ≡ true
  stops_case m true b c p q = p refl
  stops_case m false b c p q = q refl

  -- With as many rounds as cycles are left, the main loop ends because its own condition fails: the
  -- core has halted, the limit is reached or the simulation has finished.
  pub run-stops :
      (n max_cycles : ℕ) (b : Bench C)
      → max_cycles < 2 ^ 64
      → max_cycles ≤ b.cycle_count + n
      → stops core max_cycles (run core n max_cycles b) ≡ true
  unfolding run
  run-stops zero max_cycles b h e = stops_late max_cycles b (omega arith)
  run-stops (suc n) max_cycles b h e =
      stops_case max_cycles (stops core max_cycles b) b _ (λ t. t)
        (λ f. run-stops n max_cycles _ h (omega (arith, cycle-count max_cycles b h f)))
