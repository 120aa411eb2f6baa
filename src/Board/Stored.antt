-- ===== src/Board/Stored.antt =====
-- A run that passes has seen the core store the pass value.
use mathlib.Core.Path.{subst}
use friscv_soc.Common.{
  ℕ, zero, suc, ◌<◌, ◌≡◌, ◌⊎◌, inl, inr, refl, sym, ap, ◌∙◌, Bool, true, false, ◌||◌, List, [], ◌∷◌,
  ◌++◌, arith, Bool-cases,
}
use friscv_soc.Bus.{Access, idle_out}
use friscv_soc.MemModel.{MemModel}
use friscv_soc.Board.{
  Core, Bench, new_bus, new_devices, gpio_index, last_write_of, pass_value, exit_code, stops, cycle,
  drive_clint, clint_index, reset_cycles, release, run, simulate,
}
use friscv_soc.Board.Written.{IsGpio, GpioStep, gpio_step, stores}

unfoldable pub any_stores : List Access → ℕ → Bool
any_stores [] value = false
any_stores (a ∷ accesses) value = stores a value || any_stores accesses value

-- The word in the GPIO after an access and what follows it.
stores_first :
    (a : Access) (rest : List Access) (v : ℕ) → stores a v ≡ true → any_stores (a ∷ rest) v ≡ true
unfolding any_stores
stores_first a rest v h = ap (λ b. b || any_stores rest v) h

stores_later : (b c : Bool) → c ≡ true → b || c ≡ true
stores_later true c h = refl
stores_later false c h = h

any_stores-left :
    (xs ys : List Access) (v : ℕ) → any_stores xs v ≡ true → any_stores (xs ++ ys) v ≡ true
unfolding any_stores
any_stores-left [] ys v h = ground (arith, h)
any_stores-left (a ∷ xs) ys v h = elim (Bool-cases (stores a v)) [
  | inl t ↦ stores_first a (xs ++ ys) v t
  | inr f ↦
      stores_later (stores a v) (any_stores (xs ++ ys) v)
        (any_stores-left xs ys v (sym (ap (λ b. b || any_stores xs v) f) ∙ h))
]

any_stores-right :
    (xs ys : List Access) (v : ℕ) → any_stores ys v ≡ true → any_stores (xs ++ ys) v ≡ true
unfolding any_stores
any_stores-right [] ys v h = h
any_stores-right (a ∷ xs) ys v h =
    stores_later (stores a v) (any_stores (xs ++ ys) v) (any_stores-right xs ys v h)

stored_pass :
    (v : ℕ) (accesses : List Access)
    → exit_code true v ≡ 0
    → (v ≡ 0) ⊎ (any_stores accesses v ≡ true)
    → any_stores accesses pass_value ≡ true
unfolding exit_code
stored_pass v accesses h (inl e) = ground (arith, h, e)
stored_pass v accesses h (inr s) =
    let passed : v ≡ pass_value = ground (arith, h) in
    subst (λ x. any_stores accesses x ≡ true) passed s

module _ {C : Type 0} (core : Core C) where
  -- The access of a cycle, and those of the two loops.
  abbrev pub access_of : Bench C → Access
  access_of b = core.access (core.posedge b.top)

  unfoldable pub reset_accesses : ℕ → Bench C → List Access
  reset_accesses zero b = []
  reset_accesses (suc n) b = elim (core.got_finish b.top) [
    | true ↦ []
    | false ↦ access_of b ∷ reset_accesses n (cycle core b)
  ]

  -- The program after a round of the main loop.
  abbrev after_round : Bench C → Bench C
  after_round b =
      let c = cycle core b in record c { top = drive_clint core (c.store clint_index) c.top }

  unfoldable pub run_accesses : ℕ → ℕ → Bench C → List Access
  run_accesses zero limit b = []
  run_accesses (suc n) limit b = elim (stops core limit b) [
    | true ↦ []
    | false ↦ access_of b ∷ run_accesses n limit (after_round b)
  ]

  abbrev word_of : Bench C → ℕ
  word_of b = last_write_of (b.store gpio_index)

  -- The word in the GPIO is the one before, or one of the accesses has stored it.
  record Kept (b c : Bench C) (accesses : List Access) : Type 0 where
    still : IsGpio c.bus c.store
    from_store : (word_of c ≡ word_of b) ⊎ (any_stores accesses (word_of c) ≡ true)

  unchanged : (b : Bench C) → IsGpio b.bus b.store → Kept b b []
  unchanged b g = record { still = g; from_store = inl refl }

  -- A cycle before a run.
  Kept-cycle :
      (b c : Bench C) (accesses : List Access)
      → GpioStep (access_of b) b.bus b.store
      → Kept (cycle core b) c accesses
      → Kept b c (access_of b ∷ accesses)
  unfolding cycle any_stores
  Kept-cycle b c accesses step rest = record {
    still = rest.still;
    from_store = joined rest.from_store step.changed;
  }
    where
      v : ℕ
      v = word_of c

      w : ℕ
      w = word_of (cycle core b)

      joined :
          (v ≡ w) ⊎ (any_stores accesses v ≡ true)
          → (w ≡ word_of b) ⊎ (stores (access_of b) w ≡ true)
          → (v ≡ word_of b) ⊎ (any_stores (access_of b ∷ accesses) v ≡ true)
      joined (inr h) s = inr (stores_later (stores (access_of b) v) (any_stores accesses v) h)
      joined (inl e) (inl s) = inl (e ∙ s)
      joined (inl e) (inr s) =
          inr (stores_first (access_of b) accesses v (ap (stores (access_of b)) e ∙ s))

  Kept-after :
      (b c d : Bench C) (xs ys : List Access) → Kept b c xs → Kept c d ys → Kept b d (xs ++ ys)
  Kept-after b c d xs ys first second = record {
    still = second.still;
    from_store = joined second.from_store first.from_store;
  }
    where
      v : ℕ
      v = word_of d

      joined :
          (v ≡ word_of c) ⊎ (any_stores ys v ≡ true)
          → (word_of c ≡ word_of b) ⊎ (any_stores xs (word_of c) ≡ true)
          → (v ≡ word_of b) ⊎ (any_stores (xs ++ ys) v ≡ true)
      joined (inr h) x = inr (any_stores-right xs ys v h)
      joined (inl e) (inl x) = inl (e ∙ x)
      joined (inl e) (inr x) = inr (any_stores-left xs ys v (ap (any_stores xs) e ∙ x))

  -- A loop that may end before its next round.
  Kept-if :
      (t : Bool) (b c : Bench C) (accesses : List Access)
      → Kept b b []
      → Kept b c accesses
      → Kept b (elim t [ true ↦ b | false ↦ c ]) (elim t [ true ↦ [] | false ↦ accesses ])
  Kept-if true b c accesses here later = here
  Kept-if false b c accesses here later = later

  -- The address of an access has 32 bits.
  abbrev pub IsNarrow : Type 0
  IsNarrow = (c : C) → (core.access c).offset < 0x100000000

  reset_cycles-Kept :
      (n : ℕ) (b : Bench C)
      → IsNarrow
      → IsGpio b.bus b.store
      → Kept b (reset_cycles core n b) (reset_accesses n b)
  unfolding reset_cycles reset_accesses cycle
  reset_cycles-Kept zero b narrow g = unchanged b g
  reset_cycles-Kept (suc n) b narrow g =
      let step = gpio_step (access_of b) b.bus b.store g (narrow (core.posedge b.top)) in
      let next = cycle core b in
      Kept-if (core.got_finish b.top) b (reset_cycles core n next) _ (unchanged b g) (
        Kept-cycle b (reset_cycles core n next) (reset_accesses n next) step
          (reset_cycles-Kept n next narrow step.still))

  run-Kept :
      (n limit : ℕ) (b : Bench C)
      → IsNarrow
      → IsGpio b.bus b.store
      → Kept b (run core n limit b) (run_accesses n limit b)
  unfolding run run_accesses cycle
  run-Kept zero limit b narrow g = unchanged b g
  run-Kept (suc n) limit b narrow g =
      let step = gpio_step (access_of b) b.bus b.store g (narrow (core.posedge b.top)) in
      let next = after_round b in
      let later = run-Kept n limit next narrow step.still in
      let from_cycle : Kept (cycle core b) (run core n limit next) (run_accesses n limit next) =
        record { still = later.still; from_store = later.from_store } in
      Kept-if (stops core limit b) b (run core n limit next) _ (unchanged b g)
        (Kept-cycle b (run core n limit next) (run_accesses n limit next) step from_cycle)

  abbrev start : C → MemModel → Bench C
  start top dram = record { top = top; bus = new_bus; store = new_devices dram; cycle_count = 0 }

  -- The accesses of a whole simulation.
  abbrev pub accesses_of : ℕ → C → MemModel → List Access
  accesses_of limit top dram =
      let b = start top dram in
      reset_accesses 20 b ++ run_accesses limit limit (release core (reset_cycles core 20 b))

  start-IsGpio : (top : C) (dram : MemModel) → IsGpio (start top dram).bus (start top dram).store
  unfolding new_devices
  start-IsGpio top dram = record {
    map_same = refl;
    object = record { out = idle_out; last_write = 0 };
    is_sink = refl;
    quick = refl;
  }

  release-Kept : (b : Bench C) → IsGpio b.bus b.store → Kept b (release core b) []
  unfolding release
  release-Kept b g = record {
    still = record {
      map_same = g.map_same;
      object = g.object;
      is_sink = g.is_sink;
      quick = g.quick;
    };
    from_store = inl refl;
  }

  -- A simulation whose exit code is 0 has seen the core store the pass value to one of the four
  -- addresses of the GPIO, if the addresses of the core have 32 bits.
  pub simulate-any_stores :
      (limit : ℕ) (top : C) (dram : MemModel)
      → IsNarrow
      → (simulate core true limit top dram).0 ≡ 0
      → any_stores (accesses_of limit top dram) pass_value ≡ true
  unfolding simulate exit_code last_write_of new_devices
  simulate-any_stores limit top dram narrow h =
      let b = start top dram in
      let c = reset_cycles core 20 b in
      let d = release core c in
      let before = reset_cycles-Kept 20 b narrow (start-IsGpio top dram) in
      let released = release-Kept c before.still in
      let after = run-Kept limit limit d narrow released.still in
      let kept =
        Kept-after b c (run core limit limit d) (reset_accesses 20 b) (run_accesses limit limit d)
          before
          (Kept-after c d (run core limit limit d) [] (run_accesses limit limit d) released
            after) in
      stored_pass (word_of (run core limit limit d)) (accesses_of limit top dram) h kept.from_store
