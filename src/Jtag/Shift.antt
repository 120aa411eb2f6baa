-- ===== src/Jtag/Shift.antt =====
-- What the driver shifts in and out of a test access port.
use friscv_soc.Common.{
  ℕ, zero, suc, ◌+◌, ◌*◌, ◌^◌, ◌≡◌, refl, sym, ap, ◌∙◌, Bool, true, false, List, [], ◌∷◌, ◌++◌,
  of_bool, ◌==◌, arith,
}
use mathlib.Core.Path.{ap₂}
use mathlib.Core.List.{append_assoc, append-nil}
use friscv_soc.Common.Words.{test_bit}
use friscv_soc.Common.Arrays.{length}
use friscv_soc.Jtag.{Bench, pulse, move_tap, shift_from, shift_bits, shift_ir, shift_dr}
use friscv_soc.Jtag.Tap.{
  TapState, Tap, IsTap, next, bits_of, number_of, run_test_idle, select_dr, capture_dr, shifting_dr,
  exit1_dr, update_dr, select_ir, capture_ir, shifting_ir, exit1_ir, update_ir,
}

-- The two states in which a register shifts.
data IsShift : TapState → Type 0 where
  dr : IsShift shifting_dr
  ir : IsShift shifting_ir

stays : (st : TapState) → IsShift st → next st false ≡ st
stays st dr = refl
stays st ir = refl

abbrev after : TapState → List Bool → Tap → Tap
after st bits t = record t { state = next st true; register = bits }

module _ {S : Type 0} (bench : Bench S) (tap : S → Tap) (captured : S → List Bool)
    (port : IsTap bench tap captured) where
  pulse_shift :
      (st : TapState) (tms tdi b : Bool) (bits : List Bool) (s : S)
      → IsShift st
      → (tap s).state ≡ st
      → (tap s).register ≡ b ∷ bits
      → ((pulse bench tms tdi s).0 ≡ b)
        × (tap (pulse bench tms tdi s).1
            ≡ record (tap s) { state = next st tms; register = bits ++ (tdi ∷ []) })
  pulse_shift st tms tdi b bits s dr e r =
      ground (arith, port.tdo_of tms tdi s, port.tap_of tms tdi s)
  pulse_shift st tms tdi b bits s ir e r =
      ground (arith, port.tdo_of tms tdi s, port.tap_of tms tdi s)

  abbrev after_shift : TapState → List Bool → S → Tap
  after_shift st bits s = after st bits (tap s)

  -- The loop takes the register's bits out and the value's bits in.
  shift_from_lem :
      (n i value result : ℕ) (st : TapState) (s : S) (xs ys : List Bool)
      → IsShift st
      → (tap s).state ≡ st
      → (tap s).register ≡ xs ++ ys
      → length xs ≡ suc n
      → ((shift_from bench (suc n) i value result s).0 ≡ result + number_of i xs)
        × (tap (shift_from bench (suc n) i value result s).1
            ≡ after_shift st (ys ++ bits_of value i (suc n)) s)
  unfolding shift_from number_of bits_of
  shift_from_lem n i value result st s [] ys sh e r l = absurd (omega arith)
  shift_from_lem zero i value result st s (b ∷ []) ys sh e r l =
      let (out, moved) = pulse_shift st true (test_bit value i) b ys s sh e r in
      (ap (λ p. result + of_bool p * 2 ^ i) out ∙ omega arith, moved)
  shift_from_lem zero i value result st s (b ∷ c ∷ xs) ys sh e r l = absurd (omega arith)
  shift_from_lem (suc n) i value result st s (b ∷ xs) ys sh e r l =
      let v = test_bit value i in
      let t = (pulse bench false v s).1 in
      let (out, moved) = pulse_shift st false v b (xs ++ ys) s sh e r in
      let (rest, last) =
        shift_from_lem n (i + 1) value (result + of_bool b * 2 ^ i) st t xs (ys ++ (v ∷ [])) sh
          (ap (λ x. x.state) moved ∙ stays st sh)
          (ap (λ x. x.register) moved ∙ append_assoc xs ys (v ∷ [])) (omega arith) in
      let more : (suc n == 0) ≡ false = ground arith in
      let run : shift_from bench (suc (suc n)) i value result s
          ≡ shift_from bench (suc n) (i + 1) value (result + of_bool b * 2 ^ i) t =
        ap
          (λ q.
            let x = pulse bench q v s in
            shift_from bench (suc n) (i + 1) value (result + of_bool x.0 * 2 ^ i) x.1)
          more
        ∙ ap (λ p. shift_from bench (suc n) (i + 1) value (result + of_bool p * 2 ^ i) t) out in
      (
        ap (λ x. x.0) run ∙ rest ∙ omega arith,
        ap (λ x. tap x.1) run
            ∙ last
            ∙ ap₂ (λ (x : Tap) bits. after st bits x) moved
                (append_assoc ys (v ∷ []) (bits_of value (i + 1) (suc n))),
      )

  -- The device when its data register takes its value in, two clocks from the idle state.
  abbrev pub at_capture : S → S
  at_capture s = (pulse bench false false (pulse bench true false s).1).1

  -- From the idle state the path to the shift state takes the data register in.
  to_shift_dr :
      (s : S)
      → (tap s).state ≡ run_test_idle
      → let c = (pulse bench false false (pulse bench true false s).1).1 in
        tap (move_tap bench (true ∷ false ∷ false ∷ []) s)
        ≡ record (tap s) { state = shifting_dr; register = captured c }
  unfolding move_tap
  to_shift_dr s e =
      let s1 = (pulse bench true false s).1 in
      let s2 = (pulse bench false false s1).1 in
      let e1 : tap s1 ≡ record (tap s) { state = select_dr } =
        ground (arith, port.tap_of true false s) in
      let e2 : tap s2 ≡ record (tap s) { state = capture_dr } =
        ground (arith, port.tap_of false false s1) in
      ground (arith, port.tap_of false false s2)

  from_exit_dr :
      (s : S)
      → (tap s).state ≡ exit1_dr
      → tap (move_tap bench (true ∷ false ∷ []) s) ≡ record (tap s) {
        state = run_test_idle;
        latched = (tap s).latched ++ (((tap s).instruction, (tap s).register) ∷ []);
      }
  unfolding move_tap
  from_exit_dr s e =
      let s1 = (pulse bench true false s).1 in
      let e1 : tap s1 ≡ record (tap s) { state = update_dr } =
        ground (arith, port.tap_of true false s) in
      ground (arith, port.tap_of false false s1)

  -- On a test access port of IEEE 1149.1, a shift of a data register, from the idle state and as
  -- long as the register, gives the number that the register took in, updates the register once, by
  -- the value's bits, and ends in the idle state; the instruction stays.
  pub shift_dr_lem :
      (value n : ℕ) (s : S)
      → (tap s).state ≡ run_test_idle
      → length (captured (at_capture s)) ≡ suc n
      → ((shift_dr bench value (suc n) s).0 ≡ number_of 0 (captured (at_capture s)))
        × (tap (shift_dr bench value (suc n) s).1 ≡ record (tap s) {
          register = bits_of value 0 (suc n);
          latched = (tap s).latched ++ (((tap s).instruction, bits_of value 0 (suc n)) ∷ []);
        })
  unfolding shift_dr shift_bits
  shift_dr_lem value n s e l =
      let c = (pulse bench false false (pulse bench true false s).1).1 in
      let t = move_tap bench (true ∷ false ∷ false ∷ []) s in
      let u = (shift_from bench (suc n) 0 value 0 t).1 in
      let e1 = to_shift_dr s e in
      let (out, moved) =
        shift_from_lem n 0 value 0 shifting_dr t (captured c) [] dr (ap (λ x. x.state) e1)
          (ap (λ x. x.register) e1 ∙ sym (append-nil (captured c))) l in
      (out ∙ omega arith, from_exit_dr u (ap (λ x. x.state) moved) ∙ ground (arith, moved, e1))

  to_shift_ir :
      (s : S)
      → (tap s).state ≡ run_test_idle
      → tap (move_tap bench (true ∷ true ∷ false ∷ false ∷ []) s) ≡ record (tap s) {
        state = shifting_ir;
        register = true ∷ false ∷ false ∷ false ∷ false ∷ [];
      }
  unfolding move_tap
  to_shift_ir s e =
      let s1 = (pulse bench true false s).1 in
      let s2 = (pulse bench true false s1).1 in
      let s3 = (pulse bench false false s2).1 in
      let e1 : tap s1 ≡ record (tap s) { state = select_dr } =
        ground (arith, port.tap_of true false s) in
      let e2 : tap s2 ≡ record (tap s) { state = select_ir } =
        ground (arith, port.tap_of true false s1) in
      let e3 : tap s3 ≡ record (tap s) { state = capture_ir } =
        ground (arith, port.tap_of false false s2) in
      ground (arith, port.tap_of false false s3)

  from_exit_ir :
      (s : S)
      → (tap s).state ≡ exit1_ir
      → tap (move_tap bench (true ∷ false ∷ []) s)
        ≡ record (tap s) { state = run_test_idle; instruction = (tap s).register }
  unfolding move_tap
  from_exit_ir s e =
      let s1 = (pulse bench true false s).1 in
      let e1 : tap s1 ≡ record (tap s) { state = update_ir } =
        ground (arith, port.tap_of true false s) in
      ground (arith, port.tap_of false false s1)

  -- A shift of the instruction register from the idle state puts the instruction in force, updates
  -- no data register and ends in the idle state.
  pub shift_ir_lem :
      (instruction : ℕ) (s : S)
      → (tap s).state ≡ run_test_idle
      → tap (shift_ir bench instruction s) ≡ record (tap s) {
        register = bits_of instruction 0 5;
        instruction = bits_of instruction 0 5;
      }
  unfolding shift_ir shift_bits
  shift_ir_lem instruction s e =
      let t = move_tap bench (true ∷ true ∷ false ∷ false ∷ []) s in
      let u = (shift_from bench 5 0 instruction 0 t).1 in
      let e1 = to_shift_ir s e in
      let (out, moved) =
        shift_from_lem 4 0 instruction 0 shifting_ir t (true ∷ false ∷ false ∷ false ∷ false ∷ [])
          [] ir (ap (λ x. x.state) e1) (ap (λ x. x.register) e1) refl in
      from_exit_ir u (ap (λ x. x.state) moved) ∙ ground (arith, moved, e1)
