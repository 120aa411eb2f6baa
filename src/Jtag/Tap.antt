-- ===== src/Jtag/Tap.antt =====
-- The test access port of IEEE 1149.1, as the standard describes it, and what the device on the
-- bench must do to be one. A register is a list of bits, the one next to the output first.
use friscv_soc.Common.{
  ℕ, zero, suc, ◌+◌, ◌*◌, ◌^◌, ◌≡◌, Bool, true, false, List, [], ◌∷◌, ◌++◌, of_bool,
}
use friscv_soc.Common.Words.{test_bit}
use friscv_soc.Jtag.{Bench, pulse}

pub data TapState : Type 0 where
  test_logic_reset run_test_idle : TapState
  select_dr capture_dr shifting_dr exit1_dr pause_dr exit2_dr update_dr : TapState
  select_ir capture_ir shifting_ir exit1_ir pause_ir exit2_ir update_ir : TapState

-- The state diagram.
abbrev pub next : TapState → Bool → TapState
next test_logic_reset true = test_logic_reset
next test_logic_reset false = run_test_idle
next run_test_idle true = select_dr
next run_test_idle false = run_test_idle
next select_dr true = select_ir
next select_dr false = capture_dr
next capture_dr true = exit1_dr
next capture_dr false = shifting_dr
next shifting_dr true = exit1_dr
next shifting_dr false = shifting_dr
next exit1_dr true = update_dr
next exit1_dr false = pause_dr
next pause_dr true = exit2_dr
next pause_dr false = pause_dr
next exit2_dr true = update_dr
next exit2_dr false = shifting_dr
next update_dr true = select_dr
next update_dr false = run_test_idle
next select_ir true = test_logic_reset
next select_ir false = capture_ir
next capture_ir true = exit1_ir
next capture_ir false = shifting_ir
next shifting_ir true = exit1_ir
next shifting_ir false = shifting_ir
next exit1_ir true = update_ir
next exit1_ir false = pause_ir
next pause_ir true = exit2_ir
next pause_ir false = pause_ir
next exit2_ir true = update_ir
next exit2_ir false = shifting_ir
next update_ir true = select_dr
next update_ir false = run_test_idle

-- The state, the shift register, the instruction, and the data registers updated so far, each with
-- the instruction in force.
pub record Tap : Type 0 where
  pub state : TapState
  pub register : List Bool
  pub instruction : List Bool
  pub latched : List (List Bool × List Bool)

-- A bit comes in at the far end.
abbrev pub shifted : List Bool → Bool → List Bool
shifted [] tdi = []
shifted (_ ∷ bits) tdi = bits ++ (tdi ∷ [])

-- What a clock does in each state; `captured` is what a data register takes in.
abbrev pub act : List Bool → Bool → TapState → Tap → Tap
act captured tdi capture_dr t = record t { register = captured }
act captured tdi shifting_dr t = record t { register = shifted t.register tdi }
act captured tdi update_dr t = record t {
  latched = t.latched ++ ((t.instruction, t.register) ∷ []);
}
act captured tdi capture_ir t = record t { register = true ∷ false ∷ false ∷ false ∷ false ∷ [] }
act captured tdi shifting_ir t = record t { register = shifted t.register tdi }
act captured tdi update_ir t = record t { instruction = t.register }
act captured tdi _ t = t

abbrev pub clock : List Bool → Bool → Bool → Tap → Tap
clock captured tms tdi t = record (act captured tdi t.state t) { state = next t.state tms }

abbrev pub front : List Bool → Bool
front [] = false
front (b ∷ _) = b

-- The output drives the register's first bit in the two shift states.
abbrev pub output : TapState → List Bool → Bool
output shifting_dr bits = front bits
output shifting_ir bits = front bits
output _ bits = false

-- The device is a test access port: `tap` is its state, and `captured` what its data register
-- would take in.
pub record IsTap {S : Type 0} (bench : Bench S) (tap : S → Tap) (captured : S → List Bool)
    : Type 0 where
  pub tdo_of :
      (tms tdi : Bool) (s : S) → (pulse bench tms tdi s).0 ≡ output (tap s).state (tap s).register
  pub tap_of :
      (tms tdi : Bool) (s : S) → tap (pulse bench tms tdi s).1 ≡ clock (captured s) tms tdi (tap s)

-- The bits of a number from bit `i` on, and the number of a list of bits that starts at bit `i`.
unfoldable pub bits_of : ℕ → ℕ → ℕ → List Bool
bits_of value i zero = []
bits_of value i (suc n) = test_bit value i ∷ bits_of value (i + 1) n

unfoldable pub number_of : ℕ → List Bool → ℕ
number_of i [] = 0
number_of i (b ∷ bits) = of_bool b * 2 ^ i + number_of (i + 1) bits
