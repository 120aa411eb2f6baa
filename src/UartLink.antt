-- ===== src/UartLink.antt =====
-- target/sim/cpp/uart_rx_driver.{hpp,cpp} and uart_tx_monitor.{hpp,cpp}: the two ends of a serial
-- line, eight data bits, no parity, one stop bit. Both are called once per clock cycle. A member
-- `unsigned` has 32 bits.
use friscv_soc.Common.{
  ℕ, ◌+◌, ◌*◌, ◌/◌, ◌%◌, Bool, true, false, not, ◌&&◌, List, [], ◌∷◌, ◌++◌, ◌==◌, leb,
  if◌then◌else◌,
}
use friscv_soc.Common.Words.{u8, u32}
pub mod Hold
pub mod Frame
pub mod Loopback
mod Tests

-- `enum class State` of both classes.
pub data State : Type 0 where
  idle start shifting stop : State

-- `class UartRxDriver`
pub record UartRxDriver : Type 0 where
  pub bit_cycles : ℕ
  pub state : State
  pub counter : ℕ
  pub bit_index : ℕ
  pub shifter : ℕ
  pub level : Bool
  pub queue : List ℕ

pub new_driver : UartRxDriver
new_driver = record {
  bit_cycles = 0;
  state = idle;
  counter = 0;
  bit_index = 0;
  shifter = 0;
  level = true;
  queue = [];
}

unfoldable pub set_divisor : UartRxDriver → ℕ → UartRxDriver
set_divisor d divisor = record d { bit_cycles = u32 (16 * divisor) }

pub set_bit_cycles : UartRxDriver → ℕ → UartRxDriver
set_bit_cycles d cycles = record d { bit_cycles = cycles }

pub send : UartRxDriver → List ℕ → UartRxDriver
send d bytes = record d { queue = d.queue ++ bytes }

-- `(shifter & 1) != 0`
abbrev pub low_bit : ℕ → Bool
low_bit x = x % 2 == 1

-- The case IDLE of `drive`, on the queue.
drive_idle : UartRxDriver → List ℕ → UartRxDriver
drive_idle d [] = record d { level = true }
drive_idle d (b ∷ q) = record d {
  shifter = b;
  queue = q;
  state = start;
  counter = 0;
  level = false;
}

-- The other cases, given that the bit period ends in this cycle.
next_bit : State → UartRxDriver → UartRxDriver
next_bit idle d = d
next_bit start d = record d {
  counter = 0;
  bit_index = 0;
  state = shifting;
  level = low_bit d.shifter;
}
next_bit shifting d =
    let t = record d {
      counter = 0;
      shifter = u8 (d.shifter / 2);
      bit_index = u32 (d.bit_index + 1);
    } in
    if t.bit_index == 8
    then record t { state = stop; level = true }
    else record t { level = low_bit t.shifter }
next_bit stop d = record d { counter = 0; state = idle; level = true }

-- The `switch` of `drive`.
drive_state : State → UartRxDriver → UartRxDriver
unfolding drive_idle next_bit
drive_state idle d = drive_idle d d.queue
drive_state s d =
    let t = record d { counter = u32 (d.counter + 1) } in
    if leb t.bit_cycles t.counter then next_bit s t else t

-- `UartRxDriver::drive`: the new state and the level returned.
pub drive : UartRxDriver → UartRxDriver × Bool
unfolding drive_state
drive d =
    if d.bit_cycles == 0 then (d, true) else (drive_state d.state d, (drive_state d.state d).level)

-- What the monitor writes to the standard error: a character, or the framing error message with
-- the bit period.
pub data Printed : Type 0 where
  char : ℕ → Printed
  framing : ℕ → Printed

-- `class UartTxMonitor`
pub record UartTxMonitor : Type 0 where
  pub bit_cycles : ℕ
  pub state : State
  pub counter : ℕ
  pub bit_index : ℕ
  pub shifter : ℕ
  pub last : Bool
  pub warned : Bool
  pub at_line_start : Bool
  pub printed : List Printed

pub new_monitor : UartTxMonitor
new_monitor = record {
  bit_cycles = 0;
  state = idle;
  counter = 0;
  bit_index = 0;
  shifter = 0;
  last = true;
  warned = false;
  at_line_start = true;
  printed = [];
}

pub set_monitor_divisor : UartTxMonitor → ℕ → UartTxMonitor
set_monitor_divisor m divisor = record m { bit_cycles = u32 (16 * divisor) }

-- The end of the stop bit: print the byte, or warn of a framing error once.
finish_frame : UartTxMonitor → Bool → UartTxMonitor
finish_frame m tx =
    if tx
    then record m {
      printed = m.printed ++ (char m.shifter ∷ []);
      at_line_start = m.shifter == b'\n';
      state = idle;
    }
    else if not m.warned
    then record m {
      warned = true;
      printed = m.printed ++ (framing m.bit_cycles ∷ []);
      at_line_start = true;
      state = idle;
    }
    else record m { state = idle }

-- The `switch` of `sample`. The shifter is an `unsigned char`, so that setting its top bit after
-- the shift is an addition.
sample_state : State → UartTxMonitor → Bool → UartTxMonitor
unfolding finish_frame
sample_state idle m tx = if m.last && not tx then record m { state = start; counter = 0 } else m
sample_state start m tx =
    let t = record m { counter = u32 (m.counter + 1) } in
    if leb (t.bit_cycles / 2) t.counter
    then (if tx
        then record t { state = idle }
        else record t { state = shifting; counter = 0; bit_index = 0; shifter = 0 })
    else t
sample_state shifting m tx =
    let t = record m { counter = u32 (m.counter + 1) } in
    if leb t.bit_cycles t.counter
    then record t {
      counter = 0;
      shifter = t.shifter / 2 + (if tx then 0x80 else 0);
      bit_index = u32 (t.bit_index + 1);
      state = (if u32 (t.bit_index + 1) == 8 then stop else shifting);
    }
    else t
sample_state stop m tx =
    let t = record m { counter = u32 (m.counter + 1) } in
    if leb t.bit_cycles t.counter then finish_frame t tx else t

-- `UartTxMonitor::sample`
pub sample : UartTxMonitor → Bool → UartTxMonitor
unfolding sample_state
sample m tx = if m.bit_cycles == 0 then m else record (sample_state m.state m tx) { last = tx }
