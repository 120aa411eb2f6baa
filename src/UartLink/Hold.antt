-- ===== src/UartLink/Hold.antt =====
-- The driver wired to the monitor, cycle by cycle, and the cycles in which only counters move.
use friscv_soc.Common.{ℕ, zero, suc, ◌+◌, ◌/◌, ◌^◌, ◌<◌, ◌≡◌, ◌≢◌, ap, ◌∙◌, true, arith}
use mathlib.Core.Path.{ap₂}
use friscv_soc.UartLink.{State, idle, start, UartRxDriver, drive, UartTxMonitor, sample}

-- The line with its two ends.
abbrev pub Line : Type 0
Line = UartRxDriver × UartTxMonitor

-- A cycle: what the driver puts on the line, the monitor samples in the same cycle.
unfoldable pub line_step : Line → Line
line_step (d, m) = let (d', tx) = drive d in (d', sample m tx)

unfoldable pub loop : ℕ → Line → Line
loop zero s = s
loop (suc n) s = loop n (line_step s)

pub loop-add : (n k : ℕ) (s : Line) → loop (n + k) s ≡ loop k (loop n s)
unfolding loop
loop-add zero k s = let e : 0 + k ≡ k = omega arith in ap (λ j. loop j s) e
loop-add (suc n) k s =
    let e : suc n + k ≡ suc (n + k) = omega arith in
    ap (λ j. loop j s) e ∙ loop-add n k (line_step s)

pub loop-seq : (n k : ℕ) (s t u : Line) → loop n s ≡ t → loop k t ≡ u → loop (n + k) s ≡ u
loop-seq n k s t u p q = loop-add n k s ∙ ap (loop k) p ∙ q

-- A stretch of `n` cycles and one more.
pub loop-then : (n : ℕ) (s t u : Line) → loop n s ≡ t → line_step t ≡ u → loop (n + 1) s ≡ u
unfolding loop
loop-then n s t u p q = loop-add n 1 s ∙ ap line_step p ∙ q

-- The counter value at which the monitor acts in a state.
abbrev pub limit : ℕ → State → ℕ
limit bits start = bits / 2
limit bits _ = bits

abbrev pub driver_at : UartRxDriver → ℕ → UartRxDriver
driver_at d c = record d { counter = c }

abbrev pub monitor_at : UartTxMonitor → ℕ → UartTxMonitor
monitor_at m c = record m { counter = c }

-- A cycle in which neither end acts.
quiet_step :
    (d : UartRxDriver) (m : UartTxMonitor) (c e : ℕ)
    → d.state ≢ idle
    → m.state ≢ idle
    → d.bit_cycles < 2 ^ 32
    → m.bit_cycles < 2 ^ 32
    → suc c < d.bit_cycles
    → suc e < limit m.bit_cycles m.state
    → m.last ≡ d.level
    → line_step (driver_at d c, monitor_at m e) ≡ (driver_at d (suc c), monitor_at m (suc e))
unfolding line_step drive sample
quiet_step d m c e nd nm hd hm hc he l = ground arith

-- As long as both counters stay below their limits, only the counters move.
pub hold :
    (n : ℕ) (d : UartRxDriver) (m : UartTxMonitor) (c e : ℕ)
    → d.state ≢ idle
    → m.state ≢ idle
    → d.bit_cycles < 2 ^ 32
    → m.bit_cycles < 2 ^ 32
    → c + n < d.bit_cycles
    → e + n < limit m.bit_cycles m.state
    → m.last ≡ d.level
    → loop n (driver_at d c, monitor_at m e) ≡ (driver_at d (c + n), monitor_at m (e + n))
unfolding loop
hold zero d m c e nd nm hd hm hc he l =
    ap₂ (λ x y. (driver_at d x, monitor_at m y)) (omega arith) (omega arith)
hold (suc n) d m c e nd nm hd hm hc he l =
    ap (loop n) (quiet_step d m c e nd nm hd hm (omega arith) (omega arith) l)
    ∙ hold n d m (suc c) (suc e) nd nm hd hm (omega arith) (omega arith) l
    ∙ ap₂ (λ x y. (driver_at d x, monitor_at m y)) (omega arith) (omega arith)

-- While the monitor is idle and the line stays high, only the driver's counter moves.
quiet_high :
    (d : UartRxDriver) (m : UartTxMonitor) (c : ℕ)
    → d.state ≢ idle
    → m.state ≡ idle
    → d.bit_cycles < 2 ^ 32
    → suc c < d.bit_cycles
    → m.last ≡ true
    → d.level ≡ true
    → line_step (driver_at d c, m) ≡ (driver_at d (suc c), m)
unfolding line_step drive sample
quiet_high d m c nd nm hd hc l h = ground arith

pub hold_high :
    (n : ℕ) (d : UartRxDriver) (m : UartTxMonitor) (c : ℕ)
    → d.state ≢ idle
    → m.state ≡ idle
    → d.bit_cycles < 2 ^ 32
    → c + n < d.bit_cycles
    → m.last ≡ true
    → d.level ≡ true
    → loop n (driver_at d c, m) ≡ (driver_at d (c + n), m)
unfolding loop
hold_high zero d m c nd nm hd hc l h = ap (λ x. (driver_at d x, m)) (omega arith)
hold_high (suc n) d m c nd nm hd hc l h =
    ap (loop n) (quiet_high d m c nd nm hd (omega arith) l h)
    ∙ hold_high n d m (suc c) nd nm hd (omega arith) l h
    ∙ ap (λ x. (driver_at d x, m)) (omega arith)
