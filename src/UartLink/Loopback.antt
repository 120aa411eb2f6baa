-- ===== src/UartLink/Loopback.antt =====
-- What the driver sends, the monitor prints.
use friscv_soc.Common.{
  ℕ, zero, suc, ◌+◌, ◌-◌, ◌*◌, ◌/◌, ◌^◌, ◌≤◌, ◌<◌, ◌≡◌, refl, sym, ap, ◌∙◌, Bool, true, false, List,
  [], ◌∷◌, ◌++◌, arith, if◌then◌else◌, ◌==◌, ==_iff,
}
use mathlib.Core.Path.{ap₂, subst}
use mathlib.Core.List.{map, append_assoc, append-nil}
use friscv_soc.Common.Bytes.{AllBytes}
use friscv_soc.Common.Arrays.{length, holds_to, holds_at}
use friscv_soc.UartLink.{State, idle, start, shifting, stop, drive, sample, Printed, char, low_bit}
use friscv_soc.UartLink.Hold.{Line, line_step, loop, loop-seq, loop-then}
use friscv_soc.UartLink.Frame.{
  line_at, top_bit, count, period, confirm_start, first_data, sample_data, data_round, stop_round,
  rest_stop,
}

-- The driver's and the monitor's shifter after `n` data bits.
abbrev driver_shifter : ℕ → ℕ → ℕ
driver_shifter zero sh = sh
driver_shifter (suc n) sh = driver_shifter n (sh / 2)

abbrev monitor_shifter : ℕ → ℕ → ℕ → ℕ
monitor_shifter zero sh acc = acc
monitor_shifter (suc n) sh acc = monitor_shifter n (sh / 2) (acc / 2 + top_bit (low_bit (sh / 2)))

-- The eight bits collected make up the byte: checked for every byte.
collected : ℕ → Bool
collected b = monitor_shifter 7 b (top_bit (low_bit b)) == b

collected_table : holds_to collected 256 ≡ true
unfolding holds_to collected
collected_table = refl

collected_lem : (b : ℕ) → b < 256 → monitor_shifter 7 b (top_bit (low_bit b)) ≡ b
unfolding collected
collected_lem b h =
    (==_iff (monitor_shifter 7 b (top_bit (low_bit b))) b).0
      (holds_at collected 256 b h collected_table)

abbrev phase : ℕ → State
phase j = if j == 8 then stop else shifting

module _ (bits : ℕ) (lo : 2 ≤ bits) (hi : bits < 2 ^ 32) (q : List ℕ) (w ls : Bool)
    (out : List Printed) where
  abbrev at : State → ℕ → ℕ → ℕ → State → ℕ → ℕ → ℕ → Bool → Line
  at = line_at bits q w ls out

  data_rounds :
      (n i sh acc : ℕ)
      → i + n ≡ 7
      → sh < 256
      → loop (n * bits) (at shifting (bits / 2) i sh (phase (i + 1)) 0 (i + 1) acc (low_bit sh))
        ≡ at shifting
            (bits / 2)
            7
            (driver_shifter n sh)
            stop
            0
            8
            (monitor_shifter n sh acc)
            (low_bit (driver_shifter n sh))
  unfolding loop
  data_rounds zero i sh acc e hs =
      let z : 0 * bits ≡ 0 = omega arith in
      let last : i ≡ 7 = omega arith in
      ap (λ n. loop n (at shifting (bits / 2) i sh (phase (i + 1)) 0 (i + 1) acc (low_bit sh))) z
      ∙ ap (λ j. at shifting (bits / 2) j sh (phase (j + 1)) 0 (j + 1) acc (low_bit sh)) last
  data_rounds (suc n) i sh acc e hs =
      let h = bits / 2 in
      let sh' = sh / 2 in
      let acc' = acc / 2 + top_bit (low_bit sh') in
      let s0 = at shifting h i sh (phase (i + 1)) 0 (i + 1) acc (low_bit sh) in
      let s1 = at shifting h (i + 1) sh' (phase (i + 1 + 1)) 0 (i + 1 + 1) acc' (low_bit sh') in
      let s2 =
        at shifting h 7 (driver_shifter n sh') stop 0 8 (monitor_shifter n sh' acc')
          (low_bit (driver_shifter n sh')) in
      let total : suc n * bits ≡ bits + n * bits = omega arith in
      let more : phase (i + 1) ≡ shifting = ground arith in
      ap (λ k. loop k s0) total
      ∙ loop-seq bits (n * bits) s0 s1 s2
          (ap (λ t. loop bits (at shifting h i sh t 0 (i + 1) acc (low_bit sh))) more
            ∙ data_round bits lo hi q w ls out i sh acc (low_bit sh) (omega arith) hs)
          (data_rounds n (i + 1) sh' acc' (omega arith) (omega arith))

  -- The first data bit, from the middle of the start bit to the middle of the data bit.
  first_round :
      (i b : ℕ)
      → b < 256
      → loop bits (at start (bits / 2) i b shifting 0 0 0 false)
        ≡ at shifting (bits / 2) 0 b shifting 0 1 (top_bit (low_bit b)) (low_bit b)
  first_round i b hb =
      let h = bits / 2 in
      let n = bits - h - 1 in
      let k = h - 1 in
      let lv = low_bit b in
      let s0 = at start h i b shifting 0 0 0 false in
      let s1 = at start (h + n) i b shifting (0 + n) 0 0 false in
      let s2 = at shifting 0 0 b shifting (suc (0 + n)) 0 0 lv in
      let s3 = at shifting (0 + k) 0 b shifting (suc (0 + n) + k) 0 0 lv in
      let s4 = at shifting (suc (0 + k)) 0 b shifting 0 1 (0 + top_bit lv) lv in
      period bits lo hi q w ls out s0 s2 s4
        (loop-then n s0 s1 s2
          (count bits lo hi q w ls out n start h i b shifting 0 0 0 false (λ e. cc) (λ e. cc)
            (omega arith) (omega arith))
          (first_data bits lo hi q w ls out (h + n) i b (0 + n) (omega arith) (omega arith)))
        (loop-then k s2 s3 s4
          (count bits lo hi q w ls out k shifting 0 0 b shifting (suc (0 + n)) 0 0 lv (λ e. cc)
            (λ e. cc) (omega arith) (omega arith))
          (sample_data bits lo hi q w ls out shifting (0 + k) 0 b (suc (0 + n) + k) 0 0 lv (λ e. cc)
            (omega arith) (omega arith) (omega arith)))
      ∙ ap₂ (λ c a. at shifting c 0 b shifting 0 1 a lv) (omega arith) (omega arith)

  -- The first half of the start bit.
  begin_frame :
      (i b j acc : ℕ)
      → loop (bits / 2) (at start 0 i b start 0 j acc false)
        ≡ at start (bits / 2) i b shifting 0 0 0 false
  begin_frame i b j acc =
      let k = bits / 2 - 1 in
      let s0 = at start 0 i b start 0 j acc false in
      let s1 = at start (0 + k) i b start (0 + k) j acc false in
      let s2 = at start (suc (0 + k)) i b shifting 0 0 0 false in
      let total : bits / 2 ≡ k + 1 = omega arith in
      ap (λ n. loop n s0) total
      ∙ loop-then k s0 s1 s2
          (count bits lo hi q w ls out k start 0 i b start 0 j acc false (λ x. cc) (λ x. cc)
            (omega arith) (omega arith))
          (confirm_start bits lo hi q w ls out (0 + k) i b (0 + k) j acc (omega arith)
            (omega arith))
      ∙ ap (λ c. at start c i b shifting 0 0 0 false) (omega arith)

-- The cycles of one frame: ten bit periods, and one cycle of the idle driver.
abbrev pub frame_cycles : ℕ → ℕ
frame_cycles bits = 10 * bits + 1

module _ (bits : ℕ) (lo : 2 ≤ bits) (hi : bits < 2 ^ 32) (q : List ℕ) (w ls : Bool)
    (out : List Printed) where
  -- The idle driver takes a byte, and the monitor sees the line fall.
  take_byte :
      (i sh e j acc c b : ℕ)
      → line_step (line_at bits (b ∷ q) w ls out idle c i sh idle e j acc true)
        ≡ line_at bits q w ls out start 0 i b start 0 j acc false
  unfolding line_step drive sample
  take_byte i sh e j acc c b = ground arith

  -- A frame carries its byte, and leaves both ends idle with the line high.
  pub frame :
      (i sh e j acc c b : ℕ)
      → b < 256
      → loop (frame_cycles bits) (line_at bits (b ∷ q) w ls out idle c i sh idle e j acc true)
        ≡ line_at bits q w
            (b == b'\n')
            (out ++ (char b ∷ []))
            idle
            0
            8
            (driver_shifter 7 b / 2)
            idle
            bits
            8
            b
            true
  unfolding loop
  frame i sh e j acc c b hb =
      let h = bits / 2 in
      let n2 = bits + (bits - h) in
      let n3 = 7 * bits + n2 in
      let n4 = bits + n3 in
      let n5 = h + n4 in
      let sh7 = driver_shifter 7 b in
      let acc7 = monitor_shifter 7 b (top_bit (low_bit b)) in
      let sent = λ (a : ℕ). line_at bits q w (a == b'\n') (out ++ (char a ∷ [])) in
      let s0 = line_at bits (b ∷ q) w ls out idle c i sh idle e j acc true in
      let s1 = line_at bits q w ls out start 0 i b start 0 j acc false in
      let s2 = line_at bits q w ls out start h i b shifting 0 0 0 false in
      let s3 =
        line_at bits q w ls out shifting h 0 b shifting 0 1 (top_bit (low_bit b)) (low_bit b) in
      let s4 = line_at bits q w ls out shifting h 7 sh7 stop 0 8 acc7 (low_bit sh7) in
      let s5 = sent acc7 stop h 8 (sh7 / 2) idle bits 8 acc7 true in
      let s6 = sent acc7 idle 0 8 (sh7 / 2) idle bits 8 acc7 true in
      let total : frame_cycles bits ≡ 1 + n5 = omega arith in
      ap (λ n. loop n s0) total
      ∙ loop-seq 1 n5 s0 s1 s6 (take_byte i sh e j acc c b) (
          loop-seq h n4 s1 s2 s6 (begin_frame bits lo hi q w ls out i b j acc) (
            loop-seq bits n3 s2 s3 s6 (first_round bits lo hi q w ls out i b hb) (
              loop-seq (7 * bits) n2 s3 s4 s6
                (data_rounds bits lo hi q w ls out 7 0 b (top_bit (low_bit b)) refl hb)
                (loop-seq bits (bits - h) s4 s5 s6
                  (stop_round bits lo hi q w ls out sh7 acc7 (low_bit sh7) (omega arith))
                  (rest_stop bits lo hi q w (acc7 == b'\n') (out ++ (char acc7 ∷ [])) 8 (sh7 / 2)
                    bits 8 acc7)))))
      ∙ ap (λ a. sent a idle 0 8 (sh7 / 2) idle bits 8 a true) (collected_lem b hb)

-- The line at rest: both ends idle, and the line high.
pub record AtRest (bits : ℕ) (s : Line) : Type 0 where
  pub driver_bits : s.0.bit_cycles ≡ bits
  pub monitor_bits : s.1.bit_cycles ≡ bits
  pub driver_idle : s.0.state ≡ idle
  pub monitor_idle : s.1.state ≡ idle
  pub driver_high : s.0.level ≡ true
  pub monitor_high : s.1.last ≡ true

at_rest_lem :
    (bits : ℕ) (s : Line)
    → AtRest bits s
    → s
      ≡ line_at bits s.0.queue s.1.warned s.1.at_line_start s.1.printed idle s.0.counter
          s.0.bit_index s.0.shifter idle s.1.counter s.1.bit_index s.1.shifter true
at_rest_lem bits (d, m) r = ground arith

rest_of_frame :
    (bits : ℕ) (q : List ℕ) (out : List Printed) (b : ℕ) (w : Bool)
    → AtRest bits
        (line_at bits q w (b == b'\n') out idle 0 8 (driver_shifter 7 b / 2) idle bits 8 b true)
rest_of_frame bits q out b w = record {
  driver_bits = refl;
  monitor_bits = refl;
  driver_idle = refl;
  monitor_idle = refl;
  driver_high = refl;
  monitor_high = refl;
}

-- The line `t` is at rest, and the monitor has printed the bytes that `s` had queued.
pub record Delivered (bits : ℕ) (bytes : List ℕ) (s t : Line) : Type 0 where
  pub at_rest : AtRest bits t
  pub drained : t.0.queue ≡ []
  pub printed_of : t.1.printed ≡ s.1.printed ++ map char bytes
  pub warned_of : t.1.warned ≡ s.1.warned

-- Whatever bytes are queued at the driver, the monitor on the other end of the line prints exactly
-- those bytes, in order and with no framing error, in `frame_cycles` cycles for each; both ends
-- are then at rest again. The bit period is the same at both ends, at least 2 cycles and below
-- 2 ^ 32.
pub loopback :
    (bytes : List ℕ) (bits : ℕ) (s : Line)
    → 2 ≤ bits
    → bits < 2 ^ 32
    → AllBytes bytes
    → AtRest bits s
    → s.0.queue ≡ bytes
    → Delivered bits bytes s (loop (length bytes * frame_cycles bits) s)
unfolding loop
loopback [] bits s lo hi all r e =
    let z : 0 * frame_cycles bits ≡ 0 = omega arith in
    subst (λ n. Delivered bits [] s (loop n s)) (sym z)
      (record {
        at_rest = r;
        drained = e;
        printed_of = sym (append-nil s.1.printed);
        warned_of = refl;
      })
loopback (b ∷ bs) bits s lo hi all r e =
    let (d, m) = s in
    let k = length bs * frame_cycles bits in
    let t =
      line_at bits bs m.warned (b == b'\n') (m.printed ++ (char b ∷ [])) idle 0 8
        (driver_shifter 7 b / 2) idle bits 8 b true in
    let from : s
        ≡ line_at bits (b ∷ bs) m.warned m.at_line_start m.printed idle d.counter d.bit_index
            d.shifter idle m.counter m.bit_index m.shifter true =
      at_rest_lem bits s r
      ∙ ap
          (λ q.
            line_at bits q m.warned m.at_line_start m.printed idle d.counter d.bit_index d.shifter
              idle m.counter m.bit_index m.shifter true)
          e in
    let one : loop (frame_cycles bits) s ≡ t =
      ap (loop (frame_cycles bits)) from
      ∙ frame bits lo hi bs m.warned m.at_line_start m.printed d.bit_index d.shifter m.counter
          m.bit_index m.shifter d.counter b all.0 in
    let total : suc (length bs) * frame_cycles bits ≡ frame_cycles bits + k = omega arith in
    let all_of : loop (suc (length bs) * frame_cycles bits) s ≡ loop k t =
      ap (λ n. loop n s) total ∙ loop-seq (frame_cycles bits) k s t (loop k t) one refl in
    let rest =
      loopback bs bits t lo hi all.1 (rest_of_frame bits bs (m.printed ++ (char b ∷ [])) b m.warned)
        refl in
    subst (λ u. Delivered bits (b ∷ bs) s u) (sym all_of)
      (record {
        at_rest = rest.at_rest;
        drained = rest.drained;
        printed_of = rest.printed_of ∙ append_assoc m.printed (char b ∷ []) (map char bs);
        warned_of = rest.warned_of;
      })
