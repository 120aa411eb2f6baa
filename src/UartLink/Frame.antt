-- ===== src/UartLink/Frame.antt =====
-- One frame on the line: a start bit, eight data bits with the least significant first, a stop bit.
use friscv_soc.Common.{
  ℕ, suc, ◌+◌, ◌-◌, ◌/◌, ◌^◌, ◌≤◌, ◌<◌, ◌≡◌, ◌≢◌, refl, ap, ◌∙◌, Bool, true, false, List, [], ◌∷◌,
  ◌++◌, arith, if◌then◌else◌, ◌==◌,
}
use friscv_soc.UartLink.{State, idle, start, shifting, stop, drive, sample, Printed, char, low_bit}
use friscv_soc.UartLink.Hold.{Line, line_step, loop, loop-seq, loop-then, limit, hold, hold_high}

-- The bit that a sampled level adds at the top of the monitor's shifter.
abbrev pub top_bit : Bool → ℕ
top_bit lv = if lv then 0x80 else 0

module _ (bits : ℕ) (q : List ℕ) (w ls : Bool) (out : List Printed) where
  -- The line with both ends at a bit period of `bits` cycles: the driver's and the monitor's state,
  -- counter, bit index and shifter, and the level.
  abbrev pub line_at : State → ℕ → ℕ → ℕ → State → ℕ → ℕ → ℕ → Bool → Line
  line_at s c i sh t e j acc lv = (
    record {
      bit_cycles = bits;
      state = s;
      counter = c;
      bit_index = i;
      shifter = sh;
      level = lv;
      queue = q;
    },
    record {
      bit_cycles = bits;
      state = t;
      counter = e;
      bit_index = j;
      shifter = acc;
      last = lv;
      warned = w;
      at_line_start = ls;
      printed = out;
    },
  )

module _ (bits : ℕ) (lo : 2 ≤ bits) (hi : bits < 2 ^ 32) (q : List ℕ) (w ls : Bool)
    (out : List Printed) where
  abbrev pub here : State → ℕ → ℕ → ℕ → State → ℕ → ℕ → ℕ → Bool → Line
  here = line_at bits q w ls out

  -- The driver puts the next data bit on the line.
  next_data :
      (c i sh : ℕ) (t : State) (e j acc : ℕ) (lv : Bool)
      → suc c ≡ bits
      → i < 7
      → sh < 256
      → t ≢ idle
      → suc e < limit bits t
      → line_step (here shifting c i sh t e j acc lv)
        ≡ here shifting 0 (i + 1) (sh / 2) t (suc e) j acc (low_bit (sh / 2))
  unfolding line_step drive sample
  next_data c i sh t e j acc lv hc hi' hs ht he = ground arith

  -- The monitor samples a data bit.
  pub sample_data :
      (s : State) (c i sh e j acc : ℕ) (lv : Bool)
      → s ≢ idle
      → suc c < bits
      → suc e ≡ bits
      → j < 8
      → line_step (here s c i sh shifting e j acc lv)
        ≡ here s
            (suc c)
            i
            sh
            (if j + 1 == 8 then stop else shifting)
            0
            (j + 1)
            (acc / 2 + top_bit lv)
            lv
  unfolding line_step drive sample
  sample_data s c i sh e j acc lv hs hc he hj = ground arith

  -- Both ends count for `n` cycles.
  pub count :
      (n : ℕ) (s : State) (c i sh : ℕ) (t : State) (e j acc : ℕ) (lv : Bool)
      → s ≢ idle
      → t ≢ idle
      → c + n < bits
      → e + n < limit bits t
      → loop n (here s c i sh t e j acc lv) ≡ here s (c + n) i sh t (e + n) j acc lv
  count n s c i sh t e j acc lv hs ht hc he =
      let (d, m) = here s c i sh t e j acc lv in hold n d m c e hs ht hi hi hc he refl

  -- A bit period in which the driver acts first and the monitor half a period later: `n` and `k`
  -- quiet cycles with an acting one behind each.
  pub period :
      (s t u : Line)
      → loop (bits - bits / 2 - 1 + 1) s ≡ t
      → loop (bits / 2 - 1 + 1) t ≡ u
      → loop bits s ≡ u
  period s t u p r =
      let e : bits ≡ bits - bits / 2 - 1 + 1 + (bits / 2 - 1 + 1) = omega arith in
      ap (λ n. loop n s) e ∙ loop-seq (bits - bits / 2 - 1 + 1) (bits / 2 - 1 + 1) s t u p r

  -- A bit period: the driver moves on to the next data bit, and the monitor samples it half a
  -- period later.
  pub data_round :
      (i sh acc : ℕ) (lv : Bool)
      → i < 7
      → sh < 256
      → loop bits (here shifting (bits / 2) i sh shifting 0 (i + 1) acc lv)
        ≡ here shifting
            (bits / 2)
            (i + 1)
            (sh / 2)
            (if i + 1 + 1 == 8 then stop else shifting)
            0
            (i + 1 + 1)
            (acc / 2 + top_bit (low_bit (sh / 2)))
            (low_bit (sh / 2))
  data_round i sh acc lv h7 hs =
      let h = bits / 2 in
      let n = bits - h - 1 in
      let k = h - 1 in
      let sh' = sh / 2 in
      let lv' = low_bit sh' in
      let t' = (if i + 1 + 1 == 8 then stop else shifting) in
      let s0 = here shifting h i sh shifting 0 (i + 1) acc lv in
      let s1 = here shifting (h + n) i sh shifting (0 + n) (i + 1) acc lv in
      let s2 = here shifting 0 (i + 1) sh' shifting (suc (0 + n)) (i + 1) acc lv' in
      let s3 = here shifting (0 + k) (i + 1) sh' shifting (suc (0 + n) + k) (i + 1) acc lv' in
      let s4 =
        here shifting (suc (0 + k)) (i + 1) sh' t' 0 (i + 1 + 1) (acc / 2 + top_bit lv') lv' in
      period s0 s2 s4
        (loop-then n s0 s1 s2
          (count n shifting h i sh shifting 0 (i + 1) acc lv (λ e. cc) (λ e. cc) (omega arith)
            (omega arith))
          (next_data (h + n) i sh shifting (0 + n) (i + 1) acc lv (omega arith) h7 hs (λ e. cc)
            (omega arith)))
        (loop-then k s2 s3 s4
          (count k shifting 0 (i + 1) sh' shifting (suc (0 + n)) (i + 1) acc lv' (λ e. cc) (λ e. cc)
            (omega arith) (omega arith))
          (sample_data shifting (0 + k) (i + 1) sh' (suc (0 + n) + k) (i + 1) acc lv' (λ e. cc)
            (omega arith) (omega arith) (omega arith)))
      ∙ ap (λ c. here shifting c (i + 1) sh' t' 0 (i + 1 + 1) (acc / 2 + top_bit lv') lv')
          (omega arith)

  -- The stop bit: the driver raises the line, and the monitor prints half a period later.
  raise_stop :
      (c sh e acc : ℕ) (lv : Bool)
      → suc c ≡ bits
      → sh < 256
      → suc e < bits
      → line_step (here shifting c 7 sh stop e 8 acc lv)
        ≡ here stop 0 8 (sh / 2) stop (suc e) 8 acc true
  unfolding line_step drive sample
  raise_stop c sh e acc lv hc hs he = ground arith

  print_byte :
      (c i sh e j acc : ℕ)
      → suc c < bits
      → suc e ≡ bits
      → line_step (here stop c i sh stop e j acc true)
        ≡ line_at bits q w
            (acc == b'\n')
            (out ++ (char acc ∷ []))
            stop
            (suc c)
            i
            sh
            idle
            bits
            j
            acc
            true
  unfolding line_step drive sample
  print_byte c i sh e j acc hc he = ground arith

  pub stop_round :
      (sh acc : ℕ) (lv : Bool)
      → sh < 256
      → loop bits (here shifting (bits / 2) 7 sh stop 0 8 acc lv)
        ≡ line_at bits q w
            (acc == b'\n')
            (out ++ (char acc ∷ []))
            stop
            (bits / 2)
            8
            (sh / 2)
            idle
            bits
            8
            acc
            true
  stop_round sh acc lv hs =
      let h = bits / 2 in
      let n = bits - h - 1 in
      let k = h - 1 in
      let s0 = here shifting h 7 sh stop 0 8 acc lv in
      let s1 = here shifting (h + n) 7 sh stop (0 + n) 8 acc lv in
      let s2 = here stop 0 8 (sh / 2) stop (suc (0 + n)) 8 acc true in
      let s3 = here stop (0 + k) 8 (sh / 2) stop (suc (0 + n) + k) 8 acc true in
      let end = λ (c : ℕ).
        line_at bits q w (acc == b'\n') (out ++ (char acc ∷ [])) stop c 8 (sh / 2) idle bits 8 acc
          true in
      period s0 s2 (end (suc (0 + k)))
        (loop-then n s0 s1 s2
          (count n shifting h 7 sh stop 0 8 acc lv (λ e. cc) (λ e. cc) (omega arith) (omega arith))
          (raise_stop (h + n) sh (0 + n) acc lv (omega arith) hs (omega arith)))
        (loop-then k s2 s3 (end (suc (0 + k)))
          (count k stop 0 8 (sh / 2) stop (suc (0 + n)) 8 acc true (λ e. cc) (λ e. cc) (omega arith)
            (omega arith))
          (print_byte (0 + k) 8 (sh / 2) (suc (0 + n) + k) 8 acc (omega arith) (omega arith)))
      ∙ ap end (omega arith)

  -- The rest of the stop bit: the monitor is idle and the driver becomes so.
  end_stop :
      (c i sh e j acc : ℕ)
      → suc c ≡ bits
      → line_step (here stop c i sh idle e j acc true) ≡ here idle 0 i sh idle e j acc true
  unfolding line_step drive sample
  end_stop c i sh e j acc hc = ground arith

  pub rest_stop :
      (i sh e j acc : ℕ)
      → loop (bits - bits / 2) (here stop (bits / 2) i sh idle e j acc true)
        ≡ here idle 0 i sh idle e j acc true
  rest_stop i sh e j acc =
      let h = bits / 2 in
      let n = bits - h - 1 in
      let s0 = here stop h i sh idle e j acc true in
      let s1 = here stop (h + n) i sh idle e j acc true in
      let s2 = here idle 0 i sh idle e j acc true in
      let total : bits - h ≡ n + 1 = omega arith in
      ap (λ x. loop x s0) total
      ∙ loop-then n s0 s1 s2 (hold_high n s0.0 s0.1 h (λ x. cc) refl hi (omega arith) refl refl)
          (end_stop (h + n) i sh e j acc (omega arith))

  -- The middle of the start bit: the monitor starts to collect.
  pub confirm_start :
      (c i sh e j acc : ℕ)
      → suc c < bits
      → suc e ≡ bits / 2
      → line_step (here start c i sh start e j acc false)
        ≡ here start (suc c) i sh shifting 0 0 0 false
  unfolding line_step drive sample
  confirm_start c i sh e j acc hc he = ground arith

  -- The end of the start bit: the first data bit is put on the line.
  pub first_data :
      (c i sh e : ℕ)
      → suc c ≡ bits
      → suc e < bits
      → line_step (here start c i sh shifting e 0 0 false)
        ≡ here shifting 0 0 sh shifting (suc e) 0 0 (low_bit sh)
  unfolding line_step drive sample
  first_data c i sh e hc he = ground arith
