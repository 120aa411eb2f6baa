-- ===== src/QspiFlash/Exchange.antt =====
-- A byte on the wires of the flash: eight clock periods take one byte in, and put one byte out while
-- the flash drives the line.
use friscv_soc.Common.{
  ℕ, zero, suc, ◌+◌, ◌*◌, ◌<◌, ◌≡◌, refl, ap, ◌∙◌, Bool, true, false, List, [], ◌∷◌, Option, none,
  some, of_bool, arith, if◌then◌else◌,
}
use mathlib.Core.Path.{ap₂}
use friscv_soc.Common.Words.{u8, test_bit}
use friscv_soc.Common.Wires.{Wires, wire_step, wires, byte_wires, host_whole_lem, read_whole_lem}
use friscv_soc.QspiFlash.{
  QspiFlash, Phase, command, address, reading, id, drives, finish_phase, load_shift_out,
  finish_byte, drive_bit, sample_bit, clock_edge,
}

abbrev pub on_some : {A B : Type 0} → Option A → (A → Option B) → Option B
on_some none f = none
on_some (some a) f = f a

on_some-agree :
    {A B : Type 0}
    → (o : Option A) (f g : A → Option B) → ((a : A) → o ≡ some a → f a ≡ g a)
    → on_some o f ≡ on_some o g
on_some-agree none f g h = refl
on_some-agree (some a) f g h = h a refl

-- A clock period: a rising edge with the host's bit, and a falling edge. The host reads the bit on
-- the line before the rising edge.
unfoldable pub clock_period : QspiFlash → Bool → Option (QspiFlash × Bool)
clock_period f mosi =
    on_some (clock_edge f true mosi)
      (λ g. on_some (clock_edge g false mosi) (λ h. some (h, f.miso)))

-- `n` periods that send the top bits of `x` and collect the bits read below `acc`.
unfoldable pub exchange_bits : ℕ → QspiFlash → ℕ → ℕ → Option (QspiFlash × ℕ)
exchange_bits zero f x acc = some (f, acc)
exchange_bits (suc n) f x acc =
    on_some (clock_period f (test_bit x 7))
      (λ p. exchange_bits n p.0 (u8 (x * 2)) (acc * 2 + of_bool p.1))

unfoldable pub exchange : QspiFlash → ℕ → Option (QspiFlash × ℕ)
exchange f x = exchange_bits 8 f x 0

-- The bytes of a host, one after the other, and the bytes that it reads.
unfoldable pub exchange_all : List ℕ → QspiFlash → Option (QspiFlash × List ℕ)
exchange_all [] f = some (f, [])
exchange_all (x ∷ xs) f =
    on_some (exchange f x) (λ p. on_some (exchange_all xs p.0) (λ q. some (q.0, p.1 ∷ q.1)))

-- A period while the flash drives the line, and while it does not.
abbrev step : Bool → Wires → Wires
step d w = record (wire_step w) {
  line = if d then test_bit w.sending 7 else w.line;
  sending = if d then u8 (w.sending * 2) else w.sending;
}

run : Bool → ℕ → Wires → Wires
run d zero w = w
run d (suc n) w = run d n (step d w)

abbrev flash_at : QspiFlash → ℕ → Wires → QspiFlash
flash_at f k w = record f {
  clock = false;
  shift_in = w.received;
  bit = k;
  miso = w.line;
  shift_out = w.sending;
}

inner_step :
    (f : QspiFlash) (k : ℕ) (w : Wires)
    → k < 7
    → clock_period (flash_at f k w) (test_bit w.host 7)
      ≡ some (flash_at f (k + 1) (step (drives f.phase) w), w.line)
unfolding clock_period clock_edge drive_bit sample_bit wire_step drives
inner_step f k w h = ground arith

inner_bits :
    (n j : ℕ) (f : QspiFlash) (k : ℕ) (w : Wires)
    → k + n < 8
    → let v = run (drives f.phase) n w in
      exchange_bits (n + j) (flash_at f k w) w.host w.read
      ≡ exchange_bits j (flash_at f (k + n) v) v.host v.read
unfolding exchange_bits run wire_step
inner_bits zero j f k w h =
    let e : 0 + j ≡ j = omega arith in
    let e' : k ≡ k + 0 = omega arith in
    ap₂ (λ a b. exchange_bits a (flash_at f b w) w.host w.read) e e'
inner_bits (suc n) j f k w h =
    let v = step (drives f.phase) w in
    let e : suc n + j ≡ suc (n + j) = omega arith in
    let e' : k + 1 + n ≡ k + suc n = omega arith in
    ap (λ a. exchange_bits a (flash_at f k w) w.host w.read) e
    ∙ ap
        (λ r.
          on_some r (λ p. exchange_bits (n + j) p.0 (u8 (w.host * 2)) (w.read * 2 + of_bool p.1)))
        (inner_step f k w (omega arith))
    ∙ inner_bits n j f (k + 1) v (omega arith)
    ∙ ap
        (λ a.
          exchange_bits j (flash_at f a (run (drives f.phase) n v)) (run (drives f.phase) n v).host
            (run (drives f.phase) n v).read)
        e'

-- The flash once the eighth bit has come in, the byte `x` being complete.
abbrev pub received : QspiFlash → ℕ → Bool → ℕ → QspiFlash
received f x line sending = record f {
  clock = true;
  shift_in = x;
  bit = 0;
  miso = line;
  shift_out = sending;
}

-- The falling edge that follows.
abbrev pub fallen : QspiFlash → QspiFlash
fallen g =
    let t = record g { clock = false } in
    if drives t.phase
    then record t { miso = test_bit t.shift_out 7; shift_out = u8 (t.shift_out * 2) }
    else t

finish_phase-clock : (p : Phase) (f g : QspiFlash) → finish_phase p f ≡ some g → g.clock ≡ f.clock
unfolding finish_phase load_shift_out
finish_phase-clock command f g h = ground (arith, h)
finish_phase-clock address f g h = ground (arith, h)
finish_phase-clock reading f g h = ground (arith, h)
finish_phase-clock id f g h = ground (arith, h)

last_fall :
    (g : QspiFlash) (mosi : Bool) → g.clock ≡ true → clock_edge g false mosi ≡ some (fallen g)
unfolding clock_edge drive_bit
last_fall g mosi h = ground arith

finish_byte-clock : (f g : QspiFlash) → finish_byte f ≡ some g → g.clock ≡ f.clock
unfolding finish_byte
finish_byte-clock f g h = finish_phase-clock f.phase f g h

on_some_assoc :
    {A B C : Type 0}
    → (o : Option A) (f : A → Option B) (g : B → Option C)
    → on_some (on_some o f) g ≡ on_some o (λ a. on_some (f a) g)
on_some_assoc none f g = refl
on_some_assoc (some a) f g = refl

-- The flash after the last rising edge, before it acts on the byte.
abbrev risen : QspiFlash → Wires → QspiFlash
risen f w = received f (u8 (w.received * 2 + of_bool (test_bit w.host 7))) w.line w.sending

last_rise :
    (f : QspiFlash) (w : Wires)
    → clock_edge (flash_at f 7 w) true (test_bit w.host 7) ≡ finish_byte (risen f w)
unfolding clock_edge sample_bit
last_rise f w = refl

-- The last period of a byte.
exchange_bits_last :
    (f : QspiFlash) (w : Wires) (acc : ℕ)
    → exchange_bits 1 (flash_at f 7 w) w.host acc
      ≡ on_some (finish_byte (risen f w)) (λ g. some (fallen g, acc * 2 + of_bool w.line))
unfolding exchange_bits clock_period
exchange_bits_last f w acc =
    let mosi = test_bit w.host 7 in
    let collect = λ (p : QspiFlash × Bool). some (p.0, acc * 2 + of_bool p.1) in
    let fall = λ (g : QspiFlash). on_some (clock_edge g false mosi) (λ h. some (h, w.line)) in
    on_some_assoc (clock_edge (flash_at f 7 w) true mosi) fall collect
    ∙ ap (λ o. on_some o (λ g. on_some (fall g) collect)) (last_rise f w)
    ∙ on_some-agree (finish_byte (risen f w)) (λ g. on_some (fall g) collect)
        (λ g. some (fallen g, acc * 2 + of_bool w.line))
        (λ g e.
          ap (λ o. on_some (on_some o (λ h. some (h, w.line))) collect)
            (last_fall g mosi (finish_byte-clock (risen f w) g e)))

byte_bits :
    (f : QspiFlash) (w : Wires)
    → let v = run (drives f.phase) 7 w in
      exchange_bits 8 (flash_at f 0 w) w.host w.read
      ≡ on_some (finish_byte (risen f v)) (λ g. some (fallen g, v.read * 2 + of_bool v.line))
byte_bits f w =
    let v = run (drives f.phase) 7 w in
    inner_bits 7 1 f 0 w (omega arith) ∙ exchange_bits_last f v v.read

run-true : (n : ℕ) (w : Wires) → run true n w ≡ wires n w
unfolding run wires wire_step
run-true zero w = refl
run-true (suc n) w = run-true n (wire_step w)

-- What is on the wires after seven periods in which the line keeps its level.
quiet_wires :
    (s o x : ℕ) (m : Bool)
    → x < 256
    → let v = run false 7 (record { received = s; line = m; sending = o; host = x; read = 0 }) in
      (u8 (v.received * 2 + of_bool (test_bit v.host 7)) ≡ x)
      × (v.line ≡ m)
      × (v.sending ≡ o)
      × (v.read * 2 + of_bool v.line ≡ 255 * of_bool m)
unfolding run wires wire_step
quiet_wires s o x m h = (host_whole_lem s x 0 h, refl, refl, omega arith)

-- What a byte gives: the flash has acted on it, and the host has read a byte.
abbrev outcome : QspiFlash → ℕ → Bool → ℕ → ℕ → Option (QspiFlash × ℕ)
outcome f x line sending read =
    on_some (finish_byte (received f x line sending)) (λ g. some (fallen g, read))

-- The flash between two bytes while it drives the line, with the byte `b` loaded.
abbrev pub boundary : QspiFlash → ℕ → QspiFlash
boundary f b = record f { clock = false; bit = 0; miso = test_bit b 7; shift_out = u8 (b * 2) }

-- While the flash drives the line, the host reads the loaded byte and sends one.
pub exchange-driven :
    (f : QspiFlash) (x b : ℕ)
    → drives f.phase ≡ true
    → x < 256
    → b < 256
    → exchange (boundary f b) x
      ≡ on_some (finish_byte (received f x (test_bit b 0) 0)) (λ g. some (fallen g, b))
unfolding exchange
exchange-driven f x b d hx hb =
    let w = byte_wires f.shift_in x b in
    let v = run (drives f.phase) 7 w in
    let e : v ≡ wires 7 w = ap (λ t. run t 7 w) d ∙ run-true 7 w in
    let (whole, empty, low) = read_whole_lem f.shift_in x b hb in
    byte_bits f w
    ∙ ap
        (λ v. on_some (finish_byte (risen f v)) (λ g. some (fallen g, v.read * 2 + of_bool v.line)))
        e
    ∙ ap
        (λ s.
          outcome f s (wires 7 w).line (wires 7 w).sending
            ((wires 7 w).read * 2 + of_bool (wires 7 w).line))
        (host_whole_lem f.shift_in x b hx)
    ∙ ap (λ l. outcome f x l (wires 7 w).sending ((wires 7 w).read * 2 + of_bool (wires 7 w).line))
        low
    ∙ ap (λ o. outcome f x (test_bit b 0) o ((wires 7 w).read * 2 + of_bool (wires 7 w).line)) empty
    ∙ ap (outcome f x (test_bit b 0) 0) whole

-- While it does not, the line keeps its level.
pub exchange-quiet :
    (f : QspiFlash) (x : ℕ)
    → drives f.phase ≡ false
    → f.clock ≡ false
    → f.bit ≡ 0
    → x < 256
    → exchange f x
      ≡ on_some
          (finish_byte (received f x f.miso f.shift_out))
          (λ g. some (fallen g, 255 * of_bool f.miso))
unfolding exchange
exchange-quiet f x d c z hx =
    let w : Wires = record {
      received = f.shift_in;
      line = f.miso;
      sending = f.shift_out;
      host = x;
      read = 0;
    } in
    let v = run (drives f.phase) 7 w in
    let q = run false 7 w in
    let e : v ≡ q = ap (λ t. run t 7 w) d in
    let (whole, same, kept, constant) = quiet_wires f.shift_in f.shift_out x f.miso hx in
    let at : f ≡ flash_at f 0 w = λ i. record f { clock = c i; bit = z i } in
    ap (λ g. exchange_bits 8 g x 0) at
    ∙ byte_bits f w
    ∙ ap
        (λ v. on_some (finish_byte (risen f v)) (λ g. some (fallen g, v.read * 2 + of_bool v.line)))
        e
    ∙ ap (λ s. outcome f s q.line q.sending (q.read * 2 + of_bool q.line)) whole
    ∙ ap (λ l. outcome f x l q.sending (q.read * 2 + of_bool q.line)) same
    ∙ ap (λ o. outcome f x f.miso o (q.read * 2 + of_bool q.line)) kept
    ∙ ap (outcome f x f.miso f.shift_out) constant
