-- ===== src/SdCard/Pins/Exchange.antt =====
-- A byte on the wires: eight clock periods take one byte in and put one byte out.
use friscv_soc.Common.{
  ℕ, zero, suc, ◌+◌, ◌*◌, ◌%◌, ◌<◌, ◌≡◌, refl, ap, ◌∙◌, Bool, true, false, [], ◌∷◌, ◌++◌, of_bool,
  arith,
}
use mathlib.Core.Path.{ap₂}
use friscv_soc.Common.Words.{u8, test_bit}
use friscv_soc.Common.Wires.{Wires, wire_step, wires, byte_wires, host_whole_lem, read_whole_lem}
use friscv_soc.SdCard.State.{SdCard}
use friscv_soc.SdCard.Command.Modes.{serial-process_command}
use friscv_soc.SdCard.Pins.{
  next_out_byte, load_byte, present_bit, finish_byte, sample_bit, clock_edge,
}

-- A clock period: a rising edge with the host's bit, and a falling edge. The host reads the card's
-- bit before the rising edge.
pub clock_period : SdCard → Bool → SdCard × Bool
clock_period c mosi = (clock_edge (clock_edge c true mosi) false mosi, c.miso_raw)

-- `n` periods that send the top bits of `x` and collect the bits read below `acc`.
pub exchange_bits : ℕ → SdCard → ℕ → ℕ → SdCard × ℕ
exchange_bits zero c x acc = (c, acc)
exchange_bits (suc n) c x acc =
    let (c', b) = clock_period c (test_bit x 7) in
    exchange_bits n c' (u8 (x * 2)) (acc * 2 + of_bool b)

pub exchange : SdCard → ℕ → SdCard × ℕ
exchange c x = exchange_bits 8 c x 0

-- The card between two bytes, with the byte `b` loaded: its top bit is on the line.
abbrev pub boundary : SdCard → ℕ → SdCard
boundary c b = record c {
  clock = false;
  bit_in = 0;
  out_bit = 1;
  miso_raw = test_bit b 7;
  out_byte = u8 (b * 2);
}

abbrev card_at : SdCard → ℕ → Wires → SdCard
card_at c k w = record c {
  clock = false;
  shift_in = w.received;
  bit_in = k;
  out_bit = (k + 1) % 8;
  miso_raw = w.line;
  out_byte = w.sending;
}

inner_step :
    (c : SdCard) (k : ℕ) (w : Wires)
    → k < 7
    → clock_period (card_at c k w) (test_bit w.host 7) ≡ (card_at c (k + 1) (wire_step w), w.line)
unfolding clock_period clock_edge present_bit load_byte sample_bit wire_step
inner_step c k w h = ground arith

inner_bits :
    (n j : ℕ) (c : SdCard) (k : ℕ) (w : Wires)
    → k + n < 8
    → exchange_bits (n + j) (card_at c k w) w.host w.read
      ≡ exchange_bits j (card_at c (k + n) (wires n w)) (wires n w).host (wires n w).read
unfolding exchange_bits wires wire_step
inner_bits zero j c k w h =
    let e : 0 + j ≡ j = omega arith in
    let e' : k ≡ k + 0 = omega arith in
    ap₂ (λ a b. exchange_bits a (card_at c b w) w.host w.read) e e'
inner_bits (suc n) j c k w h =
    let v = wire_step w in
    let e : suc n + j ≡ suc (n + j) = omega arith in
    let e' : k + 1 + n ≡ k + suc n = omega arith in
    ap (λ a. exchange_bits a (card_at c k w) w.host w.read) e
    ∙ ap (λ p. exchange_bits (n + j) p.0 (u8 (w.host * 2)) (w.read * 2 + of_bool p.1))
        (inner_step c k w (omega arith))
    ∙ inner_bits n j c (k + 1) v (omega arith)
    ∙ ap (λ a. exchange_bits j (card_at c a (wires n v)) (wires n v).host (wires n v).read) e'

-- The card once the eighth bit has come in, the byte `x` being complete and `b` sent.
abbrev pub received : SdCard → ℕ → ℕ → SdCard
received c x b = record c {
  clock = true;
  shift_in = x;
  bit_in = 0;
  out_bit = 0;
  miso_raw = test_bit b 0;
  out_byte = 0;
}

-- The next byte to send is loaded.
abbrev pub load_next : SdCard → SdCard
load_next d = let (b, q) = next_out_byte d.out_queue in boundary (record d { out_queue = q }) b

last_rise :
    (c : SdCard) (w : Wires) (mosi : Bool)
    → clock_edge (card_at c 7 w) true mosi
      ≡ finish_byte (record (card_at c 7 w) {
        clock = true;
        shift_in = u8 (w.received * 2 + of_bool mosi);
        bit_in = 0;
      })
unfolding clock_edge sample_bit
last_rise c w mosi = refl

last_fall :
    (d : SdCard) (mosi : Bool)
    → d.clock ≡ true
    → d.bit_in ≡ 0
    → d.out_bit ≡ 0
    → clock_edge d false mosi ≡ load_next d
unfolding clock_edge present_bit load_byte
last_fall d mosi k b o = ground arith

-- The fields of the serial interface that the command decoder leaves alone.
finish_byte-fields :
    (d : SdCard)
    → ((finish_byte d).clock ≡ d.clock)
      × ((finish_byte d).bit_in ≡ d.bit_in)
      × ((finish_byte d).out_bit ≡ d.out_bit)
unfolding finish_byte
finish_byte-fields d =
    let t = record d { cmd = d.cmd ++ (d.shift_in ∷ []); in_cmd = false } in
    ground (arith, serial-process_command t)

exchange_bits_one :
    (d : SdCard) (y acc : ℕ)
    → exchange_bits 1 d y acc ≡ (
      clock_edge (clock_edge d true (test_bit y 7)) false (test_bit y 7),
      acc * 2 + of_bool d.miso_raw,
    )
unfolding exchange_bits clock_period
exchange_bits_one d y acc = refl

-- The card after the last rising edge, from what is on the wires.
abbrev after_rise : SdCard → ℕ → Bool → ℕ → SdCard
after_rise c s m o = record c {
  clock = true;
  shift_in = s;
  bit_in = 0;
  out_bit = 0;
  miso_raw = m;
  out_byte = o;
}

last_fall_received :
    (c : SdCard) (x b : ℕ) (mosi : Bool)
    → clock_edge (finish_byte (received c x b)) false mosi
      ≡ load_next (finish_byte (received c x b))
last_fall_received c x b mosi =
    let d = received c x b in
    let (k, i, o) = finish_byte-fields d in last_fall (finish_byte d) mosi k i o

-- Eight clock periods move whole bytes both ways. With the byte `b` loaded, the host reads `b`
-- while it sends `x`; the card then acts on `x` as `finish_byte` does, and has loaded the next byte
-- of its queue, the reply of this very byte included, or 0xff if there is none.
pub exchange_lem :
    (c : SdCard) (x b : ℕ)
    → x < 256
    → b < 256
    → exchange (boundary c b) x ≡ (load_next (finish_byte (received c x b)), b)
unfolding exchange
exchange_lem c x b hx hb =
    let w = wires 7 (byte_wires c.shift_in x b) in
    let mosi = test_bit w.host 7 in
    let (whole, empty, low) = read_whole_lem c.shift_in x b hb in
    let got = host_whole_lem c.shift_in x b hx in
    let risen : clock_edge (card_at c 7 w) true mosi ≡ finish_byte (received c x b) =
      last_rise c w mosi
      ∙ ap (λ s. finish_byte (after_rise c s w.line w.sending)) got
      ∙ ap (λ m. finish_byte (after_rise c x m w.sending)) low
      ∙ ap (λ o. finish_byte (after_rise c x (test_bit b 0) o)) empty in
    inner_bits 7 1 c 0 (byte_wires c.shift_in x b) (omega arith)
    ∙ exchange_bits_one (card_at c 7 w) w.host w.read
    ∙ ap₂ (λ d r. (d, r)) (ap (λ d. clock_edge d false mosi) risen ∙ last_fall_received c x b mosi)
        whole
