-- ===== src/QspiFlash/Read.antt =====
-- A transaction that reads the flash: the command, three address bytes, and as many further bytes as
-- the host clocks out.
use friscv_soc.Common.{
  ℕ, zero, suc, ◌+◌, ◌*◌, ◌%◌, ◌<◌, ◌≡◌, refl, sym, ap, ◌∙◌, true, false, List, ◌∷◌, Option, none,
  some, of_bool, arith, if◌then◌else◌,
}
use mathlib.Core.Path.{subst}
use friscv_soc.Common.Words.{u32}
use friscv_soc.Common.Arrays.{length}
use friscv_soc.Common.Bytes.{AllBytes}
use friscv_soc.Memory.{read_byte}
use friscv_soc.Memory.View.{view, IsBytes, read_byte-view, view-read_byte}
use friscv_soc.QspiFlash.{
  QspiFlash, Phase, command, address, reading, memory_size, begin_transaction, select, finish_byte,
  finish_phase, load_shift_out, drives,
}
use friscv_soc.QspiFlash.Exchange.{on_some, exchange, exchange_all, exchange-quiet, boundary}
use friscv_soc.QspiFlash.Stream.{flash_bytes, flash_bytes-agree, at_read, stream}

-- The flash within the command and the address, where it does not drive the line.
abbrev at_quiet : QspiFlash → Phase → ℕ → ℕ → QspiFlash
at_quiet f p n a = record f {
  phase = p;
  bit = 0;
  address_bytes = n;
  addr = a;
  clock = false;
  selected = true;
}

abbrev pub silence : QspiFlash → ℕ
silence f = 255 * of_bool f.miso

command_byte :
    (f : QspiFlash)
    → exchange (at_quiet f command 0 0) 0x03
      ≡ some (at_quiet (record f { shift_in = 3 }) address 0 0, silence f)
unfolding finish_byte finish_phase drives
command_byte f = exchange-quiet (at_quiet f command 0 0) 3 refl refl refl (omega arith)

address_byte :
    (f : QspiFlash) (n a x : ℕ)
    → n < 2
    → x < 256
    → exchange (at_quiet f address n a) x
      ≡ some (at_quiet (record f { shift_in = x }) address (n + 1) (u32 (a * 256) + x), silence f)
unfolding finish_byte finish_phase drives
address_byte f zero a x hn hx = exchange-quiet (at_quiet f address 0 a) x refl refl refl hx
address_byte f (suc zero) a x hn hx = exchange-quiet (at_quiet f address 1 a) x refl refl refl hx
address_byte f (suc (suc n)) a x hn hx = absurd (omega arith)

last_address_byte :
    (f : QspiFlash) (a x : ℕ)
    → x < 256
    → let at = u32 (a * 256) + x in
      exchange (at_quiet f address 2 a) x
      ≡ some (
        boundary
            (record f {
              phase = reading;
              shift_in = x;
              address_bytes = 3;
              addr = at;
              selected = true;
              memory = (read_byte f.memory at).1;
            })
            (read_byte f.memory at).0,
        silence f,
      )
unfolding finish_byte finish_phase drives load_shift_out
last_address_byte f a x hx = exchange-quiet (at_quiet f address 2 a) x refl refl refl hx

abbrev next_exchange : List ℕ → ℕ → QspiFlash → Option (QspiFlash × List ℕ)
next_exchange xs r f = on_some (exchange_all xs f) (λ q. some (q.0, r ∷ q.1))

exchange_all-next :
    (x : ℕ) (xs : List ℕ) (f g : QspiFlash) (r : ℕ)
    → exchange f x ≡ some (g, r)
    → exchange_all (x ∷ xs) f ≡ next_exchange xs r g
unfolding exchange_all
exchange_all-next x xs f g r e = ap (λ o. on_some o (λ p. next_exchange xs p.1 p.0)) e

-- The address that three bytes make.
abbrev pub address_of : ℕ → ℕ → ℕ → ℕ
address_of b2 b1 b0 = b2 * 65536 + b1 * 256 + b0

-- Selecting the flash starts a transaction.
selecting :
    (f : QspiFlash)
    → f.selected ≡ false
    → f.clock ≡ false
    → select f ≡ at_quiet (record f { shift_in = 0 }) command 0 0
unfolding select begin_transaction
selecting f sel clk =
    ap (λ s. if s then f else record (begin_transaction f) { selected = true }) sel
    ∙ (λ i. record (at_quiet (record f { shift_in = 0 }) command 0 0) { clock = clk i })

-- The flash after the header, with the address that it has collected.
abbrev arrived : QspiFlash → ℕ → ℕ → QspiFlash
arrived f b0 at =
    boundary
      (record f {
        phase = reading;
        shift_in = b0;
        address_bytes = 3;
        addr = at;
        selected = true;
        memory = (read_byte f.memory at).1;
      })
      (read_byte f.memory at).0

abbrev collected : ℕ → ℕ → ℕ → ℕ
collected b2 b1 b0 = u32 ((u32 ((u32 (0 * 256) + b2) * 256) + b1) * 256) + b0

arrival :
    (f : QspiFlash) (b2 b1 b0 : ℕ)
    → b2 < 256
    → b1 < 256
    → b0 < 256
    → let a = address_of b2 b1 b0 in
      let m = (read_byte f.memory a).1 in
      let reader = record f { shift_in = b0; address_bytes = 3; selected = true } in
      arrived f b0 (collected b2 b1 b0) ≡ boundary (at_read reader a m) (view m (a % memory_size))
arrival f b2 b1 b0 h2 h1 h0 =
    let a = address_of b2 b1 b0 in
    let m = (read_byte f.memory a).1 in
    let reader = record f { shift_in = b0; address_bytes = 3; selected = true } in
    let same : collected b2 b1 b0 ≡ a = omega arith in
    let narrow : a ≡ u32 a = omega arith in
    let within : a ≡ a % memory_size = omega arith in
    ap (arrived f b0) same
    ∙ (λ i. boundary (record (at_read reader a m) { addr = narrow i }) (read_byte f.memory a).0)
    ∙ ap (boundary (at_read reader a m))
        (read_byte-view f.memory a ∙ sym (view-read_byte f.memory a a) ∙ ap (view m) within)

abbrev then_silence : ℕ → Option (QspiFlash × List ℕ) → Option (QspiFlash × List ℕ)
then_silence q o = on_some o (λ p. some (p.0, q ∷ q ∷ q ∷ q ∷ p.1))

abbrev then_read : ℕ → Option (QspiFlash × List ℕ) → Option (QspiFlash × List ℕ)
then_read r o = on_some o (λ p. some (p.0, r ∷ p.1))

then_read-silence :
    (q : ℕ) (o : Option (QspiFlash × List ℕ))
    → then_read q (then_read q (then_read q (then_read q o))) ≡ then_silence q o
then_read-silence q none = refl
then_read-silence q (some p) = refl

-- The command and the three bytes of the address.
header :
    (f : QspiFlash) (b2 b1 b0 : ℕ) (xs : List ℕ)
    → b2 < 256
    → b1 < 256
    → b0 < 256
    → let q = silence f in
      exchange_all (0x03 ∷ b2 ∷ b1 ∷ b0 ∷ xs) (at_quiet (record f { shift_in = 0 }) command 0 0)
      ≡ then_silence q (exchange_all xs (arrived f b0 (collected b2 b1 b0)))
header f b2 b1 b0 xs h2 h1 h0 =
    let q = silence f in
    let f0 = record f { shift_in = 0 } in
    let f1 = record f { shift_in = 3 } in
    let f2 = record f { shift_in = b2 } in
    let f3 = record f { shift_in = b1 } in
    let a1 = u32 (0 * 256) + b2 in
    let a2 = u32 (a1 * 256) + b1 in
    exchange_all-next 0x03 (b2 ∷ b1 ∷ b0 ∷ xs) (at_quiet f0 command 0 0) (at_quiet f1 address 0 0) q
      (command_byte f0)
    ∙ ap (then_read q) (
        exchange_all-next b2 (b1 ∷ b0 ∷ xs) (at_quiet f1 address 0 0) (at_quiet f2 address 1 a1) q
          (address_byte f1 0 0 b2 (omega arith) h2)
        ∙ ap (then_read q) (
            exchange_all-next b1 (b0 ∷ xs) (at_quiet f2 address 1 a1) (at_quiet f3 address 2 a2) q
              (address_byte f2 1 a1 b1 (omega arith) h1)
            ∙ ap (then_read q) (
                exchange_all-next b0 xs (at_quiet f3 address 2 a2)
                  (arrived f b0 (collected b2 b1 b0)) q (last_address_byte f3 a2 b0 h0))))
    ∙ then_read-silence q (exchange_all xs (arrived f b0 (collected b2 b1 b0)))

-- What a host reads that selects the flash and sends the read command, an address and further
-- bytes: for the first four bytes the level of the line before, and then the memory's bytes from
-- the address on, which wraps at the size of the memory.
pub exchange_all-select :
    (f : QspiFlash) (b2 b1 b0 : ℕ) (xs : List ℕ)
    → f.selected ≡ false
    → f.clock ≡ false
    → IsBytes f.memory
    → b2 < 256
    → b1 < 256
    → b0 < 256
    → AllBytes xs
    → let q = silence f in
      (g : QspiFlash) × (exchange_all (0x03 ∷ b2 ∷ b1 ∷ b0 ∷ xs) (select f)
        ≡ some (g, q ∷ q ∷ q ∷ q ∷ flash_bytes (view f.memory) (address_of b2 b1 b0) (length xs)))
exchange_all-select f b2 b1 b0 xs sel clk all h2 h1 h0 bytes =
    let q = silence f in
    let a = address_of b2 b1 b0 in
    let m = (read_byte f.memory a).1 in
    let m_bytes : IsBytes m =
      λ b. subst (λ v. v < 256) (sym (view-read_byte f.memory a b)) (all b) in
    let reader = record f { shift_in = b0; address_bytes = 3; selected = true } in
    let (g, streamed) = stream xs reader m a m_bytes bytes in
    let all_read =
      flash_bytes-agree (view m) (view f.memory) a (length xs) (view-read_byte f.memory a) in
    (
      g,
      ap (exchange_all (0x03 ∷ b2 ∷ b1 ∷ b0 ∷ xs)) (selecting f sel clk)
          ∙ header f b2 b1 b0 xs h2 h1 h0
          ∙ ap (then_silence q) (ap (exchange_all xs) (arrival f b2 b1 b0 h2 h1 h0) ∙ streamed)
          ∙ ap (λ l. some (g, q ∷ q ∷ q ∷ q ∷ l)) all_read,
    )
