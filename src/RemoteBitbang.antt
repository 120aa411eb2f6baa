-- ===== src/RemoteBitbang.antt =====
-- target/sim/cpp/remote_bitbang.{hpp,cpp}: the server that lets a debugger drive the JTAG pins. The
-- pins and the testbench are those of the JTAG driver, with the reset pins; the socket is a
-- sequence of events.
use Prim.Native.String.{String}
use friscv_soc.RemoteBitbang.Sockets.{failure_text}
use friscv_soc.Common.{
  ℕ, zero, suc, ◌+◌, ◌-◌, ◌*◌, ◌/◌, ◌%◌, Bool, true, false, not, ◌&&◌, ◌||◌, List, [], ◌∷◌, ◌++◌,
  Option, none, some, leb, ◌==◌,
}
use friscv_soc.Common.Words.{test_bit, sub32}
use friscv_soc.Jtag.{Bench}
pub mod Session
pub mod Pulse
pub mod Sockets
mod Tests

-- The pins, with the exceptions of the clock in the state; `set_resets` gives the values of `jtag_trst_ni` and `rst_ni`.
pub record Target (S : Type 0) : Type 0 where
  pub bench : Bench S
  pub set_resets : Bool → Bool → S → S

abbrev pub jtag_cycles : ℕ
jtag_cycles = 2

abbrev pub idle_cycles : ℕ
idle_cycles = 64

-- Why the loop over the commands of a buffer ends.
pub data End : Type 0 where
  exhausted left unsupported : End

-- What a command does: it goes on, with characters for the response, or it ends the loop.
pub data Step (S : Type 0) : Type 0 where
  go : List ℕ → S → Step S
  leave reject : Step S

abbrev pub on_step {ℓ} : {S : Type 0} {R : Type ℓ} → Step S → (List ℕ → S → R) → (End → R) → R
on_step (go chars s) next ended = next chars s
on_step leave next ended = ended left
on_step reject next ended = ended unsupported

-- `'1'` or `'0'`.
abbrev pub tdo_char : Bool → ℕ
tdo_char true = 49
tdo_char false = 48

-- How `serve` ends; it has not ended while the events so far leave it in its loop.
pub data Outcome : Type 0 where
  serving returned : Outcome
  threw : String → Outcome

-- What a round of `input_ready` and `recv` meets; a failure comes with the text of its `errno`. For
-- a buffer, the text of the failure that `send_all` of the response will meet, if it meets one.
pub data Event : Type 0 where
  idle interrupted closed : Event
  poll_failed receive_failed : String → Event
  received : Option String → List ℕ → Event

-- The exception of `fail`, for a text of `strerror`.
abbrev pub failure : String → String → Outcome
failure operation reason = threw (failure_text operation reason)

-- What follows the loop over a buffer, where `next` is the next round of the endless loop.
abbrev pub on_buffer :
    {S : Type 0}
    → Option String
    → List ℕ
    → (End × (List ℕ × S))
    → (List ℕ → S → Outcome × (List ℕ × S))
    → Outcome × (List ℕ × S)
on_buffer send_error sent (unsupported, (response, s)) next =
    (threw "unsupported remote-bitbang command", (sent, s))
on_buffer none sent (left, (response, s)) next = (returned, (sent ++ response, s))
on_buffer none sent (exhausted, (response, s)) next = next (sent ++ response) s
on_buffer (some reason) sent (left, (response, s)) next =
    (failure "remote-bitbang send failed" reason, (sent, s))
on_buffer (some reason) sent (exhausted, (response, s)) next =
    (failure "remote-bitbang send failed" reason, (sent, s))

module _ {S : Type 0} (target : Target S) where
  -- `'0'` is 48 and `'r'` is 114.
  unfoldable pub set_pins : ℕ → S → S
  set_pins command s =
      let pins = sub32 command 48 in
      target.bench.run_cycles jtag_cycles (
        target.bench.set_data (test_bit pins 1) (test_bit pins 0)
          (target.bench.set_tck (test_bit pins 2) s))

  unfoldable pub reset : ℕ → S → S
  reset command s =
      let pins = sub32 command 114 in
      target.bench.run_cycles jtag_cycles
        (target.set_resets (not (test_bit pins 1)) (not (test_bit pins 0)) s)

  -- One round of the loop over the commands: `'0'` to `'7'`, `'R'`, `'r'` to `'u'`, `'Q'`, `'B'`
  -- and `'b'`.
  unfoldable pub execute : ℕ → S → Step S
  execute command s = elim (leb 48 command && leb command 55) [
    | true ↦ go [] (set_pins command s)
    | false ↦ elim (command == 82) [
      | true ↦ go (tdo_char (target.bench.tdo s) ∷ []) s
      | false ↦ elim (leb 114 command && leb command 117) [
        | true ↦ go [] (reset command s)
        | false ↦ elim (command == 81) [
          | true ↦ leave
          | false ↦ elim (not (command == 66) && not (command == 98)) [
            | true ↦ reject
            | false ↦ go [] s
          ]
        ]
      ]
    ]
  ]

  -- The loop over the commands, with the response so far.
  unfoldable pub run_commands : List ℕ → List ℕ → S → End × (List ℕ × S)
  run_commands [] response s = (exhausted, (response, s))
  run_commands (c ∷ commands) response s =
      on_step (execute c s) (λ chars t. run_commands commands (response ++ chars) t)
        (λ end. (end, (response, s)))

  -- The endless loop of `serve`, on the events so far; `sent` is what has gone to the client.
  unfoldable pub serve_client : List Event → List ℕ → S → Outcome × (List ℕ × S)
  serve_client [] sent s = (serving, (sent, s))
  serve_client (idle ∷ events) sent s =
      serve_client events sent (target.bench.run_cycles idle_cycles s)
  serve_client (interrupted ∷ events) sent s = serve_client events sent s
  serve_client (poll_failed reason ∷ events) sent s =
      (failure "remote-bitbang poll failed" reason, (sent, s))
  serve_client (receive_failed reason ∷ events) sent s =
      (failure "remote-bitbang receive failed" reason, (sent, s))
  serve_client (closed ∷ events) sent s = (returned, (sent, s))
  serve_client (received send_error commands ∷ events) sent s =
      on_buffer send_error sent (run_commands commands [] s) (serve_client events)

  -- The loop that waits for a client, for `n` rounds.
  unfoldable pub await_client : ℕ → S → S
  await_client zero s = s
  await_client (suc n) s = await_client n (target.bench.run_cycles idle_cycles s)

  -- `serve`, once the port listens and when the client that comes after `n` rounds is accepted.
  unfoldable pub serve : ℕ → List Event → S → Outcome × (List ℕ × S)
  serve n events s = serve_client events [] (await_client n s)
