-- ===== src/RemoteBitbang/Sockets/Tests.antt =====
-- A socket that is interrupted and sends a byte at a time, and a system with one socket.
use friscv_soc.Common.{
  ℕ, zero, suc, ◌≡◌, refl, Bool, true, false, List, [], ◌∷◌, ◌++◌, some, ◌==◌, if◌then◌else◌, arith,
}
use friscv_soc.Common.Arrays.{update}
use friscv_soc.Common.Results.{ok}
use friscv_soc.RemoteBitbang.Sockets.{Call, gave, failed, Net, listen_on, send_all, after_send}
use friscv_soc.RemoteBitbang.Sockets.Delivery.{
  Sent, part, interrupted, nothing, IsStream, Delivered, send_all-Delivered,
}
use friscv_soc.RemoteBitbang.Sockets.Listen.{Created, TracksOpen, Listening, listen_on-Listening}

-- What has been sent, and how many calls are still interrupted.
abbrev Line : Type 0
Line = List ℕ × ℕ

send_byte : List ℕ → Line → Call × Line
send_byte bytes (wire, suc n) = (failed, (wire, n))
send_byte [] (wire, zero) = (gave 0, (wire, 0))
send_byte (b ∷ rest) (wire, zero) = (gave 1, (wire ++ b ∷ [], 0))

abbrev slow : Net Line
slow = record {
  open_socket = λ s. (gave 3, s);
  set_reuse = λ fd s. (gave 0, s);
  bind_loopback = λ fd port s. (gave 0, s);
  listen = λ fd s. (gave 0, s);
  accept = λ fd s. (gave 4, s);
  poll = λ fd s. (gave 1, s);
  send = λ fd bytes s. send_byte bytes s;
  close = λ fd s. s;
  errno = λ s. 4;
  strerror = λ errno. "interrupted";
  eintr = 4;
}

abbrev wire_of : Line → List ℕ
wire_of s = s.0

abbrev interruptions : Line → ℕ
interruptions s = s.1

slow_sends :
    (bytes : List ℕ) (s : Line) → Sent slow wire_of interruptions bytes s (send_byte bytes s)
unfolding send_byte
slow_sends bytes (wire, suc n) = interrupted (wire, n) refl refl (omega arith)
slow_sends [] (wire, zero) = nothing (wire, 0) refl
slow_sends (b ∷ rest) (wire, zero) = part 0 (wire ++ b ∷ [], 0) (omega arith) refl (omega arith)

slow-IsStream : IsStream slow wire_of interruptions
slow-IsStream = record { sends = λ fd bytes s. slow_sends bytes s }

send_all-Delivered_example :
    Delivered wire_of (49 ∷ 48 ∷ 49 ∷ []) ([], 2) (send_all slow 5 3 (49 ∷ 48 ∷ 49 ∷ []) ([], 2))
send_all-Delivered_example =
    send_all-Delivered slow wire_of interruptions slow-IsStream 5 3 (49 ∷ 48 ∷ 49 ∷ []) ([], 2)
      (omega arith)

-- Here all of it goes out.
all_out : send_all slow 5 3 (49 ∷ 48 ∷ 49 ∷ []) ([], 2) ≡ some (ok tt, (49 ∷ 48 ∷ 49 ∷ [], 0))
unfolding send_all after_send send_byte
all_out = refl

-- The sockets that are open; the next is always number 3, and port 80 is taken.
abbrev Sockets : Type 0
Sockets = ℕ → Bool

abbrev single : Net Sockets
single = record {
  open_socket = λ s. if s 3 then (failed, s) else (gave 3, update s 3 true);
  set_reuse = λ fd s. (gave 0, s);
  bind_loopback = λ fd port s. if port == 80 then (failed, s) else (gave 0, s);
  listen = λ fd s. (gave 0, s);
  accept = λ fd s. (gave 4, s);
  poll = λ fd s. (gave 1, s);
  send = λ fd bytes s. (gave 0, s);
  close = λ fd s. update s fd false;
  errno = λ s. 98;
  strerror = λ errno. "address in use";
  eintr = 4;
}

abbrev itself : Sockets → ℕ → Bool
itself s = s

single_creates :
    (b : Bool) (s : Sockets)
    → s 3 ≡ b
    → Created itself s (if b then (failed, s) else (gave 3, update s 3 true))
single_creates true s e = refl
single_creates false s e = (e, refl)

kept_if :
    (b : Bool) (x y : Call) (s : Sockets)
    → let r : Call × Sockets = if b then (x, s) else (y, s) in r.1 ≡ s
kept_if true x y s = refl
kept_if false x y s = refl

single-TracksOpen : TracksOpen single itself
single-TracksOpen = record {
  creates = λ s. single_creates (s 3) s refl;
  reuse_keeps = λ fd s. refl;
  bind_keeps = λ fd port s. kept_if (port == 80) failed (gave 0) s;
  listen_keeps = λ fd s. refl;
  closes = λ fd s. refl;
}

abbrev none_open : Sockets
none_open _ = false

listen_on-Listening_example : Listening itself none_open (listen_on single 80 none_open)
listen_on-Listening_example = listen_on-Listening single itself single-TracksOpen 80 none_open
