-- ===== src/RemoteBitbang/Sockets.antt =====
-- target/sim/cpp/remote_bitbang.cpp: the calls of the sockets. The operating system is a parameter,
-- an interface of the calls that the server makes.
use Prim.Native.String.{String, ◌++◌}
use friscv_soc.Common.{
  ℕ, zero, suc, ◌+◌, Bool, true, false, not, List, [], ◌∷◌, Option, none, some, ◌==◌, if◌then◌else◌,
}
use friscv_soc.Common.Arrays.{drop}
use friscv_soc.Common.Results.{Result, ok, thrown}
pub mod Delivery
pub mod Listen
mod Tests

-- The text of the exception of `fail`, for a text of `strerror`.
abbrev pub failure_text : String → String → String
failure_text operation reason = operation ++ (": " ++ reason)

-- What a call gives: a number that is not negative, or a negative one.
pub data Call : Type 0 where
  gave : ℕ → Call
  failed : Call

-- The calls, on the state of the system: `socket`, `setsockopt` for SO_REUSEADDR, `bind` to a port of
-- the loopback address, `listen` with a backlog of 1, `accept`, `poll` for input without a wait,
-- `send`, `close`, `errno` and `strerror`; `eintr` is EINTR.
pub record Net (N : Type 0) : Type 0 where
  pub open_socket : N → Call × N
  pub set_reuse : ℕ → N → Call × N
  pub bind_loopback : ℕ → ℕ → N → Call × N
  pub listen : ℕ → N → Call × N
  pub accept : ℕ → N → Call × N
  pub poll : ℕ → N → Call × N
  pub send : ℕ → List ℕ → N → Call × N
  pub close : ℕ → N → N
  pub errno : N → ℕ
  pub strerror : ℕ → String
  pub eintr : ℕ

module _ {N : Type 0} (net : Net N) where
  unfoldable pub fail : {A : Type 0} → String → N → Result A × N
  fail operation s = (thrown (failure_text operation (net.strerror (net.errno s))), s)

  -- What follows a call that must not fail while `fd` is held by a `Socket`, which closes it on the
  -- way out.
  unfoldable pub on_call :
      {A : Type 0} → ℕ → String → (Call × N) → (ℕ → N → Result A × N) → Result A × N
  on_call fd operation (gave n, s) next = next n s
  on_call fd operation (failed, s) next = let (r, t) = fail operation s in (r, net.close fd t)

  -- What follows the creation of the socket in `listen_on`.
  unfoldable pub listen_with : ℕ → ℕ → N → Result ℕ × N
  listen_with port fd s =
      on_call fd "cannot configure remote-bitbang socket" (net.set_reuse fd s) (λ _ s1.
        on_call fd "cannot bind remote-bitbang socket" (net.bind_loopback fd port s1) (λ _ s2.
          on_call fd "cannot listen on remote-bitbang socket" (net.listen fd s2)
            (λ _ s3. (ok fd, s3))))

  unfoldable pub created : ℕ → (Call × N) → Result ℕ × N
  created port (gave fd, s) = listen_with port fd s
  created port (failed, s) = fail "cannot create remote-bitbang socket" s

  unfoldable pub listen_on : ℕ → N → Result ℕ × N
  listen_on port s = created port (net.open_socket s)

  -- The accept in `serve`, while the listener is held.
  unfoldable pub accept_client : ℕ → N → Result ℕ × N
  accept_client listener s =
      on_call listener "cannot accept remote-bitbang connection" (net.accept listener s)
        (λ client t. (ok client, t))

  -- What a round of `send_all` does with the result of `send`: `again` is the next round, on what is
  -- left of the data.
  unfoldable pub after_send :
      {R : Type 0} → List ℕ → (Call × N) → (List ℕ → N → R) → (Result (Unit {0}) × N → R) → R
  after_send rest (gave zero, t) again over = over (fail "remote-bitbang send failed" t)
  after_send rest (gave (suc sent), t) again over = again (drop (suc sent) rest) t
  after_send rest (failed, t) again over = elim (net.errno t == net.eintr) [
    | true ↦ again rest t
    | false ↦ over (fail "remote-bitbang send failed" t)
  ]

  -- `send_all`, for at most `n` rounds of its loop; `none` is a loop that goes on after them.
  unfoldable pub send_all : ℕ → ℕ → List ℕ → N → Option (Result (Unit {0}) × N)
  send_all n fd [] s = some (ok tt, s)
  send_all zero fd (b ∷ rest) s = none
  send_all (suc n) fd (b ∷ rest) s =
      after_send (b ∷ rest) (net.send fd (b ∷ rest) s) (send_all n fd) some

  -- What a round of `input_ready` does with the result of `poll`.
  unfoldable pub after_poll : (Call × N) → (N → Option (Result Bool × N)) → Option (Result Bool × N)
  after_poll (gave ready, t) again = some (ok (not (ready == 0)), t)
  after_poll (failed, t) again = elim (net.errno t == net.eintr) [
    | true ↦ again t
    | false ↦ some (fail "remote-bitbang poll failed" t)
  ]

  -- `input_ready`, for at most `n` rounds of its loop.
  unfoldable pub input_ready : ℕ → ℕ → N → Option (Result Bool × N)
  input_ready zero fd s = none
  input_ready (suc n) fd s = after_poll (net.poll fd s) (input_ready n fd)
