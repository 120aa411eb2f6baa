-- ===== src/RemoteBitbang/Session.antt =====
-- A session of a client, command by command, however the socket cuts the commands into buffers.
use friscv_soc.Common.{
  ℕ, ◌+◌, ◌*◌, ◌≡◌, refl, sym, ap, ◌∙◌, Bool, true, false, not, List, [], ◌∷◌, ◌++◌, Option, none,
  some,
}
use friscv_soc.Common.Tests.{of_bool}
use friscv_soc.RemoteBitbang.{
  Target, go, Event, idle, interrupted, closed, received, Outcome, serving, returned, execute,
  set_pins, reset, tdo_char, on_step, on_buffer, run_commands, serve_client,
}

++-assoc : (xs ys zs : List ℕ) → (xs ++ ys) ++ zs ≡ xs ++ (ys ++ zs)
++-assoc [] ys zs = refl
++-assoc (x ∷ xs) ys zs = ap (λ l. x ∷ l) (++-assoc xs ys zs)

++-[] : (xs : List ℕ) → xs ++ [] ≡ xs
++-[] [] = refl
++-[] (x ∷ xs) = ap (λ l. x ∷ l) (++-[] xs)

module _ {S : Type 0} (target : Target S) where
  -- The commands of the protocol: the character, the characters of the answer, and the states before
  -- and after. `'0'` to `'7'` set TCK, TMS and TDI for two cycles; `'R'` reads TDO; `'r'` to `'u'` set
  -- the two resets, which are active at 0, for two cycles; `'B'` and `'b'` switch a lamp.
  pub data Command : ℕ → List ℕ → S → S → Type 0 where
    pins :
        (tck tms tdi : Bool) (s : S)
        → Command
            (48 + 4 * of_bool tck + 2 * of_bool tms + of_bool tdi)
            []
            s
            (target.bench.run_cycles 2 (target.bench.set_data tms tdi (target.bench.set_tck tck s)))
    low : (s : S) → target.bench.tdo s ≡ false → Command 82 (48 ∷ []) s s
    high : (s : S) → target.bench.tdo s ≡ true → Command 82 (49 ∷ []) s s
    resets :
        (tap system : Bool) (s : S)
        → Command
            (114 + 2 * of_bool tap + of_bool system)
            []
            s
            (target.bench.run_cycles 2 (target.set_resets (not tap) (not system) s))
    lamp_on : (s : S) → Command 66 [] s s
    lamp_off : (s : S) → Command 98 [] s s

  -- A session, without a failure of a call: what is left of the buffer at hand, if there is one, the
  -- events that follow, all the characters that are sent, the states before and after, and how the
  -- session ends. The client ends it by `'Q'` or by closing the connection.
  pub data Session : Option (List ℕ) → List Event → List ℕ → S → S → Outcome → Type 0 where
    waiting : (s : S) → Session none [] [] s s serving
    nothing :
        {events : List Event} {out : List ℕ} {s t : S} {end : Outcome}
        → Session none events out (target.bench.run_cycles 64 s) t end
        → Session none (idle ∷ events) out s t end
    again :
        {events : List Event} {out : List ℕ} {s t : S} {end : Outcome}
        → Session none events out s t end
        → Session none (interrupted ∷ events) out s t end
    gone : {events : List Event} (s : S) → Session none (closed ∷ events) [] s s returned
    buffer :
        {commands : List ℕ} {events : List Event} {out : List ℕ} {s t : S} {end : Outcome}
        → Session (some commands) events out s t end
        → Session none (received none commands ∷ events) out s t end
    finished :
        {events : List Event} {out : List ℕ} {s t : S} {end : Outcome}
        → Session none events out s t end
        → Session (some []) events out s t end
    command :
        {c : ℕ} {commands : List ℕ} {events : List Event} {answer out : List ℕ} {s t u : S}
        {end : Outcome}
        → Command c answer s t
        → Session (some commands) events out t u end
        → Session (some (c ∷ commands)) events (answer ++ out) s u end
    quit :
        {commands : List ℕ} {events : List Event} (s : S)
        → Session (some (81 ∷ commands)) events [] s s returned

  execute-pins :
      (tck tms tdi : Bool) (s : S)
      → execute target (48 + 4 * of_bool tck + 2 * of_bool tms + of_bool tdi) s
        ≡ go []
            (target.bench.run_cycles 2 (target.bench.set_data tms tdi (target.bench.set_tck tck s)))
  unfolding execute set_pins
  execute-pins false false false s = refl
  execute-pins false false true s = refl
  execute-pins false true false s = refl
  execute-pins false true true s = refl
  execute-pins true false false s = refl
  execute-pins true false true s = refl
  execute-pins true true false s = refl
  execute-pins true true true s = refl

  execute-resets :
      (tap system : Bool) (s : S)
      → execute target (114 + 2 * of_bool tap + of_bool system) s
        ≡ go [] (target.bench.run_cycles 2 (target.set_resets (not tap) (not system) s))
  unfolding execute reset
  execute-resets false false s = refl
  execute-resets false true s = refl
  execute-resets true false s = refl
  execute-resets true true s = refl

  execute-Command :
      {c : ℕ} {answer : List ℕ} {s t : S} → Command c answer s t → execute target c s ≡ go answer t
  unfolding execute
  execute-Command (pins tck tms tdi s) = execute-pins tck tms tdi s
  execute-Command (low s e) = ap (λ b. go (tdo_char b ∷ []) s) e
  execute-Command (high s e) = ap (λ b. go (tdo_char b ∷ []) s) e
  execute-Command (resets tap system s) = execute-resets tap system s
  execute-Command (lamp_on s) = refl
  execute-Command (lamp_off s) = refl

  -- The rest of the loop, in a buffer or between two, with the response so far.
  resumed : Option (List ℕ) → List Event → List ℕ → List ℕ → S → Outcome × (List ℕ × S)
  resumed none events sent response s = serve_client target events (sent ++ response) s
  resumed (some commands) events sent response s =
      on_buffer none sent (run_commands target commands response s) (serve_client target events)

  resumed-command :
      (c : ℕ) (commands : List ℕ) (events : List Event) (sent response answer : List ℕ) (s t : S)
      → execute target c s ≡ go answer t
      → resumed (some (c ∷ commands)) events sent response s
        ≡ resumed (some commands) events sent (response ++ answer) t
  unfolding resumed run_commands
  resumed-command c commands events sent response answer s t e =
      ap
        (λ r.
          on_buffer none sent
            (on_step r (λ chars t. run_commands target commands (response ++ chars) t)
              (λ end. (end, (response, s))))
            (serve_client target events))
        e

  resumed-Session :
      {pending : Option (List ℕ)} {events : List Event} {out : List ℕ} {s t : S} {end : Outcome}
      → Session pending events out s t end
      → (sent response : List ℕ)
      → resumed pending events sent response s ≡ (end, (sent ++ (response ++ out), t))
  unfolding resumed run_commands serve_client execute
  resumed-Session (waiting s) sent response =
      ap (λ l. (serving, (sent ++ l, s))) (sym (++-[] response))
  resumed-Session (nothing later) sent response = resumed-Session later sent response
  resumed-Session (again later) sent response = resumed-Session later sent response
  resumed-Session (gone s) sent response =
      ap (λ l. (returned, (sent ++ l, s))) (sym (++-[] response))
  resumed-Session (buffer {out = out} {t = t} {end = end} later) sent response =
      resumed-Session later (sent ++ response) []
      ∙ ap (λ l. (end, (l, t))) (++-assoc sent response out)
  resumed-Session (finished later) sent response = resumed-Session later sent response
  resumed-Session (command {c} {commands} {events} {answer} {out} {s} {t} {u} {end} acts later) sent
        response =
      resumed-command c commands events sent response answer s t (execute-Command acts)
      ∙ resumed-Session later sent (response ++ answer)
      ∙ ap (λ l. (end, (sent ++ l, u))) (++-assoc response answer out)
  resumed-Session (quit s) sent response =
      ap (λ l. (returned, (sent ++ l, s))) (sym (++-[] response))

  -- The server drives a session as the protocol says, command by command, wherever the socket cuts
  -- the commands into buffers and whatever rounds without data or interrupted calls come between
  -- them: if no call fails and every command is one of the protocol, the clock has run 64 cycles for
  -- each round without data, the pins and resets are as the commands left them, the client has been
  -- sent the answers in order, and the server returns at `'Q'` or when the connection is closed.
  pub serve_client-Session :
      {events : List Event} {out : List ℕ} {s t : S} {end : Outcome}
      → Session none events out s t end
      → (sent : List ℕ) → serve_client target events sent s ≡ (end, (sent ++ out, t))
  unfolding resumed
  serve_client-Session {events} {s = s} session sent =
      ap (λ l. serve_client target events l s) (sym (++-[] sent)) ∙ resumed-Session session sent []
