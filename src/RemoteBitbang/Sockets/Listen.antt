-- ===== src/RemoteBitbang/Sockets/Listen.antt =====
-- Which sockets are open after `listen_on`.
use Prim.Native.String.{String}
use friscv_soc.Common.{
  ℕ, ◌≡◌, sym, ap, ◌∙◌, Bool, true, false, ◌==◌, if◌then◌else◌, Bool-cases, inl, inr, ==_iff,
}
use friscv_soc.Common.Arrays.{update}
use friscv_soc.Common.Results.{Result, ok, thrown}
use friscv_soc.RemoteBitbang.Sockets.{
  Call, gave, failed, Net, fail, on_call, listen_with, created, listen_on,
}

-- What a new socket leaves: its number was not in use, and is now.
abbrev pub Created : {N : Type 0} → (N → ℕ → Bool) → N → Call × N → Type 0
Created opened s (gave fd, t) = (opened s fd ≡ false) × (opened t ≡ update (opened s) fd true)
Created opened s (failed, t) = opened t ≡ opened s

-- `opened` says which numbers are open sockets: `socket` and `close` change that, and the calls on a
-- socket do not.
pub record TracksOpen {N : Type 0} (net : Net N) (opened : N → ℕ → Bool) : Type 0 where
  pub creates : (s : N) → Created opened s (net.open_socket s)
  pub reuse_keeps : (fd : ℕ) (s : N) → opened (net.set_reuse fd s).1 ≡ opened s
  pub bind_keeps : (fd port : ℕ) (s : N) → opened (net.bind_loopback fd port s).1 ≡ opened s
  pub listen_keeps : (fd : ℕ) (s : N) → opened (net.listen fd s).1 ≡ opened s
  pub closes : (fd : ℕ) (s : N) → opened (net.close fd s) ≡ update (opened s) fd false

-- What `listen_on` leaves open: the socket that it returns and no other new one.
abbrev pub Listening : {N : Type 0} → (N → ℕ → Bool) → (ℕ → Bool) → Result ℕ × N → Type 0
Listening opened before (ok fd, t) =
    (before fd ≡ false) × ((i : ℕ) → opened t i ≡ update before fd true i)
Listening opened before (thrown e, t) = (i : ℕ) → opened t i ≡ before i

closed_again :
    (before : ℕ → Bool) (fd i : ℕ)
    → before fd ≡ false
    → update (update before fd true) fd false i ≡ before i
closed_again before fd i unused = elim (Bool-cases (fd == i)) [
  | inl e ↦
      ap (λ b. if b then false else (if b then true else before i)) e
      ∙ sym unused
      ∙ ap before ((==_iff fd i).0 e)
  | inr ne ↦ ap (λ b. if b then false else (if b then true else before i)) ne
]

module _ {N : Type 0} (net : Net N) (opened : N → ℕ → Bool) (tracks : TracksOpen net opened) where
  -- A call on the socket `fd`, which is the only new one.
  on_call-Listening :
      (before : ℕ → Bool) (fd : ℕ) (operation : String) (r : Call × N) (next : ℕ → N → Result ℕ × N)
      → before fd ≡ false
      → opened r.1 ≡ update before fd true
      → ((n : ℕ) (t : N) → opened t ≡ update before fd true → Listening opened before (next n t))
      → Listening opened before (on_call net fd operation r next)
  unfolding on_call fail
  on_call-Listening before fd operation (gave n, t) next unused same later = later n t same
  on_call-Listening before fd operation (failed, t) next unused same later = λ i.
      ap (λ f. f i) (tracks.closes fd t)
      ∙ ap (λ f. update f fd false i) same
      ∙ closed_again before fd i unused

  listen_with-Listening :
      (before : ℕ → Bool) (port fd : ℕ) (s : N)
      → before fd ≡ false
      → opened s ≡ update before fd true
      → Listening opened before (listen_with net port fd s)
  unfolding listen_with
  listen_with-Listening before port fd s unused same =
      on_call-Listening before fd _ (net.set_reuse fd s) _ unused (tracks.reuse_keeps fd s ∙ same)
        (λ _ s1 same1.
          on_call-Listening before fd _ (net.bind_loopback fd port s1) _ unused
            (tracks.bind_keeps fd port s1 ∙ same1)
            (λ _ s2 same2.
              on_call-Listening before fd _ (net.listen fd s2) _ unused
                (tracks.listen_keeps fd s2 ∙ same2)
                (λ _ s3 same3. (unused, λ i. ap (λ f. f i) same3))))

  created-Listening :
      (port : ℕ) (s : N) (r : Call × N)
      → Created opened s r
      → Listening opened (opened s) (created net port r)
  unfolding created fail
  created-Listening port s (gave fd, t) (unused, same) =
      listen_with-Listening (opened s) port fd t unused same
  created-Listening port s (failed, t) same = λ i. ap (λ f. f i) same

  -- When `listen_on` returns, the socket that it returns is open and no other that was not before;
  -- when it throws, at whichever call, no new one is.
  pub listen_on-Listening : (port : ℕ) (s : N) → Listening opened (opened s) (listen_on net port s)
  unfolding listen_on
  listen_on-Listening port s = created-Listening port s (net.open_socket s) (tracks.creates s)
