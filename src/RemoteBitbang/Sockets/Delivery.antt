-- ===== src/RemoteBitbang/Sockets/Delivery.antt =====
-- What `send_all` delivers.
use Prim.Native.String.{String}
use friscv_soc.Common.{
  ℕ, zero, suc, ◌+◌, ◌<◌, ◌≤◌, ◌≡◌, ◌⊎◌, inl, inr, refl, sym, ap, ◌∙◌, true, false, List, [], ◌∷◌,
  ◌++◌, Option, some, ◌==◌, ==_iff, arith,
}
use mathlib.Core.Path.{subst}
use mathlib.Core.List.{append_assoc, append-nil}
use friscv_soc.Common.Arrays.{length, take, drop}
use friscv_soc.Common.Results.{Result, ok, thrown}
use friscv_soc.RemoteBitbang.Sockets.{Call, gave, failed, Net, fail, after_send, send_all}

-- A call of `send` on a stream, where `wire` is what has been sent so far and `patience` bounds how
-- often a call is still interrupted: a first part of the data goes out and its length comes back, or
-- the call is interrupted, or it fails and nothing goes out.
pub data Sent {N : Type 0} (net : Net N) (wire : N → List ℕ) (patience : N → ℕ) (bytes : List ℕ)
    (s : N) : Call × N → Type 0 where
  part :
      (k : ℕ) (t : N)
      → suc k ≤ length bytes
      → wire t ≡ wire s ++ take (suc k) bytes
      → patience t ≤ patience s
      → Sent net wire patience bytes s (gave (suc k), t)
  interrupted :
      (t : N)
      → net.errno t ≡ net.eintr
      → wire t ≡ wire s
      → patience t < patience s
      → Sent net wire patience bytes s (failed, t)
  nothing : (t : N) → wire t ≡ wire s → Sent net wire patience bytes s (gave 0, t)
  broken :
      (t : N)
      → (net.errno t == net.eintr) ≡ false
      → wire t ≡ wire s
      → Sent net wire patience bytes s (failed, t)

pub record IsStream {N : Type 0} (net : Net N) (wire : N → List ℕ) (patience : N → ℕ) : Type 0 where
  pub sends :
      (fd : ℕ) (bytes : List ℕ) (s : N) → Sent net wire patience bytes s (net.send fd bytes s)

-- How `send_all` ends: all the bytes have gone out, or it throws and a first part has, which is not
-- all of them.
abbrev pub Delivered :
    {N : Type 0} → (N → List ℕ) → List ℕ → N → Option (Result (Unit {0}) × N) → Type 0
Delivered {N = N} wire bytes s r =
    ((t : N) × (r ≡ some (ok tt, t)) × (wire t ≡ wire s ++ bytes))
    ⊎ ((e : String) × (k : ℕ) × (t : N) × (r ≡ some (thrown e, t))
        × (k < length bytes)
        × (wire t ≡ wire s ++ take k bytes))

take-drop : (k : ℕ) (xs : List ℕ) → take k xs ++ drop k xs ≡ xs
take-drop zero xs = refl
take-drop (suc k) [] = refl
take-drop (suc k) (x ∷ xs) = ap (λ l. x ∷ l) (take-drop k xs)

take_nil : (n : ℕ) → take {A = ℕ} n [] ≡ []
take_nil zero = refl
take_nil (suc n) = refl

take-take : (k j : ℕ) (xs : List ℕ) → take k xs ++ take j (drop k xs) ≡ take (k + j) xs
take-take zero j xs = let e : j ≡ 0 + j = omega arith in ap (λ n. take n xs) e
take-take (suc k) j [] = take_nil j ∙ sym (take_nil (suc k + j))
take-take (suc k) j (x ∷ xs) =
    let e : suc (k + j) ≡ suc k + j = omega arith in
    ap (λ l. x ∷ l) (take-take k j xs) ∙ ap (λ n. take n (x ∷ xs)) e

length-drop : (k : ℕ) (xs : List ℕ) → k ≤ length xs → length (drop k xs) + k ≡ length xs
length-drop zero xs h = omega arith
length-drop (suc k) [] h = absurd (omega arith)
length-drop (suc k) (x ∷ xs) h = let e = length-drop k xs (omega arith) in omega (arith, e)

-- What is delivered after a first part has gone out.
Delivered-part :
    {N : Type 0}
    → (wire : N → List ℕ) (bytes : List ℕ) (k : ℕ) (s t : N) (r : Option (Result (Unit {0}) × N))
    → k ≤ length bytes
    → wire t ≡ wire s ++ take k bytes
    → Delivered wire (drop k bytes) t r
    → Delivered wire bytes s r
Delivered-part wire bytes k s t r h first (inl (u, e, w)) = inl (
  u,
  e,
  w
      ∙ ap (λ l. l ++ drop k bytes) first
      ∙ append_assoc (wire s) (take k bytes) (drop k bytes)
      ∙ ap (λ l. wire s ++ l) (take-drop k bytes),
)
Delivered-part wire bytes k s t r h first (inr (e, j, u, thrown_here, lt, w)) = inr (
  e,
  k + j,
  u,
  thrown_here,
  omega (arith, length-drop k bytes h, lt, h),
  w
      ∙ ap (λ l. l ++ take j (drop k bytes)) first
      ∙ append_assoc (wire s) (take k bytes) (take j (drop k bytes))
      ∙ ap (λ l. wire s ++ l) (take-take k j bytes),
)

-- What is delivered after a call that has put nothing on the wire.
Delivered-same :
    {N : Type 0}
    → (wire : N → List ℕ) (bytes : List ℕ) (s t : N) (r : Option (Result (Unit {0}) × N))
    → wire t ≡ wire s
    → Delivered wire bytes t r
    → Delivered wire bytes s r
Delivered-same wire bytes s t r same (inl (u, e, w)) = inl (u, e, w ∙ ap (λ l. l ++ bytes) same)
Delivered-same wire bytes s t r same (inr (e, j, u, thrown_here, lt, w)) =
    inr (e, j, u, thrown_here, lt, w ∙ ap (λ l. l ++ take j bytes) same)

Delivered-none :
    {N : Type 0}
    → (wire : N → List ℕ) (b : ℕ) (rest : List ℕ) (s t : N) (e : String) → wire t ≡ wire s
    → Delivered wire (b ∷ rest) s (some (thrown e, t))
Delivered-none wire b rest s t e same =
    inr (e, 0, t, refl, omega arith, same ∙ sym (append-nil (wire s)))

module _ {N : Type 0} (net : Net N) (wire : N → List ℕ) (patience : N → ℕ)
    (stream : IsStream net wire patience) where
  -- A round, where `again` is the rounds after it.
  round-Delivered :
      (b : ℕ) (rest : List ℕ) (s : N) (r : Call × N)
      (again : List ℕ → N → Option (Result (Unit {0}) × N))
      → Sent net wire patience (b ∷ rest) s r
      → ((left : List ℕ) (t : N)
          → length left + patience t < suc (length rest) + patience s
          → Delivered wire left t (again left t))
      → Delivered wire (b ∷ rest) s (after_send net (b ∷ rest) r again some)
  unfolding after_send fail
  round-Delivered b rest s r again (part k t h went calm) next =
      let e = length-drop (suc k) (b ∷ rest) h in
      Delivered-part wire (b ∷ rest) (suc k) s t _ h went
        (next (drop (suc k) (b ∷ rest)) t (omega (arith, e, calm)))
  round-Delivered b rest s r again (interrupted t errno same calm) next =
      subst
        (λ x. Delivered wire (b ∷ rest) s (elim x [
          | true ↦ again (b ∷ rest) t
          | false ↦ some (fail net "remote-bitbang send failed" t)
        ]))
        (sym ((==_iff (net.errno t) net.eintr).1 errno))
        (Delivered-same wire (b ∷ rest) s t _ same (next (b ∷ rest) t (omega (arith, calm))))
  round-Delivered b rest s r again (nothing t same) next = Delivered-none wire b rest s t _ same
  round-Delivered b rest s r again (broken t errno same) next =
      subst
        (λ x. Delivered wire (b ∷ rest) s (elim x [
          | true ↦ again (b ∷ rest) t
          | false ↦ some (fail net "remote-bitbang send failed" t)
        ]))
        (sym errno) (Delivered-none wire b rest s t _ same)

  -- With a round for each byte and for each interruption that is still to come, `send_all` ends:
  -- however the socket cuts the data into parts, all of it has gone out in its order, or `send_all`
  -- throws and a first part has.
  pub send_all-Delivered :
      (n fd : ℕ) (bytes : List ℕ) (s : N)
      → length bytes + patience s ≤ n
      → Delivered wire bytes s (send_all net n fd bytes s)
  unfolding send_all
  send_all-Delivered n fd [] s h = inl (s, refl, sym (append-nil (wire s)))
  send_all-Delivered zero fd (b ∷ rest) s h = absurd (omega arith)
  send_all-Delivered (suc n) fd (b ∷ rest) s h =
      round-Delivered b rest s (net.send fd (b ∷ rest) s) (send_all net n fd)
        (stream.sends fd (b ∷ rest) s)
        (λ left t fewer. send_all-Delivered n fd left t (omega (arith, fewer, h)))
