-- ===== src/Jtag/Retry.antt =====
-- The retries of an access of the debug module interface.
use friscv_soc.Common.{
  ℕ, zero, suc, ◌<◌, ◌≤◌, ◌≡◌, ◌≢◌, ◌⊎◌, inl, inr, true, false, refl, ◌==◌, if◌then◌else◌, arith,
}
use mathlib.Core.Path.{subst}
use friscv_soc.Common.Results.{Result, ok, thrown}
use friscv_soc.Jtag.{
  Bench, dmi_busy, dmi_transfer, dmi_status, dmi_data, dmi_retry, dmi_access, encode_dmi, reset_dmi,
}

module _ {S : Type 0} (bench : Bench S) (request : ℕ) where
  -- The state after `k` rounds that each end in a reset of the interface.
  unfoldable pub after_busy : ℕ → S → S
  after_busy zero s = s
  after_busy (suc k) s = after_busy k (reset_dmi bench (dmi_transfer bench request s).1)

  -- The status that the round after `k` such rounds brings.
  abbrev pub status_after : ℕ → S → ℕ
  status_after k s = dmi_status (dmi_transfer bench request (after_busy k s)).0

  -- The first `k` rounds find the interface busy.
  unfoldable pub BusyFor : ℕ → S → Type 0
  BusyFor zero s = Unit
  BusyFor (suc k) s =
      (dmi_status (dmi_transfer bench request s).0 ≡ dmi_busy)
      × BusyFor k (reset_dmi bench (dmi_transfer bench request s).1)

  -- What an access whose last round is `r` returns.
  abbrev pub verdict : ℕ × S → Result ℕ × S
  verdict r =
      (if dmi_status r.0 == 0 then ok (dmi_data r.0) else thrown "DMI transaction failed", r.1)

  pub dmi_retry-settled :
      (k n : ℕ) (s : S)
      → k < n
      → BusyFor k s
      → status_after k s ≢ dmi_busy
      → dmi_retry bench n request s ≡ verdict (dmi_transfer bench request (after_busy k s))
  unfolding dmi_retry BusyFor after_busy
  dmi_retry-settled k zero s h b e = absurd (omega arith)
  dmi_retry-settled zero (suc n) s h b e = ground arith
  dmi_retry-settled (suc k) (suc n) s h b e = ground (
    arith,
    dmi_retry-settled k n (reset_dmi bench (dmi_transfer bench request s).1) (omega arith) b.1 e,
  )

  pub dmi_retry-busy :
      (n : ℕ) (s : S)
      → BusyFor n s
      → dmi_retry bench n request s ≡ (thrown "DMI remained busy", after_busy n s)
  unfolding dmi_retry BusyFor after_busy
  dmi_retry-busy zero s b = refl
  dmi_retry-busy (suc n) s b =
      ground (arith, dmi_retry-busy n (reset_dmi bench (dmi_transfer bench request s).1) b.1)

below_or_at : (k n : ℕ) → k ≤ n → (k < n) ⊎ (k ≡ n)
below_or_at k n h = ground arith

not_at : (k n : ℕ) (P : Type 0) → k < n → (k ≡ n) ⊎ P → P
not_at k n P h (inl e) = absurd (omega (arith, h, e))
not_at k n P h (inr p) = p

module _ {S : Type 0} (bench : Bench S) (request : ℕ) where
  settled_early :
      (k : ℕ) (s : S)
      → k < 8
      → BusyFor bench request k s
      → status_after bench request k s ≢ dmi_busy
      → dmi_retry bench 8 request s ≡ (
          if k == 8
          then (thrown "DMI remained busy", after_busy bench request 8 s)
          else verdict bench request (dmi_transfer bench request (after_busy bench request k s)))
  settled_early k s h b e =
      let other : (k == 8) ≡ false = ground (arith, h) in
      rw other (dmi_retry-settled bench request k 8 s h b e)

  settled_late :
      (k : ℕ) (s : S)
      → k ≡ 8
      → BusyFor bench request k s
      → dmi_retry bench 8 request s ≡ (
          if k == 8
          then (thrown "DMI remained busy", after_busy bench request 8 s)
          else verdict bench request (dmi_transfer bench request (after_busy bench request k s)))
  settled_late k s e b =
      let eight : (k == 8) ≡ true = ground (arith, e) in
      rw eight (dmi_retry-busy bench request 8 s (subst (λ n. BusyFor bench request n s) e b))

-- An access tries exactly eight times. After `k` rounds that find the interface busy, each followed
-- by a reset of the interface, it ends: with fewer than eight of them, if the next round does not
-- find the interface busy, that round decides, by its data when the status is 0 and by an error
-- otherwise; with eight of them it fails, whatever another round would bring.
pub dmi_access-settled :
    {S : Type 0} (bench : Bench S) (address value operation k : ℕ) (s : S)
    → let request = encode_dmi address value operation in
      k ≤ 8
      → BusyFor bench request k s
      → (k ≡ 8) ⊎ (status_after bench request k s ≢ dmi_busy)
      → dmi_access bench address value operation s ≡ (
          if k == 8
          then (thrown "DMI remained busy", after_busy bench request 8 s)
          else verdict bench request (dmi_transfer bench request (after_busy bench request k s)))
unfolding dmi_access
dmi_access-settled bench address value operation k s h b e =
    let request = encode_dmi address value operation in
    elim (below_or_at k 8 h) [
      | inl below ↦ settled_early bench request k s below b (not_at k 8 _ below e)
      | inr at ↦ settled_late bench request k s at b
    ]
