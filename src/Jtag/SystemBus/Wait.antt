-- ===== src/Jtag/SystemBus/Wait.antt =====
-- One access of the bus: the wait and the single read and write.
use friscv_soc.Common.{
  ℕ, zero, suc, ◌+◌, ◌-◌, ◌*◌, ◌^◌, ◌/◌, ◌%◌, ◌<◌, ◌≤◌, ◌≡◌, true, false, not, ◌&&◌, ◌==◌, leb,
  refl, ap, ◌∙◌, arith, ◌⊎◌, inl, inr,
}
use friscv_soc.Common.Words.{test_bit}
use friscv_soc.Common.Results.{ok}
use friscv_soc.Jtag.{sbcs, sbaddress0, sbdata0}
use friscv_soc.Jtag.Debug.{Dmi, wait_sba_from, wait_sba, sba_read, sba_write}
use friscv_soc.Jtag.SystemBus.{Bus, load, store, reg_write, status_of, IsSystemBus}

Nat-cases : (n : ℕ) → (n ≡ 0) ⊎ (0 < n)
Nat-cases n = ground arith

abbrev free : Bus → Bus
free b = record b { busy = 0 }

-- What the three writes of an access by address and data leave of the bus.
written_lem :
    (latency a v access : ℕ) (b : Bus)
    → access < 8
    → let c =
        reg_write latency sbdata0 v
          (reg_write latency sbaddress0 a (reg_write latency sbcs (access * 2 ^ 17) b)) in
      (c.mem ≡ store b.mem access a v) × (c.busy ≡ latency)
unfolding reg_write
written_lem latency a v access b h = ground arith

fetched_lem :
    (latency a access : ℕ) (b : Bus)
    → access < 8
    → let c =
        reg_write latency sbaddress0 a (reg_write latency sbcs (access * 2 ^ 17 + 2 ^ 20) b) in
      (c.mem ≡ b.mem) × (c.busy ≡ latency) × (c.held ≡ load b.mem access a)
unfolding reg_write
fetched_lem latency a access b h = ground arith

-- What the driver looks at in the status of a module: whether it is busy, and the errors.
status_of_lem :
    (caps : ℕ) (b : Bus)
    → (test_bit (status_of caps b) 21 ≡ not (b.busy == 0))
      × (test_bit (status_of caps b) 22 ≡ false)
      × (status_of caps b / 2 ^ 12 % 8 ≡ 0)
unfolding status_of
status_of_lem caps b = ground arith

-- `initialize` accepts the module.
status_of-accepted :
    (caps : ℕ) (b : Bus)
    → 32 ≤ caps / 2 ^ 5 % 2 ^ 7
    → test_bit caps 2 ≡ true
    → let status = status_of caps b in
      (status / 2 ^ 29 % 8 == 1) && leb 32 (status / 2 ^ 5 % 128) && test_bit status 2 ≡ true
unfolding status_of
status_of-accepted caps b wide words = ground arith

module _ {S : Type 0} (dmi : Dmi S) (latency : ℕ) (bus : S → Bus)
    (sys : IsSystemBus dmi latency bus) (short : latency < 1000) where
  abbrev written : ℕ → ℕ → ℕ → Bus → Bus
  written a v access b =
      reg_write latency sbdata0 v
        (reg_write latency sbaddress0 a (reg_write latency sbcs (access * 2 ^ 17) b))

  abbrev fetched : ℕ → ℕ → Bus → Bus
  fetched a access b =
      reg_write latency sbaddress0 a (reg_write latency sbcs (access * 2 ^ 17 + 2 ^ 20) b)

  wait_round :
      (n : ℕ) (s : S)
      → 0 < (bus s).busy
      → wait_sba_from dmi (suc n) s ≡ wait_sba_from dmi n (dmi.read sbcs s).1
  unfolding wait_sba_from
  wait_round n s h = ground (arith, sys.status_ok s, status_of_lem sys.caps (bus s))

  wait_end :
      (n : ℕ) (s : S)
      → (bus s).busy ≡ 0
      → wait_sba_from dmi (suc n) s ≡ (ok tt, (dmi.read sbcs s).1)
  unfolding wait_sba_from
  wait_end n s h = ground (arith, sys.status_ok s, status_of_lem sys.caps (bus s))

  -- The wait ends, once the bus is no longer busy, and only the busy rounds pass.
  pub wait_sba_from_lem :
      (n : ℕ) (s : S)
      → (bus s).busy < n
      → ((wait_sba_from dmi n s).0 ≡ ok tt)
        × (bus (wait_sba_from dmi n s).1 ≡ record (bus s) { busy = 0 })
  wait_sba_from_lem zero s h = absurd (omega arith)
  wait_sba_from_lem (suc n) s h = elim (Nat-cases (bus s).busy) [
    | inl z ↦ rw (wait_end n s z) (refl, sys.status_bus s ∙ ground arith)
    | inr p ↦
        let t = (dmi.read sbcs s).1 in
        let e : (bus t).busy ≡ (bus s).busy - 1 = ap (λ b. b.busy) (sys.status_bus s) in
        let (done, left) = wait_sba_from_lem n t (omega arith) in
        rw (wait_round n s p) (done, left ∙ ap free (sys.status_bus s))
  ]

  -- A write of one byte or word: the memory has it, and the bus is free again.
  pub sba_write_lem :
      (a v access : ℕ) (s : S)
      → access < 8
      → (bus s).busy ≡ 0
      → let t = (sba_write dmi a v access s).1 in
        ((sba_write dmi a v access s).0 ≡ ok tt)
        × ((bus t).mem ≡ store (bus s).mem access a v)
        × ((bus t).busy ≡ 0)
  unfolding sba_write wait_sba
  sba_write_lem a v access s h z =
      let s1 = (dmi.write sbcs (access * 2 ^ 17) s).1 in
      let s2 = (dmi.write sbaddress0 a s1).1 in
      let s3 = (dmi.write sbdata0 v s2).1 in
      let b3 : bus s3 ≡ written a v access (bus s) =
        sys.write_bus sbdata0 v s2
        ∙ ap (reg_write latency sbdata0 v) (
            sys.write_bus sbaddress0 a s1
            ∙ ap (reg_write latency sbaddress0 a) (sys.write_bus sbcs (access * 2 ^ 17) s)) in
      let (mem_ok, busy_ok) = written_lem latency a v access (bus s) h in
      let (done, left) = wait_sba_from_lem 1000 s3 (omega (arith, ap (λ b. b.busy) b3)) in
      let run : sba_write dmi a v access s ≡ wait_sba_from dmi 1000 s3 = ground (
        arith,
        sys.write_ok sbcs (access * 2 ^ 17) s,
        sys.write_ok sbaddress0 a s1,
        sys.write_ok sbdata0 v s2,
      ) in
      rw run (done, ap (λ b. b.mem) left ∙ ap (λ b. b.mem) b3 ∙ mem_ok, ap (λ b. b.busy) left)

  -- A read of one byte or word gives what the memory has, and leaves the memory.
  pub sba_read_lem :
      (a access : ℕ) (s : S)
      → access < 8
      → (bus s).busy ≡ 0
      → let t = (sba_read dmi a access s).1 in
        ((sba_read dmi a access s).0 ≡ ok (load (bus s).mem access a))
        × ((bus t).mem ≡ (bus s).mem)
        × ((bus t).busy ≡ 0)
  unfolding sba_read wait_sba
  sba_read_lem a access s h z =
      let s1 = (dmi.write sbcs (access * 2 ^ 17 + 2 ^ 20) s).1 in
      let s2 = (dmi.write sbaddress0 a s1).1 in
      let b2 : bus s2 ≡ fetched a access (bus s) =
        sys.write_bus sbaddress0 a s1
        ∙ ap (reg_write latency sbaddress0 a) (sys.write_bus sbcs (access * 2 ^ 17 + 2 ^ 20) s) in
      let (mem_ok, busy_ok, held_ok) = fetched_lem latency a access (bus s) h in
      let (done, left) = wait_sba_from_lem 1000 s2 (omega (arith, ap (λ b. b.busy) b2)) in
      let t = (wait_sba_from dmi 1000 s2).1 in
      let run : sba_read dmi a access s ≡ dmi.read sbdata0 t = ground (
        arith,
        sys.write_ok sbcs (access * 2 ^ 17 + 2 ^ 20) s,
        sys.write_ok sbaddress0 a s1,
        done,
      ) in
      rw run (
        sys.data_ok t ∙ ap (λ b. ok b.held) (left ∙ ap free b2) ∙ ap ok held_ok,
        ap (λ b. b.mem) (sys.data_bus t ∙ left ∙ ap free b2) ∙ mem_ok,
        ap (λ b. b.busy) (sys.data_bus t ∙ left),
      )
