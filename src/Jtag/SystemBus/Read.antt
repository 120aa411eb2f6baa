-- ===== src/Jtag/SystemBus/Read.antt =====
-- What the driver reads back.
use friscv_soc.Common.{
  ℕ, zero, suc, ◌+◌, ◌/◌, ◌%◌, ◌^◌, ◌<◌, ◌≤◌, ◌≡◌, refl, ap, ◌∙◌, Bool, true, false, List, [], ◌∷◌,
  ◌++◌, ◌==◌, arith,
}
use mathlib.Core.Path.{ap₂}
use friscv_soc.Common.Words.{u8, u32, word_of}
use friscv_soc.Common.Results.{Result, ok, Act, ◌>>=◌, pure}
use friscv_soc.Common.Bytes.{loaded, IsByteMemory, loaded-u32}
use friscv_soc.Jtag.{sba_word, word_bytes}
use friscv_soc.Jtag.Debug.{Dmi, sba_read, read_memory}
use friscv_soc.Jtag.SystemBus.{Bus, load, IsSystemBus}
use friscv_soc.Jtag.SystemBus.Wait.{sba_read_lem}

-- What a read gives and leaves.
pub record Given (mem : ℕ → ℕ) (bytes : List ℕ) (b : Bus) (r : Result (List ℕ)) : Type 0 where
  pub bytes_of : r ≡ ok bytes
  pub mem_kept : b.mem ≡ mem
  pub is_free : b.busy ≡ 0

Given-same :
    {mem : ℕ → ℕ} {xs ys : List ℕ} {b : Bus} {r : Result (List ℕ)}
    → xs ≡ ys
    → Given mem xs b r
    → Given mem ys b r
Given-same e g = record {
  bytes_of = g.bytes_of ∙ ap ok e;
  mem_kept = g.mem_kept;
  is_free = g.is_free;
}

word_loaded :
    (mem : ℕ → ℕ) (a n : ℕ)
    → IsByteMemory mem
    → word_bytes (word_of (mem a) (mem (a + 1)) (mem (a + 2)) (mem (a + 3))) ++ loaded mem (a + 4) n
      ≡ loaded mem a (suc (suc (suc (suc n))))
unfolding word_bytes loaded
word_loaded mem a n h =
    let w = word_of (mem a) (mem (a + 1)) (mem (a + 2)) (mem (a + 3)) in
    let e0 : u8 w ≡ mem a = omega (arith, h a, h (a + 1), h (a + 2), h (a + 3)) in
    let e1 : u8 (w / 2 ^ 8) ≡ mem (a + 1) = omega (arith, h a, h (a + 1), h (a + 2), h (a + 3)) in
    let e2 : u8 (w / 2 ^ 16) ≡ mem (a + 2) = omega (arith, h a, h (a + 1), h (a + 2), h (a + 3)) in
    let e3 : u8 (w / 2 ^ 24) ≡ mem (a + 3) = omega (arith, h a, h (a + 1), h (a + 2), h (a + 3)) in
    let a2 : a + 1 + 1 ≡ a + 2 = omega arith in
    let a3 : a + 2 + 1 ≡ a + 3 = omega arith in
    let a4 : a + 3 + 1 ≡ a + 4 = omega arith in rw (a2, a3, a4, e0, e1, e2, e3) refl

module _ {S : Type 0} (dmi : Dmi S) (latency : ℕ) (bus : S → Bus)
    (sys : IsSystemBus dmi latency bus) (short : latency < 1000) where
  Given-case :
      (t : Bool) (f g : Act S (List ℕ)) (mem : ℕ → ℕ) (bytes : List ℕ) (s : S)
      → Given mem bytes (bus (f s).1) (f s).0
      → Given mem bytes (bus (g s).1) (g s).0
      → let r = (elim t as (λ x. Act S (List ℕ)) [ true ↦ f | false ↦ g ]) s in
        Given mem bytes (bus r.1) r.0
  Given-case true f g mem bytes s p q = p
  Given-case false f g mem bytes s p q = q

  -- One access, whose value makes up the first bytes, and then the rest.
  read_then :
      (access a : ℕ) (mem : ℕ → ℕ) (bytes : List ℕ) (front : ℕ → List ℕ) (s : S)
      (k : Act S (List ℕ))
      → access < 8
      → (bus s).mem ≡ mem
      → (bus s).busy ≡ 0
      → ((t : S) → (bus t).mem ≡ mem → (bus t).busy ≡ 0 → Given mem bytes (bus (k t).1) (k t).0)
      → let r = (sba_read dmi a access >>= λ v. k >>= λ rest. pure (front v ++ rest)) s in
        Given mem (front (load mem access a) ++ bytes) (bus r.1) r.0
  read_then access a mem bytes front s k small m z rest =
      let t = (sba_read dmi a access s).1 in
      let (done, mem_ok, free_ok) = sba_read_lem dmi latency bus sys short a access s small z in
      let tail = rest t (mem_ok ∙ m) free_ok in
      let got : (sba_read dmi a access s).0 ≡ ok (load mem access a) =
        done ∙ ap (λ x. ok (load x access a)) m in
      let run : (sba_read dmi a access >>= λ v. k >>= λ rest. pure (front v ++ rest)) s
          ≡ (ok (front (load mem access a) ++ bytes), (k t).1) =
        ground (arith, got, tail.bytes_of) in
      rw run (record { bytes_of = refl; mem_kept = tail.mem_kept; is_free = tail.is_free })

  read_byte_lem :
      (n a : ℕ) (s : S) (mem : ℕ → ℕ)
      → IsByteMemory mem
      → a + suc n ≤ 2 ^ 32
      → (bus s).mem ≡ mem
      → (bus s).busy ≡ 0
      → ((t : S)
          → (bus t).mem ≡ mem
          → (bus t).busy ≡ 0
          → let r = read_memory dmi (u32 (a + 1)) n t in
            Given mem (loaded mem (u32 (a + 1)) n) (bus r.1) r.0)
      → let r =
          (sba_read dmi a 0 >>= λ byte.
          read_memory dmi (u32 (a + 1)) n >>= λ rest. pure (u8 byte ∷ rest))
            s in
        Given mem (loaded mem a (suc n)) (bus r.1) r.0
  unfolding loaded
  read_byte_lem n a s mem h fits m z rest =
      let e : u8 (mem a) ≡ mem a = omega (arith, h a) in
      Given-same (ap₂ ◌∷◌ e (loaded-u32 mem (a + 1) n (omega arith))) (
        read_then 0 a mem (loaded mem (u32 (a + 1)) n) (λ v. u8 v ∷ []) s
          (read_memory dmi (u32 (a + 1)) n) (omega arith) m z rest)

  -- A read of memory goes through, gives the bytes of the memory one after the other, whether they
  -- travel as words or as bytes, and changes nothing; the area does not pass the end of the address
  -- space.
  pub read_memory_lem :
      (n a : ℕ) (s : S) (mem : ℕ → ℕ)
      → IsByteMemory mem
      → a + n ≤ 2 ^ 32
      → (bus s).mem ≡ mem
      → (bus s).busy ≡ 0
      → let r = read_memory dmi a n s in Given mem (loaded mem a n) (bus r.1) r.0
  unfolding read_memory loaded
  read_memory_lem zero a s mem h fits m z = record { bytes_of = refl; mem_kept = m; is_free = z }
  read_memory_lem (suc (suc (suc (suc n)))) a s mem h fits m z =
      Given-case (a % 4 == 0) _ _ mem (loaded mem a (suc (suc (suc (suc n))))) s
        (Given-same
          (ap (λ l. word_bytes (word_of (mem a) (mem (a + 1)) (mem (a + 2)) (mem (a + 3))) ++ l)
              (loaded-u32 mem (a + 4) n (omega arith))
            ∙ word_loaded mem a n h)
          (read_then sba_word a mem (loaded mem (u32 (a + 4)) n) word_bytes s
            (read_memory dmi (u32 (a + 4)) n) (omega arith) m z
            (λ t mt zt. read_memory_lem n (u32 (a + 4)) t mem h (omega arith) mt zt)))
        (read_byte_lem (suc (suc (suc n))) a s mem h fits m z (λ t mt zt.
          read_memory_lem (suc (suc (suc n))) (u32 (a + 1)) t mem h (omega arith) mt zt))
  read_memory_lem (suc zero) a s mem h fits m z =
      read_byte_lem zero a s mem h fits m z
        (λ t mt zt. read_memory_lem zero (u32 (a + 1)) t mem h (omega arith) mt zt)
  read_memory_lem (suc (suc zero)) a s mem h fits m z =
      read_byte_lem (suc zero) a s mem h fits m z
        (λ t mt zt. read_memory_lem (suc zero) (u32 (a + 1)) t mem h (omega arith) mt zt)
  read_memory_lem (suc (suc (suc zero))) a s mem h fits m z =
      read_byte_lem (suc (suc zero)) a s mem h fits m z
        (λ t mt zt. read_memory_lem (suc (suc zero)) (u32 (a + 1)) t mem h (omega arith) mt zt)
