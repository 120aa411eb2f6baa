-- ===== src/Jtag/SystemBus/Memory.antt =====
-- The accesses of memory by the driver, against the bytes behind the bus.
use friscv_soc.Common.{
  ℕ, ◌+◌, ◌/◌, ◌%◌, ◌^◌, ◌<◌, ◌≤◌, ◌≡◌, refl, ap, ◌∙◌, Bool, true, false, List, [], ◌∷◌, ◌==◌,
  arith,
}
use friscv_soc.Common.Words.{u8, u32, word_of}
use friscv_soc.Common.Arrays.{length}
use friscv_soc.Common.Results.{Result, ok, Act, ◌>>◌}
use friscv_soc.Common.Bytes.{AllBytes}
use friscv_soc.Common.Bytes.{stored, stored-u32}
use friscv_soc.Jtag.{sba_word, pack_word}
use friscv_soc.Jtag.Debug.{Dmi, sba_write, write_memory}
use friscv_soc.Jtag.SystemBus.{Bus, store, IsSystemBus}
use friscv_soc.Jtag.SystemBus.Wait.{sba_write_lem}

word_stored :
    (mem : ℕ → ℕ) (a b0 b1 b2 b3 : ℕ) (bytes : List ℕ)
    → AllBytes (b0 ∷ b1 ∷ b2 ∷ b3 ∷ [])
    → stored (store mem sba_word a (pack_word b0 b1 b2 b3)) (a + 4) bytes
      ≡ stored mem a (b0 ∷ b1 ∷ b2 ∷ b3 ∷ bytes)
unfolding stored pack_word
word_stored mem a b0 b1 b2 b3 bytes (h0, (h1, (h2, (h3, _)))) =
    let w = word_of b0 b1 b2 b3 in
    let e0 : u8 w ≡ u8 b0 = omega arith in
    let e1 : u8 (w / 2 ^ 8) ≡ u8 b1 = omega arith in
    let e2 : u8 (w / 2 ^ 16) ≡ u8 b2 = omega arith in
    let e3 : u8 (w / 2 ^ 24) ≡ u8 b3 = omega arith in
    let a2 : a + 1 + 1 ≡ a + 2 = omega arith in
    let a3 : a + 2 + 1 ≡ a + 3 = omega arith in
    let a4 : a + 3 + 1 ≡ a + 4 = omega arith in rw (a2, a3, a4, e0, e1, e2, e3) refl

-- What a write in progress leaves, and what a read gives.
pub record Written (bus_mem : ℕ → ℕ) (a : ℕ) (bytes : List ℕ) (b : Bus) (r : Result (Unit {0}))
    : Type 0 where
  pub went_through : r ≡ ok tt
  pub mem_of : b.mem ≡ stored bus_mem a bytes
  pub is_free : b.busy ≡ 0

module _ {S : Type 0} (dmi : Dmi S) (latency : ℕ) (bus : S → Bus)
    (sys : IsSystemBus dmi latency bus) (short : latency < 1000) where
  Written-case :
      (t : Bool) (f g : Act S (Unit {0})) (mem : ℕ → ℕ) (a : ℕ) (bytes : List ℕ) (s : S)
      → (t ≡ true → Written mem a bytes (bus (f s).1) (f s).0)
      → (t ≡ false → Written mem a bytes (bus (g s).1) (g s).0)
      → let r = (elim t as (λ x. Act S (Unit {0})) [ true ↦ f | false ↦ g ]) s in
        Written mem a bytes (bus r.1) r.0
  Written-case true f g mem a bytes s p q = p refl
  Written-case false f g mem a bytes s p q = q refl

  -- One byte, and then the rest.
  byte_then :
      (b : ℕ) (bytes : List ℕ) (a : ℕ) (s : S) (k : Act S (Unit {0}))
      → a + length (b ∷ bytes) ≤ 2 ^ 32
      → (bus s).busy ≡ 0
      → (let t = (sba_write dmi a b 0 s).1 in
          (bus t).busy ≡ 0 → Written (bus t).mem (u32 (a + 1)) bytes (bus (k t).1) (k t).0)
      → let r = (sba_write dmi a b 0 >> k) s in Written (bus s).mem a (b ∷ bytes) (bus r.1) r.0
  unfolding stored
  byte_then b bytes a s k h z rest =
      let t = (sba_write dmi a b 0 s).1 in
      let (done, mem_ok, free_ok) =
        sba_write_lem dmi latency bus sys short a b 0 s (omega arith) z in
      let run : (sba_write dmi a b 0 >> k) s ≡ k t = ground (arith, done) in
      let tail = rest free_ok in
      rw run (record {
        went_through = tail.went_through;
        mem_of =
            tail.mem_of
            ∙ stored-u32 (bus t).mem (a + 1) bytes (omega arith)
            ∙ ap (λ m. stored m (a + 1) bytes) mem_ok;
        is_free = tail.is_free;
      })

  -- One word, and then the rest.
  word_then :
      (b0 b1 b2 b3 : ℕ) (bytes : List ℕ) (a : ℕ) (s : S) (k : Act S (Unit {0}))
      → AllBytes (b0 ∷ b1 ∷ b2 ∷ b3 ∷ [])
      → a + length (b0 ∷ b1 ∷ b2 ∷ b3 ∷ bytes) ≤ 2 ^ 32
      → (bus s).busy ≡ 0
      → (let t = (sba_write dmi a (pack_word b0 b1 b2 b3) sba_word s).1 in
          (bus t).busy ≡ 0 → Written (bus t).mem (u32 (a + 4)) bytes (bus (k t).1) (k t).0)
      → let r = (sba_write dmi a (pack_word b0 b1 b2 b3) sba_word >> k) s in
        Written (bus s).mem a (b0 ∷ b1 ∷ b2 ∷ b3 ∷ bytes) (bus r.1) r.0
  word_then b0 b1 b2 b3 bytes a s k all h z rest =
      let w = pack_word b0 b1 b2 b3 in
      let t = (sba_write dmi a w sba_word s).1 in
      let (done, mem_ok, free_ok) =
        sba_write_lem dmi latency bus sys short a w sba_word s (omega arith) z in
      let run : (sba_write dmi a w sba_word >> k) s ≡ k t = ground (arith, done) in
      let tail = rest free_ok in
      rw run (record {
        went_through = tail.went_through;
        mem_of =
            tail.mem_of
            ∙ stored-u32 (bus t).mem (a + 4) bytes (omega arith)
            ∙ ap (λ m. stored m (a + 4) bytes) mem_ok
            ∙ word_stored (bus s).mem a b0 b1 b2 b3 bytes all;
        is_free = tail.is_free;
      })

  -- A write of memory goes through and puts exactly the bytes given into the memory, one after the
  -- other from the address on, whether they travel as words or as bytes; the area does not pass
  -- the end of the address space.
  pub write_memory_lem :
      (bytes : List ℕ) (a : ℕ) (s : S)
      → AllBytes bytes
      → a + length bytes ≤ 2 ^ 32
      → (bus s).busy ≡ 0
      → let r = write_memory dmi a bytes s in Written (bus s).mem a bytes (bus r.1) r.0
  unfolding write_memory stored
  write_memory_lem [] a s all h z = record { went_through = refl; mem_of = refl; is_free = z }
  write_memory_lem (b0 ∷ b1 ∷ b2 ∷ b3 ∷ bytes) a s all h z =
      Written-case (a % 4 == 0) _ _ (bus s).mem a (b0 ∷ b1 ∷ b2 ∷ b3 ∷ bytes) s
        (λ _.
          word_then b0 b1 b2 b3 bytes a s _ (all.0, (all.1.0, (all.1.1.0, (all.1.1.1.0, tt)))) h z
            (write_memory_lem bytes (u32 (a + 4)) _ all.1.1.1.1 (omega arith)))
        (λ _.
          byte_then b0 (b1 ∷ b2 ∷ b3 ∷ bytes) a s _ h z
            (write_memory_lem (b1 ∷ b2 ∷ b3 ∷ bytes) (u32 (a + 1)) _ all.1 (omega arith)))
  write_memory_lem (b0 ∷ []) a s all h z =
      byte_then b0 [] a s _ h z (write_memory_lem [] (u32 (a + 1)) _ all.1 (omega arith))
  write_memory_lem (b0 ∷ b1 ∷ []) a s all h z =
      byte_then b0 (b1 ∷ []) a s _ h z
        (write_memory_lem (b1 ∷ []) (u32 (a + 1)) _ all.1 (omega arith))
  write_memory_lem (b0 ∷ b1 ∷ b2 ∷ []) a s all h z =
      byte_then b0 (b1 ∷ b2 ∷ []) a s _ h z
        (write_memory_lem (b1 ∷ b2 ∷ []) (u32 (a + 1)) _ all.1 (omega arith))
