-- ===== src/SocMemory/Bytes.antt =====
-- The bytes of the on-chip memory, whichever macro holds them.
use friscv_soc.Common.{
  ℕ, zero, suc, ◌*◌, ◌/◌, ◌%◌, ◌^◌, ◌<◌, ◌≡◌, refl, ap, ◌∙◌, Bool, true, false, ◌==◌, if◌then◌else◌,
  arith, Bool-cases, inl, inr, ==_iff,
}
use friscv_soc.Common.Results.{ok}
use friscv_soc.SocMemory.{
  Sram, ocm_words, set_word, get_word, set_byte, write_byte, sram_way, sram_index,
}

-- Byte `k` of a word.
abbrev lane : ℕ → ℕ → ℕ
lane word zero = word % 256
lane word (suc zero) = word / 2 ^ 8 % 256
lane word (suc (suc zero)) = word / 2 ^ 16 % 256
lane word (suc (suc (suc k))) = word / 2 ^ 24 % 256

-- The byte at an offset in the memory.
unfoldable pub byte_at : Bool → Sram → ℕ → ℕ
byte_at ocm_only sram offset = lane (get_word ocm_only (offset / 4) sram) (offset % 4)

lane-set_byte :
    (word k j byte : ℕ)
    → k < 4
    → j < 4
    → byte < 256
    → lane (set_byte word (k * 8) byte) j ≡ (if k == j then byte else lane word j)
unfolding set_byte
lane-set_byte word zero zero byte hk hj hb = omega arith
lane-set_byte word zero (suc zero) byte hk hj hb = omega arith
lane-set_byte word zero (suc (suc zero)) byte hk hj hb = omega arith
lane-set_byte word zero (suc (suc (suc zero))) byte hk hj hb = omega arith
lane-set_byte word (suc zero) zero byte hk hj hb = omega arith
lane-set_byte word (suc zero) (suc zero) byte hk hj hb = omega arith
lane-set_byte word (suc zero) (suc (suc zero)) byte hk hj hb = omega arith
lane-set_byte word (suc zero) (suc (suc (suc zero))) byte hk hj hb = omega arith
lane-set_byte word (suc (suc zero)) zero byte hk hj hb = omega arith
lane-set_byte word (suc (suc zero)) (suc zero) byte hk hj hb = omega arith
lane-set_byte word (suc (suc zero)) (suc (suc zero)) byte hk hj hb = omega arith
lane-set_byte word (suc (suc zero)) (suc (suc (suc zero))) byte hk hj hb = omega arith
lane-set_byte word (suc (suc (suc zero))) zero byte hk hj hb = omega arith
lane-set_byte word (suc (suc (suc zero))) (suc zero) byte hk hj hb = omega arith
lane-set_byte word (suc (suc (suc zero))) (suc (suc zero)) byte hk hj hb = omega arith
lane-set_byte word (suc (suc (suc zero))) (suc (suc (suc zero))) byte hk hj hb = omega arith
lane-set_byte word (suc (suc (suc (suc k)))) j byte hk hj hb = absurd (omega arith)
lane-set_byte word zero (suc (suc (suc (suc j)))) byte hk hj hb = absurd (omega arith)
lane-set_byte word (suc zero) (suc (suc (suc (suc j)))) byte hk hj hb = absurd (omega arith)
lane-set_byte word (suc (suc zero)) (suc (suc (suc (suc j)))) byte hk hj hb = absurd (omega arith)
lane-set_byte word (suc (suc (suc zero))) (suc (suc (suc (suc j)))) byte hk hj hb =
    absurd (omega arith)

-- Two words have the same place only if they are the same word.
get_word-set_word :
    (ocm_only : Bool) (i j word : ℕ) (sram : Sram)
    → get_word ocm_only j (set_word ocm_only i word sram)
      ≡ (if i == j then word else get_word ocm_only j sram)
unfolding get_word set_word sram_way sram_index
get_word-set_word true i j word sram = ground arith
get_word-set_word false i j word sram = ground arith

same_offset : (a b : ℕ) → a / 4 ≡ b / 4 → (a % 4 == b % 4) ≡ (a == b)
same_offset a b e = ground arith

other_word : (a b : ℕ) → (a / 4 == b / 4) ≡ false → (a == b) ≡ false
other_word a b f = ground arith

-- The byte at `b` after a write, in a memory with the word of `offset` replaced.
byte_after :
    (ocm_only : Bool) (offset byte b : ℕ) (sram : Sram)
    → byte < 256
    → lane
        (get_word ocm_only (b / 4) (
          set_word ocm_only
            (offset / 4)
            (set_byte (get_word ocm_only (offset / 4) sram) (offset % 4 * 8) byte)
            sram))
        (b % 4)
      ≡ (if offset == b then byte else lane (get_word ocm_only (b / 4) sram) (b % 4))
byte_after ocm_only offset byte b sram hb =
    let word = get_word ocm_only (offset / 4) sram in
    let new = set_byte word (offset % 4 * 8) byte in
    ap (λ w. lane w (b % 4)) (get_word-set_word ocm_only (offset / 4) (b / 4) new sram)
    ∙ elim (Bool-cases (offset / 4 == b / 4)) [
      | inl t ↦
          let e : offset / 4 ≡ b / 4 = (==_iff (offset / 4) (b / 4)).0 t in
          rw t (
            lane-set_byte word (offset % 4) (b % 4) byte (omega arith) (omega arith) hb
            ∙ rw (e, same_offset offset b e) refl)
      | inr f ↦ rw (f, other_word offset b f) refl
    ]

write_inside :
    (ocm_only : Bool) (offset byte : ℕ) (sram : Sram)
    → offset < 4 * ocm_words
    → write_byte ocm_only offset byte sram ≡ (
      ok tt,
      set_word ocm_only
          (offset / 4)
          (set_byte (get_word ocm_only (offset / 4) sram) (offset % 4 * 8) byte)
          sram,
    )
unfolding write_byte
write_inside ocm_only offset byte sram h = ground arith

-- A write of a byte inside the memory changes that byte and no other.
pub write_byte_lem :
    (ocm_only : Bool) (offset byte b : ℕ) (sram : Sram)
    → offset < 4 * ocm_words
    → byte < 256
    → let r = write_byte ocm_only offset byte sram in
      (r.0 ≡ ok tt)
      × (byte_at ocm_only r.1 b ≡ (if offset == b then byte else byte_at ocm_only sram b))
unfolding byte_at
write_byte_lem ocm_only offset byte b sram h hb =
    rw (write_inside ocm_only offset byte sram h) (refl, byte_after ocm_only offset byte b sram hb)
