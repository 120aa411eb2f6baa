-- ===== src/SdCard/Crc.antt =====
-- `crc16_ccitt` of sd_card.cpp, and the law by which a host checks it.
use Prim.Native.Nat.{bit_xor}
use friscv_soc.Common.{
  ℕ, zero, suc, ◌*◌, ◌/◌, ◌%◌, ◌≤◌, ◌<◌, ◌≡◌, refl, ap, ◌∙◌, List, [], ◌∷◌, ◌++◌, if◌then◌else◌,
  arith,
}
use friscv_soc.Common.Words.{u16, test_bit}
use friscv_soc.Common.Xor.{bit_xor_self, bit_xor_high}

-- One round of the inner loop.
unfoldable pub crc_bit : ℕ → ℕ
crc_bit crc = if test_bit crc 15 then u16 (bit_xor (crc * 2) 0x1021) else u16 (crc * 2)

unfoldable pub crc_bits : ℕ → ℕ → ℕ
crc_bits zero crc = crc
crc_bits (suc n) crc = crc_bits n (crc_bit crc)

-- One round of the outer loop.
unfoldable pub crc_byte : ℕ → ℕ → ℕ
crc_byte crc b = crc_bits 8 (u16 (bit_xor crc (u16 (b * 256))))

unfoldable pub crc_from : ℕ → List ℕ → ℕ
crc_from crc [] = crc
crc_from crc (b ∷ bs) = crc_from (crc_byte crc b) bs

unfoldable pub crc16_ccitt : List ℕ → ℕ
crc16_ccitt bytes = crc_from 0 bytes

crc_bit-lt : (crc : ℕ) → crc_bit crc < 65536
unfolding crc_bit
crc_bit-lt crc = ground arith

crc_byte-lt : (crc b : ℕ) → crc_byte crc b < 65536
unfolding crc_byte crc_bits
crc_byte-lt crc b = crc_bit-lt _

crc_from-lt : (bytes : List ℕ) (crc : ℕ) → crc < 65536 → crc_from crc bytes < 65536
unfolding crc_from
crc_from-lt [] crc h = h
crc_from-lt (b ∷ bs) crc h = crc_from-lt bs (crc_byte crc b) (crc_byte-lt crc b)

crc_from-append :
    (xs ys : List ℕ) (crc : ℕ) → crc_from crc (xs ++ ys) ≡ crc_from (crc_from crc xs) ys
unfolding crc_from
crc_from-append [] ys crc = refl
crc_from-append (x ∷ xs) ys crc = crc_from-append xs ys (crc_byte crc x)

crc_bit_small : (crc : ℕ) → crc < 32768 → crc_bit crc ≡ crc * 2
unfolding crc_bit
crc_bit_small crc h = ground arith

doubles : ℕ → ℕ → ℕ
doubles zero x = x
doubles (suc n) x = doubles n (x * 2)

le-doubles : (n x : ℕ) → x ≤ doubles n x
unfolding doubles
le-doubles zero x = omega arith
le-doubles (suc n) x = omega (arith, le-doubles n (x * 2))

-- With room at the top, the rounds only shift.
crc_bits_room : (n x : ℕ) → doubles n x < 65536 → crc_bits n x ≡ doubles n x
unfolding crc_bits doubles
crc_bits_room zero x h = refl
crc_bits_room (suc n) x h =
    ap (crc_bits n) (crc_bit_small x (omega (arith, le-doubles n (x * 2))))
    ∙ crc_bits_room n (x * 2) h

-- A value below 256 is shifted up a byte with no reduction.
crc_bits_small : (v : ℕ) → v < 256 → crc_bits 8 v ≡ v * 256
unfolding doubles
crc_bits_small v h = crc_bits_room 8 v (omega arith) ∙ omega arith

-- The first byte of a checksum takes its high byte out.
crc_byte_high : (crc : ℕ) → crc < 65536 → crc_byte crc (crc / 256) ≡ crc % 256 * 256
unfolding crc_byte
crc_byte_high crc h =
    let e1 : u16 (crc / 256 * 256) ≡ crc / 256 * 256 = omega arith in
    let e2 : u16 (crc % 256) ≡ crc % 256 = omega arith in
    rw (e1, bit_xor_high crc, e2) (crc_bits_small (crc % 256) (omega arith))

-- The second takes out the rest.
crc_byte_low : (v : ℕ) → v < 256 → crc_byte (v * 256) v ≡ 0
unfolding crc_byte crc_bits crc_bit
crc_byte_low v h = let e : u16 (v * 256) ≡ v * 256 = omega arith in rw (e, bit_xor_self (v * 256))

-- The checksum of a block followed by the two bytes of the block's own checksum, the high byte
-- first, is zero: this is how a host checks a block, and the order in which the card sends them.
pub crc16_ccitt_residue :
    (bytes : List ℕ)
    → crc16_ccitt (bytes ++ crc16_ccitt bytes / 256 ∷ crc16_ccitt bytes % 256 ∷ []) ≡ 0
unfolding crc16_ccitt crc_from
crc16_ccitt_residue bytes =
    let crc = crc_from 0 bytes in
    crc_from-append bytes (crc / 256 ∷ crc % 256 ∷ []) 0
    ∙ rw (crc_byte_high crc (crc_from-lt bytes 0 (omega arith)))
        (crc_byte_low (crc % 256) (omega arith))

pub crc16_ccitt-lt : (bytes : List ℕ) → crc16_ccitt bytes < 65536
unfolding crc16_ccitt
crc16_ccitt-lt bytes = crc_from-lt bytes 0 (omega arith)
