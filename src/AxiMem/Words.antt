-- ===== src/AxiMem/Words.antt =====
-- The word accesses of the AXI memory, against its flat contents.
use friscv_soc.Common.{
  ℕ, zero, suc, ◌+◌, ◌*◌, ◌/◌, ◌%◌, ◌^◌, ◌<◌, ◌≡◌, ◌⊎◌, ◌&&◌, refl, ◌==◌, if◌then◌else◌, arith,
}
use friscv_soc.Common.Words.{u8, u32, test_bit, word_of}
use friscv_soc.Memory.{PagedMem}
use friscv_soc.Memory.View.{view, read_byte-view, view-read_byte, view-write_byte, base-write_byte}
use friscv_soc.AxiMem.{word_base, read_word, write_lane, write_word}

-- The aligned word around an address, in the flat memory: the address wraps at the memory's size.
abbrev pub word_view : PagedMem → ℕ → ℕ
word_view m a =
    let base = word_base a in
    word_of (view m base) (view m (base + 1)) (view m (base + 2)) (view m (base + 3))

pub read_word_lem : (m : PagedMem) (a : ℕ) → (read_word m a).0 ≡ word_view m a
unfolding read_word
read_word_lem m a =
    let e0 : u32 (word_base a + 0) ≡ word_base a = omega arith in
    let e1 : u32 (word_base a + 1) ≡ word_base a + 1 = omega arith in
    let e2 : u32 (word_base a + 2) ≡ word_base a + 2 = omega arith in
    let e3 : u32 (word_base a + 3) ≡ word_base a + 3 = omega arith in
    simp (read_byte-view, view-read_byte) (rw (e0, e1, e2, e3) refl)

pub view-read_word : (m : PagedMem) (a b : ℕ) → view (read_word m a).1 b ≡ view m b
unfolding read_word
view-read_word m a b = simp view-read_byte

view-write_lane :
    (base value strb i : ℕ) (m : PagedMem) (b : ℕ)
    → m.base < 2 ^ 32
    → b < 2 ^ 32
    → view (write_lane base value strb i m) b ≡ (
        if test_bit strb i
        then (if u32 (base + i) == b then u8 (value / 2 ^ (8 * i)) else view m b)
        else view m b)
unfolding write_lane
view-write_lane base value strb i m b hm h =
    ground (arith, view-write_byte m (u32 (base + i)) (u8 (value / 2 ^ (8 * i))) b)

base-write_lane :
    (base value strb i : ℕ) (m : PagedMem) → (write_lane base value strb i m).base ≡ m.base
unfolding write_lane
base-write_lane base value strb i m =
    ground (arith, base-write_byte m (u32 (base + i)) (u8 (value / 2 ^ (8 * i))))

module _ (m : PagedMem) (a value strb : ℕ) (hm : m.base < 2 ^ 32) where
  view-write_word :
      (b : ℕ)
      → b < 2 ^ 32
      → view (write_word m a value strb) b ≡ (
          if test_bit strb 3 && (word_base a + 3 == b)
          then value / 2 ^ 24 % 256
          else if test_bit strb 2 && (word_base a + 2 == b)
          then value / 2 ^ 16 % 256
          else if test_bit strb 1 && (word_base a + 1 == b)
          then value / 2 ^ 8 % 256
          else if test_bit strb 0 && (word_base a + 0 == b)
          then value / 1 % 256
          else view m b)
  unfolding write_word
  view-write_word b h =
      let base = word_base a in
      let m0 = write_lane base value strb 0 m in
      let m1 = write_lane base value strb 1 m0 in
      let m2 = write_lane base value strb 2 m1 in
      ground (
        arith,
        base-write_lane base value strb 0 m,
        base-write_lane base value strb 1 m0,
        base-write_lane base value strb 2 m1,
        view-write_lane base value strb 0 m b,
        view-write_lane base value strb 1 m0 b,
        view-write_lane base value strb 2 m1 b,
        view-write_lane base value strb 3 m2 b,
      )

  lane_0 :
      view (write_word m a value strb) (word_base a + 0)
      ≡ (if test_bit strb 0 then value / 2 ^ (8 * 0) % 256 else view m (word_base a + 0))
  lane_0 = ground (arith, view-write_word (word_base a + 0))

  lane_1 :
      view (write_word m a value strb) (word_base a + 1)
      ≡ (if test_bit strb 1 then value / 2 ^ (8 * 1) % 256 else view m (word_base a + 1))
  lane_1 = ground (arith, view-write_word (word_base a + 1))

  lane_2 :
      view (write_word m a value strb) (word_base a + 2)
      ≡ (if test_bit strb 2 then value / 2 ^ (8 * 2) % 256 else view m (word_base a + 2))
  lane_2 = ground (arith, view-write_word (word_base a + 2))

  lane_3 :
      view (write_word m a value strb) (word_base a + 3)
      ≡ (if test_bit strb 3 then value / 2 ^ (8 * 3) % 256 else view m (word_base a + 3))
  lane_3 = ground (arith, view-write_word (word_base a + 3))

  -- A write beat replaces exactly the bytes whose strobe is set, each by the byte of the data in
  -- the same lane, and leaves the other bytes of the word.
  pub write_word_lanes :
      (i : ℕ)
      → i < 4
      → view (write_word m a value strb) (word_base a + i)
        ≡ (if test_bit strb i then value / 2 ^ (8 * i) % 256 else view m (word_base a + i))
  write_word_lanes zero h = lane_0
  write_word_lanes (suc zero) h = lane_1
  write_word_lanes (suc (suc zero)) h = lane_2
  write_word_lanes (suc (suc (suc zero))) h = lane_3
  write_word_lanes (suc (suc (suc (suc i)))) h = absurd (omega arith)

  -- A write beat changes no byte outside its aligned word.
  pub write_word_outside :
      (b : ℕ)
      → b < 2 ^ 32
      → (b < word_base a) ⊎ (word_base a + 3 < b)
      → view (write_word m a value strb) b ≡ view m b
  write_word_outside b h out = ground (arith, view-write_word b)
