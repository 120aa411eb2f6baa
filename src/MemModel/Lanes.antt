-- ===== src/MemModel/Lanes.antt =====
-- What a write of a byte, a half-word or a word does to the bytes of memory.
use friscv_soc.Common.{
  ℕ, zero, suc, ◌+◌, ◌*◌, ◌/◌, ◌%◌, ◌^◌, ◌<◌, ◌≡◌, refl, ap, ◌∙◌, Bool, true, ◌==◌, if◌then◌else◌,
  arith, ◌⊎◌,
}
use friscv_soc.Common.Words.{u32, word_of, align4}
use friscv_soc.Memory.{PagedMem, write_byte}
use friscv_soc.Memory.View.{
  view, IsBytes, read_byte-view, view-read_byte, view-write_byte, base-read_byte, base-write_byte,
}
use friscv_soc.MemModel.{
  size_byte, size_half, shift_for, mask_for, read_word_aligned, merge, write_bytes, write,
}

-- The byte of a word at lane `i`, least significant first.
abbrev pub byte_of : ℕ → ℕ → ℕ
byte_of x i = x / 2 ^ (8 * i) % 256

-- The four bytes of the aligned word around an address.
abbrev pub word_at : PagedMem → ℕ → ℕ
word_at m addr =
    let a = align4 addr in word_of (view m a) (view m (a + 1)) (view m (a + 2)) (view m (a + 3))

-- Is lane `i` of the aligned word written by an access of this size at this address?
unfoldable pub in_lane : ℕ → ℕ → ℕ → Bool
in_lane addr size i =
    if size == size_half
    then i / 2 == addr % 4 / 2
    else if size == size_byte
    then i == addr % 4
    else true

-- A read gives the aligned word of the flat memory, and changes no byte.
pub read_word_aligned_lem :
    (m : PagedMem) (addr : ℕ) → addr < 2 ^ 32 → (read_word_aligned m addr).0 ≡ word_at m addr
unfolding read_word_aligned
read_word_aligned_lem m addr h =
    let e1 : u32 (align4 addr + 1) ≡ align4 addr + 1 = omega arith in
    let e2 : u32 (align4 addr + 2) ≡ align4 addr + 2 = omega arith in
    let e3 : u32 (align4 addr + 3) ≡ align4 addr + 3 = omega arith in
    simp (read_byte-view, view-read_byte) (rw (e1, e2, e3) refl)

pub view-read_word_aligned :
    (m : PagedMem) (addr b : ℕ) → view (read_word_aligned m addr).1 b ≡ view m b
unfolding read_word_aligned
view-read_word_aligned m addr b = simp view-read_byte

base-read_word_aligned : (m : PagedMem) (addr : ℕ) → (read_word_aligned m addr).1.base ≡ m.base
unfolding read_word_aligned
base-read_word_aligned m addr = simp base-read_byte

-- A byte lane of a merged word, for each shift of a byte, of a half-word and of a word.
abbrev pub Merged : ℕ → ℕ → ℕ → ℕ → (ℕ → Bool) → Type 0
Merged mask shift w d lane =
    (i : ℕ)
    → i < 4
    → byte_of (merge mask shift w d) i ≡ (if lane i then byte_of d i else byte_of w i)

module _ (w d : ℕ) (hw : w < 2 ^ 32) (hd : d < 2 ^ 32) where
  merge_byte0 : Merged 0xff 0 w d (λ i. i == 0)
  unfolding merge
  merge_byte0 zero h = omega arith
  merge_byte0 (suc zero) h = omega arith
  merge_byte0 (suc (suc zero)) h = omega arith
  merge_byte0 (suc (suc (suc zero))) h = omega arith
  merge_byte0 (suc (suc (suc (suc i)))) h = absurd (omega arith)

  merge_byte1 : Merged 0xff 8 w d (λ i. i == 1)
  unfolding merge
  merge_byte1 zero h = omega arith
  merge_byte1 (suc zero) h = omega arith
  merge_byte1 (suc (suc zero)) h = omega arith
  merge_byte1 (suc (suc (suc zero))) h = omega arith
  merge_byte1 (suc (suc (suc (suc i)))) h = absurd (omega arith)

  merge_byte2 : Merged 0xff 16 w d (λ i. i == 2)
  unfolding merge
  merge_byte2 zero h = omega arith
  merge_byte2 (suc zero) h = omega arith
  merge_byte2 (suc (suc zero)) h = omega arith
  merge_byte2 (suc (suc (suc zero))) h = omega arith
  merge_byte2 (suc (suc (suc (suc i)))) h = absurd (omega arith)

  merge_byte3 : Merged 0xff 24 w d (λ i. i == 3)
  unfolding merge
  merge_byte3 zero h = omega arith
  merge_byte3 (suc zero) h = omega arith
  merge_byte3 (suc (suc zero)) h = omega arith
  merge_byte3 (suc (suc (suc zero))) h = omega arith
  merge_byte3 (suc (suc (suc (suc i)))) h = absurd (omega arith)

  merge_half0 : Merged 0xffff 0 w d (λ i. i / 2 == 0)
  unfolding merge
  merge_half0 zero h = omega arith
  merge_half0 (suc zero) h = omega arith
  merge_half0 (suc (suc zero)) h = omega arith
  merge_half0 (suc (suc (suc zero))) h = omega arith
  merge_half0 (suc (suc (suc (suc i)))) h = absurd (omega arith)

  merge_half1 : Merged 0xffff 16 w d (λ i. i / 2 == 1)
  unfolding merge
  merge_half1 zero h = omega arith
  merge_half1 (suc zero) h = omega arith
  merge_half1 (suc (suc zero)) h = omega arith
  merge_half1 (suc (suc (suc zero))) h = omega arith
  merge_half1 (suc (suc (suc (suc i)))) h = absurd (omega arith)

  merge_word : Merged 0xffff_ffff 0 w d (λ i. true)
  unfolding merge
  merge_word zero h = omega arith
  merge_word (suc zero) h = omega arith
  merge_word (suc (suc zero)) h = omega arith
  merge_word (suc (suc (suc zero))) h = omega arith
  merge_word (suc (suc (suc (suc i)))) h = absurd (omega arith)

  -- Exactly the bytes of the lane come from the data.
  merge_lanes :
      (addr size : ℕ) → Merged (mask_for size) (shift_for addr size) w d (λ i. in_lane addr size i)
  unfolding mask_for shift_for in_lane
  merge_lanes addr size i h = ground (
    arith,
    merge_byte0 i h,
    merge_byte1 i h,
    merge_byte2 i h,
    merge_byte3 i h,
    merge_half0 i h,
    merge_half1 i h,
    merge_word i h,
  )

view-write_bytes :
    (m : PagedMem) (a w b : ℕ)
    → m.base < 2 ^ 32
    → a + 3 < 2 ^ 32
    → b < 2 ^ 32
    → view (write_bytes m a w) b ≡ (
        if a + 3 == b
        then byte_of w 3
        else if a + 2 == b
        then byte_of w 2
        else if a + 1 == b
        then byte_of w 1
        else if a == b
        then byte_of w 0
        else view m b)
unfolding write_bytes
view-write_bytes m a w b hb ha h =
    let m0 = write_byte m a (w % 256) in
    let m1 = write_byte m0 (u32 (a + 1)) (w / 2 ^ 8 % 256) in
    let m2 = write_byte m1 (u32 (a + 2)) (w / 2 ^ 16 % 256) in
    ground (
      arith,
      base-write_byte m a (w % 256),
      base-write_byte m0 (u32 (a + 1)) (w / 2 ^ 8 % 256),
      base-write_byte m1 (u32 (a + 2)) (w / 2 ^ 16 % 256),
      view-write_byte m a (w % 256) b,
      view-write_byte m0 (u32 (a + 1)) (w / 2 ^ 8 % 256) b,
      view-write_byte m1 (u32 (a + 2)) (w / 2 ^ 16 % 256) b,
      view-write_byte m2 (u32 (a + 3)) (w / 2 ^ 24 % 256) b,
    )

byte_of-word_of :
    (b0 b1 b2 b3 : ℕ)
    → b0 < 256
    → b1 < 256
    → b2 < 256
    → b3 < 256
    → (byte_of (word_of b0 b1 b2 b3) 0 ≡ b0)
      × (byte_of (word_of b0 b1 b2 b3) 1 ≡ b1)
      × (byte_of (word_of b0 b1 b2 b3) 2 ≡ b2)
      × (byte_of (word_of b0 b1 b2 b3) 3 ≡ b3)
byte_of-word_of b0 b1 b2 b3 h0 h1 h2 h3 = omega arith

word_of-lt :
    (b0 b1 b2 b3 : ℕ) → b0 < 256 → b1 < 256 → b2 < 256 → b3 < 256 → word_of b0 b1 b2 b3 < 2 ^ 32
word_of-lt b0 b1 b2 b3 h0 h1 h2 h3 = omega arith

view-write_bytes_lane :
    (m : PagedMem) (a w i : ℕ)
    → m.base < 2 ^ 32
    → a + 3 < 2 ^ 32
    → i < 4
    → view (write_bytes m a w) (a + i) ≡ byte_of w i
view-write_bytes_lane m a w zero hb ha hi = ground (arith, view-write_bytes m a w (a + 0))
view-write_bytes_lane m a w (suc zero) hb ha hi = ground (arith, view-write_bytes m a w (a + 1))
view-write_bytes_lane m a w (suc (suc zero)) hb ha hi =
    ground (arith, view-write_bytes m a w (a + 2))
view-write_bytes_lane m a w (suc (suc (suc zero))) hb ha hi =
    ground (arith, view-write_bytes m a w (a + 3))
view-write_bytes_lane m a w (suc (suc (suc (suc i)))) hb ha hi = absurd (omega arith)

module _ (m : PagedMem) (addr : ℕ) (bytes : IsBytes m) where
  lanes_of_word :
      let a = align4 addr in
      (byte_of (word_at m addr) 0 ≡ view m a)
      × (byte_of (word_at m addr) 1 ≡ view m (a + 1))
      × (byte_of (word_at m addr) 2 ≡ view m (a + 2))
      × (byte_of (word_at m addr) 3 ≡ view m (a + 3))
  lanes_of_word =
      let a = align4 addr in
      byte_of-word_of (view m a) (view m (a + 1)) (view m (a + 2)) (view m (a + 3)) (bytes a)
        (bytes (a + 1)) (bytes (a + 2)) (bytes (a + 3))

  byte_of-word_at : (i : ℕ) → i < 4 → byte_of (word_at m addr) i ≡ view m (align4 addr + i)
  byte_of-word_at zero hi = lanes_of_word.0 ∙ ap (view m) (omega arith)
  byte_of-word_at (suc zero) hi = lanes_of_word.1
  byte_of-word_at (suc (suc zero)) hi = lanes_of_word.2
  byte_of-word_at (suc (suc (suc zero))) hi = lanes_of_word.3
  byte_of-word_at (suc (suc (suc (suc i)))) hi = absurd (omega arith)

  pub word_at-lt : word_at m addr < 2 ^ 32
  word_at-lt =
      let a = align4 addr in
      word_of-lt (view m a) (view m (a + 1)) (view m (a + 2)) (view m (a + 3)) (bytes a)
        (bytes (a + 1)) (bytes (a + 2)) (bytes (a + 3))

-- The word that `write` puts back, on the view of the memory that it read.
abbrev merged_word : PagedMem → ℕ → ℕ → ℕ → ℕ
merged_word m addr size value =
    merge (mask_for size) (shift_for addr size) (read_word_aligned m addr).0 value

-- A write of a byte, half-word or word replaces exactly the bytes of its lanes in the aligned word
-- around the address, each by the byte of the data in the same lane.
pub write_lanes :
    (m : PagedMem) (addr size value i : ℕ)
    → m.base < 2 ^ 32
    → IsBytes m
    → addr < 2 ^ 32
    → value < 2 ^ 32
    → i < 4
    → view (write m addr size value) (align4 addr + i)
      ≡ (if in_lane addr size i then byte_of value i else view m (align4 addr + i))
unfolding write
write_lanes m addr size value i hb bytes ha hv hi =
    let m' = (read_word_aligned m addr).1 in
    let word-eq = read_word_aligned_lem m addr ha in
    view-write_bytes_lane m' (align4 addr) (merged_word m addr size value) i
      (rw (base-read_word_aligned m addr) hb) (omega arith) hi
    ∙ rw word-eq (
        merge_lanes (word_at m addr) value (word_at-lt m addr bytes) hv addr size i hi
        ∙ rw (byte_of-word_at m addr bytes i hi) refl)

-- A write changes no byte outside the aligned word around its address.
pub write_outside :
    (m : PagedMem) (addr size value b : ℕ)
    → m.base < 2 ^ 32
    → addr < 2 ^ 32
    → b < 2 ^ 32
    → (b < align4 addr) ⊎ (align4 addr + 3 < b)
    → view (write m addr size value) b ≡ view m b
unfolding write
write_outside m addr size value b hb ha h out =
    let m' = (read_word_aligned m addr).1 in
    ground (
      arith,
      base-read_word_aligned m addr,
      view-write_bytes m' (align4 addr) (merged_word m addr size value) b,
      view-read_word_aligned m addr b,
    )
