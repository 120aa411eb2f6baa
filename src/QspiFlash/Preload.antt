-- ===== src/QspiFlash/Preload.antt =====
-- What a host reads from the flash after an image has been preloaded.
use mathlib.Core.Option.{some-injective, none-ne-some}
use mathlib.Core.Path.{subst, ap₂}
use friscv_soc.Common.{
  ℕ, zero, suc, ◌+◌, ◌%◌, ◌^◌, ◌<◌, ◌≤◌, ◌≡◌, refl, sym, ap, ◌∙◌, true, false, List, [], ◌∷◌,
  Option, none, some, arith, if◌then◌else◌, Bool-cases, inl, inr,
}
use friscv_soc.Common.Words.{u32}
use friscv_soc.Common.Arrays.{length}
use friscv_soc.Common.Bytes.{AllBytes, stored, loaded, loaded-stored}
use friscv_soc.Memory.{PagedMem, in_range, write_byte}
use friscv_soc.Memory.View.{view, IsBytes, write_byte-IsBytes, base-write_byte, size-write_byte}
use friscv_soc.Elf.{write_bytes}
use friscv_soc.Elf.Load.{view-write_bytes}
use friscv_soc.QspiFlash.{QspiFlash, memory_size, preload, preload_from, select}
use friscv_soc.QspiFlash.Exchange.{exchange_all}
use friscv_soc.QspiFlash.Stream.{flash_bytes}
use friscv_soc.QspiFlash.Read.{exchange_all-select, address_of, silence}

-- The memory of a flash: its range, and nothing but bytes.
pub record IsFlashMemory (m : PagedMem) : Type 0 where
  pub base_zero : m.base ≡ 0
  pub whole_size : m.mem_size ≡ memory_size
  pub all_bytes : IsBytes m

write_byte-IsFlashMemory :
    (m : PagedMem) (a v : ℕ) → IsFlashMemory m → IsFlashMemory (write_byte m a v)
write_byte-IsFlashMemory m a v flash = record {
  base_zero = base-write_byte m a v ∙ flash.base_zero;
  whole_size = size-write_byte m a v ∙ flash.whole_size;
  all_bytes = write_byte-IsBytes m a v flash.all_bytes;
}

in_range-below :
    (m : PagedMem) (a : ℕ) → IsFlashMemory m → a < 2 ^ 32 → in_range m a ≡ true → a < memory_size
unfolding in_range
in_range-below m a flash ha h =
    let b = flash.base_zero in let s = flash.whole_size in ground (arith, h, b, s)

-- What a preload that goes through has done.
record Preloaded (m m' : PagedMem) (a : ℕ) (bytes : List ℕ) : Type 0 where
  within : a + length bytes ≤ memory_size
  written : m' ≡ write_bytes a bytes m
  still_flash : IsFlashMemory m'

preload_from-Preloaded :
    (bytes : List ℕ) (m m' : PagedMem) (a : ℕ)
    → IsFlashMemory m
    → a ≤ memory_size
    → preload_from m a bytes ≡ some m'
    → Preloaded m m' a bytes
unfolding preload_from write_bytes
preload_from-Preloaded [] m m' a flash ha h =
    let e = some-injective m m' h in
    record { within = omega arith; written = sym e; still_flash = subst IsFlashMemory e flash }
preload_from-Preloaded (x ∷ bytes) m m' a flash ha h = elim (Bool-cases (in_range m a)) [
  | inr f ↦ absurd (
      none-ne-some m' (
        sym (ap (λ t. if t then preload_from (write_byte m a x) (u32 (a + 1)) bytes else none) f)
        ∙ h))
  | inl t ↦
      let k = write_byte m a x in
      let below = in_range-below m a flash (omega arith) t in
      let next : u32 (a + 1) ≡ a + 1 = omega (arith, below) in
      let rest =
        preload_from-Preloaded bytes k m' (u32 (a + 1)) (write_byte-IsFlashMemory m a x flash)
          (omega (arith, below))
          (sym (ap (λ t. if t then preload_from k (u32 (a + 1)) bytes else none) t) ∙ h) in
      let inside = rest.within in
      record {
        within = omega (arith, inside, next);
        written = rest.written;
        still_flash = rest.still_flash;
      }
]

-- The flash with the memory that the preload left.
preload-memory :
    (f f' : QspiFlash) (o : Option PagedMem)
    → elim o [ none ↦ none | some m ↦ some (record f { memory = m }) ] ≡ some f'
    → (m : PagedMem) × (o ≡ some m) × (record f { memory = m } ≡ f')
preload-memory f f' none h = absurd (none-ne-some f' h)
preload-memory f f' (some m) h = (m, refl, some-injective (record f { memory = m }) f' h)

loaded-agree :
    (n : ℕ) (f g : ℕ → ℕ) (a : ℕ)
    → a + n ≤ 2 ^ 32
    → ((b : ℕ) → b < 2 ^ 32 → f b ≡ g b)
    → loaded f a n ≡ loaded g a n
unfolding loaded
loaded-agree zero f g a h same = refl
loaded-agree (suc n) f g a h same =
    ap₂ ◌∷◌ (same a (omega arith)) (loaded-agree n f g (a + 1) (omega arith) same)

-- Without a wrap the flash gives the bytes of its memory.
flash_bytes-loaded :
    (n : ℕ) (mem : ℕ → ℕ) (a : ℕ) → a + n ≤ memory_size → flash_bytes mem a n ≡ loaded mem a n
unfolding flash_bytes loaded
flash_bytes-loaded zero mem a h = refl
flash_bytes-loaded (suc n) mem a h =
    let e : a % memory_size ≡ a = omega arith in
    ap₂ ◌∷◌ (ap mem e) (flash_bytes-loaded n mem (a + 1) (omega arith))

flash_bytes-Preloaded :
    (m m' : PagedMem) (a : ℕ) (bytes : List ℕ)
    → m.base ≡ 0
    → AllBytes bytes
    → Preloaded m m' a bytes
    → flash_bytes (view m') a (length bytes) ≡ bytes
flash_bytes-Preloaded m m' a bytes base_zero all done =
    let n = length bytes in
    let inside = done.within in
    let base_small : m.base < 2 ^ 32 = omega (arith, base_zero) in
    flash_bytes-loaded n (view m') a inside
    ∙ loaded-agree n (view m') (stored (view m) a bytes) a (omega (arith, inside)) (λ b hb.
      ap (λ k. view k b) done.written
      ∙ view-write_bytes bytes a m b base_small (omega (arith, inside)) hb)
    ∙ loaded-stored bytes (view m) a all

-- An image that `preload` accepts is what a host reads: after the four bytes of the command and of
-- the image's address, it reads the bytes of the image in their order.
pub exchange_all-preload :
    (f f' : QspiFlash) (b2 b1 b0 : ℕ) (bytes xs : List ℕ)
    → IsFlashMemory f.memory
    → f.selected ≡ false
    → f.clock ≡ false
    → b2 < 256
    → b1 < 256
    → b0 < 256
    → AllBytes bytes
    → AllBytes xs
    → length xs ≡ length bytes
    → preload f (address_of b2 b1 b0) bytes ≡ some f'
    → let q = silence f in
      (g : QspiFlash) × (exchange_all (0x03 ∷ b2 ∷ b1 ∷ b0 ∷ xs) (select f')
        ≡ some (g, q ∷ q ∷ q ∷ q ∷ bytes))
unfolding preload
exchange_all-preload f f' b2 b1 b0 bytes xs flash sel clk h2 h1 h0 all clocked same went =
    let q = silence f in
    let a = address_of b2 b1 b0 in
    let (m, loaded_ok, e) = preload-memory f f' (preload_from f.memory a bytes) went in
    let done = preload_from-Preloaded bytes f.memory m a flash (omega arith) loaded_ok in
    let (g, run) =
      exchange_all-select (record f { memory = m }) b2 b1 b0 xs sel clk done.still_flash.all_bytes
        h2 h1 h0 clocked in
    (
      g,
      ap (λ t. exchange_all (0x03 ∷ b2 ∷ b1 ∷ b0 ∷ xs) (select t)) (sym e)
          ∙ run
          ∙ ap (λ n. some (g, q ∷ q ∷ q ∷ q ∷ flash_bytes (view m) a n)) same
          ∙ ap (λ l. some (g, q ∷ q ∷ q ∷ q ∷ l))
              (flash_bytes-Preloaded f.memory m a bytes flash.base_zero all done),
    )
