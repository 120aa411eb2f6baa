-- ===== src/QspiFlash/Stream.antt =====
-- The bytes that the flash gives while it reads, one for each byte that the host clocks out.
use friscv_soc.Common.{
  ℕ, zero, suc, ◌+◌, ◌%◌, ◌<◌, ◌≡◌, refl, sym, ap, ◌∙◌, List, [], ◌∷◌, Option, some, arith,
}
use mathlib.Core.Path.{subst}
use friscv_soc.Common.Words.{u32}
use friscv_soc.Common.Arrays.{length}
use friscv_soc.Common.Bytes.{AllBytes}
use friscv_soc.Memory.{PagedMem, read_byte}
use friscv_soc.Memory.View.{view, IsBytes, read_byte-view, view-read_byte}
use friscv_soc.QspiFlash.{
  QspiFlash, reading, memory_size, finish_byte, finish_phase, load_shift_out, drives,
}
use friscv_soc.QspiFlash.Exchange.{on_some, exchange, exchange_all, exchange-driven, boundary}

-- The bytes from an address on, where the address wraps at the size of the memory.
unfoldable pub flash_bytes : (ℕ → ℕ) → ℕ → ℕ → List ℕ
flash_bytes mem a zero = []
flash_bytes mem a (suc n) = mem (a % memory_size) ∷ flash_bytes mem (a + 1) n

pub flash_bytes-agree :
    (f g : ℕ → ℕ) (a n : ℕ) → ((b : ℕ) → f b ≡ g b) → flash_bytes f a n ≡ flash_bytes g a n
unfolding flash_bytes
flash_bytes-agree f g a zero h = refl
flash_bytes-agree f g a (suc n) h = λ i. h (a % memory_size) i ∷ flash_bytes-agree f g (a + 1) n h i

-- The flash while it reads, and what the next byte leaves.
abbrev pub at_read : QspiFlash → ℕ → PagedMem → QspiFlash
at_read f a m = record f { phase = reading; addr = u32 a; memory = m }

abbrev fetched : PagedMem → ℕ → PagedMem
fetched m a = (read_byte m (a % memory_size)).1

stream_step :
    (f : QspiFlash) (m : PagedMem) (a x : ℕ)
    → IsBytes m
    → x < 256
    → exchange (boundary (at_read f a m) (view m (a % memory_size))) x
      ≡ some (
        boundary
            (at_read (record f { shift_in = x }) (a + 1) (fetched m (a + 1)))
            (view m ((a + 1) % memory_size)),
        view m (a % memory_size),
      )
unfolding finish_byte finish_phase load_shift_out drives
stream_step f m a x all hx =
    let here = view m (a % memory_size) in
    let after : ℕ → ℕ → ℕ → Option (QspiFlash × ℕ) = λ k j b. some (
      boundary (record f { phase = reading; shift_in = x; addr = k; memory = (read_byte m j).1 }) b,
      here,
    ) in
    let next : u32 (u32 a + 1) ≡ u32 (a + 1) = omega arith in
    let index : u32 (a + 1) % memory_size ≡ (a + 1) % memory_size = omega arith in
    exchange-driven (at_read f a m) x here refl hx (all (a % memory_size))
    ∙ ap (λ k. after k (k % memory_size) (read_byte m (k % memory_size)).0) next
    ∙ ap (λ j. after (u32 (a + 1)) j (read_byte m j).0) index
    ∙ ap (after (u32 (a + 1)) ((a + 1) % memory_size)) (read_byte-view m ((a + 1) % memory_size))

fetched-IsBytes : (m : PagedMem) (a : ℕ) → IsBytes m → IsBytes (fetched m a)
fetched-IsBytes m a all b =
    subst (λ v. v < 256) (sym (view-read_byte m (a % memory_size) b)) (all b)

-- Every further byte reads the next byte of the memory.
pub stream :
    (xs : List ℕ) (f : QspiFlash) (m : PagedMem) (a : ℕ)
    → IsBytes m
    → AllBytes xs
    → (g : QspiFlash) × (exchange_all xs (boundary (at_read f a m) (view m (a % memory_size)))
        ≡ some (g, flash_bytes (view m) a (length xs)))
unfolding exchange_all flash_bytes
stream [] f m a all bytes = (boundary (at_read f a m) (view m (a % memory_size)), refl)
stream (x ∷ xs) f m a all bytes =
    let here = view m (a % memory_size) in
    let m' = fetched m (a + 1) in
    let f' = record f { shift_in = x } in
    let at = (a + 1) % memory_size in
    let (g, rest) = stream xs f' m' (a + 1) (fetched-IsBytes m (a + 1) all) bytes.1 in
    let same : (b : ℕ) → view m' b ≡ view m b = view-read_byte m at in
    (
      g,
      ap (λ o. on_some o (λ p. on_some (exchange_all xs p.0) (λ q. some (q.0, p.1 ∷ q.1))))
            (stream_step f m a x all bytes.0)
          ∙ ap
              (λ b.
                on_some (exchange_all xs (boundary (at_read f' (a + 1) m') b))
                  (λ q. some (q.0, here ∷ q.1)))
              (sym (same at))
          ∙ ap (λ o. on_some o (λ q. some (q.0, here ∷ q.1))) rest
          ∙ ap (λ l. some (g, here ∷ l))
              (flash_bytes-agree (view m') (view m) (a + 1) (length xs) same),
    )
