-- ===== src/QspiFlash/Tests.antt =====
-- A flash with a small image.
use friscv_soc.Common.{ℕ, ◌+◌, ◌≡◌, refl, [], ◌∷◌, some, arith}
use friscv_soc.Memory.{new_mem, in_range, write_byte}
use friscv_soc.Memory.View.{empty-IsBytes}
use friscv_soc.QspiFlash.{QspiFlash, new_flash, preload, preload_from, select}
use friscv_soc.QspiFlash.Exchange.{exchange_all}
use friscv_soc.QspiFlash.Read.{silence}
use friscv_soc.QspiFlash.Preload.{IsFlashMemory, exchange_all-preload}

abbrev filled : ℕ → ℕ → ℕ
filled page offset = page + offset

abbrev empty_flash : QspiFlash
empty_flash = new_flash filled

empty_flash-IsFlashMemory : IsFlashMemory empty_flash.memory
unfolding new_flash new_mem
empty_flash-IsFlashMemory = record {
  base_zero = refl;
  whole_size = refl;
  all_bytes = empty-IsBytes empty_flash.memory refl;
}

abbrev preloaded : QspiFlash
preloaded = record empty_flash {
  memory =
      write_byte (write_byte (write_byte empty_flash.memory 0x010000 0x6f) 0x010001 0x00) 0x010002
        0xc0;
}

exchange_all-preload_example :
    let q = silence empty_flash in
    (g : QspiFlash) × (exchange_all (0x03 ∷ 1 ∷ 0 ∷ 0 ∷ 0 ∷ 0 ∷ 0 ∷ []) (select preloaded)
      ≡ some (g, q ∷ q ∷ q ∷ q ∷ 0x6f ∷ 0x00 ∷ 0xc0 ∷ []))
unfolding new_flash preload preload_from in_range new_mem write_byte
exchange_all-preload_example =
    exchange_all-preload empty_flash preloaded 1 0 0 (0x6f ∷ 0x00 ∷ 0xc0 ∷ []) (0 ∷ 0 ∷ 0 ∷ [])
      empty_flash-IsFlashMemory refl refl (omega arith) (omega arith) (omega arith)
      (omega arith, (omega arith, (omega arith, tt)))
      (omega arith, (omega arith, (omega arith, tt))) refl refl
