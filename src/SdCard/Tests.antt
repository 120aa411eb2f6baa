-- ===== src/SdCard/Tests.antt =====
-- A card as the boot loader meets it.
use friscv_soc.Common.{◌/◌, ◌%◌, List, zero, suc, ap, ℕ, ◌+◌, ◌≡◌, refl, true, [], ◌∷◌, ◌++◌, arith}
use friscv_soc.Common.Arrays.{length, replicate}
use friscv_soc.Common.Bytes.{AllBytes}
use friscv_soc.SdCard.Pins.ReadBlock.{exchange_all, exchange_all-read}
use friscv_soc.Memory.{new_mem}
use friscv_soc.Memory.View.{empty-IsBytes}
use friscv_soc.SdCard.State.{SdCard, new_card}
use friscv_soc.SdCard.Crc.{crc16_ccitt}
use friscv_soc.SdCard.Command.ReadBlock.{view_bytes}
use friscv_soc.SdCard.Pins.{finish_byte}
use friscv_soc.SdCard.Pins.Exchange.{boundary, received, load_next, exchange, exchange_lem}

abbrev filled : ℕ → ℕ → ℕ
filled page offset = page + offset

abbrev ready_card : SdCard
ready_card = record (new_card filled) {
  initialised = true;
  ready = true;
  cmd = 0x51 ∷ 0 ∷ 0 ∷ 0 ∷ 3 ∷ 1 ∷ [];
}

exchange_lem_example :
    exchange (boundary (new_card filled) 0xa5) 0x40
    ≡ (load_next (finish_byte (received (new_card filled) 0x40 0xa5)), 0xa5)
exchange_lem_example = exchange_lem (new_card filled) 0x40 0xa5 (omega arith) (omega arith)

-- A card that is ready and waits for a command, and what a host sends while it reads.
abbrev waiting_card : SdCard
waiting_card = record (new_card filled) { initialised = true; ready = true }

abbrev fillers : List ℕ
fillers = replicate 521 0xff

replicate-AllBytes : (n : ℕ) → AllBytes (replicate n 0xff)
replicate-AllBytes zero = tt
replicate-AllBytes (suc n) = (omega arith, replicate-AllBytes n)

length-replicate : (n : ℕ) → length {A = ℕ} (replicate n 0xff) ≡ n
length-replicate zero = refl
length-replicate (suc n) = ap suc (length-replicate n)

exchange_all-read_example :
    let block = view_bytes 512 1536 waiting_card.memory in
    let check = crc16_ccitt block in
    (exchange_all (0x51 ∷ 0 ∷ 0 ∷ 0 ∷ 3 ∷ 1 ∷ fillers) (boundary waiting_card 0xff)).1
    ≡ replicate 8 0xff
      ++ (0x00 ∷ 0xff ∷ 0xff ∷ 0xff ∷ 0xfe ∷ (block ++ (check / 256) ∷ (check % 256) ∷ []))
unfolding new_card new_mem
exchange_all-read_example =
    exchange_all-read waiting_card 0 0 0 3 1 fillers refl refl refl
      (empty-IsBytes waiting_card.memory refl) (omega arith) (omega arith) (omega arith)
      (omega arith) (omega arith) (omega arith) (replicate-AllBytes 521) (length-replicate 521)
