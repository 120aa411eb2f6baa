-- ===== src/SdCard/Command/ReadBlock.antt =====
-- The reply to a block read, against the flat contents of the card.
use friscv_soc.Common.{
  ℕ, zero, suc, ◌+◌, ◌*◌, ◌/◌, ◌%◌, ◌^◌, ◌≤◌, ◌<◌, ◌≡◌, refl, ap, ◌∙◌, true, false, List, [], ◌∷◌,
  ◌++◌, arith,
}
use mathlib.Core.Path.{ap₂}
use friscv_soc.Common.Words.{u32}
use friscv_soc.Memory.{PagedMem, read_byte}
use friscv_soc.Memory.View.{view, read_byte-view, view-read_byte}
use friscv_soc.SdCard.State.{SdCard, block_bytes, memory_size}
use friscv_soc.SdCard.Crc.{crc16_ccitt, crc16_ccitt-lt, crc16_ccitt_residue}
use friscv_soc.SdCard.Command.{
  respond, command_of, argument_of, read_bytes, block_reply, read_single_block, execute,
  process_command, cmd_read_single_block,
}

-- The `n` bytes of the flat memory from an address on.
unfoldable pub view_bytes : ℕ → ℕ → PagedMem → List ℕ
view_bytes zero a m = []
view_bytes (suc n) a m = view m a ∷ view_bytes n (a + 1) m

view_bytes_same :
    (n a : ℕ) (m m' : PagedMem)
    → ((b : ℕ) → view m' b ≡ view m b)
    → view_bytes n a m' ≡ view_bytes n a m
unfolding view_bytes
view_bytes_same zero a m m' h = refl
view_bytes_same (suc n) a m m' h = ap₂ ◌∷◌ (h a) (view_bytes_same n (a + 1) m m' h)

read_bytes-view :
    (n a : ℕ) (m : PagedMem) → a + n < 2 ^ 32 → (read_bytes n a m).0 ≡ view_bytes n a m
unfolding read_bytes view_bytes
read_bytes-view zero a m h = refl
read_bytes-view (suc n) a m h =
    let m' = (read_byte m a).1 in
    let e : u32 (a + 1) ≡ a + 1 = omega arith in
    ap₂ ◌∷◌ (read_byte-view m a) (
      ap (λ x. (read_bytes n x m').0) e
      ∙ read_bytes-view n (a + 1) m' (omega arith)
      ∙ view_bytes_same n (a + 1) m m' (view-read_byte m a))

view-read_bytes : (n a b : ℕ) (m : PagedMem) → view (read_bytes n a m).1 b ≡ view m b
unfolding read_bytes
view-read_bytes zero a b m = refl
view-read_bytes (suc n) a b m =
    view-read_bytes n (u32 (a + 1)) b (read_byte m a).1 ∙ view-read_byte m a b

-- The reply of a ready card, as `read_single_block` builds it.
read_accepted :
    (c : SdCard)
    → c.ready ≡ true
    → command_of c.cmd ≡ cmd_read_single_block
    → argument_of c.cmd * block_bytes + block_bytes ≤ memory_size
    → let (block, m) = read_bytes block_bytes (u32 (argument_of c.cmd * block_bytes)) c.memory in
      process_command c ≡ respond (record c { app_cmd = false; memory = m }) (block_reply block)
unfolding process_command execute read_single_block
read_accepted c r k h = ground arith

-- The block that a ready card answers with, and the checksum behind it.
abbrev pub block_at : SdCard → List ℕ
block_at c = view_bytes block_bytes (argument_of c.cmd * block_bytes) c.memory

abbrev pub checksum : SdCard → List ℕ
checksum c = let crc = crc16_ccitt (block_at c) in (crc / 256) ∷ (crc % 256) ∷ []

-- A ready card answers a read of a block inside its memory, behind whatever it had still to send,
-- by two filler bytes, the ready status, three busy bytes, the data token, the 512 bytes of the
-- block and a checksum with which the block checks out; no byte of the card changes.
pub read_single_block_reply :
    (c : SdCard)
    → c.ready ≡ true
    → command_of c.cmd ≡ cmd_read_single_block
    → argument_of c.cmd * block_bytes + block_bytes ≤ memory_size
    → ((process_command c).out_queue
        ≡ c.out_queue
          ++ (0xff ∷ 0xff ∷ 0x00 ∷ 0xff ∷ 0xff ∷ 0xff ∷ 0xfe ∷ (block_at c ++ checksum c)))
      × (crc16_ccitt (block_at c ++ checksum c) ≡ 0)
      × ((b : ℕ) → view (process_command c).memory b ≡ view c.memory b)
unfolding respond block_reply
read_single_block_reply c r k h =
    let a = argument_of c.cmd * block_bytes in
    let got = read_bytes block_bytes (u32 a) c.memory in
    let started = read_accepted c r k h in
    let small : u32 a ≡ a = omega arith in
    let read : got.0 ≡ block_at c =
      ap (λ x. (read_bytes block_bytes x c.memory).0) small
      ∙ read_bytes-view block_bytes a c.memory (omega arith) in
    let low : crc16_ccitt (block_at c) / 256 % 256 ≡ crc16_ccitt (block_at c) / 256 =
      omega (arith, crc16_ccitt-lt (block_at c)) in
    (
      ap (λ x. x.out_queue) started
          ∙ ap (λ block. c.out_queue ++ (0xff ∷ 0xff ∷ block_reply block)) read
          ∙ ap
              (λ hi.
                c.out_queue
                ++ (0xff
                    ∷ 0xff
                    ∷ 0x00
                    ∷ 0xff
                    ∷ 0xff
                    ∷ 0xff
                    ∷ 0xfe
                    ∷ (block_at c ++ (hi ∷ (crc16_ccitt (block_at c) % 256) ∷ []))))
              low,
      crc16_ccitt_residue (block_at c),
      λ b. ap (λ x. view x.memory b) started ∙ view-read_bytes block_bytes (u32 a) b c.memory,
    )

-- The reply does not start another command.
pub process_command-in_cmd :
    (c : SdCard)
    → c.ready ≡ true
    → command_of c.cmd ≡ cmd_read_single_block
    → argument_of c.cmd * block_bytes + block_bytes ≤ memory_size
    → (process_command c).in_cmd ≡ c.in_cmd
unfolding respond
process_command-in_cmd c r k h = ap (λ x. x.in_cmd) (read_accepted c r k h)
