-- ===== src/SdCard/Pins/ReadBlock.antt =====
-- A block read on the wires: the six bytes of the command and, after it, the bytes of the reply.
use friscv_soc.Common.{
  ℕ, zero, suc, ◌+◌, ◌*◌, ◌/◌, ◌%◌, ◌^◌, ◌≤◌, ◌<◌, ◌≡◌, refl, ap, ◌∙◌, true, false, List, [], ◌∷◌,
  ◌++◌, ◌==◌, if◌then◌else◌, arith,
}
use friscv_soc.Common.Arrays.{length, replicate, length-append}
use friscv_soc.Common.Bytes.{AllBytes}
use friscv_soc.Memory.{PagedMem}
use friscv_soc.Memory.View.{IsBytes}
use friscv_soc.SdCard.State.{SdCard, block_bytes, memory_size}
use friscv_soc.SdCard.Crc.{crc16_ccitt, crc16_ccitt-lt}
use friscv_soc.SdCard.Command.{command_of, argument_of, process_command}
use friscv_soc.SdCard.Command.ReadBlock.{
  view_bytes, block_at, checksum, read_single_block_reply, process_command-in_cmd,
}
use friscv_soc.SdCard.Pins.{finish_byte, next_out_byte}
use friscv_soc.SdCard.Pins.Exchange.{boundary, received, load_next, exchange, exchange_lem}

-- The bytes of a host, one after the other, and the bytes that it reads.
unfoldable pub exchange_all : List ℕ → SdCard → SdCard × List ℕ
exchange_all [] c = (c, [])
exchange_all (x ∷ xs) c =
    let (d, b) = exchange c x in let (e, bs) = exchange_all xs d in (e, b ∷ bs)

-- One byte of an exchange of many.
exchange_all-next :
    (x : ℕ) (xs : List ℕ) (c d : SdCard) (b : ℕ)
    → exchange c x ≡ (d, b)
    → (exchange_all (x ∷ xs) c).1 ≡ b ∷ (exchange_all xs d).1
unfolding exchange_all
exchange_all-next x xs c d b h = ap (λ p. p.1 ∷ (exchange_all xs p.0).1) h

-- A byte that arrives while the card has bytes to send is ignored.
sending_ignores :
    (c : SdCard) (x b next : ℕ) (queue : List ℕ)
    → c.in_cmd ≡ false
    → load_next (finish_byte (received (record c { out_queue = next ∷ queue }) x b))
      ≡ boundary (record c { shift_in = x; out_queue = queue }) next
unfolding finish_byte next_out_byte
sending_ignores c x b next queue h =
    let r = received (record c { out_queue = next ∷ queue }) x b in
    let t : List ℕ → SdCard = λ cmd. record r { cmd = cmd } in
    ap
      (λ i. load_next (
        if i
        then (if length (c.cmd ++ (x ∷ [])) == 6
            then process_command (record (t (c.cmd ++ (x ∷ []))) { in_cmd = false })
            else t (c.cmd ++ (x ∷ [])))
        else r))
      h

-- The card sends what it has to send, whatever the host sends meanwhile.
drained :
    (queue : List ℕ) (b : ℕ) (xs : List ℕ) (c : SdCard)
    → c.in_cmd ≡ false
    → AllBytes (b ∷ queue)
    → AllBytes xs
    → length xs ≡ length (b ∷ queue)
    → (exchange_all xs (boundary (record c { out_queue = queue }) b)).1 ≡ b ∷ queue
unfolding exchange_all
drained queue b [] c idle bytes sent same = absurd (omega arith)
drained [] b (x ∷ []) c idle bytes sent same =
    exchange_all-next x [] (boundary (record c { out_queue = [] }) b) _ b
      (exchange_lem (record c { out_queue = [] }) x b sent.0 bytes.0)
drained [] b (x ∷ y ∷ xs) c idle bytes sent same = absurd (omega arith)
drained (next ∷ queue) b (x ∷ xs) c idle bytes sent same =
    let d = record c { out_queue = next ∷ queue } in
    exchange_all-next x xs (boundary d b) _ b
      (exchange_lem d x b sent.0 bytes.0 ∙ ap (λ e. (e, b)) (sending_ignores c x b next queue idle))
    ∙ ap (λ l. b ∷ l)
        (drained queue next xs (record c { shift_in = x }) idle bytes.1 sent.1
          (omega (arith, same)))

-- The card while it collects a frame, after the byte `x`, and once the frame is complete.
abbrev collecting : SdCard → ℕ → List ℕ → SdCard
collecting c x frame = record c { in_cmd = true; cmd = frame; out_queue = []; shift_in = x }

abbrev framed : SdCard → ℕ → List ℕ → SdCard
framed c x frame = record (received c x 0xff) { in_cmd = false; cmd = frame; out_queue = [] }

abbrev idle : SdCard → SdCard
idle c = record c { in_cmd = false; out_queue = [] }

abbrev read_frame : ℕ → ℕ → ℕ → ℕ → ℕ → List ℕ
read_frame a3 a2 a1 a0 crc = 0x51 ∷ a3 ∷ a2 ∷ a1 ∷ a0 ∷ crc ∷ []

-- The six bytes of the command, in which the host reads nothing.
command_sent :
    (c : SdCard) (a3 a2 a1 a0 crc : ℕ) (xs : List ℕ)
    → a3 < 256
    → a2 < 256
    → a1 < 256
    → a0 < 256
    → crc < 256
    → (exchange_all (0x51 ∷ a3 ∷ a2 ∷ a1 ∷ a0 ∷ crc ∷ xs) (boundary (idle c) 0xff)).1
      ≡ 0xff
        ∷ 0xff
        ∷ 0xff
        ∷ 0xff
        ∷ 0xff
        ∷ 0xff
        ∷ (exchange_all xs
            (load_next (process_command (framed c crc (read_frame a3 a2 a1 a0 crc))))).1
unfolding finish_byte next_out_byte
command_sent c a3 a2 a1 a0 crc xs h3 h2 h1 h0 hk =
    let ff : 0xff < 256 = omega arith in
    let c1 = collecting c 0x51 (0x51 ∷ []) in
    let c2 = collecting c a3 (0x51 ∷ a3 ∷ []) in
    let c3 = collecting c a2 (0x51 ∷ a3 ∷ a2 ∷ []) in
    let c4 = collecting c a1 (0x51 ∷ a3 ∷ a2 ∷ a1 ∷ []) in
    let c5 = collecting c a0 (0x51 ∷ a3 ∷ a2 ∷ a1 ∷ a0 ∷ []) in
    let filler : List ℕ → List ℕ = λ l. 0xff ∷ l in
    exchange_all-next 0x51 _ (boundary (idle c) 0xff) (boundary c1 0xff) 0xff
      (exchange_lem (idle c) 0x51 0xff (omega arith) ff)
    ∙ ap filler (
        exchange_all-next a3 _ (boundary c1 0xff) (boundary c2 0xff) 0xff
          (exchange_lem c1 a3 0xff h3 ff)
        ∙ ap filler (
            exchange_all-next a2 _ (boundary c2 0xff) (boundary c3 0xff) 0xff
              (exchange_lem c2 a2 0xff h2 ff)
            ∙ ap filler (
                exchange_all-next a1 _ (boundary c3 0xff) (boundary c4 0xff) 0xff
                  (exchange_lem c3 a1 0xff h1 ff)
                ∙ ap filler (
                    exchange_all-next a0 _ (boundary c4 0xff) (boundary c5 0xff) 0xff
                      (exchange_lem c4 a0 0xff h0 ff)
                    ∙ ap filler (
                        exchange_all-next crc xs (boundary c5 0xff)
                          (load_next (process_command (framed c crc (read_frame a3 a2 a1 a0 crc))))
                          0xff (exchange_lem c5 crc 0xff hk ff))))))

-- The bytes of a reply.
AllBytes-append : (xs ys : List ℕ) → AllBytes xs → AllBytes ys → AllBytes (xs ++ ys)
AllBytes-append [] ys h k = k
AllBytes-append (x ∷ xs) ys h k = (h.0, AllBytes-append xs ys h.1 k)

view_bytes-AllBytes : (n a : ℕ) (m : PagedMem) → IsBytes m → AllBytes (view_bytes n a m)
unfolding view_bytes
view_bytes-AllBytes zero a m h = tt
view_bytes-AllBytes (suc n) a m h = (h a, view_bytes-AllBytes n (a + 1) m h)

length-view_bytes : (n a : ℕ) (m : PagedMem) → length (view_bytes n a m) ≡ n
unfolding view_bytes
length-view_bytes zero a m = refl
length-view_bytes (suc n) a m = ap suc (length-view_bytes n (a + 1) m)

-- A host that sends the command to read the block `n` and then 521 further bytes to a ready card,
-- bit by bit, reads six filler bytes, two more, the ready status, three busy bytes, the data token,
-- the 512 bytes of the block and its checksum, whatever the further bytes are.
pub exchange_all-read :
    (c : SdCard) (a3 a2 a1 a0 crc : ℕ) (xs : List ℕ)
    → c.ready ≡ true
    → c.in_cmd ≡ false
    → c.out_queue ≡ []
    → IsBytes c.memory
    → a3 < 256
    → a2 < 256
    → a1 < 256
    → a0 < 256
    → crc < 256
    → let n = a3 * 2 ^ 24 + a2 * 2 ^ 16 + a1 * 2 ^ 8 + a0 in
      n * block_bytes + block_bytes ≤ memory_size
      → AllBytes xs
      → length xs ≡ 521
      → let block = view_bytes block_bytes (n * block_bytes) c.memory in
        let check = crc16_ccitt block in
        (exchange_all (0x51 ∷ a3 ∷ a2 ∷ a1 ∷ a0 ∷ crc ∷ xs) (boundary c 0xff)).1
        ≡ replicate 8 0xff
          ++ (0x00 ∷ 0xff ∷ 0xff ∷ 0xff ∷ 0xfe ∷ (block ++ (check / 256) ∷ (check % 256) ∷ []))
unfolding command_of argument_of next_out_byte
exchange_all-read c a3 a2 a1 a0 crc xs ready waits empty all h3 h2 h1 h0 hk range sent same =
    let n = a3 * 2 ^ 24 + a2 * 2 ^ 16 + a1 * 2 ^ 8 + a0 in
    let d = framed c crc (read_frame a3 a2 a1 a0 crc) in
    let e = process_command d in
    let tail = block_at d ++ checksum d in
    let rest = 0xff ∷ 0x00 ∷ 0xff ∷ 0xff ∷ 0xff ∷ 0xfe ∷ tail in
    let replied = (read_single_block_reply d ready refl range).0 in
    let quiet = process_command-in_cmd d ready refl range in
    let at_idle : c ≡ idle c = λ i. record c { in_cmd = waits i; out_queue = empty i } in
    let block_size = length-view_bytes block_bytes (n * block_bytes) c.memory in
    let tail_size = length-append (block_at d) (checksum d) in
    let check = crc16_ccitt-lt (block_at d) in
    let tail_bytes : AllBytes tail =
      AllBytes-append (block_at d) (checksum d)
        (view_bytes-AllBytes block_bytes (n * block_bytes) c.memory all)
        (omega (arith, check), (omega arith, tt)) in
    let ff : 0xff < 256 = omega arith in
    let bytes : AllBytes (0xff ∷ rest) =
      (ff, (ff, (omega arith, (ff, (ff, (ff, (omega arith, tail_bytes))))))) in
    let next : List ℕ → SdCard =
      λ q. let (b, q') = next_out_byte q in boundary (record e { out_queue = q' }) b in
    ap (λ c. (exchange_all (0x51 ∷ a3 ∷ a2 ∷ a1 ∷ a0 ∷ crc ∷ xs) (boundary c 0xff)).1) at_idle
    ∙ command_sent c a3 a2 a1 a0 crc xs h3 h2 h1 h0 hk
    ∙ ap (λ l. 0xff ∷ 0xff ∷ 0xff ∷ 0xff ∷ 0xff ∷ 0xff ∷ l)
        (ap (λ q. (exchange_all xs (next q)).1) replied
          ∙ drained rest 0xff xs e quiet bytes sent (omega (arith, same, tail_size, block_size)))
