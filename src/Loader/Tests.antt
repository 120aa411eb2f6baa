-- ===== src/Loader/Tests.antt =====
-- The loader on scripted peripherals, which are always ready and answer each byte or word read
-- from the script: one that boots an image of one word, and one whose card answers by zeros.
use friscv_soc.Common.{
  ℕ, ◌+◌, ◌*◌, some, ap, ◌/◌, ◌%◌, ◌^◌, ◌<◌, ◌≡◌, refl, true, List, [], ◌∷◌, ◌++◌, if◌then◌else◌,
  ◌==◌, arith,
}
use friscv_soc.Common.Arrays.{replicate}
use friscv_soc.SdCard.Command.{command_of, argument_of, crc_of}
use friscv_soc.Loader.{
  ram_base, Registers, WordArray, booted, failed, address_of, bad_card, magic, low_word, high_word,
  words_of, blocks_of, sum_words, accepts, spin, spi_command, spi_wait_idle, spi_put_word,
  spi_get_word, spi_read_byte, spi_release, sd_send_command, await_response, sd_response,
  sd_exchange, read_last, leave_idle, send_if_cond, go_idle, sd_init, await_token, get_words,
  read_data, sd_read_block, read_image, fail, start_clocks, load, sd_main,
}
use friscv_soc.Loader.Frames.{wire_bytes, frame_decodes}
use friscv_soc.Loader.Accept.{Verified}
use friscv_soc.Loader.Trampoline.{
  Started, Running, byte_at, copy_tramp, tramp_blob, jump, boot, boot-Running,
}

abbrev next_word : List ℕ → ℕ × List ℕ
next_word [] = (0, [])
next_word (x ∷ xs) = (x, xs)

abbrev scripted : Registers (List ℕ)
scripted = record {
  read = λ a s. if a == 0x0302002c then next_word s else (0x80000000, s);
  write = λ a v s. s;
}

abbrev zeros : WordArray
zeros i = 0

abbrev card_replies : List ℕ
card_replies =
    0x01 ∷ 0xff ∷ 0x01 ∷ 0 ∷ 0 ∷ 0x01 ∷ 0xaa ∷ 0xff ∷ 0x01 ∷ 0xff ∷ 0xff ∷ 0x00 ∷ 0xff ∷ []

abbrev block_replies : List ℕ → List ℕ
block_replies words = 0x00 ∷ 0xff ∷ 0xfe ∷ (words ++ (0 ∷ 0 ∷ 0xff ∷ []))

abbrev boot_script : List ℕ
boot_script =
    card_replies
    ++ (block_replies (magic ∷ 4 ∷ 0x6f ∷ replicate 125 0)
        ++ block_replies (0x6f ∷ replicate 127 0))

boots : (sd_main scripted zeros zeros boot_script).0 ≡ booted 0x80000004
unfolding address_of low_word high_word words_of blocks_of sum_words accepts spin spi_command
    spi_wait_idle spi_put_word spi_get_word spi_read_byte spi_release sd_send_command await_response
    sd_response sd_exchange read_last leave_idle send_if_cond go_idle sd_init await_token get_words
    read_data sd_read_block read_image fail start_clocks load sd_main
boots = refl

frame_decodes_example :
    let frame = wire_bytes (low_word 17 0x01020304) ++ wire_bytes (high_word 0x01020304 1) in
    (command_of frame ≡ 17)
    × (argument_of frame ≡ 0x01020304)
    × (crc_of frame ≡ 1)
    × (low_word 17 0x01020304 % 256 / 64 ≡ 1)
    × (low_word 17 0x01020304 < 2 ^ 32)
    × (high_word 0x01020304 1 < 2 ^ 32)
frame_decodes_example = frame_decodes 17 0x01020304 1 (omega arith) (omega arith) (omega arith)

-- Two words of machine code, and what they find.
abbrev machine_code : List ℕ
machine_code = 0xb7 ∷ 0x02 ∷ 0x00 ∷ 0x03 ∷ 0x13 ∷ 0x03 ∷ 0xf0 ∷ 0x00 ∷ []

abbrev started : Started (List ℕ)
started =
    let r = sd_main scripted zeros zeros boot_script in
    record {
      hart = record { pc = 0x80000000; a0 = 0; a1 = 0 };
      memory = copy_tramp machine_code 4 (byte_at r.1.0);
      peripherals = r.1.1;
    }

starts_image : boot scripted machine_code zeros zeros boot_script ≡ some started
unfolding boot jump tramp_blob
starts_image =
    let r = sd_main scripted zeros zeros boot_script in
    ap (λ o. jump scripted machine_code (o, r.1)) boots

boot-Running_example :
    let card = sd_init scripted (start_clocks scripted boot_script) in
    let first = sd_read_block scripted 0 zeros 0 card.1 in
    let image = read_image scripted (blocks_of (first.1.0 1)) 0 zeros first.1.1 in
    (card.0 ≡ true)
    × (first.0 ≡ true)
    × (image.0 ≡ true)
    × Verified first.1.0 image.1.0 (ram_base + words_of (first.1.0 1) * 4)
    × Running scripted image.1 (first.1.0 1) started
boot-Running_example =
    boot-Running scripted machine_code zeros zeros boot_script started starts_image

gives_up : (sd_main scripted zeros zeros []).0 ≡ failed bad_card
unfolding address_of low_word high_word spin spi_command spi_wait_idle spi_put_word spi_get_word
    spi_read_byte spi_release sd_send_command await_response sd_response sd_exchange go_idle sd_init
    fail start_clocks sd_main
gives_up = refl
