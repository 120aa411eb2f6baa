-- ===== src/Loader/Frames.antt =====
-- The command frames, as the card decodes them, and the sizes of an image.
use friscv_soc.Common.{ℕ, ◌+◌, ◌*◌, ◌/◌, ◌%◌, ◌^◌, ◌≤◌, ◌<◌, ◌≡◌, List, [], ◌∷◌, ◌++◌, arith}
use friscv_soc.SdCard.Command.{command_of, argument_of, crc_of}
use friscv_soc.Loader.{low_word, high_word, words_of, blocks_of, max_image, ram_base, block_words}

-- The bytes of a word on the wire, the least significant first.
abbrev pub wire_bytes : ℕ → List ℕ
wire_bytes w = (w % 256) ∷ (w / 2 ^ 8 % 256) ∷ (w / 2 ^ 16 % 256) ∷ (w / 2 ^ 24 % 256) ∷ []

-- The two words of a command put the frame on the wires that the card decodes to the same command,
-- argument and checksum, with the start bits 01; each word fits 32 bits.
pub frame_decodes :
    (command argument crc : ℕ)
    → command < 64
    → argument < 2 ^ 32
    → crc < 256
    → let frame = wire_bytes (low_word command argument) ++ wire_bytes (high_word argument crc) in
      (command_of frame ≡ command)
      × (argument_of frame ≡ argument)
      × (crc_of frame ≡ crc)
      × (low_word command argument % 256 / 64 ≡ 1)
      × (low_word command argument < 2 ^ 32)
      × (high_word argument crc < 2 ^ 32)
unfolding low_word high_word command_of argument_of crc_of
frame_decodes command argument crc hc ha hk = omega arith

-- The blocks that are read cover the image and no further block is read; every word and the jump
-- past the image stay within the 32-bit address space, for a length that the header test lets
-- through.
pub image_fits :
    (length : ℕ)
    → 0 < length
    → length < max_image
    → (length ≤ 4 * words_of length)
      × (4 * words_of length < length + 4)
      × (words_of length ≤ blocks_of length * block_words)
      × (blocks_of length * block_words < words_of length + block_words)
      × (ram_base + words_of length * 4 < 2 ^ 32)
      × (ram_base + blocks_of length * block_words * 4 ≤ 2 ^ 32)
unfolding words_of blocks_of
image_fits length h0 h1 = omega arith
