-- ===== src/SdRead/Tests.antt =====
-- The program on scripted peripherals, which are always ready and answer each read of a word from
-- the script: a card that is set up at once, and two blocks of the pattern.
use friscv_soc.Common.{
  ℕ, zero, suc, ◌+◌, ◌*◌, ◌/◌, ◌%◌, ◌≡◌, ◌<◌, ◌^◌, refl, sym, ap, ◌∙◌, true, arith, ==_iff, List,
  [], ◌∷◌, ◌++◌, ◌==◌, if◌then◌else◌,
}
use mathlib.Core.Path.{subst}
use friscv_soc.Common.Words.{u8}
use friscv_soc.Common.Arrays.{length}
use friscv_soc.Common.Attempts.{done, on_done, check, because}
use friscv_soc.Loader.{Registers}
use friscv_soc.SdCard.Crc
use friscv_soc.SdRead.{
  crc16_ccitt, pattern_byte, bytes_of, matches, pass, get_words, read_bytes, read_data,
  sd_read_block, test_blocks, sd_init, value_of, finish, sd_main, spin, spi_command, spi_put_word,
  spi_get_word, spi_read_byte, sd_send_command, await_response, sd_response, spi_release, exchange,
  wait_inactive, leave_idle, await_token, compare_crc, read_crc, receive_block,
}
use friscv_soc.SdRead.Verdict.{BlockOk, crc16_ccitt-crc16_ccitt, sd_main-passed}

abbrev next_word : List ℕ → ℕ × List ℕ
next_word [] = (0, [])
next_word (x ∷ xs) = (x, xs)

abbrev scripted : Registers (List ℕ)
scripted = record {
  read = λ a s. if a == 0x0302002c then next_word s else (0x80000000, s);
  write = λ a v s. s;
}

pattern_words : ℕ → ℕ → ℕ → List ℕ
pattern_words block i zero = []
pattern_words block i (suc n) =
    (pattern_byte block i
      + pattern_byte block (i + 1) * 2 ^ 8
      + pattern_byte block (i + 1 + 1) * 2 ^ 16
      + pattern_byte block (i + 1 + 1 + 1) * 2 ^ 24)
    ∷ pattern_words block (i + 1 + 1 + 1 + 1) n

length-pattern_words : (block i n : ℕ) → length (pattern_words block i n) ≡ n
unfolding pattern_words
length-pattern_words block i zero = refl
length-pattern_words block i (suc n) = ap suc (length-pattern_words block (i + 1 + 1 + 1 + 1) n)

word_parts :
    (a b c d : ℕ)
    → a < 256
    → b < 256
    → c < 256
    → d < 256
    → let w = a + b * 2 ^ 8 + c * 2 ^ 16 + d * 2 ^ 24 in
      ((u8 w == a) ≡ true)
      × ((u8 (w / 2 ^ 8) == b) ≡ true)
      × ((u8 (w / 2 ^ 16) == c) ≡ true)
      × ((u8 (w / 2 ^ 24) == d) ≡ true)
word_parts a b c d ha hb hc hd = (
  (==_iff _ a).1 (omega arith),
  (==_iff _ b).1 (omega arith),
  (==_iff _ c).1 (omega arith),
  (==_iff _ d).1 (omega arith),
)

pattern_byte-lt : (block i : ℕ) → pattern_byte block i < 256
unfolding pattern_byte
pattern_byte-lt block i = omega arith

matches-pattern_words :
    (block i n : ℕ) → matches block i (bytes_of (pattern_words block i n)) ≡ true
unfolding matches bytes_of pattern_words
matches-pattern_words block i zero = refl
matches-pattern_words block i (suc n) =
    let (w0, w1, w2, w3) =
      word_parts (pattern_byte block i) (pattern_byte block (i + 1))
        (pattern_byte block (i + 1 + 1)) (pattern_byte block (i + 1 + 1 + 1))
        (pattern_byte-lt block i) (pattern_byte-lt block (i + 1))
        (pattern_byte-lt block (i + 1 + 1)) (pattern_byte-lt block (i + 1 + 1 + 1)) in
    rw (w0, w1, w2, w3) (matches-pattern_words block (i + 1 + 1 + 1 + 1) n)

get_words-scripted :
    (words rest : List ℕ) → get_words scripted (length words) (words ++ rest) ≡ (done words, rest)
unfolding get_words spi_get_word spin
get_words-scripted [] rest = refl
get_words-scripted (w ∷ words) rest =
    ap (λ r. on_done r (λ words u. (done (w ∷ words), u))) (get_words-scripted words rest)

-- A block as the card sends it: the token, the words, and the checksum.
block_replies : List ℕ → List ℕ → List ℕ
block_replies words rest =
    let crc = crc16_ccitt (bytes_of words) in
    0x00 ∷ 0xff ∷ 0xfe ∷ (words ++ (crc / 256 ∷ crc % 256 ∷ 0xff ∷ rest))

sum_again : (crc : ℕ) → crc < 65536 → (u8 (crc / 256) * 256 + u8 (crc % 256) == crc) ≡ true
sum_again crc h = (==_iff _ crc).1 (omega arith)

read_crc-scripted :
    (words rest : List ℕ)
    → let crc = crc16_ccitt (bytes_of words) in
      read_crc scripted words (crc / 256 ∷ crc % 256 ∷ 0xff ∷ rest) ≡ (done words, rest)
unfolding read_crc compare_crc read_bytes spi_read_byte spi_command spi_get_word spin spi_release
read_crc-scripted words rest =
    ap (λ b. on_done (check b 9 rest) (λ _ t. (done words, t)))
      (sum_again (crc16_ccitt (bytes_of words)) (
        subst (λ n. n < 65536) (sym (crc16_ccitt-crc16_ccitt (bytes_of words)))
          (Crc.crc16_ccitt-lt (bytes_of words))))

sd_read_block-scripted :
    (block : ℕ) (words rest : List ℕ)
    → length words ≡ 128
    → sd_read_block scripted block (block_replies words rest) ≡ (done words, rest)
unfolding sd_read_block receive_block exchange sd_send_command spi_put_word sd_response
    await_response spi_read_byte spi_command spi_get_word spin await_token read_data block_replies
sd_read_block-scripted block words rest h =
    let crc = crc16_ccitt (bytes_of words) in
    let tail = crc / 256 ∷ crc % 256 ∷ 0xff ∷ rest in
    let got : get_words scripted 128 (words ++ tail) ≡ (done words, tail) =
      ap (λ n. get_words scripted n (words ++ tail)) (sym h) ∙ get_words-scripted words tail in
    ap (λ r. on_done (because 8 r.0, r.1) (read_crc scripted)) got ∙ read_crc-scripted words rest

card_replies : List ℕ → List ℕ
card_replies rest =
    0x01 ∷ 0xff ∷ 0x01 ∷ 0 ∷ 0 ∷ 0x01 ∷ 0xaa ∷ 0xff ∷ 0x01 ∷ 0xff ∷ 0x00 ∷ 0xff ∷ 0x00 ∷ 0xc0 ∷ 0xff
    ∷ 0x80 ∷ 0 ∷ 0xff ∷ 0x00 ∷ 0xff ∷ rest

sd_init-scripted : (rest : List ℕ) → sd_init scripted (card_replies rest) ≡ (done tt, rest)
unfolding sd_init exchange sd_send_command spi_put_word sd_response wait_inactive leave_idle
    await_response spi_read_byte spi_command spi_get_word spin spi_release read_bytes card_replies
sd_init-scripted rest = refl

test_blocks-scripted :
    (n block : ℕ) (rest : List ℕ)
    → test_blocks scripted (suc n) block (block_replies (pattern_words block 0 128) rest)
      ≡ test_blocks scripted n (block + 1) rest
unfolding test_blocks
test_blocks-scripted n block rest =
    let words = pattern_words block 0 128 in
    ap
      (λ r. on_done r (λ words t.
        on_done (check (matches block 0 (bytes_of words)) 8 t)
          (λ _ u. test_blocks scripted n (block + 1) u)))
      (sd_read_block-scripted block words rest (length-pattern_words block 0 128))
    ∙ ap (λ b. on_done (check b 8 rest) (λ _ u. test_blocks scripted n (block + 1) u))
        (matches-pattern_words block 0 128)

script : List ℕ
script =
    card_replies (block_replies (pattern_words 0 0 128) (block_replies (pattern_words 1 0 128) []))

passes : (sd_main scripted script).0 ≡ pass
unfolding sd_main finish value_of script test_blocks
passes =
    let second = block_replies (pattern_words 1 0 128) [] in
    let first = block_replies (pattern_words 0 0 128) second in
    ap (λ r. value_of r.0)
      (ap (λ r. on_done r (λ _ t. test_blocks scripted 2 0 t)) (sd_init-scripted first)
        ∙ test_blocks-scripted 1 0 second
        ∙ test_blocks-scripted 0 1 [])

sd_main-passed_example :
    let card = sd_init scripted script in
    (card.0 ≡ done tt)
    × BlockOk scripted 0 card.1
    × BlockOk scripted 1 (sd_read_block scripted 0 card.1).1
sd_main-passed_example = sd_main-passed scripted script passes
