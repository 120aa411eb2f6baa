-- ===== src/SdRead/Verdict.antt =====
-- When the program reports a pass, and how it relates to the card model.
use Prim.Native.Nat.{bit_xor}
use friscv_soc.Common.{
  ℕ, zero, suc, ◌+◌, ◌*◌, ◌≡◌, refl, sym, ap, ◌∙◌, true, List, [], ◌∷◌, ◌==◌, arith, &&-true,
  ==_iff,
}
use mathlib.Core.Path.{ap₂}
use friscv_soc.Common.Words.{u16}
use friscv_soc.Common.Arrays.{length, get_or}
use friscv_soc.Common.Attempts.{
  Attempt, done, gave_up, on_done, check, or_error, because, on_done-done, check-done,
  done-injective, because-done, check-state,
}
use friscv_soc.Loader.{Registers}
use friscv_soc.SdRead.{
  crc_shift, crc_over, crc16_ccitt, pattern_byte, bytes_of, matches, pass, get_words, spi_get_word,
  read_bytes, spi_read_byte, spi_command, dir_rd, spi_release, exchange, await_token, compare_crc,
  read_crc, receive_block, read_data, sd_read_block, test_blocks, sd_init, value_of, finish,
  sd_main,
}
use friscv_soc.SdCard.Crc
use friscv_soc.SdCard.State

-- The test pattern that the card model is filled with, from an offset on.
unfoldable pub card_pattern : ℕ → ℕ → ℕ → List ℕ
card_pattern block i zero = []
card_pattern block i (suc n) = State.pattern_byte block i ∷ card_pattern block (i + 1) n

crc_shift-crc_bits : (n crc : ℕ) → crc_shift n crc ≡ Crc.crc_bits n crc
unfolding crc_shift Crc.crc_bits Crc.crc_bit
crc_shift-crc_bits zero crc = refl
crc_shift-crc_bits (suc n) crc = crc_shift-crc_bits n _

crc_over-crc_from : (bytes : List ℕ) (crc : ℕ) → crc_over crc bytes ≡ Crc.crc_from crc bytes
unfolding crc_over Crc.crc_from Crc.crc_byte
crc_over-crc_from [] crc = refl
crc_over-crc_from (b ∷ bytes) crc =
    ap (λ c. crc_over c bytes) (crc_shift-crc_bits 8 (u16 (bit_xor crc (u16 (b * 256)))))
    ∙ crc_over-crc_from bytes (Crc.crc_byte crc b)

-- The program and the card model compute the same checksum.
pub crc16_ccitt-crc16_ccitt : (bytes : List ℕ) → crc16_ccitt bytes ≡ Crc.crc16_ccitt bytes
unfolding crc16_ccitt Crc.crc16_ccitt
crc16_ccitt-crc16_ccitt bytes = crc_over-crc_from bytes 0

length-bytes_of : (words : List ℕ) → length (bytes_of words) ≡ 4 * length words
unfolding bytes_of
length-bytes_of [] = refl
length-bytes_of (w ∷ words) = omega (arith, length-bytes_of words)

matches-card_pattern :
    (bytes : List ℕ) (block i : ℕ)
    → matches block i bytes ≡ true
    → bytes ≡ card_pattern block i (length bytes)
unfolding matches card_pattern pattern_byte State.pattern_byte
matches-card_pattern [] block i h = refl
matches-card_pattern (b ∷ bytes) block i h =
    let (here, rest) = &&-true (b == pattern_byte block i) (matches block (i + 1) bytes) h in
    ap₂ ◌∷◌ ((==_iff b (pattern_byte block i)).0 here)
      (matches-card_pattern bytes block (i + 1) rest)

module _ {S : Type 0} (regs : Registers S) where
  length-get_words :
      (n : ℕ) (s : S) (words : List ℕ) → (get_words regs n s).0 ≡ done words → length words ≡ n
  unfolding get_words
  length-get_words zero s words h = ap length (sym (done-injective [] words h))
  length-get_words (suc n) s words h =
      let (w, got, h1) =
        on_done-done (spi_get_word regs s).0 (spi_get_word regs s).1
          (λ w t. on_done (get_words regs n t) (λ words u. (done (w ∷ words), u))) words h in
      let (rest, got_rest, h2) =
        on_done-done (get_words regs n (spi_get_word regs s).1).0
          (get_words regs n (spi_get_word regs s).1).1 (λ words u. (done (w ∷ words), u)) words
          h1 in
      ap length (sym (done-injective (w ∷ rest) words h2))
      ∙ ap suc (length-get_words n (spi_get_word regs s).1 rest got_rest)

  -- What has been read when a block is accepted: from some state on, 128 words, then two bytes that
  -- are the checksum of the words' bytes, as the card model computes it.
  pub record Verified (words : List ℕ) : Type 0 where
    pub start : S
    pub words_read : (get_words regs 128 start).0 ≡ done words
    pub crc : List ℕ
    pub crc_read : (read_bytes regs 2 (get_words regs 128 start).1).0 ≡ done crc
    pub crc_ok : get_or crc 0 0 * 256 + get_or crc 1 0 ≡ Crc.crc16_ccitt (bytes_of words)

  compare_crc-done :
      (words crc out : List ℕ) (s : S)
      → (compare_crc regs words crc s).0 ≡ done out
      → (words ≡ out) × (get_or crc 0 0 * 256 + get_or crc 1 0 ≡ Crc.crc16_ccitt (bytes_of words))
  unfolding compare_crc spi_release
  compare_crc-done words crc out s h =
      let sum = get_or crc 0 0 * 256 + get_or crc 1 0 in
      let t = (spi_read_byte regs 0 s).1 in
      let test = check (sum == crc16_ccitt (bytes_of words)) 9 t in
      let (u, tested, same) = on_done-done test.0 test.1 (λ _ t. (done words, t)) out h in
      (
        done-injective words out same,
        (==_iff sum (crc16_ccitt (bytes_of words))).0
              (check-done (sum == crc16_ccitt (bytes_of words)) 9 t u tested)
            ∙ crc16_ccitt-crc16_ccitt (bytes_of words),
      )

  read_data-Verified : (s : S) (words : List ℕ) → (read_data regs s).0 ≡ done words → Verified words
  unfolding read_data read_crc
  read_data-Verified s out h =
      let asked = spi_command regs 512 1 dir_rd s in
      let (_, _, h1) =
        on_done-done (because 10 asked.0) asked.1
          (λ _ t. on_done (or_error 8 (get_words regs 128) t) (read_crc regs)) out h in
      let block = get_words regs 128 asked.1 in
      let (words, got, h2) = on_done-done (because 8 block.0) block.1 (read_crc regs) out h1 in
      let sums = read_bytes regs 2 block.1 in
      let (crc, got_crc, h3) =
        on_done-done (because 9 sums.0) sums.1 (compare_crc regs words) out h2 in
      let (same, crc_ok) = compare_crc-done words crc out sums.1 h3 in
      record {
        start = asked.1;
        words_read = because-done 8 block.0 words got ∙ ap done same;
        crc = crc;
        crc_read = because-done 9 sums.0 crc got_crc;
        crc_ok = crc_ok ∙ ap (λ w. Crc.crc16_ccitt (bytes_of w)) same;
      }

  sd_read_block-Verified :
      (block : ℕ) (s : S) (words : List ℕ)
      → (sd_read_block regs block s).0 ≡ done words
      → Verified words
  unfolding sd_read_block receive_block
  sd_read_block-Verified block s out h =
      let reply = exchange regs 6 17 block 0x01 s in
      let (r1, _, h1) = on_done-done reply.0 reply.1 (receive_block regs) out h in
      let tested = check (r1 == 0x00) 6 reply.1 in
      let (_, _, h2) =
        on_done-done tested.0 tested.1
          (λ _ t. on_done (await_token regs 64 t) (λ _. read_data regs)) out h1 in
      let token = await_token regs 64 tested.1 in
      let (_, _, h3) = on_done-done token.0 token.1 (λ _. read_data regs) out h2 in
      read_data-Verified token.1 out h3

  -- A block of the run that has gone through: it was read and verified, and it is the pattern that
  -- the card model is filled with.
  pub record BlockOk (block : ℕ) (s : S) : Type 0 where
    pub words : List ℕ
    pub read_ok : (sd_read_block regs block s).0 ≡ done words
    pub verified : Verified words
    pub pattern_ok : bytes_of words ≡ card_pattern block 0 512

  test_blocks-done :
      (n block : ℕ) (s : S) (u : Unit {0})
      → (test_blocks regs (suc n) block s).0 ≡ done u
      → BlockOk block s
        × ((test_blocks regs n (block + 1) (sd_read_block regs block s).1).0 ≡ done u)
  unfolding test_blocks
  test_blocks-done n block s u h =
      let r = sd_read_block regs block s in
      let (words, got, h1) =
        on_done-done r.0 r.1
          (λ words t.
            on_done (check (matches block 0 (bytes_of words)) 8 t)
              (λ _ u. test_blocks regs n (block + 1) u))
          u h in
      let test = check (matches block 0 (bytes_of words)) 8 r.1 in
      let (v, tested, h2) =
        on_done-done test.0 test.1 (λ _ u. test_blocks regs n (block + 1) u) u h1 in
      let seen = sd_read_block-Verified block s words got in
      let size =
        length-bytes_of words
        ∙ ap (λ n. 4 * n) (length-get_words 128 seen.start words seen.words_read) in
      (
        record {
          words = words;
          read_ok = got;
          verified = seen;
          pattern_ok =
              matches-card_pattern (bytes_of words) block 0
                (check-done (matches block 0 (bytes_of words)) 8 r.1 v tested)
              ∙ ap (card_pattern block 0) size;
        },
        ap (λ t. (test_blocks regs n (block + 1) t).0)
              (sym (check-state (matches block 0 (bytes_of words)) 8 r.1))
            ∙ h2,
      )

  value_of-pass : (r : Attempt ℕ (Unit {0})) → value_of r ≡ pass → r ≡ done tt
  unfolding value_of
  value_of-pass (done _) h = refl
  value_of-pass (gave_up error) h = absurd (omega arith)

  -- The program reports a pass only if the card is initialised and both blocks are read, each with
  -- two bytes after it that are the checksum of its bytes as the card model computes it, and each
  -- block is, in all its 512 bytes, the test pattern that the card model is filled with.
  pub sd_main-passed :
      (s : S)
      → (sd_main regs s).0 ≡ pass
      → let card = sd_init regs s in
        (card.0 ≡ done tt) × BlockOk 0 card.1 × BlockOk 1 (sd_read_block regs 0 card.1).1
  unfolding sd_main finish
  sd_main-passed s h =
      let card = sd_init regs s in
      let run = on_done card (λ _ t. test_blocks regs 2 0 t) in
      let (u, ready, h1) =
        on_done-done card.0 card.1 (λ _. test_blocks regs 2 0) tt (value_of-pass run.0 h) in
      let (first, h2) = test_blocks-done 1 0 card.1 tt h1 in
      let (second, _) = test_blocks-done 0 1 (sd_read_block regs 0 card.1).1 tt h2 in
      (ready, first, second)
