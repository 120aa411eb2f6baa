-- ===== src/SdRead.antt =====
-- verif/directed/sd_read.c: the program that reads two blocks off an SD card and compares them with
-- the test pattern. The peripherals are a parameter, the `Registers` of the boot loader.
use Prim.Native.Nat.{bit_xor}
use friscv_soc.Common.{
  ℕ, zero, suc, ◌+◌, ◌-◌, ◌*◌, ◌/◌, ◌%◌, ◌^◌, Bool, true, false, not, ◌&&◌, List, [], ◌∷◌, ◌++◌,
  ◌==◌, if◌then◌else◌,
}
use friscv_soc.Common.Words.{u8, u16, u32, test_bit}
use friscv_soc.Common.Arrays.{get_or}
use friscv_soc.Common.Attempts.{
  Attempt, done, gave_up, Run, on_done, ◌>>=◌, ◌>>◌, pure, check, or_error,
}
use friscv_soc.Loader.{Registers}
pub mod Verdict
mod Tests

abbrev pub scb_scratch : ℕ
scb_scratch = 0x03000000

abbrev pub halt : ℕ
halt = 0x50000000

abbrev pub pass : ℕ
pass = 0xaabbccdd

abbrev pub spi_status : ℕ
spi_status = 0x03020014

abbrev pub spi_configopts : ℕ
spi_configopts = 0x03020018

abbrev pub spi_csid : ℕ
spi_csid = 0x03020024

abbrev pub dir_rd : ℕ
dir_rd = 1

abbrev pub dir_wr : ℕ
dir_wr = 2

abbrev pub spin_limit : ℕ
spin_limit = 2000000

-- The inner loop of `crc16_ccitt`, with `n` bits left.
unfoldable pub crc_shift : ℕ → ℕ → ℕ
crc_shift zero crc = crc
crc_shift (suc n) crc =
    crc_shift n (if test_bit crc 15 then u16 (bit_xor (crc * 2) 0x1021) else u16 (crc * 2))

unfoldable pub crc_over : ℕ → List ℕ → ℕ
crc_over crc [] = crc
crc_over crc (b ∷ bytes) = crc_over (crc_shift 8 (u16 (bit_xor crc (u16 (b * 256))))) bytes

unfoldable pub crc16_ccitt : List ℕ → ℕ
crc16_ccitt bytes = crc_over 0 bytes

unfoldable pub pattern_byte : ℕ → ℕ → ℕ
pattern_byte block offset = u8 (block * 31 + offset * 7 + 0x5a)

-- The bytes of the words, as the cast of the array to bytes reads them.
unfoldable pub bytes_of : List ℕ → List ℕ
bytes_of [] = []
bytes_of (w ∷ words) = u8 w ∷ u8 (w / 2 ^ 8) ∷ u8 (w / 2 ^ 16) ∷ u8 (w / 2 ^ 24) ∷ bytes_of words

-- The loop of `sd_main` over the bytes of a block, from offset `i` on.
unfoldable pub matches : ℕ → ℕ → List ℕ → Bool
matches block i [] = true
matches block i (b ∷ bytes) = (b == pattern_byte block i) && matches block (i + 1) bytes

-- The number that `sd_main` hands to `finish`.
unfoldable pub value_of : Attempt ℕ (Unit {0}) → ℕ
value_of (done _) = pass
value_of (gave_up error) = 0xf0000000 + error

module _ {S : Type 0} (regs : Registers S) where
  abbrev pub rd : {E : Type 0} → ℕ → Run S E ℕ
  rd address s = let (value, t) = regs.read address s in (done value, t)

  abbrev pub wr : {E : Type 0} → ℕ → ℕ → Run S E (Unit {0})
  wr address value s = (done tt, regs.write address value s)

  -- A loop that reads the status until `test` holds of it, at most `n` times.
  unfoldable pub spin : ℕ → (ℕ → Bool) → Run S (Unit {0}) (Unit {0})
  spin zero test s = (gave_up tt, s)
  spin (suc n) test s =
      on_done (rd spi_status s)
        (λ status t. elim (test status) [ true ↦ (done tt, t) | false ↦ spin n test t ])

  unfoldable pub spi_command : ℕ → ℕ → ℕ → Run S (Unit {0}) (Unit {0})
  spi_command bytes csaat direction = do
    spin spin_limit (λ status. test_bit status 31)
    wr 0x03020028 ((bytes - 1) % 512 + csaat * 2 ^ 9 + direction * 2 ^ 12)

  unfoldable pub spi_put_word : ℕ → Run S (Unit {0}) (Unit {0})
  spi_put_word value = do spin spin_limit (λ status. not (test_bit status 29)); wr 0x03020030 value

  unfoldable pub spi_get_word : Run S (Unit {0}) ℕ
  spi_get_word = do spin spin_limit (λ status. not (test_bit status 24)); rd 0x0302002c

  unfoldable pub spi_read_byte : ℕ → Run S (Unit {0}) ℕ
  spi_read_byte csaat = do spi_command 1 csaat dir_rd; word ← spi_get_word; pure (u8 word)

  unfoldable pub sd_send_command : ℕ → ℕ → ℕ → Run S (Unit {0}) (Unit {0})
  sd_send_command command argument crc = do
    spi_put_word (
        (64 + command)
        + argument / 2 ^ 24 % 256 * 2 ^ 8
        + argument / 2 ^ 16 % 256 * 2 ^ 16
        + argument / 2 ^ 8 % 256 * 2 ^ 24)
    spi_put_word (argument % 256 + crc * 2 ^ 8 + 0xff * 2 ^ 16 + 0xff * 2 ^ 24)
    spi_command 8 1 dir_wr

  -- The loop of `sd_response`, with `n` attempts left.
  unfoldable pub await_response : ℕ → Run S (Unit {0}) ℕ
  await_response zero s = (gave_up tt, s)
  await_response (suc n) s =
      on_done (spi_read_byte 1 s)
        (λ value t. elim (value == 0xff) [ true ↦ await_response n t | false ↦ (done value, t) ])

  unfoldable pub sd_response : Run S (Unit {0}) ℕ
  sd_response = await_response 32

  unfoldable pub spi_release : {E : Type 0} → Run S E (Unit {0})
  spi_release s = (done tt, (spi_read_byte 0 s).1)

  -- A command and its response, with the error that the caller returns if either fails.
  unfoldable pub exchange : ℕ → ℕ → ℕ → ℕ → Run S ℕ ℕ
  exchange error command argument crc =
      or_error error (sd_send_command command argument crc >> sd_response)

  -- The loops that fill `r7`, `ocr` and `crc`.
  unfoldable pub read_bytes : ℕ → Run S (Unit {0}) (List ℕ)
  read_bytes zero s = (done [], s)
  read_bytes (suc n) s =
      on_done (spi_read_byte 1 s)
        (λ b t. on_done (read_bytes n t) (λ bytes u. (done (b ∷ bytes), u)))

  -- The loop that waits for the end of the dummy segment.
  unfoldable pub wait_inactive : ℕ → Run S ℕ (Unit {0})
  wait_inactive zero s = (done tt, s)
  wait_inactive (suc n) s =
      on_done (rd spi_status s)
        (λ status t. elim (test_bit status 30) [ true ↦ wait_inactive n t | false ↦ (done tt, t) ])

  -- The loop of application command 41, with `n` attempts left.
  unfoldable pub leave_idle : ℕ → Run S ℕ (Unit {0})
  leave_idle zero s = (gave_up 3, s)
  leave_idle (suc n) s =
      on_done
        ((exchange 3 55 0 0x01 >> spi_release >> exchange 3 41 0x40000000 0x01 >>= λ r1.
            spi_release >> pure r1)
          s)
        (λ r1 t. elim (r1 == 0x00) [
          | true ↦ (done tt, t)
          | false ↦ elim (r1 == 0x01) [ true ↦ leave_idle n t | false ↦ (gave_up 3, t) ]
        ])

  unfoldable pub sd_init : Run S ℕ (Unit {0})
  sd_init = do
    wr 0x03020010 (0x80000000 + 0x20000000)
    wr (spi_configopts + 4 * 1) 63
    wr (spi_configopts + 4 * 2) 63
    wr spi_csid 2
    or_error 10 (spi_command 80 0 0)
    wait_inactive spin_limit
    wr spi_csid 1
    reset_r1 ← exchange 1 0 0 0x95
    spi_release
    check (reset_r1 == 0x01) 1
    cond_r1 ← exchange 2 8 0x1aa 0x87
    r7 ← or_error 2 (read_bytes 4)
    spi_release
    check ((cond_r1 == 0x01) && (get_or r7 3 0 == 0xaa)) 2
    leave_idle 32
    ocr_r1 ← exchange 4 58 0 0x01
    ocr ← or_error 4 (read_bytes 4)
    spi_release
    check ((ocr_r1 == 0x00) && test_bit (get_or ocr 0 0) 6) 4
    length_r1 ← exchange 5 16 512 0x01
    spi_release
    check (length_r1 == 0x00) 5
    wr (spi_configopts + 4 * 1) 1

  -- The loop that waits for the token, with `n` attempts left.
  unfoldable pub await_token : ℕ → Run S ℕ (Unit {0})
  await_token zero s = (gave_up 7, s)
  await_token (suc n) s = on_done (or_error 7 (spi_read_byte 1) s) (λ value t.
      elim (value == 0xfe) [
        | true ↦ (done tt, t)
        | false ↦ elim (value == 0xff) [ true ↦ await_token n t | false ↦ (gave_up 7, t) ]
      ])

  unfoldable pub get_words : ℕ → Run S (Unit {0}) (List ℕ)
  get_words zero s = (done [], s)
  get_words (suc n) s =
      on_done (spi_get_word s) (λ w t. on_done (get_words n t) (λ words u. (done (w ∷ words), u)))

  -- The end of `sd_read_block`, on the words and the two checksum bytes, and then on the words.
  unfoldable pub compare_crc : List ℕ → List ℕ → Run S ℕ (List ℕ)
  compare_crc words crc = do
    spi_release
    check (get_or crc 0 0 * 256 + get_or crc 1 0 == crc16_ccitt (bytes_of words)) 9
    pure words

  unfoldable pub read_crc : List ℕ → Run S ℕ (List ℕ)
  read_crc words = or_error 9 (read_bytes 2) >>= compare_crc words

  -- The part of `sd_read_block` after the token.
  unfoldable pub read_data : Run S ℕ (List ℕ)
  read_data = or_error 10 (spi_command 512 1 dir_rd) >> (or_error 8 (get_words 128) >>= read_crc)

  -- The part of `sd_read_block` after the response.
  unfoldable pub receive_block : ℕ → Run S ℕ (List ℕ)
  receive_block r1 = check (r1 == 0x00) 6 >> (await_token 64 >> read_data)

  unfoldable pub sd_read_block : ℕ → Run S ℕ (List ℕ)
  sd_read_block block = exchange 6 17 block 0x01 >>= receive_block

  -- The loop of `sd_main`, from a block on with `n` blocks left.
  unfoldable pub test_blocks : ℕ → ℕ → Run S ℕ (Unit {0})
  test_blocks zero block s = (done tt, s)
  test_blocks (suc n) block s = on_done (sd_read_block block s) (λ words t.
      on_done (check (matches block 0 (bytes_of words)) 8 t) (λ _ u. test_blocks n (block + 1) u))

  -- `finish`, up to its endless loop.
  unfoldable pub finish : ℕ → S → ℕ × S
  finish value s = (value, regs.write halt 0 (regs.write scb_scratch value s))

  unfoldable pub sd_main : S → ℕ × S
  sd_main s = let (r, t) = (sd_init >> test_blocks 2 0) s in finish (value_of r) t
