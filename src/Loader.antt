-- ===== src/Loader.antt =====
-- sw/sdk/loaders/sdbl.c: the loader that boots an image off the SD card, with the registers of
-- sw/sdk/vernii.h that it uses. The peripherals are a parameter: `Registers` reads and writes a
-- register at its address and may change the peripherals' state in both cases.
use friscv_soc.Common.{
  ℕ, zero, suc, ◌+◌, ◌-◌, ◌*◌, ◌/◌, ◌%◌, ◌^◌, Bool, true, false, not, ◌&&◌, ◌||◌, Option, none,
  some, leb, ◌==◌, if◌then◌else◌,
}
use friscv_soc.Common.Words.{u8, u32, test_bit}
use friscv_soc.Common.Arrays.{update}
pub mod Frames
pub mod Accept
pub mod Trampoline
mod Tests

-- The memory-mapped peripherals, over a state `S`.
pub record Registers (S : Type 0) : Type 0 where
  pub read : ℕ → S → ℕ × S
  pub write : ℕ → ℕ → S → S

pub data Register : Type 0 where
  ticktarget ticksource scratch0 dll dlm lcr control status csid command rxdata txdata : Register
  configopts : ℕ → Register

-- The address of a register: the base of its block and its offset in the block's `struct`.
unfoldable pub address_of : Register → ℕ
address_of ticktarget = 0x02000000 + 0xc000
address_of ticksource = 0x02000000 + 0xc004
address_of scratch0 = 0x03000000
address_of dll = 0x03010000
address_of dlm = 0x03010004
address_of lcr = 0x0301000c
address_of control = 0x03020010
address_of status = 0x03020014
address_of (configopts i) = 0x03020018 + 4 * i
address_of csid = 0x03020024
address_of command = 0x03020028
address_of rxdata = 0x0302002c
address_of txdata = 0x03020030

abbrev pub ram_base : ℕ
ram_base = 0x80000000

abbrev pub magic : ℕ
magic = 0x43535246

abbrev pub max_image : ℕ
max_image = 0x10000000

abbrev pub f_cpu : ℕ
f_cpu = 50000000

abbrev pub baud : ℕ
baud = 115200

abbrev pub block_words : ℕ
block_words = 128

abbrev pub spin_limit : ℕ
spin_limit = 2000000

abbrev pub bad_card : ℕ
bad_card = 0xbad00011

abbrev pub bad_header : ℕ
bad_header = 0xbad00013

abbrev pub bad_cksum : ℕ
bad_cksum = 0xbad00015

abbrev pub direction_dummy : ℕ
direction_dummy = 0

abbrev pub direction_rx : ℕ
direction_rx = 0x1000

abbrev pub direction_tx : ℕ
direction_tx = 0x2000

-- An array of words.
abbrev pub WordArray : Type 0
WordArray = ℕ → ℕ

-- How `sd_main` ends: it jumps to an address, or spins after a call of `fail`.
pub data Outcome : Type 0 where
  booted failed : ℕ → Outcome

-- The two words of `sd_send_command`, whose first byte in is the least significant: the command
-- with its start bits, the argument from its high byte on, the checksum and two filler bytes.
unfoldable pub low_word : ℕ → ℕ → ℕ
low_word cmd argument =
    (64 + cmd)
    + (argument / 2 ^ 24 % 256) * 2 ^ 8
    + (argument / 2 ^ 16 % 256) * 2 ^ 16
    + (argument / 2 ^ 8 % 256) * 2 ^ 24

unfoldable pub high_word : ℕ → ℕ → ℕ
high_word argument crc = argument % 256 + crc * 2 ^ 8 + 0xff * 2 ^ 16 + 0xff * 2 ^ 24

-- What `sd_main` computes from the length in the header.
unfoldable pub words_of : ℕ → ℕ
words_of length = u32 (length + 3) / 4

unfoldable pub blocks_of : ℕ → ℕ
blocks_of length = u32 (words_of length + block_words - 1) / block_words

-- The loop that sums `n` words from index `i` on.
unfoldable pub sum_words : ℕ → ℕ → ℕ → WordArray → ℕ
sum_words zero i sum words = sum
sum_words (suc n) i sum words = sum_words n (i + 1) (u32 (sum + words i)) words

-- The test of the header, negated.
unfoldable pub accepts : WordArray → Bool
accepts header = not (not (header 0 == magic) || (header 1 == 0) || leb max_image (header 1))

-- The continuations of a call that may fail.
abbrev pub on_true {ℓ ℓ'} : {S : Type ℓ} {R : Type ℓ'} → (Bool × S) → (S → R) → (S → R) → R
on_true (true, s) done other = done s
on_true (false, s) done other = other s

abbrev pub on_some {ℓ ℓ' ℓ''} :
    {S : Type ℓ} {A : Type ℓ'} {R : Type ℓ''} → (Option A × S) → (A → S → R) → (S → R) → R
on_some (some a, s) done other = done a s
on_some (none, s) done other = other s

module _ {S : Type 0} (regs : Registers S) where
  abbrev pub put : Register → ℕ → S → S
  put r value s = regs.write (address_of r) value s

  abbrev pub get : Register → S → ℕ × S
  get r s = regs.read (address_of r) s

  -- A loop that reads the status until `test` holds of it, at most `n` times.
  unfoldable pub spin : ℕ → (ℕ → Bool) → S → Bool × S
  spin zero test s = (false, s)
  spin (suc n) test s = elim (test (get status s).0) [
    | true ↦ (true, (get status s).1)
    | false ↦ spin n test (get status s).1
  ]

  -- `bytes` is at least 1.
  unfoldable pub spi_command : ℕ → Bool → ℕ → S → Bool × S
  spi_command bytes csaat direction s =
      let word = (bytes - 1) % 512 + (if csaat then 512 else 0) in
      on_true (spin spin_limit (λ st. test_bit st 31) s)
        (λ s. (true, put command (word + direction) s)) (λ s. (false, s))

  -- The second read of the status follows the first only when no command is active.
  unfoldable pub spi_wait_idle : ℕ → S → S
  spi_wait_idle zero s = s
  spi_wait_idle (suc n) s = elim (test_bit (get status s).0 30) [
    | true ↦ spi_wait_idle n (get status s).1
    | false ↦ elim (test_bit (get status (get status s).1).0 31) [
      | true ↦ (get status (get status s).1).1
      | false ↦ spi_wait_idle n (get status (get status s).1).1
    ]
  ]

  unfoldable pub spi_put_word : ℕ → S → Bool × S
  spi_put_word value s =
      on_true (spin spin_limit (λ st. not (test_bit st 29)) s) (λ s. (true, put txdata value s))
        (λ s. (false, s))

  unfoldable pub spi_get_word : S → Option ℕ × S
  spi_get_word s =
      on_true (spin spin_limit (λ st. not (test_bit st 24)) s)
        (λ s. (some (get rxdata s).0, (get rxdata s).1)) (λ s. (none, s))

  unfoldable pub spi_read_byte : Bool → S → Option ℕ × S
  spi_read_byte csaat s =
      on_true (spi_command 1 csaat direction_rx s)
        (λ s. on_some (spi_get_word s) (λ word s. (some (u8 word), s)) (λ s. (none, s)))
        (λ s. (none, s))

  unfoldable pub spi_release : S → S
  spi_release s = (spi_read_byte false s).1

  unfoldable pub sd_send_command : ℕ → ℕ → ℕ → S → Bool × S
  sd_send_command cmd argument crc s =
      on_true (spi_put_word (low_word cmd argument) s)
        (λ s.
          on_true (spi_put_word (high_word argument crc) s) (λ s. spi_command 8 true direction_tx s)
            (λ s. (false, s)))
        (λ s. (false, s))

  -- The loop of `sd_response`, with `n` attempts left.
  unfoldable pub await_response : ℕ → S → Option ℕ × S
  await_response zero s = (none, s)
  await_response (suc n) s =
      on_some (spi_read_byte true s)
        (λ value s. elim (value == 0xff) [ true ↦ await_response n s | false ↦ (some value, s) ])
        (λ s. (none, s))

  unfoldable pub sd_response : S → Option ℕ × S
  sd_response s = await_response 32 s

  -- A command and its response.
  unfoldable pub sd_exchange : ℕ → ℕ → ℕ → S → Option ℕ × S
  sd_exchange cmd argument crc s =
      on_true (sd_send_command cmd argument crc s) sd_response (λ s. (none, s))

  -- `n` bytes, of which the last is kept, as `r7[3]`; the other bytes are not used.
  unfoldable pub read_last : ℕ → ℕ → S → Option ℕ × S
  read_last zero last s = (some last, s)
  read_last (suc n) last s =
      on_some (spi_read_byte true s) (λ value s. read_last n value s) (λ s. (none, s))

  -- The loop of application command 41, with `n` attempts left.
  unfoldable pub leave_idle : ℕ → S → Bool × S
  leave_idle zero s = (false, s)
  leave_idle (suc n) s =
      on_some (sd_exchange 55 0 0x01 s)
        (λ _ s.
          on_some (sd_exchange 41 0x40000000 0x01 (spi_release s))
            (λ r1 s. elim (r1 == 0x00) [
              | true ↦ (true, put (configopts 1) 1 (spi_release s))
              | false ↦ elim (r1 == 0x01) [
                | true ↦ leave_idle n (spi_release s)
                | false ↦ (false, spi_release s)
              ]
            ])
            (λ s. (false, s)))
        (λ s. (false, s))

  -- `sd_init` up to the dummy segment, and after it, command by command.
  unfoldable pub send_if_cond : S → Bool × S
  send_if_cond s =
      on_some (sd_exchange 8 0x1aa 0x87 s)
        (λ r1 s.
          on_some (read_last 4 0 s)
            (λ echo s. elim ((r1 == 0x01) && (echo == 0xaa)) [
              | true ↦ leave_idle 1024 (spi_release s)
              | false ↦ (false, spi_release s)
            ])
            (λ s. (false, s)))
        (λ s. (false, s))

  unfoldable pub go_idle : S → Bool × S
  go_idle s =
      on_some (sd_exchange 0 0 0x95 s)
        (λ r1 s. elim (r1 == 0x01) [
          | true ↦ send_if_cond (spi_release s)
          | false ↦ (false, spi_release s)
        ])
        (λ s. (false, s))

  unfoldable pub sd_init : S → Bool × S
  sd_init s =
      let s = put control (0x80000000 + 0x20000000) s in
      let s = put (configopts 2) 63 (put (configopts 1) 63 s) in
      let s = put csid 2 (spi_wait_idle spin_limit s) in
      on_true (spi_command 80 false direction_dummy s)
        (λ s. go_idle (put csid 1 (spi_wait_idle spin_limit s))) (λ s. (false, s))

  -- The loop that waits for the data token, with `n` attempts left.
  unfoldable pub await_token : ℕ → S → Bool × S
  await_token zero s = (false, s)
  await_token (suc n) s =
      on_some (spi_read_byte true s)
        (λ value s. elim (value == 0xfe) [
          | true ↦ (true, s)
          | false ↦ elim (value == 0xff) [ true ↦ await_token n s | false ↦ (false, s) ]
        ])
        (λ s. (false, s))

  -- The loop over the words of a block, from index `i` on with `n` words left.
  unfoldable pub get_words : ℕ → ℕ → WordArray → S → Bool × (WordArray × S)
  get_words zero i words s = (true, (words, s))
  get_words (suc n) i words s =
      on_some (spi_get_word s) (λ w s. get_words n (i + 1) (update words i w) s)
        (λ s. (false, (words, s)))

  -- The block's words and the two checksum bytes, which are not compared.
  unfoldable pub read_data : WordArray → ℕ → S → Bool × (WordArray × S)
  read_data words at s =
      on_true (spi_command 512 true direction_rx s)
        (λ s.
          on_true (get_words block_words at words s)
            (λ r.
              on_some (read_last 2 0 r.1) (λ _ s. (true, (r.0, spi_release s)))
                (λ s. (false, (r.0, s))))
            (λ r. (false, r)))
        (λ s. (false, (words, s)))

  -- `sd_read_block(block, words + at)`.
  unfoldable pub sd_read_block : ℕ → WordArray → ℕ → S → Bool × (WordArray × S)
  sd_read_block block words at s =
      on_some (sd_exchange 17 block 0x01 s)
        (λ r1 s. elim (r1 == 0x00) [
          | true ↦
              on_true (await_token 1024 s) (λ s. read_data words at s) (λ s. (false, (words, s)))
          | false ↦ (false, (words, s))
        ])
        (λ s. (false, (words, s)))

  -- The loop that reads the image to `dst`, from block `b` on with `n` blocks left.
  unfoldable pub read_image : ℕ → ℕ → WordArray → S → Bool × (WordArray × S)
  read_image zero b dst s = (true, (dst, s))
  read_image (suc n) b dst s =
      on_true (sd_read_block (1 + b) dst (b * block_words) s) (λ r. read_image n (b + 1) r.0 r.1)
        (λ r. (false, r))

  -- `fail`, up to its endless loop.
  unfoldable pub fail : ℕ → (WordArray × S) → Outcome × (WordArray × S)
  fail reason (dst, s) = (failed reason, (dst, put scratch0 reason s))

  -- The start of `sd_main`: the timer's rates and the UART.
  unfoldable pub start_clocks : S → S
  start_clocks s =
      let s = put ticksource f_cpu (put ticktarget 10000000 s) in
      let s = put dll ((f_cpu + 8 * baud) / (16 * baud)) (put lcr 0x80 s) in
      put lcr 0x03 (put dlm 0 s)

  -- What `sd_main` does with the header it has read, up to the copy of the trampoline.
  unfoldable pub load : WordArray → WordArray → S → Outcome × (WordArray × S)
  load header dst s = elim (accepts header) [
    | false ↦ fail bad_header (dst, s)
    | true ↦
        on_true (read_image (blocks_of (header 1)) 0 dst s)
          (λ r. elim (sum_words (words_of (header 1)) 0 0 r.0 == header 2) [
            | true ↦ (booted (u32 (ram_base + words_of (header 1) * 4)), r)
            | false ↦ fail bad_cksum r
          ])
          (λ r. fail bad_card r)
  ]

  -- `sd_main`; `header` is the array on the stack, and `dst` the memory at RAM_BASE.
  unfoldable pub sd_main : WordArray → WordArray → S → Outcome × (WordArray × S)
  sd_main header dst s =
      on_true (sd_init (start_clocks s))
        (λ s.
          on_true (sd_read_block 0 header 0 s) (λ r. load r.0 dst r.1)
            (λ r. fail bad_card (dst, r.1)))
        (λ s. fail bad_card (dst, s))
