-- ===== src/AxiMem.antt =====
-- target/sim/cpp/axi_mem.{hpp,cpp}: the AXI slave memory of the SoC testbench.
use friscv_soc.Common.{
  ℕ, ◌+◌, ◌-◌, ◌*◌, ◌/◌, ◌%◌, ◌^◌, Bool, true, false, not, ◌&&◌, ◌||◌, List, [], ◌∷◌, Option, none,
  some, ◌==◌, if◌then◌else◌, of_bool,
}
use friscv_soc.Common.Words.{u8, u32, test_bit, word_of, align4}
use friscv_soc.Memory.{PagedMem, new_mem, in_range, read_byte, write_byte}
pub mod Words
pub mod Channels
pub mod Burst
mod Tests

abbrev pub memory_size : ℕ
memory_size = 0x10000000

-- `struct Sample`: the master's side of the five channels, as `capture` reads it off the pins.
pub record Sample : Type 0 where
  pub aw_valid : Bool
  pub aw_addr : ℕ
  pub aw_len : ℕ
  pub aw_size : ℕ
  pub aw_id : Bool
  pub w_valid : Bool
  pub w_data : ℕ
  pub w_strb : ℕ
  pub w_last : Bool
  pub b_ready : Bool
  pub ar_valid : Bool
  pub ar_addr : ℕ
  pub ar_len : ℕ
  pub ar_size : ℕ
  pub ar_id : Bool
  pub r_ready : Bool

-- The slave's side, as `drive` puts it on the pins; both response codes are 0.
pub record Driven : Type 0 where
  pub aw_ready : Bool
  pub w_ready : Bool
  pub b_valid : Bool
  pub b_resp : ℕ
  pub b_id : Bool
  pub ar_ready : Bool
  pub r_valid : Bool
  pub r_data : ℕ
  pub r_resp : ℕ
  pub r_last : Bool
  pub r_id : Bool

-- `class AxiMem`; `sample_` is passed to `process`.
pub record AxiMem : Type 0 where
  pub memory : PagedMem
  pub clock : Bool
  pub aw_ready : Bool
  pub w_ready : Bool
  pub b_valid : Bool
  pub b_id : Bool
  pub ar_ready : Bool
  pub r_valid : Bool
  pub r_last : Bool
  pub r_id : Bool
  pub r_data : ℕ
  pub write_address : ℕ
  pub write_size : ℕ
  pub read_address : ℕ
  pub read_size : ℕ
  pub read_beats : ℕ

pub new_axi : (ℕ → ℕ → ℕ) → AxiMem
new_axi fill = record {
  memory = new_mem fill 0 memory_size;
  clock = false;
  aw_ready = true;
  w_ready = false;
  b_valid = false;
  b_id = false;
  ar_ready = true;
  r_valid = false;
  r_last = false;
  r_id = false;
  r_data = 0;
  write_address = 0;
  write_size = 0;
  read_address = 0;
  read_size = 0;
  read_beats = 0;
}

-- The loop of `preload`: `none` is the exception "AXI memory preload is out of range".
unfoldable pub preload_from : PagedMem → ℕ → List ℕ → Option PagedMem
preload_from m a [] = some m
preload_from m a (b ∷ bs) =
    if in_range m a then preload_from (write_byte m a b) (u32 (a + 1)) bs else none

unfoldable pub preload : AxiMem → ℕ → List ℕ → Option AxiMem
preload s a bytes = elim (preload_from s.memory a bytes) [
  | none ↦ none
  | some m ↦ some (record s { memory = m })
]

-- `(address & (MEMORY_SIZE - 1)) & ~3`
abbrev pub word_base : ℕ → ℕ
word_base a = align4 (a % memory_size)

-- `read_word`; the four bytes fill separate lanes.
pub read_word : PagedMem → ℕ → ℕ × PagedMem
read_word m a =
    let base = word_base a in
    let (b0, m0) = read_byte m (u32 (base + 0)) in
    let (b1, m1) = read_byte m0 (u32 (base + 1)) in
    let (b2, m2) = read_byte m1 (u32 (base + 2)) in
    let (b3, m3) = read_byte m2 (u32 (base + 3)) in (word_of b0 b1 b2 b3, m3)

-- One round of the loop of `write_word`.
pub write_lane : ℕ → ℕ → ℕ → ℕ → PagedMem → PagedMem
write_lane base value strb i m =
    if test_bit strb i then write_byte m (u32 (base + i)) (u8 (value / 2 ^ (8 * i))) else m

pub write_word : PagedMem → ℕ → ℕ → ℕ → PagedMem
unfolding write_lane
write_word m a value strb =
    let base = word_base a in
    write_lane base value strb 3
      (write_lane base value strb 2 (write_lane base value strb 1 (write_lane base value strb 0 m)))

pub drive : AxiMem → Driven
drive s = record {
  aw_ready = s.aw_ready;
  w_ready = s.w_ready;
  b_valid = s.b_valid;
  b_resp = 0;
  b_id = s.b_id;
  ar_ready = s.ar_ready;
  r_valid = s.r_valid;
  r_data = s.r_data;
  r_resp = 0;
  r_last = s.r_last;
  r_id = s.r_id;
}

-- The five parts of `process`. Each is given the handshake signal as it stood at the start.
pub write_response : Bool → Sample → AxiMem → AxiMem
write_response b_valid p s =
    if b_valid && p.b_ready then record s { b_valid = false; aw_ready = true } else s

-- `--read_beats_` on an `unsigned`.
pub read_beat : Bool → Bool → Sample → AxiMem → AxiMem
read_beat r_valid r_last p s =
    if not (r_valid && p.r_ready)
    then s
    else if r_last
    then record s { r_valid = false; r_last = false; ar_ready = true }
    else (let a = u32 (s.read_address + 2 ^ s.read_size) in
        let beats = u32 (s.read_beats + 4294967295) in
        let (word, m) = read_word s.memory a in
        record s {
          read_address = a;
          read_beats = beats;
          r_data = word;
          memory = m;
          r_last = beats == 1;
        })

pub write_beat : Bool → Sample → AxiMem → AxiMem
write_beat w_ready p s =
    if not (w_ready && p.w_valid)
    then s
    else (let t = record s {
      memory = write_word s.memory s.write_address p.w_data p.w_strb;
      write_address = u32 (s.write_address + 2 ^ s.write_size);
    } in
        if p.w_last then record t { w_ready = false; b_valid = true } else t)

pub accept_write : Bool → Sample → AxiMem → AxiMem
accept_write aw_ready p s =
    if aw_ready && p.aw_valid
    then record s {
      write_address = p.aw_addr;
      write_size = p.aw_size;
      b_id = p.aw_id;
      aw_ready = false;
      w_ready = true;
    }
    else s

pub accept_read : Bool → Sample → AxiMem → AxiMem
accept_read ar_ready p s =
    if ar_ready && p.ar_valid
    then (let (word, m) = read_word s.memory p.ar_addr in
        record s {
          read_address = p.ar_addr;
          read_size = p.ar_size;
          read_beats = u32 (p.ar_len + 1);
          r_id = p.ar_id;
          r_data = word;
          memory = m;
          r_last = u32 (p.ar_len + 1) == 1;
          r_valid = true;
          ar_ready = false;
        })
    else s

-- `process`
pub process : Sample → AxiMem → AxiMem
process p s = accept_read s.ar_ready p (
    accept_write s.aw_ready p
      (write_beat s.w_ready p (read_beat s.r_valid s.r_last p (write_response s.b_valid p s))))

-- `update`: at each falling edge the outputs as they stand go to the pins, and the sample is
-- processed. The pins are left alone otherwise.
unfoldable pub update : AxiMem → ℕ → Sample → AxiMem × Option Driven
update s clk_i p =
    let clock = not (clk_i == 0) in
    if (clock && s.clock) || (not clock && not s.clock)
    then (s, none)
    else if clock
    then (record s { clock = clock }, none)
    else (process p (record s { clock = clock }), some (drive s))
