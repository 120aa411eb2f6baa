-- ===== src/MemModel.antt =====
-- target/sim/cpp/mem_model.{hpp,cpp}: the memory on the core testbench's bus, with wait cycles.
-- The random wait comes from the standard library: `uniform lo hi n` is what the n-th draw from
-- `uniform_int_distribution(lo, hi)` gives, and `draws` counts the draws made.
use friscv_soc.Common.{
  ℕ, ◌+◌, ◌-◌, ◌*◌, ◌/◌, ◌%◌, ◌^◌, Bool, true, false, not, ◌&&◌, ◌||◌, ◌==◌, if◌then◌else◌,
}
use friscv_soc.Common.Words.{u32, test_bit, word_of, align4}
use friscv_soc.Memory.{PagedMem, in_range, read_byte, write_byte}
use friscv_soc.Bus.{BusOut, idle_out, Access, BusDevice}
pub mod Lanes
pub mod Transfer
mod Tests

-- The constructor's `int wait_cycles`: a fixed number of cycles, the modes -1 and -2, and any
-- other negative number.
pub data WaitConfig : Type 0 where
  fixed : ℕ → WaitConfig
  rand_range rand_max unknown : WaitConfig

abbrev pub min_rand_wait : ℕ
min_rand_wait = 1

abbrev pub max_rand_wait : ℕ
max_rand_wait = 3

abbrev pub size_byte : ℕ
size_byte = 0

abbrev pub size_half : ℕ
size_half = 1

abbrev pub size_word : ℕ
size_word = 2

-- `class MemModel`
pub record MemModel : Type 0 where
  pub out : BusOut
  pub mem : PagedMem
  pub in_flight : Bool
  pub in_flight_size : ℕ
  pub in_flight_addr : ℕ
  pub in_flight_wdata : ℕ
  pub in_flight_w_en : Bool
  pub in_flight_r_en : Bool
  pub in_flight_burst_en : Bool
  pub wait_cycles : WaitConfig
  pub current_wait : ℕ
  pub uniform : ℕ → ℕ → ℕ → ℕ
  pub draws : ℕ

pub new_mem_model : (ℕ → ℕ → ℕ → ℕ) → PagedMem → WaitConfig → MemModel
new_mem_model uniform mem wait_cycles = record {
  out = idle_out;
  mem = mem;
  in_flight = false;
  in_flight_size = 0;
  in_flight_addr = 0;
  in_flight_wdata = 0;
  in_flight_w_en = false;
  in_flight_r_en = false;
  in_flight_burst_en = false;
  wait_cycles = wait_cycles;
  current_wait = 0;
  uniform = uniform;
  draws = 0;
}

pub addr_misaligned : ℕ → ℕ → Bool
addr_misaligned addr size =
    if size == size_word
    then not (addr % 4 == 0)
    else if size == size_half
    then not (addr % 2 == 0)
    else false

pub shift_for : ℕ → ℕ → ℕ
shift_for addr size =
    if size == size_half
    then (if test_bit addr 1 then 16 else 0)
    else if size == size_byte
    then addr % 4 * 8
    else 0

pub mask_for : ℕ → ℕ
mask_for size =
    if size == size_half then 0xffff else if size == size_byte then 0xff else 0xffff_ffff

pub read_word_aligned : PagedMem → ℕ → ℕ × PagedMem
read_word_aligned m addr =
    let a = align4 addr in
    let (b0, m0) = read_byte m a in
    let (b1, m1) = read_byte m0 (u32 (a + 1)) in
    let (b2, m2) = read_byte m1 (u32 (a + 2)) in
    let (b3, m3) = read_byte m2 (u32 (a + 3)) in (word_of b0 b1 b2 b3, m3)

-- `read`, which ignores the size.
pub read : PagedMem → ℕ → ℕ → ℕ × PagedMem
read m addr size = read_word_aligned m addr

-- `x & (mask << shift)`, for a mask of ones: the bits of the lane, in place.
abbrev pub lane_bits : ℕ → ℕ → ℕ → ℕ
lane_bits mask shift x = x / 2 ^ shift % (mask + 1) * 2 ^ shift

-- `(word & ~lane_mask) | (data & lane_mask)`: the lane's bits are cleared, then set.
pub merge : ℕ → ℕ → ℕ → ℕ → ℕ
merge mask shift word value = word - lane_bits mask shift word + lane_bits mask shift value

-- The four `write_byte` calls of `write`.
pub write_bytes : PagedMem → ℕ → ℕ → PagedMem
write_bytes m a word =
    let m0 = write_byte m a (word % 256) in
    let m1 = write_byte m0 (u32 (a + 1)) (word / 2 ^ 8 % 256) in
    let m2 = write_byte m1 (u32 (a + 2)) (word / 2 ^ 16 % 256) in
    write_byte m2 (u32 (a + 3)) (word / 2 ^ 24 % 256)

pub write : PagedMem → ℕ → ℕ → ℕ → PagedMem
write m addr size value =
    let (word, m') = read_word_aligned m addr in
    write_bytes m' (align4 addr) (merge (mask_for size) (shift_for addr size) word value)

-- The wait of the next transfer, and whether it is drawn.
pub next_wait_cycles : MemModel → ℕ × MemModel
next_wait_cycles s = elim s.wait_cycles [
  | fixed n ↦ (n, s)
  | rand_max ↦ (s.uniform 0 max_rand_wait s.draws, record s { draws = s.draws + 1 })
  | rand_range ↦ (s.uniform min_rand_wait max_rand_wait s.draws, record s { draws = s.draws + 1 })
  | unknown ↦ (0, s)
]

-- The last cycle of a long transfer.
pub finish_transfer : MemModel → MemModel
finish_transfer s =
    let t = record s { in_flight = false; out = record s.out { wait = false } } in
    if s.in_flight_r_en
    then (let (word, m') = read s.mem s.in_flight_addr s.in_flight_size in
        record t { in_flight_r_en = false; mem = m'; out = record t.out { rdata = word } })
    else if s.in_flight_w_en
    then record t {
      in_flight_w_en = false;
      mem = write s.mem s.in_flight_addr s.in_flight_size s.in_flight_wdata;
    }
    else t

-- A transfer of a single cycle.
pub single_cycle : MemModel → ℕ → Access → MemModel
single_cycle s addr a =
    if a.r_en
    then (let (word, m') = read s.mem addr a.size in
        record s { mem = m'; in_flight = false; out = record s.out { rdata = word; wait = false } })
    else record s {
      mem = (if a.w_en then write s.mem addr a.size a.wdata else s.mem);
      in_flight = false;
      out = record s.out { wait = false };
    }

-- A transfer of several cycles is put in flight.
pub put_in_flight : MemModel → ℕ → Access → MemModel
put_in_flight s addr a = record s {
  in_flight = true;
  in_flight_size = a.size;
  in_flight_addr = addr;
  in_flight_wdata = a.wdata;
  in_flight_w_en = a.w_en;
  in_flight_r_en = a.r_en;
  in_flight_burst_en = a.burst_en;
  out = record s.out { wait = true };
}

-- A new transfer: refused if out of range or misaligned.
pub start_transfer : MemModel → Access → MemModel
start_transfer s a =
    let addr = u32 (s.mem.base + a.offset) in
    if not (in_range s.mem addr) || addr_misaligned addr a.size
    then record s { out = record s.out { err = true; wait = false } }
    else (let (n, s') = next_wait_cycles s in
        let t = record s' { current_wait = n } in
        if n == 0 then single_cycle t addr a else put_in_flight t addr a)

-- `MemModel::cycle`
pub cycle : MemModel → Access → MemModel
cycle s a =
    let t = record s { out = record s.out { err = false; beat_valid = false } } in
    if t.in_flight && not (t.current_wait == 0)
    then record t { out = record t.out { wait = true }; current_wait = t.current_wait - 1 }
    else if t.current_wait == 0
    then (if t.in_flight
        then finish_transfer t
        else if a.r_en || a.w_en
        then start_transfer t a
        else t)
    else t

unfoldable pub mem_device : BusDevice MemModel
mem_device = record { cycle = cycle; out = λ s. s.out }
