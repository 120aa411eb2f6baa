-- ===== src/AxiMem/Tests.antt =====
-- A read burst of two words and a write, on a fresh memory.
use friscv_soc.Common.{ℕ, ◌+◌, ◌≡◌, refl, true, false, none, arith}
use friscv_soc.Memory.{PagedMem}
use friscv_soc.Memory.View.{view}
use friscv_soc.AxiMem.{AxiMem, Sample, memory_size, word_base, new_axi, write_word, process}
use friscv_soc.AxiMem.Words.{write_word_lanes}
use friscv_soc.AxiMem.Channels.{IsHandshake}
use friscv_soc.AxiMem.Burst.{beats, burst, read_burst}

abbrev filled : ℕ → ℕ → ℕ
filled page offset = page + offset

abbrev ram : PagedMem
ram = record {
  base = 0;
  mem_size = memory_size;
  page_count = 0x10000;
  pages = λ _. none;
  fill = filled;
}

-- The master takes what it is given and asks for nothing.
abbrev quiet : Sample
quiet = record {
  aw_valid = false;
  aw_addr = 0;
  aw_len = 0;
  aw_size = 2;
  aw_id = false;
  w_valid = false;
  w_data = 0;
  w_strb = 0;
  w_last = false;
  b_ready = true;
  ar_valid = false;
  ar_addr = 0;
  ar_len = 0;
  ar_size = 2;
  ar_id = false;
  r_ready = true;
}

abbrev request : Sample
request = record quiet { ar_valid = true; ar_addr = 0x100; ar_len = 1 }

abbrev fresh : AxiMem
fresh = new_axi filled

-- A write whose address is taken, with its last beat on the pins.
abbrev writing : AxiMem
writing = record fresh { aw_ready = false; w_ready = true; write_address = 8 }

abbrev last_data : Sample
last_data = record quiet { w_valid = true; w_last = true; w_strb = 0xf; w_data = 0x12345678 }

writing-IsHandshake : IsHandshake writing
unfolding new_axi
writing-IsHandshake = ground arith

read_burst_example : beats 5 quiet (process request fresh) ≡ burst 2 0x100 4 fresh.memory
unfolding new_axi
read_burst_example =
    read_burst request quiet fresh 5 refl refl refl refl (omega arith)
      (record { takes = refl; no_write = refl; no_read = refl }) (omega arith)

write_word_lanes_example : view (write_word ram 9 0x12345678 2) (word_base 9 + 1) ≡ 0x56
write_word_lanes_example = write_word_lanes ram 9 0x12345678 2 (omega arith) 1 (omega arith)
