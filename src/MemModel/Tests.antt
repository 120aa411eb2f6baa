-- ===== src/MemModel/Tests.antt =====
-- A fresh memory, at once and with wait cycles.
use friscv_soc.Common.{ℕ, ◌+◌, ◌≡◌, refl, true, false, List, [], ◌∷◌, none, arith}
use friscv_soc.Common.Words.{align4}
use friscv_soc.Memory.{PagedMem, in_range}
use friscv_soc.Memory.View.{view, IsBytes, empty-IsBytes}
use friscv_soc.Bus.{Access}
use friscv_soc.MemModel.{
  MemModel, fixed, new_mem_model, addr_misaligned, write, put_in_flight, cycle,
}
use friscv_soc.MemModel.Lanes.{word_at, in_lane, write_lanes}
use friscv_soc.MemModel.Transfer.{
  IsConsistent, new_mem_model-IsConsistent, cycle-IsConsistent, run, wait_trace, read_after_wait,
}

abbrev zero_fill : ℕ → ℕ → ℕ
zero_fill page offset = 0

abbrev first_draw : ℕ → ℕ → ℕ → ℕ
first_draw lo hi n = lo

abbrev ram : PagedMem
ram = record {
  base = 0x80000000;
  mem_size = 0x1000000;
  page_count = 0x1000;
  pages = λ _. none;
  fill = zero_fill;
}

abbrev at_once : MemModel
at_once = new_mem_model first_draw ram (fixed 0)

abbrev waiting : MemModel
waiting = new_mem_model first_draw ram (fixed 2)

abbrev read_word_access : ℕ → Access
read_word_access a = record {
  size = 2;
  offset = a;
  wdata = 0;
  w_en = false;
  r_en = true;
  burst_en = false;
}

ram-IsBytes : IsBytes ram
ram-IsBytes = empty-IsBytes ram refl

write_lanes_example : view (write ram 0x80000006 1 0xabcd1234) (align4 0x80000006 + 3) ≡ 0xab
unfolding in_lane
write_lanes_example =
    write_lanes ram 0x80000006 1 0xabcd1234 3 (omega arith) ram-IsBytes (omega arith) (omega arith)
      (omega arith)

cycle-IsConsistent_example : IsConsistent (cycle waiting (read_word_access 4))
cycle-IsConsistent_example =
    cycle-IsConsistent waiting (read_word_access 4)
      (new_mem_model-IsConsistent first_draw ram (fixed 2))

abbrev in_flight : MemModel
in_flight = put_in_flight (record waiting { current_wait = 1 }) 0x80000004 (read_word_access 4)

abbrev four_reads : List Access
four_reads = read_word_access 4 ∷ read_word_access 0 ∷ read_word_access 1 ∷ read_word_access 8 ∷ []

read_after_wait_example :
    ((run waiting four_reads).out.rdata ≡ word_at ram 0x80000004)
    × (wait_trace waiting four_reads ≡ true ∷ true ∷ true ∷ false ∷ [])
unfolding new_mem_model in_range addr_misaligned
read_after_wait_example =
    read_after_wait waiting (read_word_access 4) 1
      (read_word_access 0 ∷ read_word_access 1 ∷ read_word_access 8 ∷ [])
      (new_mem_model-IsConsistent first_draw ram (fixed 2)) refl (refl, refl) refl refl refl
