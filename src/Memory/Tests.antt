-- ===== src/Memory/Tests.antt =====
-- A small memory at a concrete address.
use friscv_soc.Common.{ℕ, ◌+◌, ◌≡◌, none, arith}
use friscv_soc.Memory.{PagedMem, read_byte, write_byte}
use friscv_soc.Memory.View.{read_byte-write_byte}

abbrev filled : ℕ → ℕ → ℕ
filled page offset = page + offset

abbrev small_mem : PagedMem
small_mem = record {
  base = 0x80000000;
  mem_size = 0x3000;
  page_count = 3;
  pages = λ _. none;
  fill = filled;
}

read_byte-write_byte_example :
    (read_byte (write_byte small_mem 0x80001004 0x1a5) 0x80001004).0 ≡ 0xa5
read_byte-write_byte_example =
    read_byte-write_byte small_mem 0x80001004 0x1a5 0x80001004 (omega arith) (omega arith)
      (omega arith)
