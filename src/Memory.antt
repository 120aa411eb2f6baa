-- ===== src/Memory.antt =====
-- target/sim/cpp/paged_mem.{hpp,cpp}: a byte pool that allocates its pages on first use.
-- A page is an array of PAGE_SIZE bytes. `fill` is what the random generator writes into a page
-- when it is first touched; each page is filled once, so the generator's draws are named by page.
use friscv_soc.Common.{
  ℕ, ◌+◌, ◌-◌, ◌*◌, ◌/◌, ◌%◌, Bool, ◌&&◌, Option, none, some, ltb, leb, if◌then◌else◌,
}
use friscv_soc.Common.Words.{u8, u32, sub32}
use friscv_soc.Common.Arrays.{update}
pub mod View
mod Tests

abbrev pub page_size : ℕ
page_size = 4096

-- `class PagedMem`
pub record PagedMem : Type 0 where
  pub base : ℕ
  pub mem_size : ℕ
  pub page_count : ℕ
  pub pages : ℕ → Option (ℕ → ℕ)
  pub fill : ℕ → ℕ → ℕ

-- The constructor: `(size + PAGE_SIZE - 1) / PAGE_SIZE` empty pages, at 32 bits.
unfoldable pub new_mem : (ℕ → ℕ → ℕ) → ℕ → ℕ → PagedMem
new_mem fill base_addr size = record {
  base = base_addr;
  mem_size = size;
  page_count = u32 (size + page_size - 1) / page_size;
  pages = λ _. none;
  fill = fill;
}

unfoldable pub in_range : PagedMem → ℕ → Bool
in_range m addr = leb m.base addr && ltb (sub32 addr m.base) m.mem_size

-- The page index and the offset in the page that `byte_ptr` computes.
pub page_index : PagedMem → ℕ → ℕ
page_index m addr = sub32 addr m.base / page_size

pub page_offset : PagedMem → ℕ → ℕ
page_offset m addr = sub32 addr m.base % page_size

-- The contents of a page, once it is allocated.
pub page_of : PagedMem → ℕ → ℕ → ℕ
page_of m idx off = elim (m.pages idx) [ none ↦ u8 (m.fill idx off) | some p ↦ p off ]

-- `byte_ptr` allocates the page of `addr` if it has none.
pub touch : PagedMem → ℕ → PagedMem
unfolding page_index page_of
touch m addr =
    let idx = page_index m addr in record m { pages = update m.pages idx (some (page_of m idx)) }

pub read_byte : PagedMem → ℕ → ℕ × PagedMem
unfolding page_index page_offset page_of touch
read_byte m addr = (page_of (touch m addr) (page_index m addr) (page_offset m addr), touch m addr)

unfoldable pub write_byte : PagedMem → ℕ → ℕ → PagedMem
unfolding page_index page_offset page_of touch
write_byte m addr value =
    let t = touch m addr in
    let idx = page_index m addr in
    record t {
      pages = update t.pages idx (some (update (page_of t idx) (page_offset m addr) (u8 value)));
    }
