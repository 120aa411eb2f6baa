-- ===== src/Memory/View.antt =====
-- The flat byte array that a paged memory stands for.
use friscv_soc.Common.{
  ℕ, ◌-◌, ◌%◌, ◌^◌, ◌≤◌, ◌<◌, ◌≡◌, refl, ◌∙◌, true, none, ◌==◌, if◌then◌else◌, arith,
}
use friscv_soc.Memory.{
  PagedMem, new_mem, in_range, page_size, page_index, page_offset, page_of, touch, read_byte,
  write_byte,
}

-- The byte at an address.
pub view : PagedMem → ℕ → ℕ
unfolding page_of page_index page_offset
view m addr = page_of m (page_index m addr) (page_offset m addr)

pub view-touch : (m : PagedMem) (a b : ℕ) → view (touch m a) b ≡ view m b
unfolding view touch
view-touch m a b = ground arith

-- A read returns the byte of the view.
pub read_byte-view : (m : PagedMem) (a : ℕ) → (read_byte m a).0 ≡ view m a
unfolding view read_byte
read_byte-view m a = ground arith

pub view-read_byte : (m : PagedMem) (a b : ℕ) → view (read_byte m a).1 b ≡ view m b
unfolding view read_byte
view-read_byte m a b = ground arith

pub view-write_byte :
    (m : PagedMem) (a v b : ℕ)
    → m.base < 2 ^ 32
    → a < 2 ^ 32
    → b < 2 ^ 32
    → view (write_byte m a v) b ≡ (if a == b then v % 256 else view m b)
unfolding view write_byte
view-write_byte m a v b hm ha hb = ground arith

pub base-read_byte : (m : PagedMem) (a : ℕ) → (read_byte m a).1.base ≡ m.base
unfolding read_byte
base-read_byte m a = refl

pub base-write_byte : (m : PagedMem) (a v : ℕ) → (write_byte m a v).base ≡ m.base
unfolding write_byte
base-write_byte m a v = refl

pub size-write_byte : (m : PagedMem) (a v : ℕ) → (write_byte m a v).mem_size ≡ m.mem_size
unfolding write_byte
size-write_byte m a v = refl

-- Every byte of the view is a byte.
abbrev pub IsBytes : PagedMem → Type 0
IsBytes m = (a : ℕ) → view m a < 256

pub write_byte-IsBytes : (m : PagedMem) (a v : ℕ) → IsBytes m → IsBytes (write_byte m a v)
unfolding view write_byte
write_byte-IsBytes m a v all b = let h = all b in ground (arith, h)

-- A write stores the low byte of the value: reading any address afterwards gives that byte at the
-- address written and what was there before everywhere else, whichever pages were allocated.
pub read_byte-write_byte :
    (m : PagedMem) (a v b : ℕ)
    → m.base < 2 ^ 32
    → a < 2 ^ 32
    → b < 2 ^ 32
    → (read_byte (write_byte m a v) b).0 ≡ (if a == b then v % 256 else (read_byte m b).0)
read_byte-write_byte m a v b hm ha hb =
    read_byte-view (write_byte m a v) b ∙ rw (read_byte-view m b) (view-write_byte m a v b hm ha hb)

pub empty-IsBytes : (m : PagedMem) → m.pages ≡ (λ _. none) → IsBytes m
unfolding view
empty-IsBytes m e a = rw e (omega arith)

-- An address that is in range lies in a page of the vector, for a memory of at most 2 ^ 32 bytes
-- less a page.
pub in_range-page :
    (fill : ℕ → ℕ → ℕ) (base size a : ℕ)
    → size ≤ 2 ^ 32 - page_size
    → a < 2 ^ 32
    → base < 2 ^ 32
    → in_range (new_mem fill base size) a ≡ true
    → page_index (new_mem fill base size) a < (new_mem fill base size).page_count
unfolding new_mem in_range page_index
in_range-page fill base size a hs ha hb h = ground arith
