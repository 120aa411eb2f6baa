-- ===== src/Elf/Load.antt =====
-- What is in memory after a file is loaded.
use friscv_soc.Common.{
  ℕ, ◌+◌, ◌^◌, ◌≤◌, ◌<◌, ◌≡◌, refl, ap, ◌∙◌, Bool, true, false, ◌&&◌, List, [], ◌∷◌, Bool-cases,
  inl, inr, ◌⊎◌, if◌then◌else◌, arith,
}
use friscv_soc.Common.Words.{u8, u32}
use friscv_soc.Common.Arrays.{length, update}
use friscv_soc.Common.Bytes.{stored, stored-u32, stored_at, stored_outside}
use friscv_soc.Common.Results.{ok, thrown}
use friscv_soc.Memory.{PagedMem, in_range, write_byte}
use friscv_soc.Memory.View.{view, view-write_byte, base-write_byte, size-write_byte}
use friscv_soc.Elf.{ElfSegment, fits, write_bytes, load_segments}

-- The segments put into the flat memory, one after the other.
unfoldable pub image_view : List ElfSegment → (ℕ → ℕ) → ℕ → ℕ
image_view [] mem = mem
image_view (s ∷ segments) mem = image_view segments (stored mem s.address s.bytes)

-- The segments before the first that does not fit the memory.
unfoldable pub fitting : PagedMem → List ElfSegment → List ElfSegment
fitting m [] = []
fitting m (s ∷ segments) = if fits m s then s ∷ fitting m segments else []

unfoldable pub all_fit : PagedMem → List ElfSegment → Bool
all_fit m [] = true
all_fit m (s ∷ segments) = fits m s && all_fit m segments

-- The two memories cover the same addresses.
record SameRange (m k : PagedMem) : Type 0 where
  base_same : k.base ≡ m.base
  size_same : k.mem_size ≡ m.mem_size

write_bytes-SameRange :
    (bytes : List ℕ) (a : ℕ) (m : PagedMem) → SameRange m (write_bytes a bytes m)
unfolding write_bytes
write_bytes-SameRange [] a m = record { base_same = refl; size_same = refl }
write_bytes-SameRange (x ∷ bytes) a m =
    let r = write_bytes-SameRange bytes (u32 (a + 1)) (write_byte m a x) in
    record {
      base_same = r.base_same ∙ base-write_byte m a x;
      size_same = r.size_same ∙ size-write_byte m a x;
    }

pub view-write_bytes :
    (bytes : List ℕ) (a : ℕ) (m : PagedMem) (b : ℕ)
    → m.base < 2 ^ 32
    → a + length bytes ≤ 2 ^ 32
    → b < 2 ^ 32
    → view (write_bytes a bytes m) b ≡ stored (view m) a bytes b
unfolding write_bytes stored
view-write_bytes [] a m b hm ha hb = refl
view-write_bytes (x ∷ bytes) a m b hm ha hb =
    let k = write_byte m a x in
    view-write_bytes bytes (u32 (a + 1)) k b (rw (base-write_byte m a x) hm) (omega arith) hb
    ∙ ap (λ f. f b) (stored-u32 (view k) (a + 1) bytes (omega arith))
    ∙ stored_at bytes (view k) (update (view m) a (u8 x)) (a + 1) b
        (view-write_byte m a x b hm (omega arith) hb)

fits-SameRange : (m k : PagedMem) (s : ElfSegment) → SameRange m k → fits k s ≡ fits m s
unfolding fits
fits-SameRange m k s r = rw (r.base_same, r.size_same) refl

in_range-SameRange : (m k : PagedMem) (b : ℕ) → SameRange m k → in_range k b ≡ in_range m b
unfolding in_range
in_range-SameRange m k b r = rw (r.base_same, r.size_same) refl

fitting-SameRange :
    (segments : List ElfSegment) (m k : PagedMem)
    → SameRange m k
    → fitting k segments ≡ fitting m segments
unfolding fitting
fitting-SameRange [] m k r = refl
fitting-SameRange (s ∷ segments) m k r =
    rw (fits-SameRange m k s r, fitting-SameRange segments m k r) refl

all_fit-SameRange :
    (segments : List ElfSegment) (m k : PagedMem)
    → SameRange m k
    → all_fit k segments ≡ all_fit m segments
unfolding all_fit
all_fit-SameRange [] m k r = refl
all_fit-SameRange (s ∷ segments) m k r =
    rw (fits-SameRange m k s r, all_fit-SameRange segments m k r) refl

pub image_view_at :
    (segments : List ElfSegment) (f g : ℕ → ℕ) (b : ℕ)
    → f b ≡ g b
    → image_view segments f b ≡ image_view segments g b
unfolding image_view
image_view_at [] f g b h = h
image_view_at (s ∷ segments) f g b h =
    image_view_at segments (stored f s.address s.bytes) (stored g s.address s.bytes) b
      (stored_at s.bytes f g s.address b h)

fits_end : (m : PagedMem) (s : ElfSegment) → fits m s ≡ true → s.address + length s.bytes ≤ 2 ^ 32
unfolding fits
fits_end m s h = ground arith

load_fits :
    (s : ElfSegment) (segments : List ElfSegment) (m : PagedMem)
    → fits m s ≡ true
    → load_segments (s ∷ segments) m ≡ load_segments segments (write_bytes s.address s.bytes m)
unfolding load_segments
load_fits s segments m t = ground arith

load_misfit :
    (s : ElfSegment) (segments : List ElfSegment) (m : PagedMem)
    → fits m s ≡ false
    → load_segments (s ∷ segments) m ≡ (thrown "ELF segment outside memory range", m)
unfolding load_segments
load_misfit s segments m f = ground arith

-- The segments before the first that does not fit are in memory, the later over the earlier, and
-- no other byte has changed; the load goes through exactly if every segment fits.
pub load_segments_lem :
    (segments : List ElfSegment) (m : PagedMem) (b : ℕ)
    → m.base < 2 ^ 32
    → b < 2 ^ 32
    → let r = load_segments segments m in
      (view r.1 b ≡ image_view (fitting m segments) (view m) b)
      × (r.0 ≡ (if all_fit m segments then ok tt else thrown "ELF segment outside memory range"))
unfolding fitting all_fit image_view
load_segments_lem [] m b hm hb = unfold load_segments in (refl, refl)
load_segments_lem (s ∷ segments) m b hm hb = elim (Bool-cases (fits m s)) [
  | inr f ↦ rw (load_misfit s segments m f, f) (refl, refl)
  | inl t ↦
      let k = write_bytes s.address s.bytes m in
      let r = write_bytes-SameRange s.bytes s.address m in
      let (mem_ok, went) = load_segments_lem segments k b (rw r.base_same hm) hb in
      let this = view-write_bytes s.bytes s.address m b hm (fits_end m s t) hb in
      rw (load_fits s segments m t, t)
        (
          mem_ok
              ∙ ap (λ l. image_view l (view k) b) (fitting-SameRange segments m k r)
              ∙ image_view_at (fitting m segments) (view k) (stored (view m) s.address s.bytes) b
                  this,
          went ∙ rw (all_fit-SameRange segments m k r) refl,
        )
]

-- A segment that fits has no byte outside the memory's range.
outside_segment :
    (m : PagedMem) (s : ElfSegment) (b : ℕ)
    → m.base < 2 ^ 32
    → b < 2 ^ 32
    → fits m s ≡ true
    → in_range m b ≡ false
    → (b < s.address) ⊎ (s.address + length s.bytes ≤ b)
unfolding fits in_range
outside_segment m s b hm hb f out = ground arith

-- Whatever file is loaded, and whether or not the load goes through, no byte outside the memory's
-- range changes.
pub load_segments-outside :
    (segments : List ElfSegment) (m : PagedMem) (b : ℕ)
    → m.base < 2 ^ 32
    → b < 2 ^ 32
    → in_range m b ≡ false
    → view (load_segments segments m).1 b ≡ view m b
load_segments-outside [] m b hm hb out = unfold load_segments in refl
load_segments-outside (s ∷ segments) m b hm hb out = elim (Bool-cases (fits m s)) [
  | inr f ↦ rw (load_misfit s segments m f) refl
  | inl t ↦
      let k = write_bytes s.address s.bytes m in
      let r = write_bytes-SameRange s.bytes s.address m in
      rw (load_fits s segments m t) (
        load_segments-outside segments k b (rw r.base_same hm) hb (in_range-SameRange m k b r ∙ out)
        ∙ view-write_bytes s.bytes s.address m b hm (fits_end m s t) hb
        ∙ stored_outside s.bytes (view m) s.address b (outside_segment m s b hm hb t out))
]
