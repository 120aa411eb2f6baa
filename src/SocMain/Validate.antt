-- ===== src/SocMain/Validate.antt =====
-- The images that `validate` lets through.
use Prim.Native.String.{String}
use friscv_soc.Common.{
  ℕ, ◌+◌, ◌*◌, ◌%◌, ◌^◌, ◌≤◌, ◌≡◌, refl, ap, ◌∙◌, Bool, true, false, not, ◌&&◌, ◌||◌, List, [], ◌∷◌,
  leb, ◌==◌, arith, sym, &&-true,
}
use mathlib.Core.Path.{ap₂}
use friscv_soc.Common.Arrays.{length}
use friscv_soc.Common.Bytes.{AllBytes}
use friscv_soc.Common.Results.{Result, ok, thrown}
use friscv_soc.Common.Fallible.{◌>>=◌, ◌>>◌, guard}
use friscv_soc.Elf.{ElfSegment, ElfImage}
use friscv_soc.Elf.Load.{image_view}
use friscv_soc.SocMemory.{Sram, ocm_words, preload_sram}
use friscv_soc.SocMemory.Preload.{sram_view, AllInside, preload_sram_lem}
use friscv_soc.SocMain.Image.{
  is_external, check_segment, check_segments, holds_entry, validate, mem_base, sram_size,
  segment_end,
}

abbrev pub is_ok : {A : Type 0} → Result A → Bool
is_ok (ok a) = true
is_ok (thrown e) = false

-- A segment of an image that starts outside the on-chip memory, and of one that starts in it.
abbrev pub placed : ℕ → Bool → ElfSegment → Bool
placed sram_base true s = leb mem_base s.address
placed sram_base false s = leb sram_base s.address && leb (segment_end s) (sram_base + sram_size)

unfoldable pub all_placed : ℕ → Bool → List ElfSegment → Bool
all_placed sram_base external [] = true
all_placed sram_base external (s ∷ segments) =
    placed sram_base external s && all_placed sram_base external segments

unfoldable pub some_holds : ℕ → List ElfSegment → Bool
some_holds entry [] = false
some_holds entry (s ∷ segments) = holds_entry entry s || some_holds entry segments

is_ok-check_segment :
    (sram_base : ℕ) (external : Bool) (s : ElfSegment)
    → is_ok (check_segment sram_base external s) ≡ placed sram_base external s
unfolding check_segment
is_ok-check_segment sram_base true s = ground arith
is_ok-check_segment sram_base false s = ground arith

>>=-then :
    {A B : Type 0}
    → (m : Result (Unit {0})) (k : Result A) (f : A → Result B)
    → is_ok ((m >> k) >>= f) ≡ (is_ok m && is_ok (k >>= f))
>>=-then (ok _) k f = refl
>>=-then (thrown e) k f = refl

is_ok-guard :
    {A : Type 0} → (b : Bool) (e : String) (k : Result A) → is_ok (guard b e >> k) ≡ (b && is_ok k)
is_ok-guard true e k = refl
is_ok-guard false e k = refl

-- The last test of `validate`.
is_ok-entry :
    (aligned running found : Bool) (e : String)
    → is_ok (guard (aligned && (running && (found || false))) e) ≡ (aligned && (running && found))
is_ok-entry false running found e = refl
is_ok-entry true false found e = refl
is_ok-entry true true false e = refl
is_ok-entry true true true e = refl

regroup :
    (p all later here found : Bool) (f : Bool → Bool)
    → (p && (all && f (later || (here || found)))) ≡ ((p && all) && f ((here || later) || found))
regroup false all later here found f = refl
regroup true all true true found f = refl
regroup true all true false found f = refl
regroup true all false true found f = refl
regroup true all false false found f = refl

-- The test that follows the loop of `validate`, after the loop.
is_ok-check_segments :
    (sram_base entry : ℕ) (found : Bool) (segments : List ElfSegment)
    (last : Bool → Result (Unit {0}))
    → is_ok (check_segments sram_base entry found segments >>= last) ≡ (
        all_placed sram_base (is_external sram_base entry) segments
        && is_ok (last (some_holds entry segments || found)))
unfolding check_segments all_placed some_holds
is_ok-check_segments sram_base entry found [] last = refl
is_ok-check_segments sram_base entry found (s ∷ segments) last =
    let external = is_external sram_base entry in
    let seen = holds_entry entry s || found in
    >>=-then (check_segment sram_base external s) (check_segments sram_base entry seen segments)
      last
    ∙ ap₂ ◌&&◌ (is_ok-check_segment sram_base external s)
        (is_ok-check_segments sram_base entry seen segments last)
    ∙ regroup (placed sram_base external s) (all_placed sram_base external segments)
        (some_holds entry segments) (holds_entry entry s) found (λ b. is_ok (last b))

-- An image is let through exactly if it is for RISC-V, its segments all start at or above the
-- external base or all lie inside the on-chip memory, depending on where its entry is, and its entry
-- is aligned, is not the parking value and lies in an executable segment.
pub is_ok-validate :
    (sram_base : ℕ) (image : ElfImage)
    → is_ok (validate sram_base image) ≡ (
        (image.machine == 243)
        && (all_placed sram_base (is_external sram_base image.entry) image.segments
            && ((image.entry % 4 == 0)
                && (not (image.entry == 1) && some_holds image.entry image.segments))))
unfolding validate
is_ok-validate sram_base image =
    let last : Bool → Result (Unit {0}) = λ entry_ok.
      guard ((image.entry % 4 == 0) && (not (image.entry == 1) && entry_ok))
        "invalid ELF entry point" in
    is_ok-guard (image.machine == 243) "ELF is not for RISC-V"
      (check_segments sram_base image.entry false image.segments >>= last)
    ∙ ap (λ b. (image.machine == 243) && b)
        (is_ok-check_segments sram_base image.entry false image.segments last
          ∙ ap (λ b. all_placed sram_base (is_external sram_base image.entry) image.segments && b)
              (is_ok-entry (image.entry % 4 == 0) (not (image.entry == 1))
                (some_holds image.entry image.segments) "invalid ELF entry point"))

-- The segments hold bytes.
abbrev pub AllSegmentBytes : List ElfSegment → Type 0
AllSegmentBytes [] = Unit
AllSegmentBytes (s ∷ segments) = AllBytes s.bytes × AllSegmentBytes segments

placed-inside :
    (sram_base : ℕ) (s : ElfSegment)
    → placed sram_base false s ≡ true
    → (sram_base ≤ s.address) × (s.address + length s.bytes ≤ sram_base + 4 * ocm_words)
placed-inside sram_base s h = ground arith

all_placed-AllInside :
    (sram_base : ℕ) (segments : List ElfSegment)
    → all_placed sram_base false segments ≡ true
    → AllSegmentBytes segments
    → AllInside sram_base segments
unfolding all_placed
all_placed-AllInside sram_base [] h all = tt
all_placed-AllInside sram_base (s ∷ segments) h all =
    let (here, others) =
      &&-true (placed sram_base false s) (all_placed sram_base false segments) h in
    let (lo, hi) = placed-inside sram_base s here in
    (lo, hi, all.0, all_placed-AllInside sram_base segments others all.1)

validated-placed :
    (sram_base : ℕ) (image : ElfImage)
    → validate sram_base image ≡ ok tt
    → all_placed sram_base (is_external sram_base image.entry) image.segments ≡ true
validated-placed sram_base image v =
    let holds = sym (is_ok-validate sram_base image) ∙ ap is_ok v in
    (&&-true (all_placed sram_base (is_external sram_base image.entry) image.segments)
      ((image.entry % 4 == 0) && (not (image.entry == 1) && some_holds image.entry image.segments))
      (&&-true (image.machine == 243)
        (all_placed sram_base (is_external sram_base image.entry) image.segments
          && ((image.entry % 4 == 0)
              && (not (image.entry == 1) && some_holds image.entry image.segments)))
        holds).1).0

-- An image that is let through, with its entry in the on-chip memory, is preloaded without an
-- error, and the memory then holds the image; this holds for both layouts of the memory.
pub validated_preload :
    (ocm_only : Bool) (sram_base : ℕ) (image : ElfImage) (sram : Sram) (b : ℕ)
    → sram_base + 4 * ocm_words ≤ 2 ^ 32
    → validate sram_base image ≡ ok tt
    → is_external sram_base image.entry ≡ false
    → AllSegmentBytes image.segments
    → sram_base ≤ b
    → let r = preload_sram ocm_only image sram_base sram in
      (r.0 ≡ ok tt)
      × (sram_view ocm_only sram_base r.1 b
          ≡ image_view image.segments (sram_view ocm_only sram_base sram) b)
validated_preload ocm_only sram_base image sram b fits v inside all hb =
    let internal : all_placed sram_base false image.segments ≡ true =
      ap (λ x. all_placed sram_base x image.segments) (sym inside)
      ∙ validated-placed sram_base image v in
    preload_sram_lem ocm_only sram_base fits image sram b
      (all_placed-AllInside sram_base image.segments internal all) hb
