-- ===== src/SocMain/Startable.antt =====
-- What `validate` asks of an image, apart from the code.
use friscv_soc.Common.{
  ℕ, ◌+◌, ◌%◌, ◌<◌, ◌≤◌, ◌≡◌, ◌↔◌, ◌⊎◌, inl, inr, refl, ap, ◌∙◌, sym, Bool, true, false, not, ◌&&◌,
  ◌||◌, List, [], ◌∷◌, ◌==◌, arith, &&-true,
}
use friscv_soc.Common.Arrays.{length}
use friscv_soc.Common.Results.{Result, ok, thrown}
use friscv_soc.Elf.{ElfSegment, ElfImage}
use friscv_soc.SocMain.Image.{is_external, holds_entry, validate}
use friscv_soc.SocMain.Validate.{is_ok, placed, all_placed, some_holds, is_ok-validate}

unfoldable pub EverySegment : (ElfSegment → Type 0) → List ElfSegment → Type 0
EverySegment P [] = Unit
EverySegment P (s ∷ segments) = P s × EverySegment P segments

unfoldable pub SomeSegment : (ElfSegment → Type 0) → List ElfSegment → Type 0
SomeSegment P [] = ⊥
SomeSegment P (s ∷ segments) = P s ⊎ SomeSegment P segments

-- The segment is executable and has a byte at the entry.
abbrev pub Runs : ℕ → ElfSegment → Type 0
Runs entry s = (s.executable ≡ true) × (s.address ≤ entry) × (entry < s.address + length s.bytes)

abbrev pub InDram : ElfSegment → Type 0
InDram s = 0x80000000 ≤ s.address

abbrev pub InSram : ℕ → ElfSegment → Type 0
InSram sram_base s = (sram_base ≤ s.address) × (s.address + length s.bytes ≤ sram_base + 0x2000)

-- The entry is outside the 8 KiB of the on-chip memory and all segments are in the external one, or
-- all are inside.
abbrev pub OnePlace : ℕ → ℕ → List ElfSegment → Type 0
OnePlace sram_base entry segments =
    (((entry < sram_base) ⊎ (sram_base + 0x2000 ≤ entry)) × EverySegment InDram segments)
    ⊎ ((sram_base ≤ entry)
        × (entry < sram_base + 0x2000)
        × EverySegment (InSram sram_base) segments)

pub record Startable (sram_base : ℕ) (image : ElfImage) : Type 0 where
  pub for_riscv : image.machine ≡ 243
  pub one_place : OnePlace sram_base image.entry image.segments
  pub aligned : image.entry % 4 ≡ 0
  pub runs : SomeSegment (Runs image.entry) image.segments

both_true : (a b : Bool) → a ≡ true → b ≡ true → (a && b) ≡ true
both_true a b h k = ground (arith, h, k)

either_true : (a b : Bool) → (a || b) ≡ true → (a ≡ true) ⊎ (b ≡ true)
either_true true b h = inl refl
either_true false b h = inr h

left_true : (a b : Bool) → a ≡ true → (a || b) ≡ true
left_true a b h = ground (arith, h)

right_true : (a b : Bool) → b ≡ true → (a || b) ≡ true
right_true a b h = ground (arith, h)

all_placed-EverySegment :
    (sram_base : ℕ) (external : Bool) (P : ElfSegment → Type 0)
    → ((s : ElfSegment) → (placed sram_base external s ≡ true) ↔ P s)
    → (segments : List ElfSegment)
    → (all_placed sram_base external segments ≡ true) ↔ EverySegment P segments
unfolding all_placed EverySegment
all_placed-EverySegment sram_base external P each [] = ((λ _. tt), λ _. refl)
all_placed-EverySegment sram_base external P each (s ∷ segments) =
    let more = all_placed-EverySegment sram_base external P each segments in
    (
      (λ h.
          let (here, others) =
            &&-true (placed sram_base external s) (all_placed sram_base external segments) h in
          ((each s).0 here, more.0 others)),
      λ p.
          both_true (placed sram_base external s) (all_placed sram_base external segments)
            ((each s).1 p.0) (more.1 p.1),
    )

holds_entry-Runs : (entry : ℕ) (s : ElfSegment) → (holds_entry entry s ≡ true) ↔ Runs entry s
unfolding holds_entry
holds_entry-Runs entry s = ground arith

some_holds-SomeSegment :
    (entry : ℕ) (segments : List ElfSegment)
    → (some_holds entry segments ≡ true) ↔ SomeSegment (Runs entry) segments
unfolding some_holds SomeSegment
some_holds-SomeSegment entry [] = ((λ h. ground (arith, h)), λ b. absurd b)
some_holds-SomeSegment entry (s ∷ segments) =
    let here = holds_entry-Runs entry s in
    let more = some_holds-SomeSegment entry segments in
    (
      (λ h. elim (either_true (holds_entry entry s) (some_holds entry segments) h) [
        | inl a ↦ inl (here.0 a)
        | inr b ↦ inr (more.0 b)
      ]),
      λ p. elim p [
        | inl a ↦ left_true (holds_entry entry s) (some_holds entry segments) (here.1 a)
        | inr b ↦ right_true (holds_entry entry s) (some_holds entry segments) (more.1 b)
      ],
    )

placed-InDram : (sram_base : ℕ) (s : ElfSegment) → (placed sram_base true s ≡ true) ↔ InDram s
placed-InDram sram_base s = ground arith

placed-InSram :
    (sram_base : ℕ) (s : ElfSegment) → (placed sram_base false s ≡ true) ↔ InSram sram_base s
placed-InSram sram_base s = ground arith

-- Where an entry is.
is_external-outside :
    (sram_base entry : ℕ)
    → (is_external sram_base entry ≡ true) ↔ ((entry < sram_base) ⊎ (sram_base + 0x2000 ≤ entry))
unfolding is_external
is_external-outside sram_base entry = ground arith

is_external-inside :
    (sram_base entry : ℕ)
    → (is_external sram_base entry ≡ false) ↔ ((sram_base ≤ entry) × (entry < sram_base + 0x2000))
unfolding is_external
is_external-inside sram_base entry = ground arith

Bool-cases : (b : Bool) → (b ≡ true) ⊎ (b ≡ false)
Bool-cases true = inl refl
Bool-cases false = inr refl

all_placed-OnePlace :
    (sram_base entry : ℕ) (segments : List ElfSegment)
    → (all_placed sram_base (is_external sram_base entry) segments ≡ true)
      ↔ OnePlace sram_base entry segments
all_placed-OnePlace sram_base entry segments =
    let outer = all_placed-EverySegment sram_base true InDram (placed-InDram sram_base) segments in
    let inner =
      all_placed-EverySegment sram_base false (InSram sram_base) (placed-InSram sram_base)
        segments in
    let outside = is_external-outside sram_base entry in
    let inside = is_external-inside sram_base entry in
    let at : Bool → Bool = λ b. all_placed sram_base b segments in
    (
      (λ h. elim (Bool-cases (is_external sram_base entry)) [
        | inl e ↦ inl (outside.0 e, outer.0 (ap at (sym e) ∙ h))
        | inr e ↦ let (low, high) = inside.0 e in inr (low, high, inner.0 (ap at (sym e) ∙ h))
      ]),
      λ p. elim p [
        | inl q ↦ ap at (outside.1 q.0) ∙ outer.1 q.1
        | inr q ↦ ap at (inside.1 (q.0, q.1)) ∙ inner.1 q.2
      ],
    )

is_ok-true : (r : Result (Unit {0})) → (is_ok r ≡ true) ↔ (r ≡ ok tt)
is_ok-true (ok _) = ((λ _. refl), λ _. refl)
is_ok-true (thrown e) = ((λ h. ground (arith, h)), λ h. ap is_ok h)

-- The tests of `validate` as one Boolean.
tests : ℕ → ElfImage → Bool
tests sram_base image =
    (image.machine == 243)
    && (all_placed sram_base (is_external sram_base image.entry) image.segments
        && ((image.entry % 4 == 0)
            && (not (image.entry == 1) && some_holds image.entry image.segments)))

tests-Startable :
    (sram_base : ℕ) (image : ElfImage) → (tests sram_base image ≡ true) ↔ Startable sram_base image
unfolding tests
tests-Startable sram_base image =
    let place = all_placed-OnePlace sram_base image.entry image.segments in
    let some = some_holds-SomeSegment image.entry image.segments in
    (
      (λ h.
          let (machine, h1) = &&-true (image.machine == 243) _ h in
          let (all, h2) =
            &&-true (all_placed sram_base (is_external sram_base image.entry) image.segments) _
              h1 in
          let (aligned, h3) = &&-true (image.entry % 4 == 0) _ h2 in
          let (running, held) = &&-true (not (image.entry == 1)) _ h3 in
          record {
            for_riscv = ground (arith, machine);
            one_place = place.0 all;
            aligned = ground (arith, aligned);
            runs = some.0 held;
          }),
      λ p.
          let entry = image.entry in
          let machine : (image.machine == 243) ≡ true = ground (arith, p.for_riscv) in
          let aligned : (entry % 4 == 0) ≡ true = ground (arith, p.aligned) in
          let running : not (entry == 1) ≡ true = ground (arith, p.aligned) in
          both_true (image.machine == 243) _ machine (
            both_true (all_placed sram_base (is_external sram_base entry) image.segments) _
              (place.1 p.one_place)
              (both_true (entry % 4 == 0) _ aligned
                (both_true (not (entry == 1)) _ running (some.1 p.runs)))),
    )

-- `validate` returns without an exception exactly for an image that is for RISC-V, has an aligned
-- entry at a byte of one of its executable segments, and has either its entry outside the 8 KiB of
-- the on-chip memory and every segment start in the external memory, or its entry and every segment
-- inside the on-chip memory.
pub validate-Startable :
    (sram_base : ℕ) (image : ElfImage)
    → (validate sram_base image ≡ ok tt) ↔ Startable sram_base image
unfolding tests
validate-Startable sram_base image =
    let same = is_ok-validate sram_base image in
    let valid = is_ok-true (validate sram_base image) in
    let passed = tests-Startable sram_base image in
    ((λ h. passed.0 (sym same ∙ valid.1 h)), λ p. valid.0 (same ∙ passed.1 p))
