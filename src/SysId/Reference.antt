-- ===== src/SysId/Reference.antt =====
-- When the program reports a pass.
use friscv_soc.Common.{
  ℕ, zero, suc, ◌+◌, ◌-◌, ◌*◌, ◌/◌, ◌%◌, ◌<◌, ◌≤◌, ◌≡◌, ◌↔◌, ◌⊎◌, &&-true, refl, sym, ap, ◌∙◌, Bool,
  true, false, ◌&&◌, List, [], ◌∷◌, ◌==◌, leb, ltb, arith, ==_iff, inl, inr,
}
use mathlib.Core.Path.{subst}
use friscv_soc.Common.Attempts.{Attempt, done, gave_up}
use friscv_soc.Loader.{Registers}
use friscv_soc.SysId.{SysError, value_of, sysid_main, pass, invert_block}
use friscv_soc.SysId.Verdict.{
  words_from, same_words, fields, first_error, verdict_of, rewritten, unchanged, IsBlock,
  sysid_main-first_error,
}

-- The identification block of the reference configuration, with a boot ROM that fits its slot and
-- the reserved bits of the version at zero.
pub record IsReference (w : ℕ → ℕ) : Type 0 where
  pub vern : w 0 ≡ 0x5645524e
  pub is_vernii : w 1 / 65536 % 65536 ≡ 1
  pub is_reference : w 1 % 65536 ≡ 0
  pub reserved_zero : w 2 / 2 % 128 ≡ 0
  pub features : w 3 ≡ 0x11617
  pub cache : w 4 ≡ 0x40020
  pub mmu : w 5 ≡ 0x402
  pub interrupts : w 6 ≡ 0x802
  pub bus_rules : w 7 ≡ 2
  pub boot_select : w 8 / 65536 % 256 ≡ 2
  pub rom_present : 0 < w 8 % 65536
  pub rom_fits : w 8 % 65536 ≤ 1024
  pub ocm_at : w 9 ≡ 0
  pub ocm_bytes : w 10 ≡ 0x2000
  pub ext_at : w 11 ≡ 0x80000000
  pub ext_bytes : w 12 ≡ 0x1000000
  pub cached_at : w 13 ≡ 0x80000000
  pub cached_bytes : w 14 ≡ 0x1000000

abbrev AllHold : List (Bool × SysError) → Type 0
AllHold [] = Unit
AllHold (row ∷ rows) = (row.0 ≡ true) × AllHold rows

first_error-AllHold :
    (rows : List (Bool × SysError)) (b : Bool)
    → (first_error rows (verdict_of b) ≡ done tt) ↔ (AllHold rows × (b ≡ true))
unfolding first_error
first_error-AllHold [] true = ((λ _. (tt, refl)), λ _. refl)
first_error-AllHold [] false = ((λ h. ground (arith, h)), λ h. ground (arith, h))
first_error-AllHold ((true, e) ∷ rows) b =
    let rest = first_error-AllHold rows b in
    (
      (λ h. let (all, same) = rest.0 h in ((refl, all), same)),
      λ h. let (all, same) = h in rest.1 (all.1, same),
    )
first_error-AllHold ((false, e) ∷ rows) b =
    ((λ h. ground (arith, h)), λ h. let (all, same) = h in let f = all.0 in ground (arith, f))

rom_iff : (n : ℕ) → (ltb 0 n && leb n 1024 ≡ true) ↔ ((0 < n) × (n ≤ 1024))
rom_iff n = ground arith

fields-IsReference : (w : ℕ → ℕ) → AllHold (fields w) → IsReference w
fields-IsReference w h = record {
  vern = (==_iff _ _).0 h.0;
  is_vernii = (==_iff _ _).0 h.1.0;
  is_reference = (==_iff _ _).0 h.1.1.0;
  reserved_zero = (==_iff _ _).0 h.1.1.1.0;
  features = (==_iff _ _).0 h.1.1.1.1.0;
  cache = (==_iff _ _).0 h.1.1.1.1.1.0;
  mmu = (==_iff _ _).0 h.1.1.1.1.1.1.0;
  interrupts = (==_iff _ _).0 h.1.1.1.1.1.1.1.0;
  bus_rules = (==_iff _ _).0 h.1.1.1.1.1.1.1.1.0;
  boot_select = (==_iff _ _).0 h.1.1.1.1.1.1.1.1.1.0;
  rom_present = ((rom_iff _).0 h.1.1.1.1.1.1.1.1.1.1.0).0;
  rom_fits = ((rom_iff _).0 h.1.1.1.1.1.1.1.1.1.1.0).1;
  ocm_at = (==_iff _ _).0 h.1.1.1.1.1.1.1.1.1.1.1.0;
  ocm_bytes = (==_iff _ _).0 h.1.1.1.1.1.1.1.1.1.1.1.1.0;
  ext_at = (==_iff _ _).0 h.1.1.1.1.1.1.1.1.1.1.1.1.1.0;
  ext_bytes = (==_iff _ _).0 h.1.1.1.1.1.1.1.1.1.1.1.1.1.1.0;
  cached_at = (==_iff _ _).0 h.1.1.1.1.1.1.1.1.1.1.1.1.1.1.1.0;
  cached_bytes = (==_iff _ _).0 h.1.1.1.1.1.1.1.1.1.1.1.1.1.1.1.1.0;
}

IsReference-fields : (w : ℕ → ℕ) → IsReference w → AllHold (fields w)
IsReference-fields w r = (
  (==_iff _ _).1 r.vern,
  (
    (==_iff _ _).1 r.is_vernii,
    (
      (==_iff _ _).1 r.is_reference,
      (
        (==_iff _ _).1 r.reserved_zero,
        (
          (==_iff _ _).1 r.features,
          (
            (==_iff _ _).1 r.cache,
            (
              (==_iff _ _).1 r.mmu,
              (
                (==_iff _ _).1 r.interrupts,
                (
                  (==_iff _ _).1 r.bus_rules,
                  (
                    (==_iff _ _).1 r.boot_select,
                    (
                      (rom_iff _).1 (r.rom_present, r.rom_fits),
                      (
                        (==_iff _ _).1 r.ocm_at,
                        (
                          (==_iff _ _).1 r.ocm_bytes,
                          (
                            (==_iff _ _).1 r.ext_at,
                            (
                              (==_iff _ _).1 r.ext_bytes,
                              ((==_iff _ _).1 r.cached_at, ((==_iff _ _).1 r.cached_bytes, tt)),
                            ),
                          ),
                        ),
                      ),
                    ),
                  ),
                ),
              ),
            ),
          ),
        ),
      ),
    ),
  ),
)

next_or_here : (i j n : ℕ) → j < i + suc n → i ≤ j → (i ≡ j) ⊎ (i + 1 ≤ j)
next_or_here i j n h k = ground arith

same_words-words_from :
    (n i j : ℕ) (f g : ℕ → ℕ)
    → same_words (words_from f i n) (words_from g i n) ≡ true
    → i ≤ j
    → j < i + n
    → f j ≡ g j
unfolding same_words words_from
same_words-words_from zero i j f g h low high = absurd (omega arith)
same_words-words_from (suc n) i j f g h low high =
    let (here, more) = &&-true (f i == g i) _ h in
    elim (next_or_here i j n high low) [
      | inl e ↦ subst (λ k. f k ≡ g k) e ((==_iff (f i) (g i)).0 here)
      | inr later ↦ same_words-words_from n (i + 1) j f g more later (omega arith)
    ]

words_from-same :
    (n i : ℕ) (f g : ℕ → ℕ)
    → ((j : ℕ) → j < i + n → f j ≡ g j)
    → same_words (words_from f i n) (words_from g i n) ≡ true
unfolding same_words words_from
words_from-same zero i f g h = refl
words_from-same (suc n) i f g h =
    let here = (==_iff (f i) (g i)).1 (h i (omega arith)) in
    rw here (words_from-same n (i + 1) f g (λ j high. h j (omega arith)))

value_of-pass : (r : Attempt SysError (Unit {0})) → value_of r ≡ pass → r ≡ done tt
unfolding value_of
value_of-pass (done _) h = refl
value_of-pass (gave_up error) h = absurd (omega (arith, h))

value_of-done : (r : Attempt SysError (Unit {0})) → r ≡ done tt → value_of r ≡ pass
unfolding value_of
value_of-done r e = ap value_of e

module _ {S : Type 0} (regs : Registers S) where
  -- The complement of each of `n` words from the word `i` on, in their order, is written to the
  -- address of the word.
  unfoldable pub complemented : ℕ → ℕ → (ℕ → ℕ) → S → S
  complemented zero i w s = s
  complemented (suc n) i w s =
      complemented n (i + 1) w (regs.write (0x03000100 + 4 * i) (0xffffffff - w i) s)

  invert_block-complemented :
      (n i : ℕ) (w : ℕ → ℕ) (s : S)
      → invert_block regs (words_from w i n) i s ≡ complemented n i w s
  unfolding invert_block words_from complemented
  invert_block-complemented zero i w s = refl
  invert_block-complemented (suc n) i w s =
      invert_block-complemented n (i + 1) w (regs.write (0x03000100 + 4 * i) (0xffffffff - w i) s)

  rewritten-complemented :
      (word : S → ℕ → ℕ) (s : S) → rewritten regs word s ≡ complemented 15 0 (word s) s
  unfolding rewritten
  rewritten-complemented word s = invert_block-complemented 15 0 (word s) s

module _ {S : Type 0} (regs : Registers S) (word : S → ℕ → ℕ) (block : IsBlock regs word) where
  -- The program reports a pass exactly if the block is that of the reference configuration and each
  -- of its words is, once the complement of every word has been written to its address, what it was
  -- before.
  pub sysid_main-IsReference :
      (s : S)
      → ((sysid_main regs s).0 ≡ pass) ↔ (
          IsReference (word s)
          × ((i : ℕ) → i < 15 → word (complemented regs 15 0 (word s) s) i ≡ word s i))
  sysid_main-IsReference s =
      let r = first_error (fields (word s)) (verdict_of (unchanged regs word s)) in
      let e = sysid_main-first_error regs word block s in
      let iff = first_error-AllHold (fields (word s)) (unchanged regs word s) in
      (
        (λ h.
            let (all, same) = iff.0 (value_of-pass r (sym e ∙ h)) in
            (
              fields-IsReference (word s) all,
              λ i hi.
                  ap (λ t. word t i) (sym (rewritten-complemented regs word s))
                  ∙ same_words-words_from 15 0 i (word (rewritten regs word s)) (word s) same
                      (omega arith) hi,
            )),
        λ h.
            let (reference, kept) = h in
            e
            ∙ value_of-done r (
                iff.1 (
                  IsReference-fields (word s) reference,
                  words_from-same 15 0 (word (rewritten regs word s)) (word s)
                      (λ i hi. ap (λ t. word t i) (rewritten-complemented regs word s) ∙ kept i hi),
                )),
      )
