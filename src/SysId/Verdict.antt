-- ===== src/SysId/Verdict.antt =====
-- What the program reports, on a block of registers whose words are a function of the state.
use friscv_soc.Common.{
  ℕ, zero, suc, ◌+◌, ◌/◌, ◌%◌, ◌<◌, ◌≤◌, ◌≡◌, refl, ap, ◌∙◌, Bool, true, false, not, ◌&&◌, List, [],
  ◌∷◌, ◌==◌, leb, ltb, arith, if◌then◌else◌,
}
use friscv_soc.Common.Attempts.{Attempt, done, gave_up, Run, on_done, ◌>>◌, check}
use friscv_soc.Loader.{Registers}
use friscv_soc.SysId.{
  system_vernii, variant_reference, read_bit, read_field, sim_syscachecfg, sim_sysmmucfg,
  sim_sysirqcfg, sim_m_reg_rules, sim_boot_sel_w, zsbl_slot_words, sim_ocm_base, ident, magic_valid,
  sim_sysfeat, sim_ext_base, sim_ext_size, sim_ocm_size, SysError, magic, system, variant, ver_rsvd,
  feat, cachecfg, mmucfg, irqcfg, buscfg, bootselw, zsblwords, ocmbase, ocmsize, extbase, extsize,
  cachedbase, cachedsize, readonly, value_of, expect, read_block, invert_block, compare_block,
  probe, check_block, finish, sysid_main,
}

-- The words of the block, in the order of their addresses.
unfoldable pub words_from : (ℕ → ℕ) → ℕ → ℕ → List ℕ
words_from word i zero = []
words_from word i (suc n) = word i ∷ words_from word (i + 1) n

unfoldable pub same_words : List ℕ → List ℕ → Bool
same_words [] [] = true
same_words (a ∷ words) (b ∷ others) = (a == b) && same_words words others
same_words _ _ = false

-- The fields of the block that the program looks at, each with the error that names it.
abbrev pub fields : (ℕ → ℕ) → List (Bool × SysError)
fields w =
    (w 0 == 0x5645524e, magic)
    ∷ (w 1 / 65536 % 65536 == 1, system)
    ∷ (w 1 % 65536 == 0, variant)
    ∷ (w 2 / 2 % 128 == 0, ver_rsvd)
    ∷ (w 3 == 0x11617, feat)
    ∷ (w 4 == 0x40020, cachecfg)
    ∷ (w 5 == 0x402, mmucfg)
    ∷ (w 6 == 0x802, irqcfg)
    ∷ (w 7 == 2, buscfg)
    ∷ (w 8 / 65536 % 256 == 2, bootselw)
    ∷ (ltb 0 (w 8 % 65536) && leb (w 8 % 65536) 1024, zsblwords)
    ∷ (w 9 == 0, ocmbase)
    ∷ (w 10 == 0x2000, ocmsize)
    ∷ (w 11 == 0x80000000, extbase)
    ∷ (w 12 == 0x1000000, extsize)
    ∷ (w 13 == 0x80000000, cachedbase)
    ∷ (w 14 == 0x1000000, cachedsize)
    ∷ []

-- The first failing row, and what follows if there is none.
unfoldable pub first_error :
    List (Bool × SysError) → Attempt SysError (Unit {0}) → Attempt SysError (Unit {0})
first_error [] rest = rest
first_error (row ∷ rows) rest = if row.0 then first_error rows rest else gave_up row.1

-- The registers of the block: reading the word `i` gives `word s i` and changes nothing.
pub record IsBlock {S : Type 0} (regs : Registers S) (word : S → ℕ → ℕ) : Type 0 where
  pub reads : (i : ℕ) (s : S) → i < 15 → regs.read (ident i) s ≡ (word s i, s)

abbrev pub verdict_of : Bool → Attempt SysError (Unit {0})
verdict_of b = if b then done tt else gave_up readonly

module _ {S : Type 0} (regs : Registers S) (word : S → ℕ → ℕ) where
  -- The state after the probe has written the complement of every word to it.
  unfoldable pub rewritten : S → S
  rewritten s = invert_block regs (words_from (word s) 0 15) 0 s

  abbrev pub unchanged : S → Bool
  unchanged s = same_words (words_from (word (rewritten s)) 0 15) (words_from (word s) 0 15)

-- A check: the word of the block, the test of its value and the error.
abbrev Check : Type 0
Check = ℕ × (ℕ → Bool) × SysError

all_within : List Check → Bool
all_within [] = true
all_within (c ∷ checks) = ltb c.0 15 && all_within checks

rows : (ℕ → ℕ) → List Check → List (Bool × SysError)
rows w [] = []
rows w (c ∷ checks) = (c.1 (w c.0), c.2) ∷ rows w checks

-- The checks of the program.
abbrev block_checks : List Check
block_checks =
    (0, (λ v. v == magic_valid), magic)
    ∷ (1, (λ v. read_bit 16 16 v == system_vernii), system)
    ∷ (1, (λ v. read_bit 0 16 v == variant_reference), variant)
    ∷ (2, (λ v. read_bit 1 7 v == 0), ver_rsvd)
    ∷ (3, (λ v. v == sim_sysfeat), feat)
    ∷ (4, (λ v. v == sim_syscachecfg), cachecfg)
    ∷ (5, (λ v. v == sim_sysmmucfg), mmucfg)
    ∷ (6, (λ v. v == sim_sysirqcfg), irqcfg)
    ∷ (7, (λ v. v == sim_m_reg_rules), buscfg)
    ∷ (8, (λ v. read_field 16 8 v == sim_boot_sel_w), bootselw)
    ∷ (8, (λ v. not (read_field 0 16 v == 0) && leb (read_field 0 16 v) zsbl_slot_words), zsblwords)
    ∷ (9, (λ v. v == sim_ocm_base), ocmbase)
    ∷ (10, (λ v. v == sim_ocm_size), ocmsize)
    ∷ (11, (λ v. v == sim_ext_base), extbase)
    ∷ (12, (λ v. v == sim_ext_size), extsize)
    ∷ (13, (λ v. v == sim_ext_base), cachedbase)
    ∷ (14, (λ v. v == sim_ext_size), cachedsize)
    ∷ []

==-agree : (a b c d : ℕ) → (a ≡ b → c ≡ d) → (c ≡ d → a ≡ b) → (a == b) ≡ (c == d)
==-agree a b c d h k = ground (arith, h, k)

rows-block_checks : (w : ℕ → ℕ) → rows w block_checks ≡ fields w
unfolding rows
rows-block_checks w =
    let system_same : (read_bit 16 16 (w 1) == system_vernii) ≡ (w 1 / 65536 % 65536 == 1) =
      ==-agree _ _ _ _ (λ h. omega (arith, h)) (λ h. omega (arith, h)) in
    let variant_same : (read_bit 0 16 (w 1) == variant_reference) ≡ (w 1 % 65536 == 0) =
      ==-agree _ _ _ _ (λ h. omega (arith, h)) (λ h. omega (arith, h)) in
    let reserved_same : (read_bit 1 7 (w 2) == 0) ≡ (w 2 / 2 % 128 == 0) =
      ==-agree _ _ _ _ (λ h. omega (arith, h)) (λ h. omega (arith, h)) in
    let width_same : (not (read_field 0 16 (w 8) == 0)
          && leb (read_field 0 16 (w 8)) zsbl_slot_words)
        ≡ (ltb 0 (w 8 % 65536) && leb (w 8 % 65536) 1024) =
      ground arith in
    λ i.
      (w 0 == magic_valid, magic)
      ∷ (system_same i, system)
      ∷ (variant_same i, variant)
      ∷ (reserved_same i, ver_rsvd)
      ∷ (w 3 == sim_sysfeat, feat)
      ∷ (w 4 == sim_syscachecfg, cachecfg)
      ∷ (w 5 == sim_sysmmucfg, mmucfg)
      ∷ (w 6 == sim_sysirqcfg, irqcfg)
      ∷ (w 7 == sim_m_reg_rules, buscfg)
      ∷ (read_field 16 8 (w 8) == sim_boot_sel_w, bootselw)
      ∷ (width_same i, zsblwords)
      ∷ (w 9 == sim_ocm_base, ocmbase)
      ∷ (w 10 == sim_ocm_size, ocmsize)
      ∷ (w 11 == sim_ext_base, extbase)
      ∷ (w 12 == sim_ext_size, extsize)
      ∷ (w 13 == sim_ext_base, cachedbase)
      ∷ (w 14 == sim_ext_size, cachedsize)
      ∷ []

check_then :
    {S : Type 0}
    → (b : Bool) (e : SysError) (k : Run S SysError (Unit {0})) (s : S)
      (rest : Attempt SysError (Unit {0}))
    → (k s).0 ≡ rest
    → (on_done (check b e s) (λ _. k)).0 ≡ (if b then rest else gave_up e)
check_then true e k s rest next = next
check_then false e k s rest next = refl

module _ {S : Type 0} (regs : Registers S) (word : S → ℕ → ℕ) (block : IsBlock regs word) where
  expect_lem :
      (i : ℕ) (test : ℕ → Bool) (e : SysError) (s : S)
      → i < 15
      → expect regs (ident i) test e s ≡ check (test (word s i)) e s
  unfolding expect
  expect_lem i test e s h = ap (λ p. check (test p.0) e p.1) (block.reads i s h)

  -- A check at the head of a sequence.
  expect_then :
      (i : ℕ) (test : ℕ → Bool) (b : Bool) (e : SysError) (k : Run S SysError (Unit {0})) (s : S)
      (rest : Attempt SysError (Unit {0}))
      → i < 15
      → test (word s i) ≡ b
      → (k s).0 ≡ rest
      → (on_done (expect regs (ident i) test e s) (λ _. k)).0 ≡ (if b then rest else gave_up e)
  expect_then i test b e k s rest h same next =
      ap (λ p. (on_done p (λ _. k)).0) (expect_lem i test e s h)
      ∙ ap (λ t. (on_done (check t e s) (λ _. k)).0) same
      ∙ check_then b e k s rest next

  read_block_lem :
      (n i : ℕ) (s : S) → i + n ≤ 15 → read_block regs n i s ≡ (done (words_from (word s) i n), s)
  unfolding read_block words_from
  read_block_lem zero i s h = refl
  read_block_lem (suc n) i s h =
      ap
        (λ p.
          on_done (done p.0, p.1)
            (λ w t. on_done (read_block regs n (i + 1) t) (λ ws u. (done (w ∷ ws), u))))
        (block.reads i s (omega arith))
      ∙ ap (λ r. on_done r (λ ws u. (done (word s i ∷ ws), u)))
          (read_block_lem n (i + 1) s (omega arith))

  verdict_of-both :
      (b more : Bool) → (if b then verdict_of more else gave_up readonly) ≡ verdict_of (b && more)
  verdict_of-both true more = refl
  verdict_of-both false more = refl

  compare_block_lem :
      (n i : ℕ) (s : S) (before : ℕ → ℕ)
      → i + n ≤ 15
      → (compare_block regs (words_from before i n) i s).0
        ≡ verdict_of (same_words (words_from (word s) i n) (words_from before i n))
  unfolding compare_block words_from same_words
  compare_block_lem zero i s before h = refl
  compare_block_lem (suc n) i s before h =
      let b = word s i == before i in
      let more = same_words (words_from (word s) (i + 1) n) (words_from before (i + 1) n) in
      expect_then i (λ v. v == before i) b readonly
        (compare_block regs (words_from before (i + 1) n) (i + 1)) s (verdict_of more) (omega arith)
        refl (compare_block_lem n (i + 1) s before (omega arith))
      ∙ verdict_of-both b more

  probe_lem : (s : S) → (probe regs s).0 ≡ verdict_of (unchanged regs word s)
  unfolding probe rewritten
  probe_lem s =
      let before = words_from (word s) 0 15 in
      ap (λ r. (on_done r (λ ws t. compare_block regs ws 0 (invert_block regs ws 0 t))).0)
        (read_block_lem 15 0 s (omega arith))
      ∙ compare_block_lem 15 0 (invert_block regs before 0 s) (word s) (omega arith)

  -- A sequence of checks, each of a word of the block.
  sequenced : List Check → Run S SysError (Unit {0}) → Run S SysError (Unit {0})
  sequenced [] k = k
  sequenced (c ∷ checks) k = expect regs (ident c.0) c.1 c.2 >> sequenced checks k

  sequenced_lem :
      (checks : List Check) (k : Run S SysError (Unit {0})) (s : S)
      (rest : Attempt SysError (Unit {0}))
      → all_within checks ≡ true
      → (k s).0 ≡ rest
      → (sequenced checks k s).0 ≡ first_error (rows (word s) checks) rest
  unfolding sequenced first_error rows all_within
  sequenced_lem [] k s rest h next = next
  sequenced_lem (c ∷ checks) k s rest h next =
      let within : c.0 < 15 = ground (arith, h) in
      let others : all_within checks ≡ true = ground (arith, h) in
      expect_then c.0 c.1 (c.1 (word s c.0)) c.2 (sequenced checks k) s
        (first_error (rows (word s) checks) rest) within refl
        (sequenced_lem checks k s rest others next)

  -- The program's error is that of the first field that is not as expected, in the order of the
  -- registers; with every field as expected, the probe decides.
  check_block_lem :
      (s : S)
      → (check_block regs s).0 ≡ first_error (fields (word s)) (verdict_of (unchanged regs word s))
  unfolding check_block sequenced all_within
  check_block_lem s =
      let rest = verdict_of (unchanged regs word s) in
      sequenced_lem block_checks (probe regs) s rest refl (probe_lem s)
      ∙ ap (λ l. first_error l rest) (rows-block_checks (word s))

  -- The number that the program writes to the scratch register: `pass` if every field is as
  -- expected and the probe finds the block unchanged, and otherwise the number of the first field
  -- that is not, or of the probe.
  pub sysid_main-first_error :
      (s : S)
      → (sysid_main regs s).0
        ≡ value_of (first_error (fields (word s)) (verdict_of (unchanged regs word s)))
  unfolding sysid_main finish
  sysid_main-first_error s = ap value_of (check_block_lem s)
