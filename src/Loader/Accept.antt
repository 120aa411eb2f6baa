-- ===== src/Loader/Accept.antt =====
-- When the loader jumps to an image.
use friscv_soc.Common.{
  ℕ, ◌+◌, ◌*◌, ◌%◌, ◌<◌, ◌≡◌, refl, ap, ◌⊎◌, inl, inr, Bool, true, false, ◌==◌, arith,
}
use friscv_soc.Common.Words.{u32}
use friscv_soc.Loader.{
  Registers, WordArray, Outcome, booted, failed, accepts, magic, max_image, bad_card, bad_header,
  bad_cksum, ram_base, words_of, blocks_of, sum_words, on_true, fail, put, scratch0, load,
  read_image, sd_read_block, sd_init, start_clocks, sd_main,
}

accepts_lem :
    (header : WordArray)
    → accepts header ≡ true
    → (header 0 ≡ magic) × (0 < header 1) × (header 1 < max_image)
unfolding accepts
accepts_lem header h = ground arith

-- What the loader has checked of the image at `dst` when it jumps to `entry`.
pub record Verified (header dst : WordArray) (entry : ℕ) : Type 0 where
  pub magic_ok : header 0 ≡ magic
  pub not_empty : 0 < header 1
  pub not_large : header 1 < max_image
  pub sum_ok : sum_words (words_of (header 1)) 0 0 dst ≡ header 2
  pub entry_ok : entry ≡ ram_base + words_of (header 1) * 4

entry_lem :
    (length : ℕ)
    → length < max_image
    → u32 (ram_base + words_of length * 4) ≡ ram_base + words_of length * 4
unfolding words_of
entry_lem length h = omega arith

booted-injective : (a b : ℕ) → booted a ≡ booted b → a ≡ b
booted-injective a b e = ground arith

failed-injective : (a b : ℕ) → failed a ≡ failed b → a ≡ b
failed-injective a b e = ground arith

booted≢failed : (a b : ℕ) → ¬ (booted a ≡ failed b)
booted≢failed a b e = ground arith

module _ {S : Type 0} (regs : Registers S) where
  load-booted :
      (header dst : WordArray) (s : S) (entry : ℕ)
      → (load regs header dst s).0 ≡ booted entry
      → let image = read_image regs (blocks_of (header 1)) 0 dst s in
        (image.0 ≡ true) × Verified header image.1.0 entry × ((load regs header dst s).1 ≡ image.1)
  unfolding load fail
  load-booted header dst s entry h = ground (arith, accepts_lem header, entry_lem (header 1))

  -- The loader jumps to an image only after the card is initialised, the header block and every
  -- block of the image are read, the header has the magic number and a length in range, and the
  -- words of the image in memory sum to the header's checksum; the jump is to the word behind the
  -- image, and the memory is as the last block read left it.
  pub sd_main-booted :
      (header dst : WordArray) (s : S) (entry : ℕ)
      → (sd_main regs header dst s).0 ≡ booted entry
      → let card = sd_init regs (start_clocks regs s) in
        let first = sd_read_block regs 0 header 0 card.1 in
        let image = read_image regs (blocks_of (first.1.0 1)) 0 dst first.1.1 in
        (card.0 ≡ true)
        × (first.0 ≡ true)
        × (image.0 ≡ true)
        × Verified first.1.0 image.1.0 entry
        × ((sd_main regs header dst s).1 ≡ image.1)
  unfolding sd_main fail
  sd_main-booted header dst s entry h =
      let card = sd_init regs (start_clocks regs s) in
      let first = sd_read_block regs 0 header 0 card.1 in
      ground (arith, load-booted first.1.0 dst first.1.1 entry)

  -- What a failure leaves: a reason of the three, written to the scratch register last.
  abbrev pub Reported : Outcome × (WordArray × S) → Type 0
  Reported p =
      (reason : ℕ)
      → p.0 ≡ failed reason
      → ((reason ≡ bad_card) ⊎ ((reason ≡ bad_header) ⊎ (reason ≡ bad_cksum)))
        × (reason % 2 ≡ 1)
        × ((t : S) × (p.1.1 ≡ put regs scratch0 reason t))

  on_true-Reported :
      {T : Type 0} (p : Bool × T) (f g : T → Outcome × (WordArray × S))
      → ((t : T) → Reported (f t))
      → ((t : T) → Reported (g t))
      → Reported (on_true p f g)
  on_true-Reported (true, t) f g hf hg = hf t
  on_true-Reported (false, t) f g hf hg = hg t

  fail-Reported :
      (k : ℕ) (r : WordArray × S)
      → (k ≡ bad_card) ⊎ ((k ≡ bad_header) ⊎ (k ≡ bad_cksum))
      → Reported (fail regs k r)
  unfolding fail
  fail-Reported k (dst, s) which reason h =
      let e : k ≡ reason = failed-injective k reason h in
      (ground arith, ground arith, (s, ap (λ n. put regs scratch0 n s) e))

  Reported-test :
      (b : Bool) (x y : Outcome × (WordArray × S))
      → Reported x
      → Reported y
      → Reported (elim b [ true ↦ x | false ↦ y ])
  Reported-test true x y hx hy = hx
  Reported-test false x y hx hy = hy

  booted-Reported : (entry : ℕ) (r : WordArray × S) → Reported (booted entry, r)
  booted-Reported entry r reason h = absurd (booted≢failed entry reason h)

  load-Reported : (header dst : WordArray) (s : S) → Reported (load regs header dst s)
  unfolding load
  load-Reported header dst s =
      Reported-test (accepts header) _ _
        (on_true-Reported (read_image regs (blocks_of (header 1)) 0 dst s) _ _
          (λ r.
            Reported-test (sum_words (words_of (header 1)) 0 0 r.0 == header 2) _ _
              (booted-Reported _ r) (fail-Reported bad_cksum r (inr (inr refl))))
          (λ r. fail-Reported bad_card r (inl refl)))
        (fail-Reported bad_header (dst, s) (inr (inl refl)))

  -- A loader that gives up has written the reason to the scratch register last, and the reason is
  -- one of three numbers, all odd, so none is the address of an instruction.
  pub sd_main-failed :
      (header dst : WordArray) (s : S) (reason : ℕ)
      → (sd_main regs header dst s).0 ≡ failed reason
      → ((reason ≡ bad_card) ⊎ ((reason ≡ bad_header) ⊎ (reason ≡ bad_cksum)))
        × (reason % 2 ≡ 1)
        × ((t : S) × ((sd_main regs header dst s).1.1 ≡ put regs scratch0 reason t))
  unfolding sd_main
  sd_main-failed header dst s =
      on_true-Reported (sd_init regs (start_clocks regs s)) _ _
        (λ s.
          on_true-Reported (sd_read_block regs 0 header 0 s) _ _ (λ r. load-Reported r.0 dst r.1)
            (λ r. fail-Reported bad_card (dst, r.1) (inl refl)))
        (λ s. fail-Reported bad_card (dst, s) (inl refl))
