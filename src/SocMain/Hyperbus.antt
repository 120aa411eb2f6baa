-- ===== src/SocMain/Hyperbus.antt =====
-- The loop over the text of VERNII_HB_CFG.
use Prim.Native.String.{String}
use friscv_soc.Common.{ℕ, zero, suc, ◌+◌, ◌*◌, not, ◌&&◌, ◌≤◌, ◌<◌, ◌≡◌, refl, [], ◌∷◌, ◌==◌, arith}
use friscv_soc.Common.Arrays.{length}
use friscv_soc.Common.Results.{ok, then_do-agree, then_do-pure, then_do-require, then_do, require}
use friscv_soc.Common.Words.{u32}
use friscv_soc.Elf.{ElfHeader}
use friscv_soc.SocMain.Args.{Text, Host}
use friscv_soc.SocMain.{
  Soc, hyperbus_pair, read_pair, store_pair, hyperbus_from, after_comma, write_word, hyper_cfg_base,
  hyperbus_cfg,
}

-- What `strtoul` leaves is never longer than what it is given.
abbrev pub LeavesRest : Host → Type 0
LeavesRest host =
    (number_base : ℕ) (text : Text) → length (host.strtoul number_base text).1 ≤ length text

module _ {S : Type 0} (soc : Soc S) (host : Host) (elf : ElfHeader) (sram_base : ℕ)
    (rest_ok : LeavesRest host) where
  after_comma-shorter :
      (text : Text) → length (after_comma soc host elf sram_base text) ≤ length text
  after_comma-shorter [] = omega arith
  after_comma-shorter (c ∷ text) = ground arith

  store_pair-rest :
      (index value : ℕ) (end rest : Text) (s : S)
      → (store_pair soc host elf sram_base index value end s).0 ≡ ok rest
      → length rest ≤ length end
  unfolding store_pair
  store_pair-rest index value end rest s h =
      let w = write_word soc host elf sram_base (u32 (hyper_cfg_base + index * 4)) (u32 value) s in
      then_do-pure w.0 w.1 (soc.print (hyperbus_cfg index value))
        (after_comma soc host elf sram_base end) rest (λ t. length t ≤ length end)
        (after_comma-shorter end) h

  read_pair-shorter :
      (spec colon rest : Text) (index : ℕ) (s : S)
      → length colon ≤ length spec
      → (read_pair soc host elf sram_base spec index colon s).0 ≡ ok rest
      → length rest < length spec
  unfolding read_pair
  read_pair-shorter spec [] rest index s hc h = ground (arith, h)
  read_pair-shorter spec (c ∷ number) rest index s hc h =
      let (value, end) = host.strtoul 0 number in
      let store = store_pair soc host elf sram_base index value end in
      let message : String = "VERNII_HB_CFG wants reg:value pairs" in
      let stored = then_do-require (not (length end == length number)) message s store rest (
        then_do-require (not (suc (length number) == length spec) && (c == 0x3a)) message s
          (λ t. then_do (require (not (length end == length number)) message t) (λ _. store)) rest
          h) in
      let shorter = store_pair-rest index value end rest s stored in
      omega (arith, shorter, rest_ok 0 number, hc)

  pair-shorter :
      (spec rest : Text) (s : S)
      → (hyperbus_pair soc host elf sram_base spec s).0 ≡ ok rest
      → length rest < length spec
  unfolding hyperbus_pair
  pair-shorter spec rest s h =
      let (index, colon) = host.strtoul 0 spec in
      read_pair-shorter spec colon rest index s (rest_ok 0 spec) h

  hyperbus_from-agree :
      (n m : ℕ) (spec : Text) (s : S)
      → length spec ≤ n
      → length spec ≤ m
      → hyperbus_from soc host elf sram_base n spec s
        ≡ hyperbus_from soc host elf sram_base m spec s
  unfolding hyperbus_from
  hyperbus_from-agree zero zero spec s hn hm = refl
  hyperbus_from-agree zero (suc m) [] s hn hm = refl
  hyperbus_from-agree (suc n) zero [] s hn hm = refl
  hyperbus_from-agree (suc n) (suc m) [] s hn hm = refl
  hyperbus_from-agree zero (suc m) (c ∷ spec) s hn hm = absurd (omega arith)
  hyperbus_from-agree (suc n) zero (c ∷ spec) s hn hm = absurd (omega arith)
  hyperbus_from-agree (suc n) (suc m) (c ∷ spec) s hn hm =
      let r = hyperbus_pair soc host elf sram_base (c ∷ spec) s in
      then_do-agree r.0 r.1 (hyperbus_from soc host elf sram_base n)
        (hyperbus_from soc host elf sram_base m)
        (λ rest e.
          let shorter = pair-shorter (c ∷ spec) rest s e in
          hyperbus_from-agree n m rest r.1 (omega (arith, shorter)) (omega (arith, shorter)))

  -- A text that strtoul only shortens is read in at most as many rounds as it has characters:
  -- with more rounds allowed the loop does the same.
  pub hyperbus_from_lem :
      (spec : Text) (n : ℕ) (s : S)
      → length spec ≤ n
      → hyperbus_from soc host elf sram_base n spec s
        ≡ hyperbus_from soc host elf sram_base (length spec) spec s
  unfolding hyperbus_from
  hyperbus_from_lem spec n s h = hyperbus_from-agree n (length spec) spec s h (omega arith)
