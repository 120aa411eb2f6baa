-- ===== src/SocMain/Stage.antt =====
-- The stage that is sent over the serial line.
use friscv_soc.Common.{
  ℕ, zero, suc, ◌+◌, ◌-◌, ◌*◌, ◌≤◌, ◌<◌, ◌≡◌, refl, ap, ◌∙◌, false, List, [], ◌∷◌, ◌++◌, ltb,
  Bool-cases, inl, inr, arith, if◌then◌else◌, ltb→lt,
}
use friscv_soc.Common.Words.{u8}
use friscv_soc.Common.Arrays.{length, get_or, take, replicate}
use friscv_soc.SocMain.Image.{uart_stage, pattern_from, zsbl_stage_bytes}

ltb-false : (a b : ℕ) → ltb a b ≡ false → b ≤ a
ltb-false a b h = ground arith

length-++ : (xs ys : List ℕ) → length (xs ++ ys) ≡ length xs + length ys
length-++ [] ys = omega arith
length-++ (x ∷ xs) ys = ap suc (length-++ xs ys) ∙ omega arith

get_or-++ :
    (xs ys : List ℕ) (i : ℕ)
    → get_or (xs ++ ys) i 0
      ≡ (if ltb i (length xs) then get_or xs i 0 else get_or ys (i - length xs) 0)
get_or-++ [] ys i = ground arith
get_or-++ (x ∷ xs) ys zero = ground arith
get_or-++ (x ∷ xs) ys (suc i) = get_or-++ xs ys i ∙ ground arith

length-take : (n : ℕ) (xs : List ℕ) → n ≤ length xs → length (take n xs) ≡ n
length-take zero xs h = refl
length-take (suc n) [] h = absurd (omega arith)
length-take (suc n) (x ∷ xs) h = ap suc (length-take n xs (omega arith))

get_or-take : (n i : ℕ) (xs : List ℕ) → i < n → get_or (take n xs) i 0 ≡ get_or xs i 0
get_or-take zero i xs h = absurd (omega arith)
get_or-take (suc n) i [] h = refl
get_or-take (suc n) zero (x ∷ xs) h = refl
get_or-take (suc n) (suc i) (x ∷ xs) h = get_or-take n i xs (omega arith)

length-replicate : (n x : ℕ) → length (replicate n x) ≡ n
length-replicate zero x = refl
length-replicate (suc n) x = ap suc (length-replicate n x)

get_or-replicate : (n i : ℕ) → get_or (replicate {A = ℕ} n 0) i 0 ≡ 0
get_or-replicate zero i = refl
get_or-replicate (suc n) zero = refl
get_or-replicate (suc n) (suc i) = get_or-replicate n i

length-pattern_from : (i n : ℕ) → length (pattern_from i n) ≡ n
unfolding pattern_from
length-pattern_from i zero = refl
length-pattern_from i (suc n) = ap suc (length-pattern_from (i + 1) n)

get_or-pattern_from : (i n k : ℕ) → k < n → get_or (pattern_from i n) k 0 ≡ u8 ((i + k) * 7 + 0x5a)
unfolding pattern_from
get_or-pattern_from i zero k h = absurd (omega arith)
get_or-pattern_from i (suc n) zero h = ap u8 (omega arith)
get_or-pattern_from i (suc n) (suc k) h =
    get_or-pattern_from (i + 1) n k (omega arith) ∙ ap u8 (omega arith)

get_or-short : (xs : List ℕ) (i : ℕ) → length xs ≤ i → get_or xs i 0 ≡ 0
get_or-short [] i h = refl
get_or-short (x ∷ xs) zero h = absurd (omega arith)
get_or-short (x ∷ xs) (suc i) h = get_or-short xs i (omega arith)

get_or-padded : (xs : List ℕ) (n i : ℕ) → get_or (xs ++ replicate n 0) i 0 ≡ get_or xs i 0
get_or-padded xs n i = get_or-++ xs (replicate n 0) i ∙ elim (Bool-cases (ltb i (length xs))) [
  | inl t ↦ rw t refl
  | inr f ↦ rw (f, get_or-replicate n (i - length xs), get_or-short xs i (ground arith)) refl
]

length-padded :
    (file : List ℕ)
    → length file ≤ zsbl_stage_bytes
    → length (file ++ replicate (zsbl_stage_bytes - length file) 0) ≡ zsbl_stage_bytes
length-padded file h =
    length-++ file (replicate (zsbl_stage_bytes - length file) 0)
    ∙ ap (λ n. length file + n) (length-replicate (zsbl_stage_bytes - length file) 0)
    ∙ omega arith

-- The stage of a file that is not too long has the size that the boot ROM takes; it starts with
-- the file, filled up with zeros to 1024 bytes or cut off there, and the pattern follows.
pub uart_stage_lem :
    (file : List ℕ) (i : ℕ)
    → length file ≤ 4096
    → i < 4096
    → (length (uart_stage file) ≡ 4096)
      × (get_or (uart_stage file) i 0 ≡ (if ltb i 1024 then get_or file i 0 else u8 (i * 7 + 0x5a)))
unfolding uart_stage
uart_stage_lem file i hf hi =
    let padded = file ++ replicate (zsbl_stage_bytes - length file) 0 in
    let tail = pattern_from 1024 3072 in
    let whole : length padded ≡ 4096 = length-padded file hf in
    let front : length (take 1024 padded) ≡ 1024 =
      length-take 1024 padded (rw whole (omega arith)) in
    (
      length-++ (take 1024 padded) tail ∙ rw (front, length-pattern_from 1024 3072) refl,
      get_or-++ (take 1024 padded) tail i
          ∙ rw front (elim (Bool-cases (ltb i 1024)) [
            | inl t ↦ rw t (
                get_or-take 1024 i padded (ltb→lt i 1024 t)
                ∙ get_or-padded file (zsbl_stage_bytes - length file) i)
            | inr f ↦
                let k = ltb-false i 1024 f in
                rw f (
                  get_or-pattern_from 1024 3072 (i - 1024) (omega arith)
                  ∙ ap (λ n. u8 (n * 7 + 0x5a)) (omega arith))
          ]),
    )
