-- ===== src/SocMain/Args.antt =====
-- target/sim/cpp/tb_soc_main.cpp: the numbers on the command line and in the environment. The C
-- library behind them is a parameter.
use Prim.Native.String.{String, ◌++◌}
use friscv_soc.Common.{
  ℕ, ◌+◌, Bool, true, false, not, ◌&&◌, List, [], ◌∷◌, Option, none, some, leb, ◌==◌,
}
use friscv_soc.Common.Results.{Result, ok}
use friscv_soc.Common.Fallible.{◌>>=◌, ◌>>◌, guard}

-- A C string, as its characters.
abbrev pub Text : Type 0
Text = List ℕ

-- `getenv`, `strtoul` with its base, its value and the rest of the text at `end`, `fopen` with
-- `fread`, and `strcmp` against a name.
pub record Host : Type 0 where
  pub getenv : String → Option Text
  pub strtoul : ℕ → Text → ℕ × Text
  pub read_all : Text → Option (List ℕ)
  pub same_text : Text → String → Bool

abbrev pub is_empty : Text → Bool
is_empty [] = true
is_empty (_ ∷ _) = false

abbrev pub u32_max : ℕ
u32_max = 4294967295

module _ (host : Host) where
  -- `strtoul` on the whole of a text that is not empty.
  unfoldable pub whole : ℕ → Text → ℕ × Bool
  whole number_base text =
      let (value, end) = host.strtoul number_base text in
      (value, not (is_empty text) && is_empty end)

  unfoldable pub parse_u32 : Text → Result ℕ
  parse_u32 text = do
    guard ((whole 0 text).1 && leb (whole 0 text).0 u32_max) "invalid number"
    ok (whole 0 text).0

  unfoldable pub parse_byte : Text → Result ℕ
  parse_byte text = do
    guard ((whole 16 text).1 && leb (whole 16 text).0 255) "invalid byte"
    ok (whole 16 text).0

  unfoldable pub parse_port : Text → Result ℕ
  parse_port text = do
    port ← parse_u32 text
    guard (not (port == 0) && leb port 65535) "invalid port"
    ok port

  -- The loop of `cmd_write` over its last arguments.
  unfoldable pub parse_bytes : List Text → Result (List ℕ)
  parse_bytes [] = ok []
  parse_bytes (text ∷ texts) = do b ← parse_byte text; rest ← parse_bytes texts; ok (b ∷ rest)

  unfoldable pub env_u64 : String → ℕ → Result ℕ
  env_u64 name fallback = elim (host.getenv name) [
    | none ↦ ok fallback
    | some text ↦ guard (whole 0 text).1 (name ++ " is not a number") >> ok (whole 0 text).0
  ]

  unfoldable pub env_u32 : String → ℕ → Result ℕ
  env_u32 name fallback = do
    value ← env_u64 name fallback
    guard (leb value u32_max) (name ++ " does not fit in 32 bits")
    ok value

-- `check_range`, at 64 bits.
unfoldable pub check_range : ℕ → ℕ → Result (Unit {0})
check_range address size = guard (leb (address + size) (u32_max + 1)) "memory range wraps around"
