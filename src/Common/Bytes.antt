-- ===== src/Common/Bytes.antt =====
-- Byte lists and the flat byte memory: what bytes put into it and taken out of it one by one are.
use Prim.Native.Nat.{ℕ, zero, suc, ◌+◌, ◌^◌, ◌≤◌, ◌<◌}
use mathlib.Core.Path.{◌≡◌, refl, ap, ap₂, ◌∙◌}
use mathlib.Core.Logic.{◌⊎◌}
use mathlib.Core.List.{List, [], ◌∷◌}
use native.Mathlib.Omega.{arith}
use friscv_soc.Common.Words.{u8, u32}
use friscv_soc.Common.Arrays.{length, update, update_ne, update_self}

-- Every number of the list is a byte.
abbrev pub AllBytes : List ℕ → Type 0
AllBytes [] = Unit
AllBytes (b ∷ bs) = (b < 256) × AllBytes bs

-- The bytes put into the memory one by one.
unfoldable pub stored : (ℕ → ℕ) → ℕ → List ℕ → ℕ → ℕ
stored mem a [] = mem
stored mem a (b ∷ bytes) = stored (update mem a (u8 b)) (a + 1) bytes

-- The bytes of the memory from an address on.
unfoldable pub loaded : (ℕ → ℕ) → ℕ → ℕ → List ℕ
loaded mem a zero = []
loaded mem a (suc n) = mem a ∷ loaded mem (a + 1) n

-- Every cell of the memory is a byte.
abbrev pub IsByteMemory : (ℕ → ℕ) → Type 0
IsByteMemory mem = (a : ℕ) → mem a < 256

pub stored-u32 :
    (mem : ℕ → ℕ) (a : ℕ) (bytes : List ℕ)
    → a + length bytes ≤ 2 ^ 32
    → stored mem (u32 a) bytes ≡ stored mem a bytes
unfolding stored
stored-u32 mem a [] h = refl
stored-u32 mem a (b ∷ bytes) h =
    let e : u32 a ≡ a = omega arith in ap (λ x. stored mem x (b ∷ bytes)) e

pub loaded-u32 : (mem : ℕ → ℕ) (a n : ℕ) → a + n ≤ 2 ^ 32 → loaded mem (u32 a) n ≡ loaded mem a n
unfolding loaded
loaded-u32 mem a zero h = refl
loaded-u32 mem a (suc n) h = let e : u32 a ≡ a = omega arith in ap (λ x. loaded mem x (suc n)) e

pub stored_at :
    (bytes : List ℕ) (f g : ℕ → ℕ) (a b : ℕ) → f b ≡ g b → stored f a bytes b ≡ stored g a bytes b
unfolding stored
stored_at [] f g a b h = h
stored_at (x ∷ bytes) f g a b h =
    stored_at bytes (update f a (u8 x)) (update g a (u8 x)) (a + 1) b (ground arith)

outside_next : (a b n : ℕ) → (b < a) ⊎ (a + suc n ≤ b) → (b < a + 1) ⊎ (a + 1 + n ≤ b)
outside_next a b n h = ground arith

pub stored_outside :
    (bytes : List ℕ) (mem : ℕ → ℕ) (a b : ℕ)
    → (b < a) ⊎ (a + length bytes ≤ b)
    → stored mem a bytes b ≡ mem b
unfolding stored
stored_outside [] mem a b h = refl
stored_outside (x ∷ bytes) mem a b h =
    stored_outside bytes (update mem a (u8 x)) (a + 1) b (outside_next a b (length bytes) h)
    ∙ update_ne mem a b (u8 x) (λ e. absurd (omega arith))

stored_before : (bytes : List ℕ) (mem : ℕ → ℕ) (a b : ℕ) → b < a → stored mem a bytes b ≡ mem b
unfolding stored
stored_before [] mem a b h = refl
stored_before (x ∷ bytes) mem a b h =
    stored_before bytes (update mem a (u8 x)) (a + 1) b (omega arith)
    ∙ update_ne mem a b (u8 x) (λ e. absurd (omega arith))

-- Bytes that are stored are loaded.
pub loaded-stored :
    (bytes : List ℕ) (mem : ℕ → ℕ) (a : ℕ)
    → AllBytes bytes
    → loaded (stored mem a bytes) a (length bytes) ≡ bytes
unfolding stored loaded
loaded-stored [] mem a h = refl
loaded-stored (x ∷ bytes) mem a h =
    let e : u8 x ≡ x = omega arith in
    ap₂ ◌∷◌
      (stored_before bytes (update mem a (u8 x)) (a + 1) a (omega arith)
        ∙ update_self mem a (u8 x)
        ∙ e)
      (loaded-stored bytes (update mem a (u8 x)) (a + 1) h.1)

pub stored-IsByteMemory :
    (bytes : List ℕ) (mem : ℕ → ℕ) (a : ℕ) → IsByteMemory mem → IsByteMemory (stored mem a bytes)
unfolding stored
stored-IsByteMemory [] mem a h = h
stored-IsByteMemory (x ∷ bytes) mem a h =
    stored-IsByteMemory bytes (update mem a (u8 x)) (a + 1) (λ b. ground (arith, h b))
