-- ===== src/Bus/Route.antt =====
-- A cycle with no waiting owner goes to the first mapping that contains the address.
use friscv_soc.Common.{
  ℕ, zero, suc, Option-cases, ◌≡◌, ◌≢◌, true, false, Option, none, some, List, [], ◌∷◌, ◌==◌,
  if◌then◌else◌, arith, inl, inr, ==_refl,
}
use friscv_soc.Common.Arrays.{get_elem?}
use friscv_soc.Bus.{Access, Mapping, hits, local, muted}

-- The first mapping that contains the offset.
unfoldable pub route : List Mapping → ℕ → Option Mapping
route [] offset = none
route (m ∷ ms) offset = if hits m offset then some m else route ms offset

-- No mapping of the list is for device `d`.
abbrev pub Absent : ℕ → List Mapping → Type 0
Absent d [] = Unit
Absent d (m ∷ ms) = (m.dev ≢ d) × Absent d ms

-- Every device is mapped once.
abbrev pub NoAlias : List Mapping → Type 0
NoAlias [] = Unit
NoAlias (m ∷ ms) = Absent m.dev ms × NoAlias ms

pub route-Absent :
    (d offset : ℕ) (ms : List Mapping) (m : Mapping)
    → Absent d ms
    → route ms offset ≡ some m
    → m.dev ≢ d
unfolding route
route-Absent d offset [] m ab h = ground arith
route-Absent d offset (k ∷ ms) m ab h = ground (arith, route-Absent d offset ms m ab.1)

pub route-hit :
    (k m : Mapping) (ms : List Mapping) (offset : ℕ)
    → hits k offset ≡ true
    → route (k ∷ ms) offset ≡ some m
    → k ≡ m
unfolding route
route-hit k m ms offset t h = ground arith

pub route_some :
    (k : Mapping) (ms : List Mapping) (offset : ℕ)
    → hits k offset ≡ true
    → ¬ (route (k ∷ ms) offset ≡ none)
unfolding route
route_some k ms offset t h = ground arith

pub route-miss :
    (k : Mapping) (ms : List Mapping) (offset : ℕ)
    → hits k offset ≡ false
    → route (k ∷ ms) offset ≡ route ms offset
unfolding route
route-miss k ms offset f = ground arith

pub Absent-get_elem? :
    (d i : ℕ) (ms : List Mapping) (k : Mapping) → Absent d ms → get_elem? ms i ≡ some k → k.dev ≢ d
Absent-get_elem? d i [] k ab h = ground arith
Absent-get_elem? d zero (m ∷ ms) k ab h = ground arith
Absent-get_elem? d (suc i) (m ∷ ms) k ab h = Absent-get_elem? d i ms k ab.1 h

-- What a device mapped at `k` sees of the access when `chosen` is the mapping selected.
abbrev pub seen : Access → Option Mapping → Mapping → Access
seen a none k = muted a k.base
seen a (some m) k = if m.dev == k.dev then local a k.base else muted a k.base

pub seen_hit :
    (a : Access) (k : Mapping) (ms : List Mapping)
    → hits k a.offset ≡ true
    → seen a (route (k ∷ ms) a.offset) k ≡ local a k.base
unfolding route
seen_hit a k ms t = rw t (rw (==_refl k.dev))

pub seen_other :
    (a : Access) (m k : Mapping) (ms : List Mapping)
    → hits m a.offset ≡ true
    → m.dev ≢ k.dev
    → seen a (route (m ∷ ms) a.offset) k ≡ muted a k.base
unfolding route
seen_other a m k ms t ne = rw t (ground arith)

pub seen_miss :
    (a : Access) (k : Mapping) (ms : List Mapping)
    → Absent k.dev ms
    → hits k a.offset ≡ false
    → seen a (route (k ∷ ms) a.offset) k ≡ muted a k.base
seen_miss a k ms ab f = rw (route-miss k ms a.offset f) (elim (Option-cases (route ms a.offset)) [
  | inl n ↦ rw n
  | inr (m, e) ↦ let ne = route-Absent k.dev a.offset ms m ab e in rw e (ground arith)
])
