-- ===== src/Bus.antt =====
-- target/sim/cpp/bus.{hpp,cpp}: the device interface of the core testbench, the sink device and
-- the router, which forwards each cycle of the core to the device that is mapped at its address.
use friscv_soc.Common.{
  ℕ, ◌+◌, Bool, true, false, not, ◌&&◌, ◌||◌, Option, none, some, List, [], ◌∷◌, ◌++◌, ltb, leb,
  ◌==◌, if◌then◌else◌,
}
use friscv_soc.Common.Words.{sub32}
use friscv_soc.Common.Arrays.{update}
pub mod Route
pub mod Loop
pub mod Dispatch
mod Tests

-- The output interface of `class BusDevice`.
pub record BusOut : Type 0 where
  pub rdata : ℕ
  pub wait : Bool
  pub beat_valid : Bool
  pub err : Bool

-- The arguments of `cycle`.
pub record Access : Type 0 where
  pub size : ℕ
  pub offset : ℕ
  pub wdata : ℕ
  pub w_en : Bool
  pub r_en : Bool
  pub burst_en : Bool

-- The virtual methods of `class BusDevice`, over the state `D` of a device.
pub record BusDevice (D : Type 0) : Type 0 where
  pub cycle : D → Access → D
  pub out : D → BusOut

-- The outputs after reset: the members' initialisers.
abbrev pub idle_out : BusOut
idle_out = record { rdata = 0; wait = false; beat_valid = false; err = false }

-- `class SinkDevice`
pub record SinkDevice : Type 0 where
  pub out : BusOut
  pub last_write : ℕ

unfoldable pub sink_cycle : SinkDevice → Access → SinkDevice
sink_cycle s a = if a.w_en then record s { last_write = a.wdata } else s

-- `struct Mapping`; `dev` is the pointer, an index into the store of devices.
pub record Mapping : Type 0 where
  pub base : ℕ
  pub size : ℕ
  pub dev : ℕ

-- `class BusRouter`; `owner` is `nullptr` at `none`.
pub record BusRouter : Type 0 where
  pub address_map : List Mapping
  pub owner : Option ℕ
  pub owner_base : ℕ
  pub out : BusOut

unfoldable pub map_device : BusRouter → ℕ → ℕ → ℕ → BusRouter
map_device r base size dev = record r {
  address_map = r.address_map ++ (record { base = base; size = size; dev = dev } ∷ []);
}

-- The test of the second loop: is the offset inside the mapping?
abbrev pub hits : Mapping → ℕ → Bool
hits m offset = leb m.base offset && ltb (sub32 offset m.base) m.size

-- The access as the mapping's device sees it, and the one that devices not selected see.
abbrev pub local : Access → ℕ → Access
local a base = record a { offset = sub32 a.offset base }

abbrev pub muted : Access → ℕ → Access
muted a base = record (local a base) { w_en = false; r_en = false; burst_en = false }

-- `!owner`
abbrev pub is_null : Option ℕ → Bool
is_null none = true
is_null (some _) = false

module _ {D : Type 0} (bus : BusDevice D) where
  -- The loop of the waiting case: every mapping of another device gets a muted cycle.
  pub mute_step : ℕ → Access → Mapping → (ℕ → D) → ℕ → D
  mute_step owner a m st =
      if m.dev == owner then st else update st m.dev (bus.cycle (st m.dev) (muted a m.base))

  pub mute_others : ℕ → Access → List Mapping → (ℕ → D) → ℕ → D
  mute_others owner a [] st = st
  mute_others owner a (m ∷ ms) st = mute_others owner a ms (mute_step owner a m st)

  -- One round of the second loop: the first mapping hit becomes the owner.
  pub select_step : Access → Mapping → BusRouter → (ℕ → D) → BusRouter × (ℕ → D)
  select_step a m r st =
      if is_null r.owner && hits m a.offset
      then (
        record r {
          owner = some m.dev;
          owner_base = m.base;
          out = bus.out (bus.cycle (st m.dev) (local a m.base));
        },
        update st m.dev (bus.cycle (st m.dev) (local a m.base)),
      )
      else (r, update st m.dev (bus.cycle (st m.dev) (muted a m.base)))

  pub select_loop : Access → List Mapping → BusRouter → (ℕ → D) → BusRouter × (ℕ → D)
  select_loop a [] r st = (r, st)
  select_loop a (m ∷ ms) r st = let (r', st') = select_step a m r st in select_loop a ms r' st'

  -- The case in which the owner is still waiting.
  pub hold_owner : ℕ → Access → BusRouter → (ℕ → D) → BusRouter × (ℕ → D)
  unfolding mute_others
  hold_owner owner a r st =
      let d = bus.cycle (st owner) (local a r.owner_base) in
      (record r { out = bus.out d }, mute_others owner a r.address_map (update st owner d))

  -- What follows the second loop: with no owner the router answers by an error.
  pub finish_select : BusRouter × (ℕ → D) → BusRouter × (ℕ → D)
  finish_select (r, st) = elim r.owner [
    | none ↦ (record r { out = record idle_out { err = true } }, st)
    | some _ ↦ (r, st)
  ]

  pub select_owner : Access → BusRouter → (ℕ → D) → BusRouter × (ℕ → D)
  unfolding select_loop finish_select
  select_owner a r st = finish_select (select_loop a r.address_map (record r { owner = none }) st)

  -- `BusRouter::cycle`
  pub router_cycle : Access → BusRouter → (ℕ → D) → BusRouter × (ℕ → D)
  unfolding hold_owner select_owner
  router_cycle a r st = elim r.owner [
    | none ↦ select_owner a r st
    | some o ↦ if (bus.out (st o)).wait then hold_owner o a r st else select_owner a r st
  ]
