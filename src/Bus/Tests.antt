-- ===== src/Bus/Tests.antt =====
-- Two sinks behind one router.
use friscv_soc.Common.{ℕ, ◌≡◌, ◌≢◌, refl, true, false, none, some, [], ◌∷◌, arith}
use friscv_soc.Bus.{
  Access, BusDevice, idle_out, SinkDevice, sink_cycle, Mapping, BusRouter, local, muted,
  router_cycle,
}
use friscv_soc.Bus.Route.{route, NoAlias}
use friscv_soc.Bus.Dispatch.{
  is_waiting, router_cycle-routed, router_cycle-seen, router_cycle-locked,
}

abbrev sink_device : BusDevice SinkDevice
sink_device = record { cycle = sink_cycle; out = λ s. s.out }

abbrev low_map : Mapping
low_map = record { base = 0x10; size = 0x10; dev = 0 }

abbrev high_map : Mapping
high_map = record { base = 0x40; size = 4; dev = 1 }

abbrev two_sinks : BusRouter
two_sinks = record {
  address_map = low_map ∷ high_map ∷ [];
  owner = none;
  owner_base = 0;
  out = idle_out;
}

abbrev empty_sinks : ℕ → SinkDevice
empty_sinks dev = record { out = idle_out; last_write = 0 }

-- A sink that holds the bus.
abbrev busy_sinks : ℕ → SinkDevice
busy_sinks dev = record { out = record idle_out { wait = true }; last_write = 0 }

abbrev store_at : ℕ → Access
store_at a = record { size = 2; offset = a; wdata = 7; w_en = true; r_en = false; burst_en = false }

two_sinks-NoAlias : NoAlias two_sinks.address_map
two_sinks-NoAlias = ((omega arith, tt), (tt, tt))

router_cycle-routed_example :
    (router_cycle sink_device (store_at 0x42) two_sinks empty_sinks).0
    ≡ record two_sinks { owner = some 1; owner_base = 0x40; out = idle_out }
unfolding route is_waiting sink_cycle
router_cycle-routed_example =
    router_cycle-routed sink_device (store_at 0x42) two_sinks empty_sinks high_map two_sinks-NoAlias
      refl refl

router_cycle-seen_example :
    (router_cycle sink_device (store_at 0x42) two_sinks empty_sinks).1 0
    ≡ record { out = idle_out; last_write = 0 }
unfolding route is_waiting sink_cycle
router_cycle-seen_example =
    router_cycle-seen sink_device (store_at 0x42) two_sinks empty_sinks 0 low_map two_sinks-NoAlias
      refl refl

abbrev owned : BusRouter
owned = record two_sinks { owner = some 1; owner_base = 0x40 }

router_cycle-locked_example :
    let d = sink_cycle (busy_sinks 1) (local (store_at 0x10) 0x40) in
    ((router_cycle sink_device (store_at 0x10) owned busy_sinks).0 ≡ record owned { out = d.out })
    × ((router_cycle sink_device (store_at 0x10) owned busy_sinks).1 1 ≡ d)
    × (low_map.dev ≢ 1
        → (router_cycle sink_device (store_at 0x10) owned busy_sinks).1 0
          ≡ sink_cycle (busy_sinks 0) (muted (store_at 0x10) 0x10))
router_cycle-locked_example =
    router_cycle-locked sink_device (store_at 0x10) owned busy_sinks 1 0 low_map two_sinks-NoAlias
      refl refl refl
