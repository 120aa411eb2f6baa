-- ===== src/Board/Gpio.antt =====
-- What the program reads of the GPIO sink at its end.
use friscv_soc.Common.{
  ℕ, ◌<◌, ◌≡◌, refl, sym, some, ◌∙◌, ap, false, ◌&&◌, leb, ltb, if◌then◌else◌, arith,
}
use mathlib.Core.Path.{subst}
use friscv_soc.Common.Arrays.{get_elem?}
use friscv_soc.Bus.{Mapping, Access, BusRouter, SinkDevice, sink_cycle, router_cycle}
use friscv_soc.Bus.Route.{route, NoAlias, seen}
use friscv_soc.Bus.Dispatch.{is_waiting, router_cycle-seen}
use friscv_soc.Board.{Device, sink, devices, device_cycle, new_bus, gpio_index, last_write_of}

pub new_bus-NoAlias : NoAlias new_bus.address_map
unfolding new_bus
new_bus-NoAlias = ground arith

abbrev pub gpio_map : Mapping
gpio_map = record { base = 0x40000000; size = 4; dev = gpio_index }

seen_gpio :
    (a : Access)
    → a.offset < 0x100000000
    → let v = seen a (route new_bus.address_map a.offset) gpio_map in
      (v.w_en ≡ a.w_en && (leb 0x40000000 a.offset && ltb a.offset 0x40000004))
      × (v.wdata ≡ a.wdata)
unfolding new_bus route
seen_gpio a h = ground arith

sink_written :
    (d : Device) (s : SinkDevice) (a : Access)
    → d ≡ sink s
    → last_write_of (device_cycle d a) ≡ (if a.w_en then a.wdata else s.last_write)
unfolding device_cycle last_write_of sink_cycle
sink_written d s a e = rw e (ground arith)

-- With no transfer in progress, one cycle of the bus changes the word that the program checks
-- exactly when the core writes to one of the four addresses of the GPIO, and then to the data
-- written.
pub gpio_written :
    (a : Access) (r : BusRouter) (st : ℕ → Device) (s : SinkDevice)
    → r.address_map ≡ new_bus.address_map
    → is_waiting devices r st ≡ false
    → st gpio_index ≡ sink s
    → a.offset < 0x100000000
    → last_write_of ((router_cycle devices a r st).1 gpio_index) ≡ (
        if a.w_en && (leb 0x40000000 a.offset && ltb a.offset 0x40000004)
        then a.wdata
        else s.last_write)
unfolding new_bus
gpio_written a r st s e w g h =
    let v = seen a (route r.address_map a.offset) gpio_map in
    let same : seen a (route new_bus.address_map a.offset) gpio_map ≡ v =
      ap (λ m. seen a (route m a.offset) gpio_map) (sym e) in
    let once : NoAlias r.address_map = subst NoAlias (sym e) new_bus-NoAlias in
    let there : get_elem? r.address_map 2 ≡ some gpio_map = ap (λ m. get_elem? m 2) e in
    ap last_write_of (router_cycle-seen devices a r st 2 gpio_map once w there)
    ∙ sink_written (st gpio_index) s v g
    ∙ subst
        (λ x. (if x.w_en then x.wdata else s.last_write) ≡ (
          if a.w_en && (leb 0x40000000 a.offset && ltb a.offset 0x40000004)
          then a.wdata
          else s.last_write))
        same (rw ((seen_gpio a h).0, (seen_gpio a h).1) refl)
