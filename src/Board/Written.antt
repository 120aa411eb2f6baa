-- ===== src/Board/Written.antt =====
-- The word that is checked at the end comes from a store of the core.
use mathlib.Core.Path.{subst}
use friscv_soc.Common.{
  ℕ, ◌<◌, ◌≡◌, ◌≢◌, ◌⊎◌, inl, inr, refl, sym, ap, ◌∙◌, Bool, true, false, ◌&&◌, Option, none, some,
  leb, ltb, ◌==◌, if◌then◌else◌, arith, Bool-cases,
}
use friscv_soc.Common.Arrays.{get_elem?}
use friscv_soc.Bus.{muted, Mapping, Access, BusRouter, SinkDevice, sink_cycle, router_cycle}
use friscv_soc.Bus.Route.{route, NoAlias, seen}
use friscv_soc.Bus.Dispatch.{
  is_waiting, router_cycle-seen, router_cycle-locked, router_cycle-routed, router_cycle-unmapped,
}
use friscv_soc.Board.{
  Device, sink, devices, device_cycle, device_out, new_bus, gpio_index, last_write_of,
}
use friscv_soc.Board.Gpio.{new_bus-NoAlias, gpio_map, gpio_written}

-- The GPIO as the program leaves it between two cycles.
pub record IsGpio (r : BusRouter) (st : ℕ → Device) : Type 0 where
  pub map_same : r.address_map ≡ new_bus.address_map
  pub object : SinkDevice
  pub is_sink : st gpio_index ≡ sink object
  pub quick : object.out.wait ≡ false

-- A store of `value` to the GPIO.
abbrev pub stores : Access → ℕ → Bool
stores a value =
    a.w_en && ((leb 0x40000000 a.offset && ltb a.offset 0x40000004) && (a.wdata == value))

sink_cycle-out : (s : SinkDevice) (a : Access) → (sink_cycle s a).out ≡ s.out
unfolding sink_cycle
sink_cycle-out s a = ground arith

sink_cycle-muted : (s : SinkDevice) (a : Access) → a.w_en ≡ false → sink_cycle s a ≡ s
unfolding sink_cycle
sink_cycle-muted s a e = ap (λ b. if b then record s { last_write = a.wdata } else s) e

device_cycle-sink :
    (d : Device) (s : SinkDevice) (a : Access)
    → d ≡ sink s
    → device_cycle d a ≡ sink (sink_cycle s a)
unfolding device_cycle
device_cycle-sink d s a e = ap (λ x. device_cycle x a) e

waiting_owner :
    (r : BusRouter) (st : ℕ → Device)
    → is_waiting devices r st ≡ true
    → (o : ℕ) × (r.owner ≡ some o) × ((device_out (st o)).wait ≡ true)
unfolding is_waiting
waiting_owner r st h = owned r.owner refl h
  where
    owned :
        (w : Option ℕ)
        → r.owner ≡ w
        → elim w [ none ↦ false | some o ↦ (device_out (st o)).wait ] ≡ true
        → (o : ℕ) × (r.owner ≡ some o) × ((device_out (st o)).wait ≡ true)
    owned none e h = ground (arith, h)
    owned (some o) e h = (o, e, h)

map_kept :
    (a : Access) (r : BusRouter) (st : ℕ → Device)
    → NoAlias r.address_map
    → is_waiting devices r st ≡ false
    → (router_cycle devices a r st).0.address_map ≡ r.address_map
map_kept a r st once w = by_route (route r.address_map a.offset) refl
  where
    by_route :
        (o : Option Mapping)
        → route r.address_map a.offset ≡ o
        → (router_cycle devices a r st).0.address_map ≡ r.address_map
    by_route none e = ap (λ x. x.address_map) (router_cycle-unmapped devices a r st w e)
    by_route (some m) e = ap (λ x. x.address_map) (router_cycle-routed devices a r st m once w e)

-- What a cycle of the bus does to the GPIO.
pub record GpioStep (a : Access) (r : BusRouter) (st : ℕ → Device) : Type 0 where
  pub still : IsGpio (router_cycle devices a r st).0 (router_cycle devices a r st).1
  pub changed :
      let after = last_write_of ((router_cycle devices a r st).1 gpio_index) in
      (after ≡ last_write_of (st gpio_index)) ⊎ (stores a after ≡ true)

stores_itself :
    (a : Access)
    → a.w_en && (leb 0x40000000 a.offset && ltb a.offset 0x40000004) ≡ true
    → stores a a.wdata ≡ true
stores_itself a h = ground (arith, h)

waiting_step :
    (a : Access) (r : BusRouter) (st : ℕ → Device)
    → IsGpio r st
    → is_waiting devices r st ≡ true
    → GpioStep a r st
unfolding new_bus device_out
waiting_step a r st g w =
    let (o, owned, waits) = waiting_owner r st w in
    let s = g.object in
    let once : NoAlias r.address_map = subst NoAlias (sym g.map_same) new_bus-NoAlias in
    let there : get_elem? r.address_map 2 ≡ some gpio_map = ap (λ m. get_elem? m 2) g.map_same in
    let held = router_cycle-locked devices a r st o 2 gpio_map once owned waits there in
    let not_gpio : gpio_index ≢ o = λ e.
      let clash : true ≡ false =
        sym waits
        ∙ ap (λ j. (device_out (st j)).wait) (sym e)
        ∙ ap (λ d. (device_out d).wait) g.is_sink
        ∙ g.quick in
      ground (arith, clash) in
    let object : (router_cycle devices a r st).1 gpio_index ≡ sink s =
      held.2 not_gpio
      ∙ device_cycle-sink (st gpio_index) s (muted a gpio_map.base) g.is_sink
      ∙ ap sink (sink_cycle-muted s (muted a gpio_map.base) refl) in
    record {
      still = record {
        map_same = ap (λ x. x.address_map) held.0 ∙ g.map_same;
        object = s;
        is_sink = object;
        quick = g.quick;
      };
      changed = inl (ap last_write_of (object ∙ sym g.is_sink));
    }

select_step_gpio :
    (a : Access) (r : BusRouter) (st : ℕ → Device)
    → IsGpio r st
    → a.offset < 0x100000000
    → is_waiting devices r st ≡ false
    → GpioStep a r st
unfolding new_bus last_write_of
select_step_gpio a r st g small w =
    let s = g.object in
    let once : NoAlias r.address_map = subst NoAlias (sym g.map_same) new_bus-NoAlias in
    let there : get_elem? r.address_map 2 ≡ some gpio_map = ap (λ m. get_elem? m 2) g.map_same in
    let v = seen a (route r.address_map a.offset) gpio_map in
    let after = last_write_of ((router_cycle devices a r st).1 gpio_index) in
    let object : (router_cycle devices a r st).1 gpio_index ≡ sink (sink_cycle s v) =
      router_cycle-seen devices a r st 2 gpio_map once w there
      ∙ device_cycle-sink (st gpio_index) s v g.is_sink in
    let written = gpio_written a r st s g.map_same w g.is_sink small in
    let in_range = leb 0x40000000 a.offset && ltb a.offset 0x40000004 in
    record {
      still = record {
        map_same = map_kept a r st once w ∙ g.map_same;
        object = sink_cycle s v;
        is_sink = object;
        quick = ap (λ x. x.wait) (sink_cycle-out s v) ∙ g.quick;
      };
      changed = elim (Bool-cases (a.w_en && in_range)) [
        | inr f ↦ inl (
            written
            ∙ ap (λ b. if b then a.wdata else s.last_write) f
            ∙ ap last_write_of (sym g.is_sink))
        | inl t ↦
            let e : after ≡ a.wdata = written ∙ ap (λ b. if b then a.wdata else s.last_write) t in
            inr (ap (stores a) e ∙ stores_itself a t)
      ];
    }

pub gpio_step :
    (a : Access) (r : BusRouter) (st : ℕ → Device)
    → IsGpio r st
    → a.offset < 0x100000000
    → GpioStep a r st
gpio_step a r st g small = elim (Bool-cases (is_waiting devices r st)) [
  | inl t ↦ waiting_step a r st g t
  | inr f ↦ select_step_gpio a r st g small f
]
