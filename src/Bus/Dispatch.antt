-- ===== src/Bus/Dispatch.antt =====
-- What one cycle of the router does to the router and to every device behind it.
use friscv_soc.Common.{
  ℕ, zero, suc, ap, ◌≡◌, ◌≢◌, refl, sym, Bool, true, false, none, some, List, [], ◌∷◌, arith, ◌∙◌,
}
use friscv_soc.Common.Arrays.{update, get_elem?, update_ne, update_self}
use mathlib.Core.Path.{subst}
use mathlib.Core.Option.{some-injective}
use friscv_soc.Bus.{
  idle_out, Access, BusDevice, Mapping, BusRouter, local, muted, select_loop, mute_step,
  mute_others, hold_owner, select_owner, finish_select, router_cycle,
}
use friscv_soc.Bus.Route.{route, Absent, NoAlias, Absent-get_elem?, seen}
use friscv_soc.Bus.Loop.{select_loop-route, select_loop-seen, select_loop-unmapped}

module _ {D : Type 0} (bus : BusDevice D) where
  -- Is the transfer of the owner, if there is one, still in progress?
  unfoldable pub is_waiting : BusRouter → (ℕ → D) → Bool
  is_waiting r st = elim r.owner [ none ↦ false | some o ↦ (bus.out (st o)).wait ]

  cycle_selects :
      (a : Access) (r : BusRouter) (st : ℕ → D)
      → is_waiting r st ≡ false
      → router_cycle bus a r st ≡ select_owner bus a r st
  unfolding router_cycle is_waiting
  cycle_selects a r st h = ground arith

  cycle_holds :
      (a : Access) (r : BusRouter) (st : ℕ → D) (o : ℕ)
      → r.owner ≡ some o
      → (bus.out (st o)).wait ≡ true
      → router_cycle bus a r st ≡ hold_owner bus o a r st
  unfolding router_cycle
  cycle_holds a r st o e w = ground arith

  finish_owned : (p : BusRouter × (ℕ → D)) (o : ℕ) → p.0.owner ≡ some o → finish_select bus p ≡ p
  unfolding finish_select
  finish_owned (r, st) o e = ground arith

  finish_unowned :
      (p : BusRouter × (ℕ → D))
      → p.0.owner ≡ none
      → finish_select bus p ≡ (record p.0 { out = record idle_out { err = true } }, p.1)
  unfolding finish_select
  finish_unowned (r, st) e = ground arith

  finish-store : (p : BusRouter × (ℕ → D)) → (finish_select bus p).1 ≡ p.1
  unfolding finish_select
  finish-store (r, st) = ground arith

  -- With no transfer in progress, the first mapping that contains the address takes the bus: its
  -- device becomes the owner, and the router shows the outputs that the device has after its
  -- cycle. Every device is mapped once.
  pub router_cycle-routed :
      (a : Access) (r : BusRouter) (st : ℕ → D) (m : Mapping)
      → NoAlias r.address_map
      → is_waiting r st ≡ false
      → route r.address_map a.offset ≡ some m
      → (router_cycle bus a r st).0 ≡ record r {
        owner = some m.dev;
        owner_base = m.base;
        out = bus.out (bus.cycle (st m.dev) (local a m.base));
      }
  unfolding select_owner
  router_cycle-routed a r st m na w h =
      let free = record r { owner = none } in
      let picked = select_loop-route bus a r.address_map free st m na refl h in
      rw (cycle_selects a r st w) (
        ap (λ p. p.0)
          (finish_owned (select_loop bus a r.address_map free st) m.dev (ap (λ x. x.owner) picked))
        ∙ picked)

  -- With no transfer in progress and no mapping that contains the address, no device becomes the
  -- owner, and the router answers with an error, no data and no wait.
  pub router_cycle-unmapped :
      (a : Access) (r : BusRouter) (st : ℕ → D)
      → is_waiting r st ≡ false
      → route r.address_map a.offset ≡ none
      → (router_cycle bus a r st).0
        ≡ record r { owner = none; out = record idle_out { err = true } }
  unfolding select_owner
  router_cycle-unmapped a r st w h =
      let free = record r { owner = none } in
      let kept = select_loop-unmapped bus a r.address_map free st h in
      let answer = λ (x : BusRouter). record x { out = record idle_out { err = true } } in
      rw (cycle_selects a r st w) (
        ap (λ p. p.0)
          (finish_unowned (select_loop bus a r.address_map free st) (ap (λ x. x.owner) kept))
        ∙ ap answer kept)

  -- With no transfer in progress, one cycle of the router is exactly one cycle of every mapped
  -- device: the one selected sees the access at its own offset, and the others see it with the
  -- write, read and burst enables off. Every device is mapped once.
  pub router_cycle-seen :
      (a : Access) (r : BusRouter) (st : ℕ → D) (i : ℕ) (k : Mapping)
      → NoAlias r.address_map
      → is_waiting r st ≡ false
      → get_elem? r.address_map i ≡ some k
      → (router_cycle bus a r st).1 k.dev
        ≡ bus.cycle (st k.dev) (seen a (route r.address_map a.offset) k)
  unfolding select_owner
  router_cycle-seen a r st i k na w g =
      let free = record r { owner = none } in
      rw (cycle_selects a r st w) (
        ap (λ (f : ℕ → D). f k.dev) (finish-store (select_loop bus a r.address_map free st))
        ∙ select_loop-seen bus a i r.address_map free st k na refl g)

  mute_step_self : (o : ℕ) (a : Access) (m : Mapping) (st : ℕ → D) → mute_step bus o a m st o ≡ st o
  unfolding mute_step
  mute_step_self o a m st = ground arith

  mute_step-ne :
      (o : ℕ) (a : Access) (m : Mapping) (st : ℕ → D) (j : ℕ)
      → m.dev ≢ j
      → mute_step bus o a m st j ≡ st j
  unfolding mute_step
  mute_step-ne o a m st j ne = ground arith

  mute_step-muted :
      (o : ℕ) (a : Access) (m : Mapping) (st : ℕ → D)
      → m.dev ≢ o
      → mute_step bus o a m st m.dev ≡ bus.cycle (st m.dev) (muted a m.base)
  unfolding mute_step
  mute_step-muted o a m st ne = ground arith

  mute_others-Absent :
      (o : ℕ) (a : Access) (j : ℕ) (ms : List Mapping) (st : ℕ → D)
      → Absent j ms
      → mute_others bus o a ms st j ≡ st j
  unfolding mute_others
  mute_others-Absent o a j [] st ab = refl
  mute_others-Absent o a j (m ∷ ms) st ab =
      mute_others-Absent o a j ms (mute_step bus o a m st) ab.1 ∙ mute_step-ne o a m st j ab.0

  mute_others-owner :
      (o : ℕ) (a : Access) (ms : List Mapping) (st : ℕ → D) → mute_others bus o a ms st o ≡ st o
  unfolding mute_others
  mute_others-owner o a [] st = refl
  mute_others-owner o a (m ∷ ms) st =
      mute_others-owner o a ms (mute_step bus o a m st) ∙ mute_step_self o a m st

  muted_head :
      (o : ℕ) (a : Access) (ms : List Mapping) (st : ℕ → D) (k : Mapping)
      → Absent k.dev ms
      → k.dev ≢ o
      → mute_others bus o a (k ∷ ms) st k.dev ≡ bus.cycle (st k.dev) (muted a k.base)
  unfolding mute_others
  muted_head o a ms st k ab ne =
      mute_others-Absent o a k.dev ms (mute_step bus o a k st) ab ∙ mute_step-muted o a k st ne

  mute_others-muted :
      (o : ℕ) (a : Access) (i : ℕ) (ms : List Mapping) (st : ℕ → D) (k : Mapping)
      → NoAlias ms
      → k.dev ≢ o
      → get_elem? ms i ≡ some k
      → mute_others bus o a ms st k.dev ≡ bus.cycle (st k.dev) (muted a k.base)
  unfolding mute_others
  mute_others-muted o a i [] st k na ne g = ground arith
  mute_others-muted o a zero (m ∷ ms) st k na ne g =
      let e : m ≡ k = some-injective m k g in
      subst (λ x. mute_others bus o a (m ∷ ms) st x.dev ≡ bus.cycle (st x.dev) (muted a x.base)) e
        (muted_head o a ms st m na.0 (λ q. ne (sym (ap (λ x. x.dev) e) ∙ q)))
  mute_others-muted o a (suc i) (m ∷ ms) st k na ne g =
      mute_others-muted o a i ms (mute_step bus o a m st) k na.1 ne g
      ∙ ap (λ d. bus.cycle d (muted a k.base))
          (mute_step-ne o a m st k.dev (λ q. Absent-get_elem? m.dev i ms k na.0 g (sym q)))

  -- While the owner's transfer is in progress the bus is locked: whatever address is presented,
  -- the owner stays the owner and alone sees the access, at the offset from its own base; every
  -- other mapped device gets one cycle with the enables off, and the router shows the outputs
  -- that the owner has after its cycle. Every device is mapped once.
  pub router_cycle-locked :
      (a : Access) (r : BusRouter) (st : ℕ → D) (o i : ℕ) (k : Mapping)
      → NoAlias r.address_map
      → r.owner ≡ some o
      → (bus.out (st o)).wait ≡ true
      → get_elem? r.address_map i ≡ some k
      → let d = bus.cycle (st o) (local a r.owner_base) in
        ((router_cycle bus a r st).0 ≡ record r { out = bus.out d })
        × ((router_cycle bus a r st).1 o ≡ d)
        × (k.dev ≢ o → (router_cycle bus a r st).1 k.dev ≡ bus.cycle (st k.dev) (muted a k.base))
  unfolding hold_owner
  router_cycle-locked a r st o i k na e w g =
      let d = bus.cycle (st o) (local a r.owner_base) in
      rw (cycle_holds a r st o e w) (
        refl,
        mute_others-owner o a r.address_map (update st o d) ∙ update_self st o d,
        λ ne.
            mute_others-muted o a i r.address_map (update st o d) k na ne g
            ∙ ap (λ x. bus.cycle x (muted a k.base)) (update_ne st o k.dev d (λ q. ne (sym q))),
      )
