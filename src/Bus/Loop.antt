-- ===== src/Bus/Loop.antt =====
-- The second loop of `BusRouter::cycle`, round by round.
use friscv_soc.Common.{
  ℕ, zero, suc, ap, ◌≡◌, ◌≢◌, refl, sym, true, false, none, some, List, [], ◌∷◌, arith, Bool-cases,
  ◌∙◌, inl, inr,
}
use friscv_soc.Common.Arrays.{update, get_elem?, update_ne, update_self}
use mathlib.Core.Path.{subst, ap₂}
use mathlib.Core.Option.{some-injective}
use friscv_soc.Bus.{
  Access, BusDevice, Mapping, BusRouter, hits, local, muted, select_step, select_loop,
}
use friscv_soc.Bus.Route.{
  route_some, route, Absent, NoAlias, route-Absent, route-hit, route-miss, Absent-get_elem?, seen,
  seen_hit, seen_other, seen_miss,
}

module _ {D : Type 0} (bus : BusDevice D) (a : Access) where
  -- What the router holds once the mapping `m` is selected.
  abbrev pub chosen : Mapping → BusRouter → (ℕ → D) → BusRouter
  chosen m r st = record r {
    owner = some m.dev;
    owner_base = m.base;
    out = bus.out (bus.cycle (st m.dev) (local a m.base));
  }

  step-hit :
      (m : Mapping) (r : BusRouter) (st : ℕ → D)
      → r.owner ≡ none
      → hits m a.offset ≡ true
      → select_step bus a m r st
        ≡ (chosen m r st, update st m.dev (bus.cycle (st m.dev) (local a m.base)))
  unfolding select_step
  step-hit m r st e h = simp (e, h)

  step-miss :
      (m : Mapping) (r : BusRouter) (st : ℕ → D)
      → hits m a.offset ≡ false
      → select_step bus a m r st ≡ (r, update st m.dev (bus.cycle (st m.dev) (muted a m.base)))
  unfolding select_step
  step-miss m r st h = ground arith

  step-owned :
      (m : Mapping) (r : BusRouter) (st : ℕ → D) (o : ℕ)
      → r.owner ≡ some o
      → select_step bus a m r st ≡ (r, update st m.dev (bus.cycle (st m.dev) (muted a m.base)))
  unfolding select_step
  step-owned m r st o e = simp e

  step-ne :
      (j : ℕ) (m : Mapping) (r : BusRouter) (st : ℕ → D)
      → m.dev ≢ j
      → (select_step bus a m r st).1 j ≡ st j
  unfolding select_step
  step-ne j m r st ne = ground arith

  pub select_loop-Absent :
      (j : ℕ) (ms : List Mapping) (r : BusRouter) (st : ℕ → D)
      → Absent j ms
      → (select_loop bus a ms r st).1 j ≡ st j
  unfolding select_loop
  select_loop-Absent j [] r st ab = refl
  select_loop-Absent j (m ∷ ms) r st ab =
      let (r', st') = select_step bus a m r st in
      select_loop-Absent j ms r' st' ab.1 ∙ step-ne j m r st ab.0

  pub select_loop_held :
      (ms : List Mapping) (r : BusRouter) (st : ℕ → D) (o : ℕ)
      → r.owner ≡ some o
      → (select_loop bus a ms r st).0 ≡ r
  unfolding select_loop
  select_loop_held [] r st o e = refl
  select_loop_held (m ∷ ms) r st o e =
      rw (select_loop, step-owned m r st o e)
        (select_loop_held ms r (update st m.dev (bus.cycle (st m.dev) (muted a m.base))) o e)

  pub select_loop-route :
      (ms : List Mapping) (r : BusRouter) (st : ℕ → D) (m : Mapping)
      → NoAlias ms
      → r.owner ≡ none
      → route ms a.offset ≡ some m
      → (select_loop bus a ms r st).0 ≡ chosen m r st
  unfolding select_loop route
  select_loop-route [] r st m na e h = ground arith
  select_loop-route (k ∷ ms) r st m na e h = elim (Bool-cases (hits k a.offset)) [
    | inl t ↦
        rw (select_loop, step-hit k r st e t)
          (select_loop_held ms (chosen k r st)
              (update st k.dev (bus.cycle (st k.dev) (local a k.base))) k.dev refl
            ∙ ap (λ x. chosen x r st) (route-hit k m ms a.offset t h))
    | inr f ↦
        rw (select_loop, step-miss k r st f)
          (select_loop-route ms r (update st k.dev (bus.cycle (st k.dev) (muted a k.base))) m na.1 e
              (sym (route-miss k ms a.offset f) ∙ h)
            ∙ ap
                (λ (d : D). record r {
                  owner = some m.dev;
                  owner_base = m.base;
                  out = bus.out (bus.cycle d (local a m.base));
                })
                (update_ne st k.dev m.dev (bus.cycle (st k.dev) (muted a k.base)) (λ q.
                  route-Absent k.dev a.offset ms m na.0 (sym (route-miss k ms a.offset f) ∙ h)
                    (sym q))))
  ]

  pub select_loop-unmapped :
      (ms : List Mapping) (r : BusRouter) (st : ℕ → D)
      → route ms a.offset ≡ none
      → (select_loop bus a ms r st).0 ≡ r
  unfolding select_loop
  select_loop-unmapped [] r st h = refl
  select_loop-unmapped (k ∷ ms) r st h = elim (Bool-cases (hits k a.offset)) [
    | inl t ↦ absurd (route_some k ms a.offset t h)
    | inr f ↦
        rw (select_loop, step-miss k r st f)
          (select_loop-unmapped ms r (update st k.dev (bus.cycle (st k.dev) (muted a k.base)))
            (sym (route-miss k ms a.offset f) ∙ h))
  ]

  muted_first :
      (ms : List Mapping) (r : BusRouter) (st : ℕ → D) (k : Mapping) (o : ℕ)
      → Absent k.dev ms
      → r.owner ≡ some o
      → (select_loop bus a (k ∷ ms) r st).1 k.dev ≡ bus.cycle (st k.dev) (muted a k.base)
  unfolding select_loop
  muted_first ms r st k o ab e =
      let (r', st') = select_step bus a k r st in
      select_loop-Absent k.dev ms r' st' ab
      ∙ rw (step-owned k r st o e) (update_self st k.dev (bus.cycle (st k.dev) (muted a k.base)))

  select_loop-muted :
      (i : ℕ) (ms : List Mapping) (r : BusRouter) (st : ℕ → D) (k : Mapping) (o : ℕ)
      → NoAlias ms
      → r.owner ≡ some o
      → get_elem? ms i ≡ some k
      → (select_loop bus a ms r st).1 k.dev ≡ bus.cycle (st k.dev) (muted a k.base)
  unfolding select_loop
  select_loop-muted i [] r st k o na e g = ground arith
  select_loop-muted zero (m ∷ ms) r st k o na e g =
      subst (λ x. (select_loop bus a (m ∷ ms) r st).1 x.dev ≡ bus.cycle (st x.dev) (muted a x.base))
        (some-injective m k g) (muted_first ms r st m o na.0 e)
  select_loop-muted (suc i) (m ∷ ms) r st k o na e g =
      let st' = update st m.dev (bus.cycle (st m.dev) (muted a m.base)) in
      rw (select_loop, step-owned m r st o e)
        (select_loop-muted i ms r st' k o na.1 e g
          ∙ ap (λ d. bus.cycle d (muted a k.base))
              (update_ne st m.dev k.dev (bus.cycle (st m.dev) (muted a m.base))
                (λ q. Absent-get_elem? m.dev i ms k na.0 g (sym q))))

  seen_first :
      (ms : List Mapping) (r : BusRouter) (st : ℕ → D) (k : Mapping)
      → Absent k.dev ms
      → r.owner ≡ none
      → (select_loop bus a (k ∷ ms) r st).1 k.dev
        ≡ bus.cycle (st k.dev) (seen a (route (k ∷ ms) a.offset) k)
  unfolding select_loop
  seen_first ms r st k ab e =
      let (r', st') = select_step bus a k r st in
      select_loop-Absent k.dev ms r' st' ab ∙ elim (Bool-cases (hits k a.offset)) [
        | inl t ↦ rw (step-hit k r st e t) (
            update_self st k.dev (bus.cycle (st k.dev) (local a k.base))
            ∙ ap (bus.cycle (st k.dev)) (sym (seen_hit a k ms t)))
        | inr f ↦ rw (step-miss k r st f) (
            update_self st k.dev (bus.cycle (st k.dev) (muted a k.base))
            ∙ ap (bus.cycle (st k.dev)) (sym (seen_miss a k ms ab f)))
      ]

  pub select_loop-seen :
      (i : ℕ) (ms : List Mapping) (r : BusRouter) (st : ℕ → D) (k : Mapping)
      → NoAlias ms
      → r.owner ≡ none
      → get_elem? ms i ≡ some k
      → (select_loop bus a ms r st).1 k.dev ≡ bus.cycle (st k.dev) (seen a (route ms a.offset) k)
  unfolding select_loop
  select_loop-seen i [] r st k na e g = ground arith
  select_loop-seen zero (m ∷ ms) r st k na e g =
      subst
        (λ x.
          (select_loop bus a (m ∷ ms) r st).1 x.dev
          ≡ bus.cycle (st x.dev) (seen a (route (m ∷ ms) a.offset) x))
        (some-injective m k g) (seen_first ms r st m na.0 e)
  select_loop-seen (suc i) (m ∷ ms) r st k na e g =
      let ne : m.dev ≢ k.dev = λ q. Absent-get_elem? m.dev i ms k na.0 g (sym q) in
      elim (Bool-cases (hits m a.offset)) [
        | inl t ↦
            rw (select_loop, step-hit m r st e t)
              (select_loop-muted i ms (chosen m r st)
                  (update st m.dev (bus.cycle (st m.dev) (local a m.base))) k m.dev na.1 refl g
                ∙ ap₂ bus.cycle
                    (update_ne st m.dev k.dev (bus.cycle (st m.dev) (local a m.base)) ne)
                    (sym (seen_other a m k ms t ne)))
        | inr f ↦
            rw (select_loop, step-miss m r st f)
              (select_loop-seen i ms r (update st m.dev (bus.cycle (st m.dev) (muted a m.base))) k
                  na.1 e g
                ∙ ap₂ bus.cycle
                    (update_ne st m.dev k.dev (bus.cycle (st m.dev) (muted a m.base)) ne)
                    (ap (λ c. seen a c k) (sym (route-miss m ms a.offset f))))
      ]
