-- ===== src/Sizing/Capital.antt =====
-- The bounds of the capital that sizing may use.
use atlas_markets.Base.{◌≡◌, refl, true, ◌&&◌, some, arith, inl, inr, ◌⊎◌, if_either}
use atlas_markets.Base.Text.{Text, mem_text, upper}
use atlas_markets.Base.Float.{Float, Raw, float_or_zero, fmin, fmax, IsOrdered}
use atlas_markets.Base.Float.Order.{fmin_bounds, fmax_bounds}
use atlas_markets.Sizing.{
  Sized, broker_equity, simulation_override, simulation_environments, of_override, of_broker, sized,
  capital_sizing_inputs,
}

module _ {F : Type 0} ⦃fl : Float F⦄ (order : IsOrdered F) where
  open fl use {num, lt, le, is_finite}

  -- Which basis is told, and what it bounds
  abbrev pub IsOfBasis : Text → F → F → Sized F → Type 0
  IsOfBasis environment broker override s =
      ((s.basis ≡ broker_equity) × (s.equity ≡ fmax (num 0 0) broker))
      ⊎ ((s.basis ≡ simulation_override)
          × (mem_text (upper environment) simulation_environments ≡ true)
          × (le s.equity override ≡ true)
          × (le s.equity (fmax (num 0 0) broker) ≡ true))

  -- The capital and the cash are not below zero, the cash is not above the capital.
  abbrev pub IsBounded : Text → F → F → Sized F → Type 0
  IsBounded environment broker override s =
      (le (num 0 0) s.equity ≡ true)
      × (le (num 0 0) s.available ≡ true)
      × (le s.available s.equity ≡ true)
      × IsOfBasis environment broker override s

  -- For finite values that can be read: the capital and the cash that are given are not below zero, the
  -- cash is not above the capital, and the capital is what the broker tells, or in a simulation
  -- environment at most that and the override.
  pub capital_sizing_inputs-bounds :
      (equity available : Raw F) (environment : Text) (override : Raw F) {e a o : F}
      → float_or_zero equity ≡ some e
      → float_or_zero available ≡ some a
      → float_or_zero override ≡ some o
      → is_finite e ≡ true
      → is_finite a ≡ true
      → is_finite o ≡ true
      → is_finite (num 0 0) ≡ true
      → (s : Sized F) × (capital_sizing_inputs equity available environment override ≡ some s)
        × IsBounded environment e o s
  unfolding capital_sizing_inputs sized
  capital_sizing_inputs-bounds equity available environment override {e} {a} {o} re ra ro fe fa fo
        fz =
      let top = fmax (num 0 0) e in
      let (t1, t2, ft) = fmax_bounds order (num 0 0) e fz fe in
      let (m1, m2, fm) = fmin_bounds order a top fa ft in
      let cash = fmax (num 0 0) (fmin a top) in
      let (c1, c2, fc) = fmax_bounds order (num 0 0) (fmin a top) fz fm in
      let below =
        if_either (λ z. le z top ≡ true) (lt (num 0 0) (fmin a top)) (fmin a top) (num 0 0)
          (λ above. m2) (λ zero_cash. t1) in
      let bounded = IsBounded environment e o in
      let (e1, e2, f12) = fmin_bounds order top o ft fo in
      let (b1, b2, fb) = fmin_bounds order cash (fmin top o) fc f12 in
      let simulated : mem_text (upper environment) simulation_environments && lt (num 0 0) o ≡ true
          → bounded (of_override top cash o) =
        λ h.
          let positive : le (num 0 0) o ≡ true = order.le_of_lt (num 0 0) o (ground arith) in
          let capital =
            if_either (λ z. le (num 0 0) z ≡ true) (lt o top) o top (λ less. positive)
              (λ more. t1) in
          (
            capital,
            if_either (λ z. le (num 0 0) z ≡ true) (lt (fmin top o) cash) (fmin top o) cash
                (λ less. capital) (λ more. c1),
            b2,
            inr (refl, ground arith, e2, e1),
          ) in
      (
        sized e a environment o,
        rw (re, ra, ro, capital_sizing_inputs) refl,
        if_either bounded (mem_text (upper environment) simulation_environments && lt (num 0 0) o)
            (of_override top cash o) (of_broker top cash) simulated
            (λ plain. (t1, c1, below, inl (refl, refl))),
      )
