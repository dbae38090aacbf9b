-- ===== src/Ibkr/Shares.antt =====
-- app/services/ibkr_fractional.py: share quantities and the test of a complete fill.
use atlas_markets.Base.{
  ℕ, ◌≡◌, refl, Bool, true, false, not, ◌&&◌, ◌||◌, Option, none, some, List, [], ◌∷◌, arith,
  if◌then◌else◌, Option-cases, inl, inr, ◌==◌,
}
use atlas_markets.Base.Float.{Float, Raw, absent, malformed, number, fmax, IsOrdered}

-- What is used of `decimal` and of `round`: `quantize` to four places rounding down, where none is
-- its InvalidOperation, the whole part, and the conversions.
pub record Shares (F D : Type 0) : Type 0 where
  pub to_float : D → F
  pub quantize_down : D → Option D
  pub truncate : D → D
  pub of_float : F → D
  pub round_whole : F → F

-- `float(x)` with its errors
abbrev pub parsed : {F : Type 0} → Raw F → Option F
parsed absent = none
parsed malformed = none
parsed (number x) = some x

module _ {F : Type 0} ⦃fl : Float F⦄ where
  open fl use {num, sub, mul, lt, le, abs, is_finite}

  -- 0.0000001
  abbrev pub tolerance : F
  tolerance = num 1 7

  unfoldable pub numbers_match : F → F → Bool
  numbers_match left right =
      is_finite left && is_finite right && le (abs (sub left right)) tolerance

  unfoldable pub ibkr_quantities_match : Raw F → Raw F → Bool
  unfolding numbers_match
  ibkr_quantities_match left right = elim (parsed left) [
    | none ↦ false
    | some l ↦ elim (parsed right) [ none ↦ false | some r ↦ numbers_match l r ]
  ]

  -- `math.isclose(a, b, abs_tol=t)` with the default relative tolerance 1e-9
  abbrev is_close : F → F → F → Bool
  is_close a b t = le (abs (sub a b)) (fmax (mul (num 1 9) (fmax (abs a) (abs b))) t)

  unfoldable pub ibkr_quantity_is_fractional : {D : Type 0} → Shares F D → Raw F → Bool
  ibkr_quantity_is_fractional shares value = elim (parsed value) [
    | none ↦ false
    | some q ↦ is_finite q && lt (num 0 0) q && not (is_close q (shares.round_whole q) tolerance)
  ]

  complete : F → F → F → Bool
  complete expected filled remaining =
      (is_finite expected && lt (num 0 0) expected)
      && (is_finite filled && lt (num 0 0) filled)
      && (is_finite remaining && le (num 0 0) remaining)
      && numbers_match filled expected
      && numbers_match remaining (num 0 0)

  unfoldable pub ibkr_fill_is_complete : Raw F → Raw F → Raw F → Bool
  unfolding complete
  ibkr_fill_is_complete filled remaining expected = elim (parsed expected) [
    | none ↦ false
    | some e ↦ elim (parsed filled) [
      | none ↦ false
      | some f ↦ elim (parsed remaining) [ none ↦ false | some r ↦ complete e f r ]
    ]
  ]

  -- A complete fill: finite numbers, a filled quantity that is the expected one within the
  -- tolerance, and no more than the tolerance left.
  pub record IsComplete (filled remaining expected : Raw F) : Type 0 where
    pub e : F
    pub f : F
    pub r : F
    pub expected_is : expected ≡ number e
    pub filled_is : filled ≡ number f
    pub remaining_is : remaining ≡ number r
    pub positive : lt (num 0 0) f ≡ true
    pub as_expected : le (abs (sub f e)) tolerance ≡ true
    pub nothing_left : le (abs (sub r (num 0 0))) tolerance ≡ true

  complete_parts :
      (e f r : F)
      → complete e f r ≡ true
      → (lt (num 0 0) f ≡ true)
        × (le (abs (sub f e)) tolerance ≡ true)
        × (le (abs (sub r (num 0 0))) tolerance ≡ true)
  unfolding complete numbers_match
  complete_parts e f r h = ground arith

  pub ibkr_fill_is_complete-IsComplete :
      (filled remaining expected : Raw F)
      → ibkr_fill_is_complete filled remaining expected ≡ true
      → IsComplete filled remaining expected
  unfolding ibkr_fill_is_complete
  ibkr_fill_is_complete-IsComplete (number f) (number r) (number e) h =
      let (a, b, c) = complete_parts e f r h in
      record {
        e = e;
        f = f;
        r = r;
        expected_is = refl;
        filled_is = refl;
        remaining_is = refl;
        positive = a;
        as_expected = b;
        nothing_left = c;
      }
  ibkr_fill_is_complete-IsComplete _ _ absent h = cc
  ibkr_fill_is_complete-IsComplete _ _ malformed h = cc
  ibkr_fill_is_complete-IsComplete absent _ (number e) h = cc
  ibkr_fill_is_complete-IsComplete malformed _ (number e) h = cc
  ibkr_fill_is_complete-IsComplete (number f) absent (number e) h = cc
  ibkr_fill_is_complete-IsComplete (number f) malformed (number e) h = cc

pub data PreflightReason : Type 0 where
  fractional_api_unsupported broker_preflight_rejected : PreflightReason

-- The error codes of a preflight that are numbers; what `int` refuses is passed over.
unfoldable pub ibkr_preflight_rejection_reason : List (Option ℕ) → PreflightReason
ibkr_preflight_rejection_reason [] = broker_preflight_rejected
ibkr_preflight_rejection_reason (none ∷ codes) = ibkr_preflight_rejection_reason codes
ibkr_preflight_rejection_reason (some code ∷ codes) =
    if code == 10243 then fractional_api_unsupported else ibkr_preflight_rejection_reason codes

module _ {F D : Type 0} ⦃fl : Float F⦄ ⦃dl : Float D⦄ (shares : Shares F D) where
  open fl use {num as fnum}
  open dl use {num, lt, le, is_finite}

  -- None is the InvalidOperation of a quantity too large to quantize.
  unfoldable pub normalize_ibkr_shares : Raw D → Option F
  normalize_ibkr_shares absent = some (fnum 0 0)
  normalize_ibkr_shares malformed = some (fnum 0 0)
  normalize_ibkr_shares (number q) =
      if not (is_finite q) || le q (num 0 0)
      then some (fnum 0 0)
      else elim (shares.quantize_down q) [
        | none ↦ none
        | some n ↦ if lt n (num 1 4) then some (fnum 0 0) else some (shares.to_float n)
      ]

  unfoldable pub size_ibkr_entry : Raw D → Bool → Option F
  unfolding normalize_ibkr_shares
  size_ibkr_entry value fractional_enabled = elim (normalize_ibkr_shares value) [
    | none ↦ none
    | some q ↦
        some
          (if fractional_enabled then q else shares.to_float (shares.truncate (shares.of_float q)))
  ]

  -- `quantize` and `to_integral_value` with ROUND_DOWN go towards zero and keep the sign, and the
  -- conversions between floats and decimals keep the order and the value.
  pub record RoundsDown : Type 0 where
    pub nonneg : (x : D) → is_finite x ≡ true → le x (num 0 0) ≡ false → le (num 0 0) x ≡ true
    pub quantize-le :
        (x y : D)
        → le (num 0 0) x ≡ true
        → shares.quantize_down x ≡ some y
        → (le y x ≡ true) × (le (num 0 0) y ≡ true)
    pub truncate-le : (x : D) → le (num 0 0) x ≡ true → le (shares.truncate x) x ≡ true
    pub to_float_mono :
        (x y : D) → le x y ≡ true → fl.le (shares.to_float x) (shares.to_float y) ≡ true
    pub to_float-of_float : (x : F) → shares.to_float (shares.of_float x) ≡ x
    pub of_float_nonneg :
        (x : F) → fl.le (fnum 0 0) x ≡ true → le (num 0 0) (shares.of_float x) ≡ true
    pub to_float_zero : shares.to_float (num 0 0) ≡ fnum 0 0
    pub zero_refl : fl.le (fnum 0 0) (fnum 0 0) ≡ true

  module _ (order : IsOrdered F) (rounds : RoundsDown) where
    open order use {le_trans}
    open rounds use {
      nonneg, quantize-le, truncate-le, to_float_mono, to_float-of_float, of_float_nonneg,
      to_float_zero, zero_refl,
    }

    whole-le :
        (s : F)
        → fl.le (fnum 0 0) s ≡ true
        → fl.le (shares.to_float (shares.truncate (shares.of_float s))) s ≡ true
    whole-le s h =
        let d = shares.of_float s in
        rw to_float-of_float at
          (to_float_mono (shares.truncate d) d (truncate-le d (of_float_nonneg s h)))

    normalize-le :
        (q : D) (s : F)
        → is_finite q ≡ true
        → le q (num 0 0) ≡ false
        → normalize_ibkr_shares (number q) ≡ some s
        → (fl.le s (shares.to_float q) ≡ true) × (fl.le (fnum 0 0) s ≡ true)
    unfolding normalize_ibkr_shares
    normalize-le q s f p h =
        let up : fl.le (fnum 0 0) (shares.to_float q) ≡ true =
          rw to_float_zero at (to_float_mono (num 0 0) q (nonneg q f p)) in
        elim (Option-cases (shares.quantize_down q)) [
          | inl too_large ↦ ground arith
          | inr (n, e) ↦
              let (below, above) = quantize-le q n (nonneg q f p) e in
              let high = to_float_mono n q below in
              let low : fl.le (fnum 0 0) (shares.to_float n) ≡ true =
                rw to_float_zero at (to_float_mono (num 0 0) n above) in
              ground arith
        ]

    -- The shares of an entry are never more than the risk-sized quantity, with fractional shares
    -- and without. The quantity is finite and above zero.
    pub size_ibkr_entry-le :
        (q : D) (fractional_enabled : Bool) {s : F}
        → is_finite q ≡ true
        → le q (num 0 0) ≡ false
        → size_ibkr_entry (number q) fractional_enabled ≡ some s
        → fl.le s (shares.to_float q) ≡ true
    unfolding size_ibkr_entry
    size_ibkr_entry-le q fractional_enabled {s} f p h =
        elim (Option-cases (normalize_ibkr_shares (number q))) [
          | inl failed ↦ ground arith
          | inr (n, e) ↦
              let (below, above) = normalize-le q n f p e in
              let whole = whole-le n above in
              let w = shares.to_float (shares.truncate (shares.of_float n)) in
              ground (arith, le_trans w n (shares.to_float q))
        ]
