-- ===== src/Ibkr/Protection.antt =====
-- `position_has_native_protection` of app/services/ibkr_protection.py.
use atlas_markets.Base.{
  ℕ, ◌≡◌, refl, Bool, true, false, not, ◌&&◌, ◌||◌, Option, none, some, List, [], ◌∷◌, ◌⊎◌, inl,
  inr, All, All-keep, all, keep, ◌==◌, arith, if◌then◌else◌, Option-cases,
}
use atlas_markets.Base.Text.{Text, codes, text_eq, mem_text, starts_with, upper}
use atlas_markets.Base.Float.{Float, Raw, float_or_zero}
use atlas_markets.Ibkr.Shares.{parsed}

-- A broker's order and a position; a text that the broker leaves out is none where the program
-- tells that from the empty text.
pub record OrderRow (F : Type 0) : Type 0 where
  pub account : Option Text
  pub symbol : Text
  pub status : Text
  pub kind : Text  -- `type`
  pub oca_group : Option Text
  pub oca_type : ℕ
  pub order_ref : Option Text
  pub side : Text
  pub sec_type : Text
  pub tif : Text
  pub outside_rth : Option Bool
  pub quantity : Raw F
  pub filled : Raw F
  pub aux_price : Raw F
  pub limit_price : Raw F

pub record Position (F : Type 0) : Type 0 where
  pub account : Option Text
  pub symbol : Text
  pub quantity : Raw F

abbrev pub same_text : Option Text → Option Text → Bool
same_text none none = true
same_text none (some t) = false
same_text (some s) none = false
same_text (some s) (some t) = text_eq s t

abbrev pub text_of : Option Text → Text
text_of none = []
text_of (some t) = t

abbrev pub closed_statuses : List Text
closed_statuses =
    codes "FILLED"
    ∷ codes "CANCELLED"
    ∷ codes "CANCELED"
    ∷ codes "INACTIVE"
    ∷ codes "APICANCELLED"
    ∷ []

abbrev pub live_statuses : List Text
live_statuses = codes "SUBMITTED" ∷ codes "PRESUBMITTED" ∷ []

abbrev pub is_false : Option Bool → Bool
is_false (some false) = true
is_false (some true) = false
is_false none = false

module _ {F : Type 0} ⦃fl : Float F⦄ where
  open fl use {num, sub, lt, le, eq, abs, is_finite}

  unfoldable pub is_live_order : Option Text → Text → OrderRow F → Bool
  is_live_order account symbol r =
      same_text r.account account
      && text_eq r.symbol symbol
      && not (mem_text (upper r.status) closed_statuses)

  abbrev pub is_stop : OrderRow F → Bool
  is_stop r = text_eq r.kind (codes "STP")

  abbrev pub is_limit : OrderRow F → Bool
  is_limit r = text_eq r.kind (codes "LMT")

  -- The part of the order that is still open is the whole position.
  abbrev pub covers : F → OrderRow F → Bool
  covers quantity r = elim (float_or_zero r.quantity) [
    | none ↦ false
    | some q ↦ elim (float_or_zero r.filled) [
      | none ↦ false
      | some f ↦ le (abs (sub (sub q f) (abs quantity))) (num 1 8)
    ]
  ]

  abbrev pub has_price : OrderRow F → Bool
  has_price r = elim (parsed (if is_stop r then r.aux_price else r.limit_price)) [
    | none ↦ false
    | some p ↦ is_finite p && not (le p (num 0 0))
  ]

  unfoldable pub row_protects : F → Text → OrderRow F → Bool
  row_protects quantity side r =
      has_price r
      && text_eq r.side side
      && text_eq r.sec_type (codes "STK")
      && (r.oca_type == 2)
      && same_text r.order_ref r.oca_group
      && text_eq r.tif (codes "GTC")
      && is_false r.outside_rth
      && mem_text (upper r.status) live_statuses
      && covers quantity r

  -- Two orders, a stop and a limit, of one group.
  unfoldable pub is_pair : List (OrderRow F) → Bool
  is_pair [] = false
  is_pair (a ∷ []) = false
  is_pair (a ∷ b ∷ c ∷ rows) = false
  is_pair (a ∷ b ∷ []) =
      (is_stop a && is_limit b || is_limit a && is_stop b)
      && same_text a.oca_group b.oca_group
      && starts_with (codes "atlas-protect-") (text_of a.oca_group)

  protected_by : F → Text → List (OrderRow F) → Bool
  protected_by quantity side rows = is_pair rows && all (row_protects quantity side) rows

  abbrev pub exit_side : F → Text
  exit_side quantity = if lt (num 0 0) quantity then codes "SELL" else codes "BUY"

  unfoldable pub position_has_native_protection :
      Position F → List (OrderRow F) → Option Text → Bool
  unfolding protected_by
  position_has_native_protection position orders account = elim (float_or_zero position.quantity) [
    | none ↦ false
    | some quantity ↦
        if not (is_finite quantity)
          || eq quantity (num 0 0)
          || not (same_text position.account account)
        then false
        else protected_by quantity (exit_side quantity)
            (keep (is_live_order account (upper position.symbol)) orders)
  ]

  -- SELL closes a long position, BUY a short one.
  abbrev pub Closes : F → OrderRow F → Type 0
  Closes quantity r =
      ((lt (num 0 0) quantity ≡ true) × (text_eq r.side (codes "SELL") ≡ true))
      ⊎ ((lt (num 0 0) quantity ≡ false) × (text_eq r.side (codes "BUY") ≡ true))

  -- A working stock order, good till cancelled and for the regular hours only, that closes the whole
  -- position.
  pub record IsExit (quantity : F) (account : Option Text) (symbol : Text) (r : OrderRow F)
      : Type 0 where
    pub same_account : same_text r.account account ≡ true
    pub same_symbol : text_eq r.symbol symbol ≡ true
    pub closes : Closes quantity r
    pub priced : has_price r ≡ true
    pub stock : text_eq r.sec_type (codes "STK") ≡ true
    pub reduces : r.oca_type ≡ 2
    pub referenced : same_text r.order_ref r.oca_group ≡ true
    pub lasting : text_eq r.tif (codes "GTC") ≡ true
    pub regular : is_false r.outside_rth ≡ true
    pub working : mem_text (upper r.status) live_statuses ≡ true
    pub whole : covers quantity r ≡ true

  -- The position is of this account and is not flat, and its live orders are a stop and a limit
  -- order of one protective group.
  pub record IsProtected (position : Position F) (account : Option Text)
      (orders : List (OrderRow F)) : Type 0 where
    pub quantity : F
    pub read : float_or_zero position.quantity ≡ some quantity
    pub finite : is_finite quantity ≡ true
    pub not_flat : eq quantity (num 0 0) ≡ false
    pub own : same_text position.account account ≡ true
    pub a : OrderRow F
    pub b : OrderRow F
    pub live : keep (is_live_order account (upper position.symbol)) orders ≡ a ∷ b ∷ []
    pub kinds :
        ((is_stop a ≡ true) × (is_limit b ≡ true)) ⊎ ((is_limit a ≡ true) × (is_stop b ≡ true))
    pub one_group :
        (same_text a.oca_group b.oca_group ≡ true)
        × (starts_with (codes "atlas-protect-") (text_of a.oca_group) ≡ true)
    pub exits :
        IsExit quantity account (upper position.symbol) a
        × IsExit quantity account (upper position.symbol) b

  live-parts :
      (account : Option Text) (symbol : Text) (r : OrderRow F)
      → is_live_order account symbol r ≡ true
      → (same_text r.account account ≡ true) × (text_eq r.symbol symbol ≡ true)
  unfolding is_live_order
  live-parts account symbol r h = ground arith

  row_protects-IsExit :
      (quantity : F) (account : Option Text) (symbol : Text) (r : OrderRow F)
      → is_live_order account symbol r ≡ true
      → row_protects quantity (exit_side quantity) r ≡ true
      → IsExit quantity account symbol r
  unfolding row_protects
  row_protects-IsExit quantity account symbol r live h =
      let (x, y) = live-parts account symbol r live in
      record {
        same_account = x;
        same_symbol = y;
        closes = ground arith;
        priced = ground arith;
        stock = ground arith;
        reduces = ground arith;
        referenced = ground arith;
        lasting = ground arith;
        regular = ground arith;
        working = ground arith;
        whole = ground arith;
      }

  -- What the test of the live orders tells, for a position that passed the guards.
  protected_by-parts :
      (quantity : F) (rows : List (OrderRow F))
      → protected_by quantity (exit_side quantity) rows ≡ true
      → (a : OrderRow F) × (b : OrderRow F) × (rows ≡ a ∷ b ∷ [])
        × (is_pair (a ∷ b ∷ []) ≡ true)
        × (row_protects quantity (exit_side quantity) a ≡ true)
        × (row_protects quantity (exit_side quantity) b ≡ true)
  unfolding protected_by is_pair
  protected_by-parts quantity [] h = cc
  protected_by-parts quantity (a ∷ []) h = cc
  protected_by-parts quantity (a ∷ b ∷ c ∷ rows) h = cc
  protected_by-parts quantity (a ∷ b ∷ []) h =
      (a, b, refl, ground arith, ground arith, ground arith)

  pair-parts :
      (a b : OrderRow F)
      → is_pair (a ∷ b ∷ []) ≡ true
      → (((is_stop a ≡ true) × (is_limit b ≡ true)) ⊎ ((is_limit a ≡ true) × (is_stop b ≡ true)))
        × (same_text a.oca_group b.oca_group ≡ true)
        × (starts_with (codes "atlas-protect-") (text_of a.oca_group) ≡ true)
  unfolding is_pair
  pair-parts a b h = (ground arith, ground arith, ground arith)

  -- The guards on the position itself.
  guarded :
      (position : Position F) (orders : List (OrderRow F)) (account : Option Text) (quantity : F)
      → float_or_zero position.quantity ≡ some quantity
      → position_has_native_protection position orders account ≡ true
      → (is_finite quantity ≡ true)
        × (eq quantity (num 0 0) ≡ false)
        × (same_text position.account account ≡ true)
        × (protected_by quantity
              (exit_side quantity)
              (keep (is_live_order account (upper position.symbol)) orders)
            ≡ true)
  unfolding position_has_native_protection
  guarded position orders account quantity e h =
      (ground arith, ground arith, ground arith, ground arith)

  unread :
      (position : Position F) (orders : List (OrderRow F)) (account : Option Text)
      → float_or_zero position.quantity ≡ none
      → position_has_native_protection position orders account ≡ true
      → IsProtected position account orders
  unfolding position_has_native_protection
  unread position orders account failed h = ground arith

  -- A position counts as protected only if it is of the account that is asked about, finite and not
  -- zero, and the live orders of its account and symbol are exactly a stop and a limit order of one
  -- `atlas-protect-` group. Each of them sells a long position or buys back a short one, is open for
  -- the whole of it, and is a working, priced stock order, good till cancelled, in the regular hours.
  pub position_has_native_protection-IsProtected :
      (position : Position F) (orders : List (OrderRow F)) (account : Option Text)
      → position_has_native_protection position orders account ≡ true
      → IsProtected position account orders
  position_has_native_protection-IsProtected position orders account h =
      elim (Option-cases (float_or_zero position.quantity)) [
        | inl failed ↦ unread position orders account failed h
        | inr (q, e) ↦
            let (finite, not_flat, own, held) = guarded position orders account q e h in
            let symbol = upper position.symbol in
            let (a, b, live, pair, pa, pb) =
              protected_by-parts q (keep (is_live_order account symbol) orders) held in
            let (kinds, group, prefix) = pair-parts a b pair in
            let found = All-keep (is_live_order account symbol) orders in
            let every : All (λ r. is_live_order account symbol r ≡ true) (a ∷ b ∷ []) =
              rw live at found in
            let la = every.0 in
            let lb = every.1.0 in
            record {
              quantity = q;
              read = e;
              finite = finite;
              not_flat = not_flat;
              own = own;
              a = a;
              b = b;
              live = live;
              kinds = kinds;
              one_group = (group, prefix);
              exits = (
                row_protects-IsExit q account symbol a la pa,
                row_protects-IsExit q account symbol b lb pb,
              );
            }
      ]
