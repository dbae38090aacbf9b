-- ===== src/Bybit/Execute/Outcomes.antt =====
-- What the reports of `execute_managed_spot_order` and the inventory after it say.
use atlas_markets.Base.{
  ℕ, ◌≡◌, true, false, Option, none, some, ◌⊎◌, inl, inr, Bool-cases, arith, sym, ap, ◌∙◌, is_some,
}
use atlas_markets.Base.Text.{Text, text_eq, codes, upper}
use atlas_markets.Base.Float.{Float}
use atlas_markets.Guard.Symbols.{is_empty}
use atlas_markets.Rows.{executed, block, Profile}
use atlas_markets.Access.Owner.{entry_owner_blocker}
use atlas_markets.Bybit.Inventory.{
  Side, side_of, Inventory, apply_managed_fill, applied, Applied-cases,
}
use atlas_markets.Bybit.Execute.Gates.{IsGated, submit-IsGated}
use atlas_markets.Bybit.Execute.Shape.{IsBlock, IsPrepared, execute_managed_spot_order-ends}
use atlas_markets.Bybit.Fills.{
  text_or_empty, HistoryRow, confirmed, Verified-cases, verify_spot_fill, fill_quantity, fill_price,
}
use atlas_markets.Bybit.Fills.Evidence.{IsFill, Tells, verify_spot_fill-Tells}
use atlas_markets.Bybit.Slots.{Decimals}
use atlas_markets.Bybit.Reconcile.{has_client}
use atlas_markets.Bybit.Submit.{
  Post, Placed-cases, place_test_spot_market_order, place_test_spot_market_order-answer,
}
use atlas_markets.Bybit.Attempt.{
  fill_exceeds_managed_inventory, Account, World, Run, Report, Request, Sizes, existing,
  pending_action, request_of,
}
use atlas_markets.Bybit.Execute.{reconciled_actions, follow_up, submit, execute_managed_spot_order}

module _ {F D : Type 0} ⦃fl : Float F⦄ ⦃dl : Float D⦄ (dec : Decimals F D) (world : World F D) where
  open fl use {num, le, lt, add, is_finite}

  -- The booking behind a report of an execution: the row that confirms the order carries its link
  -- and is a fill, and the inventory is what the fill makes of it.
  pub record IsBooked (side : Side) (z : Sizes F) (rep : Report F) (before after : Account F)
      : Type 0 where
    pub row : HistoryRow F D
    pub seen : verify_spot_fill world.history world.link ≡ confirmed row
    pub not_cancelled : text_eq (upper row.order_status) (codes "CANCELLED") ≡ false
    pub booked : Inventory F
    pub held : after ≡ record before { inventory = some booked }
    pub by_fill :
        apply_managed_fill
          (existing before.inventory)
          (some side)
          (fill_quantity row z.quantity)
          (fill_price row)
        ≡ applied booked
    pub filled : rep.filled_quantity ≡ some (fill_quantity row z.quantity)

  follow_up-executed :
      (r : Request F) (side : Side) (z : Sizes F) (id : Text) (account : Account F) {rep : Report F}
      → (follow_up dec world r side z id account).0 ≡ some rep
      → rep.status ≡ executed
      → IsBooked side z rep account (follow_up dec world r side z id account).1
  unfolding follow_up
  follow_up-executed r side z id account {rep} h e =
      elim (Verified-cases (verify_spot_fill world.history world.link)) [
        | inl failed ↦ ground arith
        | inr (inl nothing) ↦ ground arith
        | inr (inr (row, seen)) ↦
            elim (Applied-cases (
              apply_managed_fill (existing account.inventory) (some side)
                (fill_quantity row z.quantity) (fill_price row))) [
                  | inl (error, a) ↦ ground arith
                  | inr (booked, a) ↦ record {
                    row = row;
                    seen = seen;
                    not_cancelled = ground arith;
                    booked = booked;
                    held = ground arith;
                    by_fill = a;
                    filled = ground arith;
                  }
                ]
      ]

  submit-executed :
      (r : Request F) (side : Side) (z : Sizes F) (account : Account F) {rep : Report F}
      → let run = submit dec world r side z account in
        run.report ≡ some rep
        → rep.status ≡ executed
        → ((post : Post F D) × (run.post ≡ some post)) × IsBooked side z rep account run.account
  unfolding submit
  submit-executed r side z account {rep} h e = elim (Bool-cases (has_client r.profile)) [
    | inr missing ↦ ground arith
    | inl client ↦
        elim (Placed-cases (
          place_test_spot_market_order dec world.venue
            (is_some (entry_owner_blocker world.tables r.profile)) r.symbol side z.quantity
            world.link)) [
              | inl refused_before ↦ ground arith
              | inr (inl (post, lost)) ↦ ground arith
              | inr (inr (post, id, p)) ↦
                  let followed : (follow_up dec world r side z id account).0 ≡ some rep =
                    ground arith in
                  let same : (submit dec world r side z account).account
                      ≡ (follow_up dec world r side z id account).1 =
                    ground arith in
                  (
                    (post, ground arith),
                    rw same (follow_up-executed r side z id account {rep = rep} followed e),
                  )
            ]
  ]

  -- An execution of a call: the order of its side was posted, at the size that the row and the
  -- wallet allow, and its fill is booked on the row of the call.
  pub record IsExecution (r : Request F) (side : Option Side) (account : Account F) (rep : Report F)
      (run : Run F D) : Type 0 where
    pub chosen : Side
    pub of_call : side ≡ some chosen
    pub sizes : Sizes F
    pub before : Account F
    pub reconciled : reconciled_actions dec world r account.actions ≡ some before.actions
    pub prepared :
        IsPrepared dec world r chosen (record account { actions = before.actions }) sizes before
    pub post : Post F D
    pub was_posted : run.post ≡ some post
    pub gated : IsGated dec world r chosen post
    pub for_size : post.requested ≡ sizes.quantity
    pub booking : IsBooked chosen sizes rep before run.account
    pub own_fill :
        (text_eq (text_or_empty booking.row.order_link_id) world.link ≡ true) × IsFill booking.row

  IsFill-of :
      (row : HistoryRow F D) (link : Text)
      → text_eq (upper row.order_status) (codes "CANCELLED") ≡ false
      → Tells link row
      → (text_eq (text_or_empty row.order_link_id) link ≡ true) × IsFill row
  IsFill-of row link open_row (same, inl fill) = (same, fill)
  IsFill-of row link open_row (same, inr zero) = absurd (clash zero.cancelled)
    where
      clash : text_eq (upper row.order_status) (codes "CANCELLED") ≡ true → ⊥
      clash e = ground arith

  -- A report of an execution is never made up. An order of the side of the call was posted, a
  -- purchase for the quantity asked for and a sale for the least of that, the managed and the wallet
  -- quantity; the exchange's history shows a filled or partly filled order with the link of that
  -- order; the reported quantity is the one that the row gives; and the inventory is what that fill,
  -- bought or sold as the call asked, makes of the managed row, which follows the wallet first where
  -- the wallet holds less. The link is not empty.
  pub execute_managed_spot_order-IsExecution :
      (profile : Profile) (user : ℕ) (symbol side : Text) (quantity : F) (account : Account F)
      (rep : Report F)
      → is_empty world.link ≡ false
      → let run = execute_managed_spot_order dec world profile user symbol side quantity account in
        run.report ≡ some rep
        → rep.status ≡ executed
        → IsExecution (request_of profile user symbol quantity) (side_of side) account rep run
  execute_managed_spot_order-IsExecution profile user symbol side quantity account rep l h e =
      let run = execute_managed_spot_order dec world profile user symbol side quantity account in
      let r = request_of profile user symbol quantity in
      elim (execute_managed_spot_order-ends dec world profile user symbol side quantity account) [
        | inl stopped ↦ absurd (no_execution run rep stopped.blocked h e)
        | inr s ↦
            let sent = s.sent in
            let ((post, p), b) =
              submit-executed r s.chosen sent.sizes sent.before {rep = rep}
                (ap (λ (x : Run F D). x.report) (sym sent.by_submit) ∙ h) e in
            let (gated, sized) =
              submit-IsGated dec world r s.chosen sent.sizes sent.before {post = post} p in
            rw sent.by_submit (record {
              chosen = s.chosen;
              of_call = s.of_call;
              sizes = sent.sizes;
              before = sent.before;
              reconciled = s.reconciled ∙ ap some (sym sent.actions);
              prepared = simp (sent.actions) sent.prepared;
              post = post;
              was_posted = p;
              gated = gated;
              for_size = sized;
              booking = b;
              own_fill =
                  IsFill-of b.row world.link b.not_cancelled
                    (verify_spot_fill-Tells world.history world.link {row = b.row} l b.seen);
            })
      ]
    where
      no_execution :
          (run : Run F D) (rep : Report F)
          → IsBlock dec world run.report
          → run.report ≡ some rep
          → rep.status ≡ executed
          → ⊥
      no_execution run rep b h e = ground arith

  submit-lost :
      (r : Request F) (side : Side) (z : Sizes F) (account : Account F) {post : Post F D}
      → world.venue.answer ≡ none
      → (submit dec world r side z account).post ≡ some post
      → ((submit dec world r side z account).report ≡ none)
        × ((submit dec world r side z account).account ≡ account)
  unfolding submit
  submit-lost r side z account {post} lost h = elim (Bool-cases (has_client r.profile)) [
    | inr missing ↦ (ground arith, ground arith)
    | inl client ↦
        let blocked = is_some (entry_owner_blocker world.tables r.profile) in
        elim (Placed-cases (
          place_test_spot_market_order dec world.venue blocked r.symbol side z.quantity
            world.link)) [
              | inl refused_before ↦ (ground arith, ground arith)
              | inr (inl (q, p)) ↦ (ground arith, ground arith)
              | inr (inr (q, id, p)) ↦
                  let a =
                    place_test_spot_market_order-answer dec world.venue blocked r.symbol side
                      z.quantity world.link {post = q} {answer = some id} p in
                  absurd (clash id (a ∙ lost))
            ]
  ]
    where
      clash : (id : Text) → ◌≡◌ {A = Option Text} (some id) none → ⊥
      clash id e = cc

  -- If the POST is sent and its answer is lost, the call ends in an exception, and no submission
  -- of the user, profile and symbol is left unresolved in the actions: nothing makes a later call
  -- wait for the order that may stand at the exchange.
  pub execute_managed_spot_order-lost :
      (profile : Profile) (user : ℕ) (symbol side : Text) (quantity : F) (account : Account F)
      {post : Post F D}
      → world.venue.answer ≡ none
      → let run = execute_managed_spot_order dec world profile user symbol side quantity account in
        run.post ≡ some post
        → (run.report ≡ none)
          × (pending_action (request_of profile user symbol quantity) run.account.actions ≡ none)
  execute_managed_spot_order-lost profile user symbol side quantity account {post} lost h =
      let r = request_of profile user symbol quantity in
      elim (execute_managed_spot_order-ends dec world profile user symbol side quantity account) [
        | inl stopped ↦ absurd (no_order stopped.no_post)
        | inr s ↦
            let (a, b) =
              submit-lost r s.chosen s.sent.sizes s.sent.before {post = post} lost
                (ap (λ (x : Run F D). x.post) (sym s.sent.by_submit) ∙ h) in
            (
              ap (λ (x : Run F D). x.report) s.sent.by_submit ∙ a,
              ap (λ (x : Run F D). pending_action r x.account.actions) s.sent.by_submit
                  ∙ ap (λ (x : Account F). pending_action r x.actions) b
                  ∙ ap (pending_action r) s.sent.actions
                  ∙ s.clear,
            )
      ]
    where
      no_order :
          (execute_managed_spot_order dec world profile user symbol side quantity account).post
            ≡ none
          → ⊥
      no_order e = ground arith

  follow_up-block :
      (r : Request F) (side : Side) (z : Sizes F) (id : Text) (account : Account F) {rep : Report F}
      → (follow_up dec world r side z id account).0 ≡ some rep
      → rep.status ≡ block
      → rep.reason ≡ some fill_exceeds_managed_inventory
  unfolding follow_up
  follow_up-block r side z id account {rep} h e =
      elim (Verified-cases (verify_spot_fill world.history world.link)) [
        | inl failed ↦ ground arith
        | inr (inl nothing) ↦ ground arith
        | inr (inr (row, seen)) ↦
            elim (Applied-cases (
              apply_managed_fill (existing account.inventory) (some side)
                (fill_quantity row z.quantity) (fill_price row))) [
                  | inl (error, a) ↦ ground arith
                  | inr (booked, a) ↦ ground arith
                ]
      ]

  submit-block :
      (r : Request F) (side : Side) (z : Sizes F) (account : Account F) {rep : Report F}
      → (submit dec world r side z account).report ≡ some rep
      → rep.status ≡ block
      → rep.reason ≡ some fill_exceeds_managed_inventory
  unfolding submit
  submit-block r side z account {rep} h e = elim (Bool-cases (has_client r.profile)) [
    | inr missing ↦ ground arith
    | inl client ↦
        elim (Placed-cases (
          place_test_spot_market_order dec world.venue
            (is_some (entry_owner_blocker world.tables r.profile)) r.symbol side z.quantity
            world.link)) [
              | inl refused_before ↦ ground arith
              | inr (inl (post, lost)) ↦ ground arith
              | inr (inr (post, id, p)) ↦
                  follow_up-block r side z id account {rep = rep} (ground arith) e
            ]
  ]

  -- A report of a block means that no order was posted, but for the one block that follows a fill,
  -- of a sale that sold more than ATLAS manages.
  pub execute_managed_spot_order-block :
      (profile : Profile) (user : ℕ) (symbol side : Text) (quantity : F) (account : Account F)
      (rep : Report F)
      → let run = execute_managed_spot_order dec world profile user symbol side quantity account in
        run.report ≡ some rep
        → rep.status ≡ block
        → (run.post ≡ none) ⊎ (rep.reason ≡ some fill_exceeds_managed_inventory)
  execute_managed_spot_order-block profile user symbol side quantity account rep h e =
      elim (execute_managed_spot_order-ends dec world profile user symbol side quantity account) [
        | inl stopped ↦ inl stopped.no_post
        | inr s ↦ inr (
            submit-block (request_of profile user symbol quantity) s.chosen s.sent.sizes
              s.sent.before {rep = rep} (ap (λ (x : Run F D). x.report) (sym s.sent.by_submit) ∙ h)
              e)
      ]
