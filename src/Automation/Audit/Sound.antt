-- ===== src/Automation/Audit/Sound.antt =====
-- The intent of an entry is committed before its order is sent, and holds back further entries.
use atlas_markets.Base.{
  ℕ, ◌≡◌, refl, sym, ap, ◌∙◌, ◌⊎◌, inl, inr, arith, Option-cases, Bool-cases, Bool, true, false,
  ◌==◌, Option, none, some, List, [], ◌∷◌, ◌++◌, any, All,
}
use atlas_markets.Base.Text.{text_eq_refl}
use atlas_markets.Base.Float.{Float}
use atlas_markets.Rows.{Status, block, submitted, Action, Profile}
use atlas_markets.Ibkr.Shares.{Shares}
use atlas_markets.Automation.Route.{
  Reason, Verdict, cleared, blocked, raised, entry_authorization_blocker, World, config_by_id,
}
use atlas_markets.Automation.Entry.{Settings, Item, Broker, Moments, Order, Outcome, item_symbol}
use atlas_markets.Automation.Entry.Place.{execute_ibkr}
use atlas_markets.Automation.Audit.{
  Audited, Course, returns, save_fails, cancelled_before_post, cancelled_after_post, close_fails,
  stays_open, Effect, committed, sent, awaits, is_pending, status_or_submitted, sent_of,
  refused_with, profile_for_item, intent, conclude_audit, execute_ibkr_audited,
}

any-last :
    {A : Type 0} (p : A → Bool) (xs : List A) (x : A) → p x ≡ true → any p (xs ++ (x ∷ [])) ≡ true
any-last p [] x h = ground arith
any-last p (y ∷ xs) x h = ground (arith, any-last p xs x h)

eq_refl : (n : ℕ) → n == n ≡ true
eq_refl n = ground arith

Verdict-cases :
    (v : Verdict) → ((v ≡ raised) ⊎ ((reason : Reason) × (v ≡ blocked reason))) ⊎ (v ≡ cleared)
Verdict-cases raised = inl (inl refl)
Verdict-cases (blocked reason) = inl (inr (reason, refl))
Verdict-cases cleared = inr refl

abbrev id_of : Option (ℕ × Profile) → ℕ
id_of none = 0
id_of (some (config, profile)) = profile.id

-- The orders that the trace of a call shows as sent.
abbrev pub orders_in : {F : Type 0} → List (Effect F) → List (Order F)
orders_in [] = []
orders_in (committed actions ∷ trace) = orders_in trace
orders_in (sent order ∷ trace) = order ∷ orders_in trace

sent_of-only :
    {F : Type 0} (post : Option (Order F)) {order : Order F} {rest : List (Order F)}
    → orders_in (sent_of post) ≡ order ∷ rest
    → post ≡ some order
sent_of-only none h = cc
sent_of-only (some o) h = ground arith

sent_of-order :
    {F : Type 0} (post : Option (Order F)) (final : List Action) {order : Order F}
    {rest : List (Order F)}
    → orders_in (sent_of post ++ (committed final ∷ [])) ≡ order ∷ rest
    → post ≡ some order
sent_of-order none final h = cc
sent_of-order (some o) final h = ground arith

module _ {F D : Type 0} where
  intent-is_pending :
      (id user : ℕ) (profile : Profile) (item : Item F D) (status : Status)
      → awaits status ≡ true
      → is_pending user profile.id (item_symbol item) (intent id user profile item status) ≡ true
  unfolding is_pending intent
  intent-is_pending id user profile item status h =
      let a = eq_refl user in
      let b = eq_refl profile.id in let c = text_eq_refl (item_symbol item) in ground arith

-- What a call that reaches the broker was let through by.
record IsOpen {F D : Type 0} (moments : Moments) (user : ℕ) (item : Item F D)
    (actions : List Action) (profile : Profile) : Type 0 where
  config : ℕ
  found : profile_for_item moments.start user item ≡ some (config, profile)
  unpending : any (is_pending user profile.id (item_symbol item)) actions ≡ false
  authorized : entry_authorization_blocker moments.start profile.id config ≡ cleared

-- The ids of the rows of `symbol_strategies` are unique.
abbrev pub HasUniqueIds : World → Type 0
HasUniqueIds world = All (λ c. config_by_id c.id world.configs ≡ some c) world.configs

module _ {F D : Type 0} ⦃fl : Float F⦄ ⦃dl : Float D⦄ (decimals : Shares F D) where
  audited-cases :
      (id : ℕ) (settings : Settings) (moments : Moments) (broker : Broker F) (ending : Course)
      (user : ℕ) (item : Item F D) (actions : List Action)
      → (execute_ibkr_audited decimals id settings moments broker ending user item actions
          ≡ refused_with (some block) actions)
        ⊎ (execute_ibkr_audited decimals id settings moments broker ending user item actions
            ≡ refused_with none actions)
        ⊎ ((profile : Profile) × IsOpen moments user item actions profile
            × (execute_ibkr_audited decimals id settings moments broker ending user item actions
                ≡ conclude_audit id user profile item actions
                    (execute_ibkr decimals settings moments broker user item)
                    ending))
  unfolding execute_ibkr_audited
  audited-cases id settings moments broker ending user item actions =
      elim (Option-cases (profile_for_item moments.start user item)) [
        | inl e ↦ inl (ground arith)
        | inr ((config, profile), e) ↦ elim (Bool-cases (profile.user == user)) [
          | inr other ↦ inl (ground arith)
          | inl own ↦
              elim (Bool-cases (any (is_pending user profile.id (item_symbol item)) actions)) [
                | inl held ↦ inl (ground arith)
                | inr free ↦
                    elim (Verdict-cases
                      (entry_authorization_blocker moments.start profile.id config)) [
                        | inl (inl gone) ↦ inr (inl (ground arith))
                        | inl (inr (reason, said)) ↦ inl (ground arith)
                        | inr ok ↦ inr (
                            inr (
                              profile,
                              record {
                                config = config;
                                found = e;
                                unpending = free;
                                authorized = ok;
                              },
                              ground arith,
                            ))
                      ]
              ]
        ]
      ]

  -- How a call that sent `order` ends: by an exception, with the table as it was saved, or with the
  -- status of its result, which the row of the intent then has.
  abbrev pub Closes :
      ℕ → ℕ → Profile → Item F D → List Action → List Action → Order F → Audited F → Type 0
  Closes id user profile item actions saved order run =
      ((run.trace ≡ committed saved ∷ sent order ∷ [])
        × (run.actions ≡ saved)
        × (run.status ≡ none))
      ⊎ ((status : Status) × (run.status ≡ some status)
          × (run.actions ≡ actions ++ (intent id user profile item status ∷ []))
          × (run.trace ≡ committed saved ∷ sent order ∷ committed run.actions ∷ []))

  conclude_audit-Closes :
      (id user : ℕ) (profile : Profile) (item : Item F D) (actions : List Action) (out : Outcome F)
      (ending : Course) {order : Order F} {rest : List (Order F)}
      → orders_in (conclude_audit id user profile item actions out ending).trace ≡ order ∷ rest
      → (out.post ≡ some order)
        × Closes id user profile item actions
            (actions ++ (intent id user profile item submitted ∷ []))
            order
            (conclude_audit id user profile item actions out ending)
  unfolding conclude_audit
  conclude_audit-Closes id user profile item actions out save_fails h = cc
  conclude_audit-Closes id user profile item actions out cancelled_before_post h = cc
  conclude_audit-Closes id user profile item actions out cancelled_after_post h =
      let post = sent_of-only out.post h in (post, inl (rw post refl, refl, refl))
  conclude_audit-Closes id user profile item actions out close_fails h =
      let post = sent_of-only out.post h in (post, inl (rw post refl, refl, refl))
  conclude_audit-Closes id user profile item actions out returns h =
      let status = status_or_submitted out.status in
      let final = actions ++ (intent id user profile item status ∷ []) in
      let post = sent_of-order out.post final h in (post, inr (status, refl, refl, rw post refl))

  held-back :
      (id config : ℕ) (settings : Settings) (moments : Moments) (broker : Broker F)
      (ending : Course) (user : ℕ) (item : Item F D) (actions : List Action) (profile : Profile)
      → profile_for_item moments.start user item ≡ some (config, profile)
      → any (is_pending user profile.id (item_symbol item)) actions ≡ true
      → execute_ibkr_audited decimals id settings moments broker ending user item actions
        ≡ refused_with (some block) actions
  unfolding execute_ibkr_audited
  held-back id config settings moments broker ending user item actions profile found pending =
      ground arith

  left-pending :
      (id user : ℕ) (profile : Profile) (item : Item F D) (actions : List Action) (out : Outcome F)
      (ending : Course) {order : Order F} {rest : List (Order F)}
      → orders_in (conclude_audit id user profile item actions out ending).trace ≡ order ∷ rest
      → stays_open (conclude_audit id user profile item actions out ending).status ≡ true
      → any
          (is_pending user profile.id (item_symbol item))
          (conclude_audit id user profile item actions out ending).actions
        ≡ true
  left-pending id user profile item actions out ending {order} h w =
      elim (conclude_audit-Closes id user profile item actions out ending h).1 [
        | inl (trace, left, status) ↦ rw left (
            any-last (is_pending user profile.id (item_symbol item)) actions
              (intent id user profile item submitted)
              (intent-is_pending id user profile item submitted refl))
        | inr (status, ends, left, trace) ↦ rw left (
            any-last (is_pending user profile.id (item_symbol item)) actions
              (intent id user profile item status)
              (intent-is_pending id user profile item status (rw ends at w)))
      ]

  -- An entry that sent an order and does not end resolved, by an exception or a cancellation say,
  -- holds back every later call of the user for its symbol at the same profile, whatever the broker
  -- then says: the later call sends and commits nothing.
  pub execute_ibkr_audited-held :
      (id : ℕ) (settings : Settings) (moments : Moments) (broker : Broker F) (ending : Course)
      (user : ℕ) (item : Item F D) (actions : List Action) {config : ℕ} {profile : Profile}
      {order : Order F} {rest : List (Order F)}
      → profile_for_item moments.start user item ≡ some (config, profile)
      → orders_in
          (execute_ibkr_audited decimals id settings moments broker ending user item actions).trace
        ≡ order ∷ rest
      → stays_open
          (execute_ibkr_audited decimals id settings moments broker ending user item actions).status
        ≡ true
      → (id' config' : ℕ) (settings' : Settings) (moments' : Moments) (broker' : Broker F)
        (ending' : Course) (item' : Item F D) (profile' : Profile)
      → item_symbol item' ≡ item_symbol item
      → profile_for_item moments'.start user item' ≡ some (config', profile')
      → profile'.id ≡ profile.id
      → execute_ibkr_audited decimals id' settings' moments' broker' ending' user item'
          (execute_ibkr_audited decimals id settings moments broker ending user item
            actions).actions
        ≡ refused_with
            (some block)
            (execute_ibkr_audited decimals id settings moments broker ending user item
              actions).actions
  execute_ibkr_audited-held id settings moments broker ending user item actions {config} {profile} f
        h w id' config' settings' moments' broker' ending' item' profile' same found at_profile =
      elim (audited-cases id settings moments broker ending user item actions) [
        | inl refused_here ↦ ground arith
        | inr (inl raised_here) ↦ ground arith
        | inr (inr (p, opened, e)) ↦
            let out = execute_ibkr decimals settings moments broker user item in
            let pending = left-pending id user p item actions out ending (rw e at h) (rw e at w) in
            let same_id : profile'.id ≡ p.id =
              at_profile ∙ ap (λ o. id_of o) (sym f ∙ opened.found) in
            let left = (conclude_audit id user p item actions out ending).actions in
            rw e (
              held-back id' config' settings' moments' broker' ending' user item' left profile'
                found (rw (same, same_id) pending))
      ]
