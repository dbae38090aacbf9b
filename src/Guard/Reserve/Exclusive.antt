-- ===== src/Guard/Reserve/Exclusive.antt =====
-- Who holds a reservation, in every interleaving.
use atlas_markets.Base.{
  ℕ, ◌<◌, ◌≡◌, ◌≢◌, sym, ◌∙◌, true, false, Option, some, ◌⊎◌, inl, inr, arith, ◌==◌, Bool-cases,
  Option-cases,
}
use atlas_markets.Guard.Reserve.{
  Phase, outside, found, reserved, refused, State, update, start, lock_for, try_acquire, leave,
  leave_refused, Step, looks_up, tries, leaves, gives_up, Reach, here, next,
}

-- The registry gives every key its own lock object, and a task has the lock of its key.
record IsRegistered (s : State) : Type 0 where
  below : (k l : ℕ) → s.locks k ≡ some l → l < s.fresh
  apart : (j k l : ℕ) → s.locks j ≡ some l → s.locks k ≡ some l → j ≡ k
  of_found : (t k l : ℕ) → s.phase t ≡ found k l → s.locks k ≡ some l
  of_reserved : (t k l : ℕ) → s.phase t ≡ reserved k l → s.locks k ≡ some l

start-IsRegistered : IsRegistered start
unfolding start
start-IsRegistered = record {
  below = λ k l h. cc;
  apart = λ j k l h g. cc;
  of_found = λ t k l h. cc;
  of_reserved = λ t k l h. cc;
}

-- The new lock object
lock_for-IsRegistered : (t k : ℕ) (s : State) → IsRegistered s → IsRegistered (lock_for t k s)
unfolding lock_for
lock_for-IsRegistered t k s r = elim (Option-cases (s.locks k)) [
  | inr (l, e) ↦
      rw (e, lock_for)
        (record {
          below = r.below;
          apart = r.apart;
          of_found = λ u j m h. ground (arith, r.of_found u j m, e);
          of_reserved = λ u j m h. ground (arith, r.of_reserved u j m);
        })
  | inl missing ↦
      rw (missing, lock_for)
        (record {
          below = λ j l h. ground (arith, r.below j l);
          apart = λ i j l h g. ground (arith, r.apart i j l, r.below i l, r.below j l);
          of_found = λ u j m h. ground (arith, r.of_found u j m, missing);
          of_reserved = λ u j m h. ground (arith, r.of_reserved u j m, missing);
        })
]

Step-IsRegistered : {s u : State} → Step s u → IsRegistered s → IsRegistered u
unfolding try_acquire leave leave_refused
Step-IsRegistered (looks_up t k s h) r = lock_for-IsRegistered t k s r
Step-IsRegistered (tries t k l s h) r = record {
  below = λ j m g. ground (arith, r.below j m);
  apart = λ i j m g f. ground (arith, r.apart i j m);
  of_found = λ u j m g. ground (arith, r.of_found u j m);
  of_reserved = λ u j m g. ground (arith, r.of_reserved u j m, r.of_found t k l h);
}
Step-IsRegistered (leaves t k l s h) r = record {
  below = r.below;
  apart = r.apart;
  of_found = λ u j m g. ground (arith, r.of_found u j m);
  of_reserved = λ u j m g. ground (arith, r.of_reserved u j m);
}
Step-IsRegistered (gives_up t s h) r = record {
  below = r.below;
  apart = r.apart;
  of_found = λ u j m g. ground (arith, r.of_found u j m);
  of_reserved = λ u j m g. ground (arith, r.of_reserved u j m);
}

Reach-IsRegistered : {s : State} → Reach s → IsRegistered s
Reach-IsRegistered here = start-IsRegistered
Reach-IsRegistered (next r st) = Step-IsRegistered st (Reach-IsRegistered r)

-- A lock object that is reserved is locked, and reserved by one task only.
record IsExclusive (s : State) : Type 0 where
  holder_locked : (t k l : ℕ) → s.phase t ≡ reserved k l → s.locked l ≡ true
  one_holder : (t u j k l : ℕ) → s.phase t ≡ reserved j l → s.phase u ≡ reserved k l → t ≡ u

start-IsExclusive : IsExclusive start
unfolding start
start-IsExclusive = record { holder_locked = λ t k l h. cc; one_holder = λ t u j k l h g. cc }

lock_for-IsExclusive :
    (t k : ℕ) (s : State) → IsRegistered s → IsExclusive s → IsExclusive (lock_for t k s)
unfolding lock_for
lock_for-IsExclusive t k s r e = elim (Option-cases (s.locks k)) [
  | inr (l, f) ↦
      rw (f, lock_for)
        (record {
          holder_locked = λ a j m p. ground (arith, e.holder_locked a j m);
          one_holder = λ a b i j m p q. ground (arith, e.one_holder a b i j m);
        })
  | inl missing ↦
      rw (missing, lock_for)
        (record {
          holder_locked =
              λ a j m p. ground (arith, e.holder_locked a j m, r.of_reserved a j m, r.below j m);
          one_holder = λ a b i j m p q. ground (arith, e.one_holder a b i j m);
        })
]

Step-IsExclusive : {s u : State} → Step s u → IsRegistered s → IsExclusive s → IsExclusive u
unfolding try_acquire leave leave_refused
Step-IsExclusive (looks_up t k s h) r e = lock_for-IsExclusive t k s r e
Step-IsExclusive (tries t k l s h) r e = record {
  holder_locked = λ a j m p. ground (arith, e.holder_locked a j m);
  one_holder = λ a b i j m p q.
      ground (arith, e.one_holder a b i j m, e.holder_locked a i m, e.holder_locked b j m);
}
Step-IsExclusive (leaves t k l s h) r e = record {
  holder_locked = λ a j m p. ground (arith, e.holder_locked a j m, e.one_holder a t j k m);
  one_holder = λ a b i j m p q. ground (arith, e.one_holder a b i j m);
}
Step-IsExclusive (gives_up t s h) r e = record {
  holder_locked = λ a j m p. ground (arith, e.holder_locked a j m);
  one_holder = λ a b i j m p q. ground (arith, e.one_holder a b i j m);
}

Reach-IsExclusive : {s : State} → Reach s → IsExclusive s
Reach-IsExclusive here = start-IsExclusive
Reach-IsExclusive (next r st) = Step-IsExclusive st (Reach-IsRegistered r) (Reach-IsExclusive r)

some-inj : {l m : ℕ} → ◌≡◌ {A = Option ℕ} (some l) (some m) → l ≡ m
some-inj e = cc

-- In every interleaving at most one task holds the reservation of a key, whatever lock objects the
-- tasks were given.
pub reserve_execution_excludes :
    {s : State}
    → Reach s
    → (t u k l m : ℕ) → s.phase t ≡ reserved k l
    → s.phase u ≡ reserved k m
    → t ≡ u
reserve_execution_excludes {s} r t u k l m h g =
    let reg = Reach-IsRegistered r in
    let same : l ≡ m = some-inj (sym (reg.of_reserved t k l h) ∙ reg.of_reserved u k m g) in
    (Reach-IsExclusive r).one_holder t u k k l h (rw same g)

-- A locked lock object has a task that holds it.
abbrev HasHolders : State → Type 0
HasHolders s = (l : ℕ) → s.locked l ≡ true → (t k : ℕ) × (s.phase t ≡ reserved k l)

-- The holder stays a holder where the step changes another task.
same_holder :
    (f : ℕ → Phase) (t l : ℕ) (p q : Phase)
    → f t ≡ p
    → ((k : ℕ) → p ≢ reserved k l)
    → (u k : ℕ) × (f u ≡ reserved k l)
    → (u k : ℕ) × (update f t q u ≡ reserved k l)
same_holder f t l p q h ne (u, k, e) = let other = ne k in (u, k, grind arith)

looked_up : (t k : ℕ) (s : State) → s.phase t ≡ outside → HasHolders s → HasHolders (lock_for t k s)
unfolding lock_for
looked_up t k s h held = elim (Option-cases (s.locks k)) [
  | inr (l, f) ↦
      rw (f, lock_for) (λ m p. same_holder s.phase t m outside (found k l) h (λ j e. cc) (held m p))
  | inl missing ↦
      rw (missing, lock_for)
        (λ m p.
          same_holder s.phase t m outside (found k s.fresh) h (λ j e. cc) (held m (ground arith)))
]

acquired :
    (s : State) (t k l m : ℕ)
    → s.phase t ≡ found k l
    → HasHolders s
    → update s.locked l true m ≡ true
    → (u j : ℕ) × (update s.phase t (reserved k l) u ≡ reserved j m)
acquired s t k l m h held p = elim (Bool-cases (m == l)) [
  | inl same ↦ (t, k, ground arith)
  | inr other ↦
      same_holder s.phase t m (found k l) (reserved k l) h (λ j e. cc) (held m (ground arith))
]

released :
    (s : State) (t k l m : ℕ)
    → s.phase t ≡ reserved k l
    → HasHolders s
    → update s.locked l false m ≡ true
    → (u j : ℕ) × (update s.phase t outside u ≡ reserved j m)
released s t k l m h held p =
    same_holder s.phase t m (reserved k l) outside h (λ j e. ground arith) (held m (ground arith))

tried :
    (s : State) (t k l : ℕ)
    → s.phase t ≡ found k l
    → HasHolders s
    → HasHolders (try_acquire t k l s)
unfolding try_acquire
tried s t k l h held = elim (Bool-cases (s.locked l)) [
  | inl busy ↦ rw busy (λ m p. same_holder s.phase t m (found k l) refused h (λ j e. cc) (held m p))
  | inr free ↦ rw free (λ m p. acquired s t k l m h held p)
]

Step-HasHolders : {s u : State} → Step s u → HasHolders s → HasHolders u
unfolding leave leave_refused
Step-HasHolders (looks_up t k s h) held = looked_up t k s h held
Step-HasHolders (tries t k l s h) held = tried s t k l h held
Step-HasHolders (leaves t k l s h) held = λ m p. released s t k l m h held p
Step-HasHolders (gives_up t s h) held =
    λ m p. same_holder s.phase t m refused outside h (λ j e. cc) (held m p)

Reach-HasHolders : {s : State} → Reach s → HasHolders s
unfolding start
Reach-HasHolders here = λ l h. cc
Reach-HasHolders (next r st) = Step-HasHolders st (Reach-HasHolders r)

-- No reservation leaks: in every reachable state a task that asks for the lock that the registry
-- has for a key is refused only while a task holds that key, and otherwise gets the reservation.
pub try_acquire-refused :
    {s : State}
    → Reach s
    → (t k l : ℕ) → s.locks k ≡ some l
    → ((try_acquire t k l s).phase t ≡ reserved k l)
      ⊎ ((u : ℕ) × (s.phase u ≡ reserved k l) × ((try_acquire t k l s).phase t ≡ refused))
unfolding try_acquire
try_acquire-refused {s} r t k l g = elim (Bool-cases (s.locked l)) [
  | inl busy ↦
      let (u, j, e) = Reach-HasHolders r l busy in
      let reg = Reach-IsRegistered r in
      let same = reg.apart j k l (reg.of_reserved u j l e) g in
      inr (u, rw same at e, rw busy (ground arith))
  | inr free ↦ inl (rw free (ground arith))
]
