-- ===== src/Guard/Reserve.antt =====
-- `reserve_execution` and `_lock_for` of app/services/execution_guard.py: tasks of one event loop,
-- the lock objects, and the registry `_locks`. A key stands for `profile_id:symbol`, and a lock
-- object for its number. Between two steps any other task may run. `_lock_for` is one step, since
-- it holds `_registry_lock` from the look at the registry to the write; so are the test
-- `lock.locked()` and the `acquire` of a free lock, since an event loop does not switch tasks where
-- nothing has to wait.
pub mod Exclusive
use atlas_markets.Base.{ℕ, suc, ◌≡◌, Bool, true, false, Option, none, some, ◌==◌, if◌then◌else◌}

-- Where a task stands in `reserve_execution`, with its key and the lock object it was given.
pub data Phase : Type 0 where
  outside : Phase
  found : ℕ → ℕ → Phase  -- `_lock_for` returned the lock
  reserved : ℕ → ℕ → Phase  -- inside the body, with the reservation
  refused : Phase  -- inside the body, with None

pub record State : Type 0 where
  pub locks : ℕ → Option ℕ  -- `_locks`, from the key to the lock object
  pub fresh : ℕ  -- the number of the next lock object
  pub locked : ℕ → Bool  -- by the lock object
  pub phase : ℕ → Phase

abbrev pub update {ℓ} : {A : Type ℓ} → (ℕ → A) → ℕ → A → ℕ → A
update f k v j = if j == k then v else f j

unfoldable pub start : State
start = record { locks = λ k. none; fresh = 0; locked = λ l. false; phase = λ t. outside }

-- The registry keeps the lock of a key, and gets a new one for a key that has none.
unfoldable pub lock_for : ℕ → ℕ → State → State
lock_for t k s = elim (s.locks k) [
  | some l ↦ record s { phase = update s.phase t (found k l) }
  | none ↦ record s {
    locks = update s.locks k (some s.fresh);
    fresh = suc s.fresh;
    locked = update s.locked s.fresh false;
    phase = update s.phase t (found k s.fresh);
  }
]

unfoldable pub try_acquire : ℕ → ℕ → ℕ → State → State
try_acquire t k l s =
    if s.locked l
    then record s { phase = update s.phase t refused }
    else record s { locked = update s.locked l true; phase = update s.phase t (reserved k l) }

-- The `finally` of a reservation, also after an exception or a cancellation of the body.
unfoldable pub leave : ℕ → ℕ → State → State
leave t l s = record s { locked = update s.locked l false; phase = update s.phase t outside }

unfoldable pub leave_refused : ℕ → State → State
leave_refused t s = record s { phase = update s.phase t outside }

pub data Step : State → State → Type 0 where
  looks_up : (t k : ℕ) (s : State) → s.phase t ≡ outside → Step s (lock_for t k s)
  tries : (t k l : ℕ) (s : State) → s.phase t ≡ found k l → Step s (try_acquire t k l s)
  leaves : (t k l : ℕ) (s : State) → s.phase t ≡ reserved k l → Step s (leave t l s)
  gives_up : (t : ℕ) (s : State) → s.phase t ≡ refused → Step s (leave_refused t s)

pub data Reach : State → Type 0 where
  here : Reach start
  next : {s u : State} → Reach s → Step s u → Reach u
