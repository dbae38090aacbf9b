-- ===== src/Base/Answer.antt =====
-- The answer of a handler: the result, or the error that it raises.
use mathlib.Core.Path.{◌≡◌, refl}
use mathlib.Core.Bool.{Bool, true, false}
use mathlib.Core.Option.{Option, none, some}
use atlas_markets.Base.Tests.{if◌then◌else◌}

pub data Answer (E : Type 0) (A : Type 0) : Type 0 where
  done : A → Answer E A
  refused : E → Answer E A

infixl 5 ◌>>=◌
abbrev pub ◌>>=◌ : {E A B : Type 0} → Answer E A → (A → Answer E B) → Answer E B
done a >>= f = f a
refused e >>= f = refused e

-- `if not ok: raise HTTPException(...)`
abbrev pub require : {E : Type 0} → Bool → E → Answer E (Unit {0})
require ok error = if ok then done tt else refused error

-- The value, when there is one
abbrev pub or_refuse : {E A : Type 0} → Option A → E → Answer E A
or_refuse none error = refused error
or_refuse (some a) error = done a

-- A refusal leaves the database as it was.
abbrev pub concluded : {E S : Type 0} → S → Answer E S → S
concluded store (done next) = next
concluded store (refused e) = store

pub bind-done :
    {E A B : Type 0} (c : Answer E A) (f : A → Answer E B) {b : B}
    → c >>= f ≡ done b
    → (a : A) × (c ≡ done a) × (f a ≡ done b)
bind-done (done a) f h = (a, refl, h)
bind-done (refused e) f h = cc

pub require-done :
    {E : Type 0} (ok : Bool) (error : E) {u : Unit {0}} → require ok error ≡ done u → ok ≡ true
require-done true error h = refl
require-done false error h = cc

pub or_refuse-done :
    {E A : Type 0} (value : Option A) (error : E) {a : A}
    → or_refuse value error ≡ done a
    → value ≡ some a
or_refuse-done none error h = cc
or_refuse-done (some b) error h = cc

pub concluded_keeps :
    {E S : Type 0} (P : S → Type 0) (store : S) (answer : Answer E S)
    → ((next : S) → answer ≡ done next → P next)
    → P store
    → P (concluded store answer)
concluded_keeps P store (done next) step p = step next refl
concluded_keeps P store (refused e) step p = p
