-- ===== src/Base/Compare.antt =====
-- Three-way comparison: numbers, Booleans, texts in the order of Python's strings, and pairs in
-- lexicographic order.
use Prim.Native.Nat.{ℕ, compare, Ordering}
use mathlib.Core.Path.{◌≡◌, refl, sym}
use mathlib.Core.Bool.{Bool, true, false}
use mathlib.Core.List.{[], ◌∷◌}
use native.Mathlib.Omega.{arith}
use atlas_markets.Base.Text.{Text}

pub data Comparison : Type 0 where
  less same more : Comparison

abbrev pub swap : Comparison → Comparison
swap less = more
swap same = same
swap more = less

-- The second comparison decides where the first does not.
abbrev pub then_by : Comparison → Comparison → Comparison
then_by less d = less
then_by same d = d
then_by more d = more

abbrev pub compare_number : ℕ → ℕ → Comparison
compare_number a b = elim (compare a b) [
  | Ordering.lt ↦ less
  | Ordering.eq ↦ same
  | Ordering.gt ↦ more
]

-- False before True
abbrev pub compare_bool : Bool → Bool → Comparison
compare_bool false false = same
compare_bool false true = less
compare_bool true false = more
compare_bool true true = same

unfoldable pub compare_text : Text → Text → Comparison
compare_text [] [] = same
compare_text [] (b ∷ t) = less
compare_text (a ∷ s) [] = more
compare_text (a ∷ s) (b ∷ t) = then_by (compare_number a b) (compare_text s t)

abbrev pub compare_pair :
    {A B : Type 0} → (A → A → Comparison) → (B → B → Comparison) → A × B → A × B → Comparison
compare_pair f g (a, b) (c, d) = then_by (f a c) (g b d)

-- What makes a comparison a linear order.
pub record IsLinear {A : Type 0} (cmp : A → A → Comparison) : Type 0 where
  pub swaps : (a b : A) → cmp b a ≡ swap (cmp a b)
  pub equal : (a b : A) → cmp a b ≡ same → a ≡ b
  pub less_trans : (a b c : A) → cmp a b ≡ less → cmp b c ≡ less → cmp a c ≡ less

pub compare_number-IsLinear : IsLinear compare_number
compare_number-IsLinear = record {
  swaps = λ a b. ground arith;
  equal = λ a b h. ground arith;
  less_trans = λ a b c h k. ground arith;
}

pub compare_bool-IsLinear : IsLinear compare_bool
compare_bool-IsLinear = record { swaps = swaps; equal = equal; less_trans = trans }
  where
    swaps : (a b : Bool) → compare_bool b a ≡ swap (compare_bool a b)
    swaps false false = refl
    swaps false true = refl
    swaps true false = refl
    swaps true true = refl

    equal : (a b : Bool) → compare_bool a b ≡ same → a ≡ b
    equal false false h = refl
    equal false true h = cc
    equal true false h = cc
    equal true true h = refl

    trans :
        (a b c : Bool) → compare_bool a b ≡ less → compare_bool b c ≡ less → compare_bool a c ≡ less
    trans false false c h k = cc
    trans false true false h k = cc
    trans false true true h k = refl
    trans true false c h k = cc
    trans true true c h k = cc

swap-then_by : (c d : Comparison) → swap (then_by c d) ≡ then_by (swap c) (swap d)
swap-then_by less d = refl
swap-then_by same d = refl
swap-then_by more d = refl

then_by-same : (c d : Comparison) → then_by c d ≡ same → (c ≡ same) × (d ≡ same)
then_by-same less d h = cc
then_by-same same d h = (refl, h)
then_by-same more d h = cc

module _ {A B : Type 0} (f : A → A → Comparison) (g : B → B → Comparison) (F : IsLinear f)
    (G : IsLinear g) where
  -- The step of transitivity, on the comparisons alone.
  trans_step :
      (a c e : A) (b d k : B) (x y : Comparison)
      → f a c ≡ x
      → f c e ≡ y
      → then_by x (g b d) ≡ less
      → then_by y (g d k) ≡ less
      → then_by (f a e) (g b k) ≡ less
  trans_step a c e b d k less less p q h l = rw (F.less_trans a c e p q) refl
  trans_step a c e b d k less same p q h l = rw (sym (F.equal c e q), p) refl
  trans_step a c e b d k less more p q h l = cc
  trans_step a c e b d k same less p q h l = rw (F.equal a c p, q) refl
  trans_step a c e b d k same same p q h l = rw (F.equal a c p, q) (G.less_trans b d k h l)
  trans_step a c e b d k same more p q h l = cc
  trans_step a c e b d k more y p q h l = cc

  pub compare_pair-IsLinear : IsLinear (compare_pair f g)
  compare_pair-IsLinear = record {
    swaps =
        λ x y. rw (F.swaps x.0 y.0, G.swaps x.1 y.1) (sym (swap-then_by (f x.0 y.0) (g x.1 y.1)));
    equal = λ x y h.
        let (p, q) = then_by-same (f x.0 y.0) (g x.1 y.1) h in
        λ i. (F.equal x.0 y.0 p i, G.equal x.1 y.1 q i);
    less_trans =
        λ x y z h k. trans_step x.0 y.0 z.0 x.1 y.1 z.1 (f x.0 y.0) (f y.0 z.0) refl refl h k;
  }

text_swaps : (s t : Text) → compare_text t s ≡ swap (compare_text s t)
unfolding compare_text
text_swaps [] [] = refl
text_swaps [] (b ∷ t) = refl
text_swaps (a ∷ s) [] = refl
text_swaps (a ∷ s) (b ∷ t) =
    rw (compare_number-IsLinear.swaps a b, text_swaps s t)
      (sym (swap-then_by (compare_number a b) (compare_text s t)))

text_equal : (s t : Text) → compare_text s t ≡ same → s ≡ t
unfolding compare_text
text_equal [] [] h = refl
text_equal [] (b ∷ t) h = cc
text_equal (a ∷ s) [] h = cc
text_equal (a ∷ s) (b ∷ t) h =
    let (p, q) = then_by-same (compare_number a b) (compare_text s t) h in
    λ i. compare_number-IsLinear.equal a b p i ∷ text_equal s t q i

text_step :
    (a b c : ℕ) (s t r : Comparison) (x y : Comparison)
    → compare_number a b ≡ x
    → compare_number b c ≡ y
    → then_by x s ≡ less
    → then_by y t ≡ less
    → (s ≡ less → t ≡ less → r ≡ less)
    → then_by (compare_number a c) r ≡ less
text_step a b c s t r less less p q h k step =
    rw (compare_number-IsLinear.less_trans a b c p q) refl
text_step a b c s t r less same p q h k step =
    rw (sym (compare_number-IsLinear.equal b c q), p) refl
text_step a b c s t r less more p q h k step = cc
text_step a b c s t r same less p q h k step = rw (compare_number-IsLinear.equal a b p, q) refl
text_step a b c s t r same same p q h k step =
    rw (compare_number-IsLinear.equal a b p, q) (step h k)
text_step a b c s t r same more p q h k step = cc
text_step a b c s t r more y p q h k step = cc

pub text_trans :
    (s t r : Text) → compare_text s t ≡ less → compare_text t r ≡ less → compare_text s r ≡ less
unfolding compare_text
text_trans [] [] r h k = cc
text_trans [] (b ∷ t) [] h k = cc
text_trans [] (b ∷ t) (c ∷ r) h k = refl
text_trans (a ∷ s) [] r h k = cc
text_trans (a ∷ s) (b ∷ t) [] h k = cc
text_trans (a ∷ s) (b ∷ t) (c ∷ r) h k =
    text_step a b c (compare_text s t) (compare_text t r) (compare_text s r) (compare_number a b)
      (compare_number b c) refl refl h k (text_trans s t r)

pub compare_text-IsLinear : IsLinear compare_text
compare_text-IsLinear = record { swaps = text_swaps; equal = text_equal; less_trans = text_trans }
