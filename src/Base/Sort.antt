-- ===== src/Base/Sort.antt =====
-- `list.sort(key=...)`: a stable sort, and the first entry of a sorted list that passes a test.
use mathlib.Core.Path.{◌≡◌, refl, sym, ap, ◌∙◌}
use mathlib.Core.Logic.{inl, inr}
use mathlib.Core.Bool.{Bool, true, false}
use mathlib.Core.Option.{Option, none, some}
use mathlib.Core.List.{List, [], ◌∷◌}
use native.Mathlib.Omega.{arith}
use atlas_markets.Base.Tests.{if◌then◌else◌, Bool-cases, Option-cases}
use atlas_markets.Base.Lists.{All, Among, find, find-All}
use atlas_markets.Base.Compare.{Comparison, less, same, more, swap, IsLinear}

abbrev pub is_less : Comparison → Bool
is_less less = true
is_less same = false
is_less more = false

is_less-less : (c : Comparison) → is_less c ≡ true → c ≡ less
is_less-less less h = refl
is_less-less same h = cc
is_less-less more h = cc

module _ {A K : Type 0} (key : A → K) (cmp : K → K → Comparison) where
  abbrev pub before : A → A → Bool
  before x y = is_less (cmp (key x) (key y))

  -- `x` stood before the entries of the list, so that it goes before those with its own key.
  unfoldable pub sort_insert : A → List A → List A
  sort_insert x [] = x ∷ []
  sort_insert x (y ∷ ys) =
      let rest = y ∷ sort_insert x ys in if before y x then rest else x ∷ y ∷ ys

  unfoldable pub sort : List A → List A
  unfolding sort_insert
  sort [] = []
  sort (x ∷ xs) = sort_insert x (sort xs)

  -- The reference: the best entry that passes a test, without sorting.
  abbrev pick : A → Option A → A
  pick x none = x
  pick x (some y) = if before y x then y else x

  abbrev offer : (A → Bool) → A → Option A → Option A
  offer p x found = if p x then some (pick x found) else found

  unfoldable pub best : (A → Bool) → List A → Option A
  best p [] = none
  best p (x ∷ xs) = offer p x (best p xs)

  abbrev NotBefore : A → A → Type 0
  NotBefore x y = before y x ≡ false

  abbrev IsSorted : List A → Type 0
  IsSorted [] = Unit
  IsSorted (x ∷ xs) = All (NotBefore x) xs × IsSorted xs

  module _ (linear : IsLinear cmp) where
    open linear use {swaps, equal, less_trans}

    -- What is not before `y`, and `y` not before `x`, is not before `x`.
    below :
        (d x y : K)
        → is_less (cmp d y) ≡ false
        → is_less (cmp y x) ≡ false
        → is_less (cmp d x) ≡ false
    below d x y h k = go (cmp d x) (cmp y x) refl refl k
      where
        go : (c e : Comparison) → cmp d x ≡ c → cmp y x ≡ e → is_less e ≡ false → is_less c ≡ false
        go same e p q k' = refl
        go more e p q k' = refl
        go less less p q k' = cc
        go less same p q k' =
            let level : is_less (cmp d y) ≡ true = rw (equal y x q, p) refl in ground arith
        go less more p q k' =
            let up : cmp x y ≡ less = rw q at (swaps y x) in
            let low : is_less (cmp d y) ≡ true = rw (less_trans d x y p up) refl in ground arith

    after_less : (x y : K) → is_less (cmp y x) ≡ true → is_less (cmp x y) ≡ false
    after_less x y h = let e = is_less-less (cmp y x) h in rw (swaps y x, e) refl

    insert-All : (P : A → Type 0) (x : A) (ys : List A) → P x → All P ys → All P (sort_insert x ys)
    unfolding sort_insert
    insert-All P x [] px a = (px, tt)
    insert-All P x (y ∷ ys) px (py, a) = elim (Bool-cases (before y x)) [
      | inl first ↦ rw first (py, insert-All P x ys px a)
      | inr later ↦ rw later (px, (py, a))
    ]

    All-below :
        (x y : A) (zs : List A) → NotBefore x y → All (NotBefore y) zs → All (NotBefore x) zs
    All-below x y [] h a = tt
    All-below x y (z ∷ zs) h (p, a) = (below (key z) (key x) (key y) p h, All-below x y zs h a)

    insert-IsSorted : (x : A) (ys : List A) → IsSorted ys → IsSorted (sort_insert x ys)
    unfolding sort_insert
    insert-IsSorted x [] s = (tt, tt)
    insert-IsSorted x (y ∷ ys) (a, s) = elim (Bool-cases (before y x)) [
      | inl first ↦ rw first (
        insert-All (NotBefore y) x ys (after_less (key x) (key y) first) a,
        insert-IsSorted x ys s,
      )
      | inr later ↦ rw later ((later, All-below x y ys later a), (a, s))
    ]

    sort-IsSorted : (xs : List A) → IsSorted (sort xs)
    unfolding sort
    sort-IsSorted [] = tt
    sort-IsSorted (x ∷ xs) = insert-IsSorted x (sort xs) (sort-IsSorted xs)

    pick-first :
        (p : A → Bool) (x : A) (ys : List A) → All (NotBefore x) ys → pick x (find p ys) ≡ x
    pick-first p x ys a = elim (Option-cases (find p ys)) [
      | inl e ↦ rw e refl
      | inr (d, e) ↦
          let no_d : before d x ≡ false = find-All (NotBefore x) p ys a e in rw (e, no_d) refl
    ]

    find-insert :
        (p : A → Bool) (x : A) (ys : List A)
        → IsSorted ys
        → find p (sort_insert x ys) ≡ offer p x (find p ys)
    unfolding sort_insert
    find-insert p x [] s = refl
    find-insert p x (y ∷ ys) (a, s) = elim (Bool-cases (before y x)) [
      | inl first ↦ elim (Bool-cases (p y)) [
        | inl yes_y ↦ rw (first, yes_y) (ground arith)
        | inr no_y ↦ rw (first, no_y) (find-insert p x ys s)
      ]
      | inr later ↦
          let top = pick-first p x (y ∷ ys) (later, All-below x y ys later a) in
          rw later (ground (arith, top))
    ]

    -- The first entry of the sorted list that passes is the best that passes.
    pub find-sort : (p : A → Bool) (xs : List A) → find p (sort xs) ≡ best p xs
    unfolding sort best
    find-sort p [] = refl
    find-sort p (x ∷ xs) =
        find-insert p x (sort xs) (sort-IsSorted xs) ∙ ap (offer p x) (find-sort p xs)

    -- The best entry of a list, among those that pass; none if none passes.
    abbrev pub IsBest : (A → Bool) → List A → Option A → Type 0
    IsBest p xs none = All (λ x. p x ≡ false) xs
    IsBest p xs (some r) =
        Among (λ x. r ≡ x) xs × (p r ≡ true) × All (λ x. p x ≡ true → before x r ≡ false) xs

    beaten :
        (p : A → Bool) (x y : A) (xs : List A)
        → before y x ≡ false
        → All (λ c. p c ≡ true → before c y ≡ false) xs
        → All (λ c. p c ≡ true → before c x ≡ false) xs
    beaten p x y [] h a = tt
    beaten p x y (c ∷ cs) h (k, a) =
        (λ pc. below (key c) (key x) (key y) (k pc) h, beaten p x y cs h a)

    irreflexive : (x : A) → before x x ≡ false
    irreflexive x = go (cmp (key x) (key x)) refl
      where
        go : (c : Comparison) → cmp (key x) (key x) ≡ c → is_less c ≡ false
        go less e = let turned : less ≡ more = sym e ∙ swaps (key x) (key x) ∙ ap swap e in cc
        go same e = refl
        go more e = refl

    unbeaten :
        (p : A → Bool) (x : A) (xs : List A)
        → All (λ c. p c ≡ false) xs
        → All (λ c. p c ≡ true → before c x ≡ false) xs
    unbeaten p x [] a = tt
    unbeaten p x (c ∷ cs) (no_c, a) = (λ yes_c. cc, unbeaten p x cs a)

    pub best-IsBest : (p : A → Bool) (xs : List A) → IsBest p xs (best p xs)
    unfolding best
    best-IsBest p [] = tt
    best-IsBest p (x ∷ xs) = go (best p xs) (best-IsBest p xs)
      where
        go : (found : Option A) → IsBest p xs found → IsBest p (x ∷ xs) (offer p x found)
        go none a = elim (Bool-cases (p x)) [
          | inl yes_x ↦ rw yes_x (inl refl, yes_x, (λ h. irreflexive x, unbeaten p x xs a))
          | inr no_x ↦ rw no_x (no_x, a)
        ]
        go (some y) (among, yes_y, a) = elim (Bool-cases (p x)) [
          | inr no_x ↦ rw no_x (inr among, yes_y, (λ yes_x. cc, a))
          | inl yes_x ↦ elim (Bool-cases (before y x)) [
            | inl first ↦
                let e : offer p x (some y) ≡ some y = rw (yes_x, first) refl in
                rw e (inr among, yes_y, (λ h. after_less (key x) (key y) first, a))
            | inr later ↦
                let e : offer p x (some y) ≡ some x = rw (yes_x, later) refl in
                rw e (inl refl, yes_x, (λ h. irreflexive x, beaten p x y xs later a))
          ]
        ]
