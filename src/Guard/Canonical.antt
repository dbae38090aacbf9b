-- ===== src/Guard/Canonical.antt =====
-- What `canonical_symbol` guarantees.
use atlas_markets.Base.{ℕ, ◌≡◌, Bool, false, [], ◌∷◌, arith, ◌==◌, All, keep}
use atlas_markets.Base.Text.{Text, is_lower, upper_code, upper, strip, remove}
use atlas_markets.Guard.Symbols.{canonical_symbol}

-- A character of a canonical symbol: no blank, no slash, no small letter.
abbrev pub IsCanonical : ℕ → Type 0
IsCanonical c = (c == b' ' ≡ false) × (c == b'/' ≡ false) × (is_lower c ≡ false)

upper_code-is_lower : (c : ℕ) → is_lower (upper_code c) ≡ false
upper_code-is_lower c = ground arith

keep-All : (P : ℕ → Type 0) (p : ℕ → Bool) (s : Text) → All P s → All P (keep p s)
keep-All P p [] h = tt
keep-All P p (c ∷ s) h = ground (arith, keep-All P p s h.1)

All-upper : (s : Text) → All (λ c. is_lower c ≡ false) (upper s)
All-upper [] = tt
All-upper (c ∷ s) = (upper_code-is_lower c, All-upper s)

IsCanonical-parts :
    (s : Text) → All (λ c. is_lower c ≡ false) s → All IsCanonical (remove b' ' (remove b'/' s))
IsCanonical-parts [] h = tt
IsCanonical-parts (c ∷ s) h = ground (arith, IsCanonical-parts s h.1)

-- Whatever text it is given, a canonical symbol has no blank, no slash and no small letter.
pub canonical_symbol-IsCanonical : (s : Text) → All IsCanonical (canonical_symbol s)
unfolding canonical_symbol
canonical_symbol-IsCanonical s = IsCanonical-parts (upper (strip s)) (All-upper (strip s))
