-- ===== src/Auth/Password.antt =====
-- `hash_password` and `verify_password` of app/core/security.py: a verified password is one with
-- the digest that was stored.
use atlas_markets.Base.{
  ℕ, ◌≡◌, refl, sym, Bool, true, false, not, Option, none, some, [], ◌∷◌, ◌++◌, all, ◌==◌, All,
  arith, Bool-cases, Option-cases, inl, inr, if◌then◌else◌,
}
use atlas_markets.Base.Int.{ℤ, pos}
use atlas_markets.Base.Text.{Text, codes, text_eq, text_eq_refl}
use atlas_markets.Base.Answer.{Answer, done, refused, ◌>>=◌, require, or_refuse}
use atlas_markets.Guard.Symbols.{is_empty}
use atlas_markets.Auth.{Crypto, AuthError, password_empty, password_unreadable}

abbrev pub password_scheme : Text
password_scheme = codes "pbkdf2_sha256"

-- `str(PBKDF2_ITERATIONS)`
abbrev pub iteration_text : Text
iteration_text = codes "600000"

abbrev pub dollar : ℕ
dollar = b'$'

-- The four parts that `"$".join` puts together
abbrev pub joined : Text → Text → Text → Text → Text
joined a b c d = a ++ (dollar ∷ (b ++ (dollar ∷ (c ++ (dollar ∷ d)))))

unfoldable pub hash_password : Crypto → Text → Text → Answer AuthError Text
hash_password crypto salt password =
    if is_empty password
    then refused password_empty
    else elim (crypto.pbkdf2 password salt (pos 600000)) [
      | none ↦ refused password_unreadable
      | some digest ↦
          done (
            joined password_scheme iteration_text (crypto.b64encode salt) (crypto.b64encode digest))
    ]

-- The text before the first dollar sign and the text after it
abbrev pub split_dollar : Text → Option (Text × Text)
split_dollar [] = none
split_dollar (c ∷ s) =
    let rest = split_dollar s in
    if c == dollar
    then some ([], s)
    else elim rest [ none ↦ none | some (before, after) ↦ some (c ∷ before, after) ]

-- `encoded.split("$", 3)`, when it has four parts
abbrev pub four_parts : Text → Answer AuthError (Text × (Text × (Text × Text)))
four_parts encoded = do
  (a, s) ← or_refuse (split_dollar encoded) password_unreadable
  (b, t) ← or_refuse (split_dollar s) password_unreadable
  (c, d) ← or_refuse (split_dollar t) password_unreadable
  done (a, (b, (c, d)))

-- The salt, the iterations and the expected digest; any error in reading them is caught.
unfoldable pub decoded : Crypto → Text → Answer AuthError (Text × (ℤ × Text))
decoded crypto encoded = do
  (scheme, (count, (salt_text, digest_text))) ← four_parts encoded
  known ← require (text_eq scheme password_scheme) password_unreadable
  iterations ← or_refuse (crypto.read_int count) password_unreadable
  salt ← or_refuse (crypto.b64decode salt_text) password_unreadable
  expected ← or_refuse (crypto.b64decode digest_text) password_unreadable
  done (salt, (iterations, expected))

-- none is an error of `pbkdf2_hmac` that is raised on.
unfoldable pub verify_password : Crypto → Text → Text → Option Bool
unfolding decoded
verify_password crypto password encoded = elim (decoded crypto encoded) [
  | refused error ↦ some false
  | done (salt, (iterations, expected)) ↦ elim (crypto.pbkdf2 password salt iterations) [
    | none ↦ none
    | some actual ↦ some (text_eq actual expected)
  ]
]

abbrev pub NoDollar : Text → Type 0
NoDollar = All (λ c. c == dollar ≡ false)

-- What is documented of base64 and of `int`: decoding is the inverse of encoding, the alphabet of
-- the encoding has no dollar sign, and the text of 600000 is read as that number.
abbrev pub IsBase64 : Crypto → Type 0
IsBase64 crypto =
    ((s : Text) → crypto.b64decode (crypto.b64encode s) ≡ some s)
    × ((s : Text) → NoDollar (crypto.b64encode s))
    × (crypto.read_int iteration_text ≡ some (pos 600000))

all-NoDollar : (s : Text) → all (λ c. not (c == dollar)) s ≡ true → NoDollar s
all-NoDollar [] h = tt
all-NoDollar (c ∷ s) h = (ground arith, all-NoDollar s (ground arith))

split_dollar-join : (s t : Text) → NoDollar s → split_dollar (s ++ (dollar ∷ t)) ≡ some (s, t)
split_dollar-join [] t u = refl
split_dollar-join (c ∷ s) t (h, hs) = rw (h, split_dollar-join s t hs) refl

four_parts-joined :
    (a b c d : Text)
    → NoDollar a
    → NoDollar b
    → NoDollar c
    → four_parts (joined a b c d) ≡ done (a, (b, (c, d)))
four_parts-joined a b c d na nb nc =
    rw
      (
        split_dollar-join a (b ++ (dollar ∷ (c ++ (dollar ∷ d)))) na,
        split_dollar-join b (c ++ (dollar ∷ d)) nb,
        split_dollar-join c d nc,
      )
      refl

hash_password-decoded :
    (crypto : Crypto)
    → IsBase64 crypto
    → (salt password : Text) {encoded : Text} → hash_password crypto salt password ≡ done encoded
    → (digest : Text) × (crypto.pbkdf2 password salt (pos 600000) ≡ some digest)
      × (decoded crypto encoded ≡ done (salt, (pos 600000, digest)))
unfolding hash_password decoded
hash_password-decoded crypto (inverse, no_dollar, count) salt password {encoded} h =
    elim (Bool-cases (is_empty password)) [
      | inl empty ↦ ground arith
      | inr filled ↦ elim (Option-cases (crypto.pbkdf2 password salt (pos 600000))) [
        | inl none_left ↦ ground arith
        | inr (digest, e) ↦
            let same : joined password_scheme iteration_text (crypto.b64encode salt)
                  (crypto.b64encode digest)
                ≡ encoded =
              ground arith in
            (
              digest,
              e,
              rw (sym same) (
                  rw
                    (
                      four_parts-joined password_scheme iteration_text (crypto.b64encode salt)
                          (crypto.b64encode digest) (all-NoDollar password_scheme refl)
                          (all-NoDollar iteration_text refl) (no_dollar salt),
                      count,
                      inverse salt,
                      inverse digest,
                    )
                    refl),
            )
      ]
    ]

-- With base64 and `int` as documented, and for another password of which the digest under the
-- stored salt can be taken: what `hash_password` stores of a password is verified with that
-- password, and with the other exactly when its digest is that of the password.
pub verify_password-hash_password :
    (crypto : Crypto)
    → IsBase64 crypto
    → (salt password other : Text) {encoded actual : Text}
    → hash_password crypto salt password ≡ done encoded
    → crypto.pbkdf2 other salt (pos 600000) ≡ some actual
    → (digest : Text) × (crypto.pbkdf2 password salt (pos 600000) ≡ some digest)
      × (verify_password crypto password encoded ≡ some true)
      × (verify_password crypto other encoded ≡ some (text_eq actual digest))
unfolding verify_password
verify_password-hash_password crypto law salt password other {encoded} {actual} h k =
    let (digest, e, d) = hash_password-decoded crypto law salt password h in
    (
      digest,
      e,
      rw (d, e, text_eq_refl digest, verify_password) refl,
      rw (d, k, verify_password) refl,
    )
