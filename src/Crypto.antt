-- ===== src/Crypto.antt =====
-- libs/crypto/src/hmac-encryption/HmacEncryptionService.ts. A text is the list of its character codes. The digest
-- of the platform's crypto library, with the algorithm and the secret of the service, is an argument, and
-- so is the nonce that it draws.
pub mod Authenticity
use nestjs_playground.Prelude.{
  ℕ, Bool, true, false, ◌==◌, ◌&&◌, if◌then◌else◌, Option, none, some, List, [], ◌∷◌, ◌++◌,
}
use nestjs_playground.Lock.{Outcome, returns, throws}

abbrev pub Text : Type 0
Text = List ℕ

-- `.`
abbrev pub separator : ℕ
separator = 46

abbrev pub add_to_first : ℕ → List Text → List Text
add_to_first c [] = (c ∷ []) ∷ []
add_to_first c (part ∷ parts) = (c ∷ part) ∷ parts

-- `split`
unfoldable pub split : Text → List Text
split [] = [] ∷ []
split (c ∷ cs) = let rest = split cs in if c == separator then [] ∷ rest else add_to_first c rest

unfoldable pub same_codes : Text → Text → Bool
same_codes [] [] = true
same_codes [] (c ∷ cs) = false
same_codes (c ∷ cs) [] = false
same_codes (c ∷ cs) (e ∷ es) = (c == e) && same_codes cs es

unfoldable pub encode : Text → Text → Text → Text
encode message nonce hmac = message ++ separator ∷ (nonce ++ separator ∷ hmac)

-- The destructuring of the parts: a part that is not there is `undefined`.
abbrev pub first_three : List Text → Text × (Option Text × Option Text)
first_three [] = ([], (none, none))
first_three (m ∷ []) = (m, (none, none))
first_three (m ∷ n ∷ []) = (m, (some n, none))
first_three (m ∷ n ∷ h ∷ rest) = (m, (some n, some h))

-- In a concatenation `undefined` is that word.
abbrev pub concatenated : Option Text → Text
concatenated none = 117 ∷ 110 ∷ 100 ∷ 101 ∷ 102 ∷ 105 ∷ 110 ∷ 101 ∷ 100 ∷ []
concatenated (some t) = t

abbrev pub is_same : Option Text → Text → Bool
is_same none e = false
is_same (some t) e = same_codes t e

module _ (digest : Text → Text) where
  unfoldable pub create_hmac : Text → Option Text → Text
  create_hmac message nonce = digest (message ++ concatenated nonce)

  unfoldable pub encrypt : Text → Text → Text
  unfolding encode create_hmac
  encrypt nonce message = encode message nonce (create_hmac message (some nonce))

  unfoldable pub validated : Text × (Option Text × Option Text) → Outcome Text
  unfolding create_hmac same_codes
  validated (message, (nonce, hmac)) =
      if is_same hmac (create_hmac message nonce) then returns message else throws "Invalid HMAC."

  unfoldable pub decrypt : Text → Outcome Text
  unfolding split validated
  decrypt code = validated (first_three (split code))
