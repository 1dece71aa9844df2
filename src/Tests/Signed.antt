-- ===== src/Tests/Signed.antt =====
-- A signed message.
use nestjs_playground.Prelude.{[], ◌∷◌, ◌≡◌, refl, map}
use nestjs_playground.Lock.{returns}
use nestjs_playground.Crypto.{Text, encrypt, decrypt}
use nestjs_playground.Crypto.Authenticity.{decrypt-encrypt}

-- In place of the digest, which is outside the repository: `f` for every character.
abbrev digest : Text → Text
digest = map (λ c. 102)

abbrev hi : Text
hi = 104 ∷ 105 ∷ []

abbrev nonce : Text
nonce = 97 ∷ 49 ∷ []

decrypt-encrypt_example : decrypt digest (encrypt digest nonce hi) ≡ returns hi
decrypt-encrypt_example =
    decrypt-encrypt digest nonce hi (refl, (refl, tt)) (refl, (refl, tt))
      (refl, (refl, (refl, (refl, tt))))
