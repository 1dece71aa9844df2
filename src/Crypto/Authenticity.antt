-- ===== src/Crypto/Authenticity.antt =====
-- What is encrypted is decrypted again, and what is decrypted carries a digest (HmacEncryptionService.ts).
use nestjs_playground.Prelude.{
  ℕ, Bool, true, false, ◌==◌, if◌then◌else◌, String, List, [], ◌∷◌, ◌++◌, ◌≡◌, refl, ap, ap₂, sym,
  ◌∙◌, inl, inr, Bool-cases, append_assoc, append-nil, arith,
}
use nestjs_playground.Lock.{returns, throws}
use nestjs_playground.Crypto.{
  Text, separator, add_to_first, split, same_codes, encode, first_three, create_hmac, encrypt,
  validated, decrypt,
}

-- The separator does not occur.
abbrev pub Unseparated : Text → Type 0
Unseparated [] = Unit {0}
Unseparated (c ∷ cs) = ((c == separator) ≡ false) × Unseparated cs

split-whole : (m : Text) → Unseparated m → split m ≡ m ∷ []
unfolding split
split-whole [] h = refl
split-whole (c ∷ cs) (h, hs) = rw (split, h, split-whole cs hs)

split-part : (m rest : Text) → Unseparated m → split (m ++ separator ∷ rest) ≡ m ∷ split rest
unfolding split
split-part [] rest h = refl
split-part (c ∷ cs) rest (h, hs) = rw (split, h, split-part cs rest hs)

same_codes_refl : (t : Text) → same_codes t t ≡ true
unfolding same_codes
same_codes_refl [] = refl
same_codes_refl (c ∷ cs) = ground (arith, same_codes_refl cs)

same_codes_sound : (t u : Text) → same_codes t u ≡ true → t ≡ u
unfolding same_codes
same_codes_sound [] [] h = refl
same_codes_sound [] (u ∷ us) h = cc
same_codes_sound (t ∷ ts) [] h = cc
same_codes_sound (t ∷ ts) (u ∷ us) h = elim (Bool-cases (t == u)) [
  | inr e ↦ absurd (cc (rw (same_codes, e) at h))
  | inl e ↦ ap₂ ◌∷◌ (ground arith) (same_codes_sound ts us (rw (same_codes, e) at h))
]

judged :
    (b : Bool) (m message : Text) (error : String)
    → (if b then returns m else throws error) ≡ returns message
    → (b ≡ true) × (m ≡ message)
judged true m message error h = (refl, cc h)
judged false m message error h = absurd (cc h)

-- The parts with separators between them.
abbrev pub join : List Text → Text
join [] = []
join (p ∷ []) = p
join (p ∷ q ∷ ps) = p ++ separator ∷ join (q ∷ ps)

join-add : (c : ℕ) (ps : List Text) → join (add_to_first c ps) ≡ c ∷ join ps
join-add c [] = refl
join-add c (p ∷ []) = refl
join-add c (p ∷ q ∷ ps) = refl

split_first : (t : Text) → (p : Text) × (ps : List Text) × (split t ≡ p ∷ ps)
unfolding split
split_first [] = ([], [], refl)
split_first (c ∷ cs) =
    let (p, ps, e) = split_first cs in
    elim (Bool-cases (c == separator)) [
      | inl h ↦ ([], split cs, rw (split, h))
      | inr h ↦ (c ∷ p, ps, rw (split, h, e))
    ]

join-split : (t : Text) → join (split t) ≡ t
unfolding split
join-split [] = refl
join-split (c ∷ cs) =
    let (p, ps, e) = split_first cs in
    let rest = join-split cs in
    elim (Bool-cases (c == separator)) [
      | inl h ↦
          let is_dot : c ≡ separator = ground arith in
          rw (split, h, e) (ap₂ ◌∷◌ (sym is_dot) (sym (ap join e) ∙ rest))
      | inr h ↦ rw (split, h) (join-add c (split cs) ∙ ap (◌∷◌ c) rest)
    ]

abbrev tail_of : List Text → Text
tail_of [] = []
tail_of (p ∷ ps) = separator ∷ join (p ∷ ps)

join-tail_of : (h : Text) (rest : List Text) → join (h ∷ rest) ≡ h ++ tail_of rest
join-tail_of h [] = sym (append-nil h)
join-tail_of h (p ∷ ps) = refl

join-encode :
    (m n h : Text) (rest : List Text) → join (m ∷ n ∷ h ∷ rest) ≡ encode m n h ++ tail_of rest
unfolding encode
join-encode m n h rest =
    ap (λ t. m ++ separator ∷ (n ++ separator ∷ t)) (join-tail_of h rest)
    ∙ (ap (λ t. m ++ separator ∷ t) (sym (append_assoc n (separator ∷ h) (tail_of rest)))
        ∙ sym (append_assoc m (separator ∷ (n ++ separator ∷ h)) (tail_of rest)))

module _ (digest : Text → Text) where
  -- A message and a nonce without the separator, with a digest without it, are decrypted from what `encrypt` gives.
  pub decrypt-encrypt :
      (nonce message : Text)
      → Unseparated message
      → Unseparated nonce
      → Unseparated (digest (message ++ nonce))
      → decrypt digest (encrypt digest nonce message) ≡ returns message
  unfolding decrypt encrypt encode create_hmac validated
  decrypt-encrypt nonce message hm hn hd =
      let h = digest (message ++ nonce) in
      let parts =
        split-part message (nonce ++ separator ∷ h) hm
        ∙ ap (◌∷◌ message) (split-part nonce h hn ∙ ap (◌∷◌ nonce) (split-whole h hd)) in
      ap (λ ps. validated digest (first_three ps)) parts ∙ rw (same_codes_refl h)

  validated-parts :
      (ps : List Text) (message : Text)
      → validated digest (first_three ps) ≡ returns message
      → (nonce : Text) × (rest : List Text) × (ps
          ≡ message ∷ nonce ∷ digest (message ++ nonce) ∷ rest)
  unfolding validated create_hmac
  validated-parts [] message h = absurd (cc (judged false [] message "Invalid HMAC." h).0)
  validated-parts (m ∷ []) message h = absurd (cc (judged false m message "Invalid HMAC." h).0)
  validated-parts (m ∷ n ∷ []) message h = absurd (cc (judged false m message "Invalid HMAC." h).0)
  validated-parts (m ∷ n ∷ t ∷ rest) message h =
      let (same, is_message) =
        judged (same_codes t (digest (m ++ n))) m message "Invalid HMAC." h in
      (n, rest, cc (same_codes_sound t (digest (m ++ n)) same, is_message))

  -- What `decrypt` accepts as a message stands at the front of the code, followed by a nonce and the digest of
  -- both.
  pub decrypt_lem :
      (code message : Text)
      → decrypt digest code ≡ returns message
      → (nonce tail : Text) × (code ≡ encode message nonce (digest (message ++ nonce)) ++ tail)
  unfolding decrypt
  decrypt_lem code message h =
      let (n, rest, e) = validated-parts (split code) message h in
      (
        n,
        tail_of rest,
        sym (join-split code) ∙ (ap join e ∙ join-encode message n (digest (message ++ n)) rest),
      )
