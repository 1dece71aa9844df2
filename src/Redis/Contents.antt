-- ===== src/Redis/Contents.antt =====
-- What a store holds, and the documented effect of each command on it.
use nestjs_playground.Prelude.{
  ℕ, zero, suc, ◌+◌, ◌*◌, Bool, not, ◌||◌, ◌&&◌, ltb, if◌then◌else◌, ite, String, Option, none,
  some, List, [], ◌∷◌, keep, any, decides,
}
use nestjs_playground.Model.{Value, String-discrete}
use nestjs_playground.Keys.{Key, Field, Key-discrete, Field-discrete}

-- The number (plus - minus) / den, with a positive `den`: exact, where the source rounds.
pub record Score : Type 0 where
  pub plus : ℕ
  pub minus : ℕ
  pub den : ℕ

abbrev pub millis : ℕ → Score
millis t = record { plus = t; minus = 0; den = 1 }

abbrev pub score_lt : Score → Score → Bool
score_lt a b = ltb (a.plus * b.den + b.minus * a.den) (b.plus * a.den + a.minus * b.den)

abbrev pub score_le : Score → Score → Bool
score_le a b = not (score_lt b a)

pub record Member : Type 0 where
  pub member : String
  pub score : Score

pub record Contents : Type 0 where
  pub hashes : Key → Field → Option Value
  pub lists : Key → List Value
  pub sorted_sets : Key → List Member
  pub sets : Key → List String
  pub strings : Key → Option Value

abbrev pub at_key {ℓ} : {A : Type ℓ} → (Key → A) → Key → A → Key → A
at_key m k a j = ite (Key-discrete k j) a (m j)

abbrev pub at_field :
    (Key → Field → Option Value) → Key → Field → Value → Key → Field → Option Value
at_field m k f v j g = ite (Key-discrete k j) (ite (Field-discrete f g) (some v) (m j g)) (m j g)

abbrev pub no_fields : (Key → Field → Option Value) → Key → Key → Field → Option Value
no_fields m k j g = ite (Key-discrete k j) none (m j g)

abbrev pub same_text : String → String → Bool
same_text a b = decides (String-discrete a b)

abbrev pub has_member : String → List Member → Bool
has_member m = any (λ e. same_text e.member m)

abbrev pub without_member : String → List Member → List Member
without_member m = keep (λ e. not (same_text e.member m))

-- A sorted set is listed by rising scores, and by `before` among equal ones.
abbrev pub insert_member : (String → String → Bool) → Member → List Member → List Member
insert_member before e [] = e ∷ []
insert_member before e (x ∷ xs) =
    if score_lt e.score x.score || not (score_lt x.score e.score) && before e.member x.member
    then e ∷ x ∷ xs
    else x ∷ insert_member before e xs

abbrev pub has_text : String → List String → Bool
has_text m = any (λ x. same_text x m)

abbrev pub add_text : String → List String → List String
add_text m xs = if has_text m xs then xs else m ∷ xs

abbrev pub without_text : String → List String → List String
without_text m = keep (λ x. not (same_text x m))

-- HSETNX keeps the value that is there.
abbrev pub or_else : Option Value → Value → Value
or_else none v = v
or_else (some w) v = w

abbrev pub rest_of {ℓ} : {A : Type ℓ} → List A → List A
rest_of [] = []
rest_of (x ∷ xs) = xs

abbrev pub first_of_list {ℓ} : {A : Type ℓ} → List A → Option A
first_of_list [] = none
first_of_list (x ∷ xs) = some x

-- ZRANGEBYSCORE key -inf limit LIMIT 0 count
abbrev pub up_to : ℕ → Score → List Member → List String
up_to zero limit xs = []
up_to (suc n) limit [] = []
up_to (suc n) limit (x ∷ xs) = if score_le x.score limit then x.member ∷ up_to n limit xs else []

abbrev pub score_in : String → List Member → Option Score
score_in m [] = none
score_in m (x ∷ xs) = if same_text x.member m then some x.score else score_in m xs

-- ZREVRANGE key 0 0
abbrev pub last_member : List Member → Option Member
last_member [] = none
last_member (x ∷ []) = some x
last_member (x ∷ y ∷ xs) = last_member (y ∷ xs)

-- The members that ZCOUNT key -inf limit counts.
abbrev pub keep_le : Score → List Member → List Member
keep_le limit = keep (λ e. score_le e.score limit)
