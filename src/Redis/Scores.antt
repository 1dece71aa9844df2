-- ===== src/Redis/Scores.antt =====
-- Sorted sets: the score of a member after ZADD and ZREM, and what ZRANGEBYSCORE returns.
use nestjs_playground.Prelude.{
  ℕ, zero, suc, ◌≤◌, Bool, String, none, some, List, [], ◌∷◌, ◌≡◌, refl, ◌≢◌, length, arith,
}
use nestjs_playground.Model.{String-discrete}
use nestjs_playground.Redis.Contents.{Score, Member, without_member, insert_member, score_in, up_to}

pub score_in-without_self :
    (m : String) (xs : List Member) → score_in m (without_member m xs) ≡ none
unfolding String-discrete
score_in-without_self m [] = refl
score_in-without_self m (x ∷ xs) = ground (arith, score_in-without_self m xs)

pub score_in-without_ne :
    (j m : String) (xs : List Member) → j ≢ m → score_in j (without_member m xs) ≡ score_in j xs
unfolding String-discrete
score_in-without_ne j m [] h = refl
score_in-without_ne j m (x ∷ xs) h = ground (arith, score_in-without_ne j m xs h)

pub score_in-insert_self :
    (before : String → String → Bool) (e : Member) (xs : List Member)
    → score_in e.member xs ≡ none
    → score_in e.member (insert_member before e xs) ≡ some e.score
score_in-insert_self before e [] h = ground arith
score_in-insert_self before e (x ∷ xs) h = ground (arith, score_in-insert_self before e xs)

pub score_in-insert_ne :
    (before : String → String → Bool) (j : String) (e : Member) (xs : List Member)
    → e.member ≢ j
    → score_in j (insert_member before e xs) ≡ score_in j xs
score_in-insert_ne before j e [] h = ground arith
score_in-insert_ne before j e (x ∷ xs) h = ground (arith, score_in-insert_ne before j e xs h)

pub length-up_to_le : (n : ℕ) (s : Score) (xs : List Member) → length (up_to n s xs) ≤ n
length-up_to_le zero s xs = omega arith
length-up_to_le (suc n) s [] = omega arith
length-up_to_le (suc n) s (x ∷ xs) = ground (arith, length-up_to_le n s xs)
