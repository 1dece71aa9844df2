-- ===== src/Aggregator/Service/Batches.antt =====
-- The batched reading of the results in `aggregate` of AggregatorService.ts.
use nestjs_playground.Prelude.{
  ℕ, zero, suc, ◌+◌, ◌-◌, ◌≤◌, ◌<◌, ltb, ◌==◌, some, List, [], ◌∷◌, ◌++◌, map, length, take, drop,
  length-take, ◌≡◌, refl, ap, sym, ◌∙◌, inl, inr, Bool-cases, arith,
}
use nestjs_playground.Model.{JobProcessorResponse}
use nestjs_playground.Aggregator.Service.{load_batches}

length-drop {ℓ} : {A : Type ℓ} (n : ℕ) (xs : List A) → length (drop n xs) ≡ length xs - n
length-drop zero xs = omega arith
length-drop (suc n) [] = omega arith
length-drop (suc n) (x ∷ xs) = omega (arith, length-drop n xs)

take-short {ℓ} : {A : Type ℓ} (n : ℕ) (xs : List A) → length xs ≤ n → take n xs ≡ xs
take-short zero [] h = refl
take-short (suc n) [] h = refl
take-short zero (x ∷ xs) h = absurd (omega arith)
take-short (suc n) (x ∷ xs) h = ap (◌∷◌ x) (take-short n xs (omega arith))

take-drop {ℓ} : {A : Type ℓ} (n : ℕ) (xs : List A) → take n xs ++ drop n xs ≡ xs
take-drop zero xs = refl
take-drop (suc n) [] = refl
take-drop (suc n) (x ∷ xs) = ap (◌∷◌ x) (take-drop n xs)

drop-nil {ℓ} : {A : Type ℓ} (n : ℕ) → drop {A = A} n [] ≡ []
drop-nil zero = refl
drop-nil (suc n) = refl

sum : (m n : ℕ) → suc (m + n) ≡ suc m + n
sum m n = omega arith

drop-drop {ℓ} : {A : Type ℓ} (m n : ℕ) (xs : List A) → drop n (drop m xs) ≡ drop (m + n) xs
drop-drop zero n xs = ap (λ (k : ℕ). drop k xs) (omega arith)
drop-drop (suc m) n [] = drop-nil n ∙ sym (drop-nil (suc m + n))
drop-drop (suc m) n (x ∷ xs) = drop-drop m n xs ∙ ap (λ (k : ℕ). drop k (x ∷ xs)) (sum m n)

none_left {ℓ} : {A : Type ℓ} (xs : List A) → length xs ≡ 0 → xs ≡ []
none_left [] h = refl
none_left (x ∷ xs) h = absurd (omega arith)

map-append : {A B : Type 0} (f : A → B) (xs ys : List A) → map f (xs ++ ys) ≡ map f xs ++ map f ys
map-append f [] ys = refl
map-append f (x ∷ xs) ys = ap (◌∷◌ (f x)) (map-append f xs ys)

joined :
    {U : Type 0} (f : JobProcessorResponse → U) (size offset : ℕ) (xs : List JobProcessorResponse)
    → length (take size (drop offset xs)) ≡ size
    → map f (take size (drop offset xs))
        ++ map f (drop (offset + length (take size (drop offset xs))) xs)
      ≡ map f (drop offset xs)
joined f size offset xs full =
    ap (λ (k : ℕ). map f (take size (drop offset xs)) ++ map f (drop (offset + k) xs)) full
    ∙ (ap (λ (ys : List JobProcessorResponse). map f (take size (drop offset xs)) ++ map f ys)
          (sym (drop-drop offset size xs))
        ∙ (sym (map-append f (take size (drop offset xs)) (drop size (drop offset xs)))
            ∙ ap (map f) (take-drop size (drop offset xs))))

-- In batches of any positive size, with a round more than there are results as fuel, the reading ends
-- and yields the image of every result from the offset on, in order.
pub load_batches_all :
    {U : Type 0} (f : JobProcessorResponse → U) (size fuel offset : ℕ)
    (xs : List JobProcessorResponse)
    → 0 < size
    → length xs - offset < fuel
    → load_batches f size fuel offset xs ≡ some (map f (drop offset xs))
unfolding load_batches
load_batches_all f size zero offset xs h k = absurd (omega arith)
load_batches_all f size (suc fuel) offset xs h k =
    let left = drop offset xs in
    let batch = take size left in
    let size_left = length-drop offset xs in
    let size_batch = length-take size left in
    elim (Bool-cases (length batch == 0)) [
      | inl e ↦ rw (e, load_batches) (ap some (ap (map f) (sym (none_left left (ground (arith))))))
      | inr e ↦ elim (Bool-cases (ltb (length batch) size)) [
        | inl s ↦
            rw (e, load_batches) (rw s (ap some (ap (map f) (take-short size left (ground arith)))))
        | inr s ↦
            rw (e, load_batches)
              (rw (s, load_batches_all f size fuel (offset + length batch) xs h (ground arith))
                (ap some (joined f size offset xs (ground (arith, size_batch)))))
      ]
    ]
