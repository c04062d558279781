-- ===== src/CameraEngine/Sorting.antt =====
-- The lists of frame numbers that crop histories are trimmed by.
use lum_model_face_recogniti.Base.{
  ℕ, zero, suc, ◌≡◌, ◌≤◌, ◌<◌, ◌==◌, ◌&&◌, ◌||◌, not, Bool, true, false, some, List, [], ◌∷◌,
  length, take, leb, arith, refl, ap, ◌∙◌, inl, inr, Bool-cases,
}
use lum_model_face_recogniti.CameraEngine.Images.{insert, sorted}
use lum_model_face_recogniti.CameraEngine.Steps.{some_none}

abbrev pub has : ℕ → List ℕ → Bool
has k [] = false
has k (x ∷ xs) = x == k || has k xs

abbrev pub distinct : List ℕ → Bool
distinct [] = true
distinct (x ∷ xs) = not (has x xs) && distinct xs

-- In rising order.
abbrev pub ordered : List ℕ → Bool
ordered [] = true
ordered (x ∷ []) = true
ordered (x ∷ y ∷ xs) = leb x y && ordered (y ∷ xs)

has-insert : (k x : ℕ) (xs : List ℕ) → has k (insert x xs) ≡ (x == k || has k xs)
has-insert k x [] = refl
has-insert k x (y ∷ xs) = elim (Bool-cases (leb x y)) [
  | inl q ↦ rw q refl
  | inr q ↦ rw q (rw (has-insert k x xs) ground arith)
]

pub has-sorted : (k : ℕ) (xs : List ℕ) → has k (sorted xs) ≡ has k xs
has-sorted k [] = refl
has-sorted k (x ∷ xs) = has-insert k x (sorted xs) ∙ ap (λ b. x == k || b) (has-sorted k xs)

length-insert : (x : ℕ) (xs : List ℕ) → length (insert x xs) ≡ suc (length xs)
length-insert x [] = refl
length-insert x (y ∷ xs) = elim (Bool-cases (leb x y)) [
  | inl q ↦ rw q refl
  | inr q ↦ rw q (ap suc (length-insert x xs))
]

pub length-sorted : (xs : List ℕ) → length (sorted xs) ≡ length xs
length-sorted [] = refl
length-sorted (x ∷ xs) = length-insert x (sorted xs) ∙ ap suc (length-sorted xs)

distinct-insert :
    (x : ℕ) (xs : List ℕ) → has x xs ≡ false → distinct xs ≡ true → distinct (insert x xs) ≡ true
distinct-insert x [] q d = refl
distinct-insert x (y ∷ xs) q d = elim (Bool-cases (leb x y)) [
  | inl l ↦ rw l (ground (arith, q, d))
  | inr l ↦ rw l (ground (arith, q, d, has-insert y x xs, distinct-insert x xs))
]

pub distinct-sorted : (xs : List ℕ) → distinct xs ≡ true → distinct (sorted xs) ≡ true
distinct-sorted [] d = refl
distinct-sorted (x ∷ xs) d =
    distinct-insert x (sorted xs) (ground (arith, has-sorted x xs, d))
      (distinct-sorted xs (ground (arith, d)))

pub has-take : (k n : ℕ) (xs : List ℕ) → has k (take n xs) ≡ true → has k xs ≡ true
has-take k zero xs q = ground (arith, q)
has-take k (suc n) [] q = q
has-take k (suc n) (x ∷ xs) q = ground (arith, q, has-take k n xs)

pub distinct-take : (n : ℕ) (xs : List ℕ) → distinct xs ≡ true → distinct (take n xs) ≡ true
distinct-take zero xs d = refl
distinct-take (suc n) [] d = refl
distinct-take (suc n) (x ∷ xs) d = ground (arith, d, has-take x n xs, distinct-take n xs)

pub length-take : (n : ℕ) (xs : List ℕ) → n ≤ length xs → length (take n xs) ≡ n
length-take zero xs l = refl
length-take (suc n) [] l = omega (arith, l)
length-take (suc n) (x ∷ xs) l = ap suc (length-take n xs (omega (arith, l)))

-- In rising order, the entry before the end has a larger one behind it.
pub take-larger :
    (k n : ℕ) (xs : List ℕ)
    → ordered xs ≡ true
    → distinct xs ≡ true
    → n < length xs
    → has k (take n xs) ≡ true
    → (y : ℕ) × (has y xs ≡ true) × (k < y)
take-larger k zero xs o d l q = some_none (some true) true refl (ground (arith, q))
take-larger k (suc n) [] o d l q = some_none (some true) true refl (ground (arith, q))
take-larger k (suc n) (x ∷ []) o d l q = some_none (some true) true refl (ground (arith, l))
take-larger k (suc n) (x ∷ y ∷ xs) o d l q = elim (Bool-cases (x == k)) [
  | inl b ↦ (y, ground arith, ground (arith, o, d, b))
  | inr b ↦
      let r =
        take-larger k n (y ∷ xs) (ground (arith, o)) (ground (arith, d)) (omega (arith, l))
          (ground (arith, q, b)) in
      (r.0, ground (arith, r.1), r.2)
]

ordered-insert_later :
    (y x : ℕ) (zs : List ℕ)
    → leb y x ≡ true
    → ordered (y ∷ zs) ≡ true
    → ordered (y ∷ insert x zs) ≡ true
ordered-insert_later y x [] l o = ground (arith, l)
ordered-insert_later y x (z ∷ zs) l o = elim (Bool-cases (leb x z)) [
  | inl b ↦ rw b (ground (arith, l, b, o))
  | inr b ↦
      let r = ordered-insert_later z x zs (ground (arith, b)) (ground (arith, o)) in
      rw b (ground (arith, o, r))
]

ordered-insert : (x : ℕ) (xs : List ℕ) → ordered xs ≡ true → ordered (insert x xs) ≡ true
ordered-insert x [] o = refl
ordered-insert x (y ∷ xs) o = elim (Bool-cases (leb x y)) [
  | inl b ↦ rw b (ground (arith, o, b))
  | inr b ↦ rw b (ordered-insert_later y x xs (ground (arith, b)) o)
]

pub ordered-sorted : (xs : List ℕ) → ordered (sorted xs) ≡ true
ordered-sorted [] = refl
ordered-sorted (x ∷ xs) = ordered-insert x (sorted xs) (ordered-sorted xs)
