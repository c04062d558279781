-- ===== src/CameraWorker/Sets.antt =====
-- Python's sets and dictionaries of camera ids, as lists.
use lum_model_face_recogniti.Base.{
  ℕ, suc, ◌≤◌, ◌≡◌, Bool, true, false, List, [], ◌∷◌, leb, length, if◌then◌else◌, ◌||◌, not, ◌==◌,
  arith,
}

abbrev pub mem : ℕ → List ℕ → Bool
mem a [] = false
mem a (x ∷ xs) = a == x || mem a xs

abbrev pub add : ℕ → List ℕ → List ℕ
add a xs = if mem a xs then xs else a ∷ xs

abbrev pub filter : (ℕ → Bool) → List ℕ → List ℕ
filter p [] = []
filter p (x ∷ xs) = let rest = filter p xs in if p x then x ∷ rest else rest

abbrev pub discard : ℕ → List ℕ → List ℕ
discard a = filter (λ x. not (x == a))

-- `xs - ys`
abbrev pub discard_all : List ℕ → List ℕ → List ℕ
discard_all ys = filter (λ x. not (mem x ys))

abbrev pub insert : ℕ → List ℕ → List ℕ
insert a [] = a ∷ []
insert a (x ∷ xs) = if leb a x then a ∷ x ∷ xs else x ∷ insert a xs

-- `sorted`
abbrev pub sort : List ℕ → List ℕ
sort [] = []
sort (x ∷ xs) = insert x (sort xs)

abbrev pub get : ℕ → ℕ → List (ℕ × ℕ) → ℕ
get k d [] = d
get k d ((j, v) ∷ m) = if j == k then v else get k d m

abbrev pub pop : ℕ → List (ℕ × ℕ) → List (ℕ × ℕ)
pop k [] = []
pop k ((j, v) ∷ m) = let rest = pop k m in if j == k then rest else (j, v) ∷ rest

abbrev pub set_default : ℕ → ℕ → List (ℕ × ℕ) → List (ℕ × ℕ)
set_default k v [] = (k, v) ∷ []
set_default k v ((j, u) ∷ m) = if j == k then (j, u) ∷ m else (j, u) ∷ set_default k v m

abbrev pub keep_keys : List ℕ → List (ℕ × ℕ) → List (ℕ × ℕ)
keep_keys ks [] = []
keep_keys ks ((j, v) ∷ m) = let rest = keep_keys ks m in if mem j ks then (j, v) ∷ rest else rest

pub mem-filter :
    (p : ℕ → Bool) (a : ℕ) (xs : List ℕ)
    → mem a (filter p xs) ≡ true
    → (mem a xs ≡ true) × (p a ≡ true)
mem-filter p a [] h = cc
mem-filter p a (x ∷ xs) h = ground (arith, mem-filter p a xs)

pub filter-mem :
    (p : ℕ → Bool) (a : ℕ) (xs : List ℕ) → mem a xs ≡ true → p a ≡ true → mem a (filter p xs) ≡ true
filter-mem p a [] h g = cc
filter-mem p a (x ∷ xs) h g = ground (arith, filter-mem p a xs)

pub length-filter-le : (p : ℕ → Bool) (xs : List ℕ) → length (filter p xs) ≤ length xs
length-filter-le p [] = omega arith
length-filter-le p (x ∷ xs) = ground (arith, length-filter-le p xs)

pub length-add-le : (a : ℕ) (xs : List ℕ) → length (add a xs) ≤ suc (length xs)
length-add-le a xs = ground arith
