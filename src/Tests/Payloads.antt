-- ===== src/Tests/Payloads.antt =====
-- The arguments of a call: a box of numpy, a tuple, and an object that JSON does not have.
use lum_model_face_recogniti.Base.{ℕ, ◌≡◌, Bool, true, false, List, [], ◌∷◌, refl, leb}
use lum_model_face_recogniti.GlobalTrack.Json.{
  PyValue, ndarray, np_scalar, dict, list, tuple, plain, other, PyItems, nil, cons, end, field,
  Numpy, json_safe, is_plain, is_known, json_safe-is_plain,
}

abbrev Argument : Type 0
Argument = PyValue (List ℕ) ℕ ℕ ℕ Bool

abbrev items : List ℕ → PyItems (List ℕ) ℕ ℕ ℕ Bool
items [] = nil
items (x ∷ xs) = cons (plain x) (items xs)

abbrev numpy : Numpy (List ℕ) ℕ ℕ ℕ Bool
numpy = record { tolist = λ a. list (items a); item = λ s. plain s }

-- The keys above 10 are keys of numpy.
abbrev key_ok : ℕ → Bool
key_ok k = leb k 10

abbrev sighting : Argument
sighting = dict (field 1 (ndarray (10 ∷ 20 ∷ [])) (field 2 (tuple (cons (np_scalar 7) nil)) end))

json_safe_test : is_plain key_ok (json_safe numpy sighting) ≡ true
unfolding json_safe is_plain
json_safe_test = refl

json_safe_other :
    is_plain key_ok (json_safe numpy (list (cons sighting (cons (other true) nil)))) ≡ false
unfolding json_safe is_plain
json_safe_other = refl

json_safe_key : is_plain key_ok (json_safe numpy (dict (field 11 sighting end))) ≡ false
unfolding json_safe is_plain
json_safe_key = refl

json_safe-is_plain_example :
    is_plain key_ok (json_safe numpy (list (cons sighting (cons (other true) nil))))
    ≡ is_known numpy key_ok (list (cons sighting (cons (other true) nil)))
json_safe-is_plain_example =
    json_safe-is_plain numpy key_ok (list (cons sighting (cons (other true) nil)))
