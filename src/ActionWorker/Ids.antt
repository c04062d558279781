-- ===== src/ActionWorker/Ids.antt =====
-- The ids of requests: those that are queued, and those to come.
use lum_model_face_recogniti.Base.{
  ◌≡◌, ◌==◌, ◌&&◌, ◌||◌, not, Bool, true, false, List, [], ◌∷◌, ◌++◌, length, ltb, arith, refl, ap,
  sym, ◌∙◌, inl, inr, Bool-cases, String, str_eq, eq_iff,
}
use lum_model_face_recogniti.ActionWorker.{
  Item, Outside, Worker, has_id, pop_id, Turn, check, work_turn, proof_uploaded,
}

abbrev pub distinct : List String → Bool
distinct [] = true
distinct (k ∷ ks) = not (has_id k ks) && distinct ks

abbrev pub ids : List Item → List String
ids [] = []
ids (i ∷ is) = i.request_id ∷ ids is

module _ {E : Type 0} (O : Outside E) where
  abbrev pub ids_of : List (Turn O) → List String
  ids_of [] = []
  ids_of (check s ∷ ts) = s.request_id ∷ ids_of ts
  ids_of (work_turn ∷ ts) = ids_of ts
  ids_of (proof_uploaded a url ∷ ts) = ids_of ts

abbrev pub is_over : Worker → Bool
is_over w = not (w.max_queue_size == 0) && ltb w.max_queue_size (length w.inference_queue)

pub str_eq_refl : (k : String) → str_eq k k ≡ true
str_eq_refl k = (eq_iff k k).1 refl

str_eq_sym : (a b : String) → str_eq a b ≡ str_eq b a
str_eq_sym a b = elim (Bool-cases (str_eq a b)) [
  | inl p ↦ p ∙ sym ((eq_iff b a).1 (sym ((eq_iff a b).0 p)))
  | inr p ↦ elim (Bool-cases (str_eq b a)) [
    | inl q ↦ (eq_iff a b).1 (sym ((eq_iff b a).0 q)) ∙ sym q
    | inr q ↦ p ∙ sym q
  ]
]

has_id-append :
    (x : String) (ks ls : List String) → has_id x (ks ++ ls) ≡ (has_id x ks || has_id x ls)
has_id-append x [] ls = refl
has_id-append x (k ∷ ks) ls = ground (arith, has_id-append x ks ls)

pub distinct-middle :
    (k : String) (ks ls : List String)
    → distinct (ks ++ (k ∷ ls)) ≡ true
    → (has_id k ks ≡ false) × (distinct (ks ++ ls) ≡ true)
distinct-middle k [] ls d = ground arith
distinct-middle k (x ∷ ks) ls d = ground (
  arith,
  d,
  has_id-append x ks (k ∷ ls),
  has_id-append x ks ls,
  str_eq_sym k x,
  distinct-middle k ks ls,
)

pub pop_id-last :
    (k : String) (ks : List String) → has_id k ks ≡ false → pop_id k (ks ++ (k ∷ [])) ≡ ks
pop_id-last k [] h = rw (str_eq_refl k) refl
pop_id-last k (x ∷ ks) h = ground (arith, pop_id-last k ks)

pub ids-append : (is js : List Item) → ids (is ++ js) ≡ ids is ++ ids js
ids-append [] js = refl
ids-append (i ∷ is) js = ap (λ l. i.request_id ∷ l) (ids-append is js)
