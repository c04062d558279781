-- ===== src/NameMap/Reload.antt =====
-- What a reader sees of a map that is being reloaded.
use lum_model_face_recogniti.Base.{
  ℕ, ◌≡◌, ◌⊎◌, ◌&&◌, ◌||◌, not, Bool, true, false, none, some, List, [], ◌∷◌, if◌then◌else◌, arith,
  refl, sym, ◌∙◌, subst, inl, inr, Bool-cases, All, String, str_eq, eq_iff,
}
use lum_model_face_recogniti.NameMap.{
  Names, find, has, put, pop, update, update_states, old_names, pop_all, pop_states, reload,
}

abbrev pub distinct : Names → Bool
distinct [] = true
distinct ((k, id) ∷ m) = not (has k m) && distinct m

abbrev among : String → List String → Bool
among k [] = false
among k (x ∷ xs) = str_eq x k || among k xs

str_eq_trans : (a b c : String) → str_eq a b ≡ true → str_eq a c ≡ str_eq b c
str_eq_trans a b c h = rw ((eq_iff a b).0 h) refl

str_eq_same : (a b c : String) → str_eq a c ≡ true → str_eq b c ≡ true → str_eq a b ≡ true
str_eq_same a b c h g = (eq_iff a b).1 ((eq_iff a c).0 h ∙ sym ((eq_iff b c).0 g))

find-put :
    (k x : String) (id : ℕ) (m : Names)
    → find k (put x id m) ≡ (if str_eq x k then some id else find k m)
find-put k x id [] = refl
find-put k x id ((y, old) ∷ m) = elim (Bool-cases (str_eq y x)) [
  | inl q ↦ rw (q, str_eq_trans y x k q) (ground arith)
  | inr q ↦ rw q (ground (arith, q, find-put k x id m, str_eq_same y x k))
]

find-pop : (k x : String) (m : Names) → find k (pop x m) ≡ (if str_eq x k then none else find k m)
find-pop k x [] = ground arith
find-pop k x ((y, id) ∷ m) = ground (arith, find-pop k x m, str_eq_trans y x k, str_eq_same y x k)

find-absent : (k : String) (m : Names) → has k m ≡ false → find k m ≡ none
find-absent k [] h = refl
find-absent k ((x, id) ∷ m) h = ground (arith, find-absent k m)

-- While `new` is put into `m`, a reader sees what stands there or what is put there.
abbrev Grows : String → Names → Names → Names → Type 0
Grows k new m s = (find k s ≡ find k m) ⊎ ((has k new ≡ true) × (find k s ≡ find k new))

Grows-put :
    (k x : String) (id : ℕ) (new m s : Names)
    → has x new ≡ false
    → Grows k new (put x id m) s
    → Grows k ((x, id) ∷ new) m s
Grows-put k x id new m s absent g = elim (Bool-cases (str_eq x k)) [
  | inl q ↦
      let absent' : has k new ≡ false = subst (λ y. has y new ≡ false) ((eq_iff x k).0 q) absent in
      elim g [ inl e ↦ inr (rw q refl, e ∙ find-put k x id m ∙ rw q refl) | inr (h, e) ↦ cc ]
  | inr q ↦ elim g [
    | inl e ↦ inl (e ∙ find-put k x id m ∙ rw q refl)
    | inr (h, e) ↦ inr (rw q h, e ∙ rw q refl)
  ]
]

All-map :
    (P Q : Names → Type 0) → ((s : Names) → P s → Q s) → (ss : List Names) → All P ss → All Q ss
All-map P Q f [] h = tt
All-map P Q f (s ∷ ss) h = (f s h.0, All-map P Q f ss h.1)

Grows-update_states :
    (k : String) (new m : Names) → distinct new ≡ true → All (Grows k new m) (update_states new m)
unfolding update_states
Grows-update_states k [] m d = tt
Grows-update_states k ((x, id) ∷ new) m d =
    let absent : has x new ≡ false = ground (arith, d) in
    let later : distinct new ≡ true = ground (arith, d) in
    (
      Grows-put k x id new m (put x id m) absent (inl refl),
      All-map (Grows k new (put x id m)) (Grows k ((x, id) ∷ new) m)
          (λ s. Grows-put k x id new m s absent) (update_states new (put x id m))
          (Grows-update_states k new (put x id m) later),
    )

-- The grown map.
find-update :
    (k : String) (new m : Names)
    → distinct new ≡ true
    → find k (update new m) ≡ (if has k new then find k new else find k m)
unfolding update
find-update k [] m d = refl
find-update k ((x, id) ∷ new) m d =
    let absent : has x new ≡ false = ground (arith, d) in
    let later : distinct new ≡ true = ground (arith, d) in
    find-update k new (put x id m) later ∙ elim (Bool-cases (str_eq x k)) [
      | inl q ↦
          let absent' : has k new ≡ false =
            subst (λ y. has y new ≡ false) ((eq_iff x k).0 q) absent in
          rw (absent', q) (find-put k x id m ∙ rw q refl)
      | inr q ↦ rw (q, find-put k x id m) (rw q refl)
    ]

-- While names are popped, a reader sees what stands in the grown map, or nothing for such a name.
abbrev Shrinks : String → List String → Names → Names → Type 0
Shrinks k ks m s = (find k s ≡ find k m) ⊎ ((among k ks ≡ true) × (find k s ≡ none))

Shrinks-pop :
    (k x : String) (ks : List String) (m s : Names)
    → Shrinks k ks (pop x m) s
    → Shrinks k (x ∷ ks) m s
Shrinks-pop k x ks m s (inl e) = elim (Bool-cases (str_eq x k)) [
  | inl q ↦ inr (rw q refl, e ∙ find-pop k x m ∙ rw q refl)
  | inr q ↦ inl (e ∙ find-pop k x m ∙ rw q refl)
]
Shrinks-pop k x ks m s (inr (h, e)) = inr (ground (arith, h), e)

Shrinks-pop_states :
    (k : String) (ks : List String) (m : Names) → All (Shrinks k ks m) (pop_states ks m)
unfolding pop_states
Shrinks-pop_states k [] m = tt
Shrinks-pop_states k (x ∷ ks) m = (
  Shrinks-pop k x ks m (pop x m) (inl refl),
  All-map (Shrinks k ks (pop x m)) (Shrinks k (x ∷ ks) m) (Shrinks-pop k x ks m)
      (pop_states ks (pop x m)) (Shrinks-pop_states k ks (pop x m)),
)

find-pop_all :
    (k : String) (ks : List String) (m : Names)
    → find k (pop_all ks m) ≡ (if among k ks then none else find k m)
unfolding pop_all
find-pop_all k [] m = refl
find-pop_all k (x ∷ ks) m = ground (arith, find-pop_all k ks (pop x m), find-pop k x m)

has_same : (x k : String) (m : Names) → str_eq x k ≡ true → has x m ≡ has k m
has_same x k m h = rw ((eq_iff x k).0 h) refl

among-old_names :
    (k : String) (new m : Names) → among k (old_names new m) ≡ (has k m && not (has k new))
among-old_names k new [] = refl
among-old_names k new ((x, id) ∷ m) = ground (arith, among-old_names k new m, has_same x k new)

-- A reader finds what stood there before the reload, or what stands there after it.
abbrev pub Seen : String → Names → Names → Names → Type 0
Seen k new m s = (find k s ≡ find k m) ⊎ (find k s ≡ find k new)

Seen-Grows : (k : String) (new m s : Names) → Grows k new m s → Seen k new m s
Seen-Grows k new m s (inl e) = inl e
Seen-Grows k new m s (inr (h, e)) = inr e

Seen-Shrinks :
    (k : String) (new m s : Names)
    → distinct new ≡ true
    → let grown = update new m in Shrinks k (old_names new grown) grown s → Seen k new m s
Seen-Shrinks k new m s d (inr (h, e)) =
    let gone : has k new ≡ false = ground (arith, h, among-old_names k new (update new m)) in
    inr (e ∙ sym (find-absent k new gone))
Seen-Shrinks k new m s d (inl e) = elim (Bool-cases (has k new)) [
  | inl q ↦ inr (e ∙ find-update k new m d ∙ rw q refl)
  | inr q ↦ inl (e ∙ find-update k new m d ∙ rw q refl)
]

find-reload :
    (k : String) (new m : Names) → distinct new ≡ true → find k (reload new m) ≡ find k new
unfolding reload
find-reload k new m d =
    let grown = update new m in
    let gone = among-old_names k new grown in
    find-pop_all k (old_names new grown) grown ∙ elim (Bool-cases (has k new)) [
      | inl q ↦
          let stays : among k (old_names new grown) ≡ false = ground (arith, gone, q) in
          rw stays (find-update k new m d ∙ rw q refl)
      | inr q ↦ elim (Bool-cases (has k grown)) [
        | inl g ↦
            let popped : among k (old_names new grown) ≡ true = ground (arith, gone, q, g) in
            rw popped (sym (find-absent k new q))
        | inr g ↦
            let stays : among k (old_names new grown) ≡ false = ground (arith, gone, g) in
            rw stays (find-absent k grown g ∙ sym (find-absent k new q))
      ]
    ]

-- At each moment of a reload, however many keys were put or popped so far, a reader finds under any
-- name what stood there before, or what stands there in the new map: a name that both have is never
-- missing. In the end every name has what the new map has.
pub find-reload_states :
    (k : String) (new m : Names)
    → distinct new ≡ true
    → let grown = update new m in
      All (Seen k new m) (update_states new m)
      × All (Seen k new m) (pop_states (old_names new grown) grown)
      × (find k (reload new m) ≡ find k new)
find-reload_states k new m d =
    let grown = update new m in
    let olds = old_names new grown in
    (
      All-map (Grows k new m) (Seen k new m) (Seen-Grows k new m) (update_states new m)
          (Grows-update_states k new m d),
      All-map (Shrinks k olds grown) (Seen k new m) (λ s. Seen-Shrinks k new m s d)
          (pop_states olds grown) (Shrinks-pop_states k olds grown),
      find-reload k new m d,
    )
