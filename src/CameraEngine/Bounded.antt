-- ===== src/CameraEngine/Bounded.antt =====
-- How long the crop history of a track is after a frame with a face.
use lum_model_face_recogniti.Base.{
  ℕ, suc, ◌+◌, ◌-◌, ◌≡◌, ◌≤◌, ◌<◌, ◌==◌, ◌&&◌, ◌||◌, not, Bool, true, false, Option, none, some,
  List, [], ◌∷◌, length, take, ltb, if◌then◌else◌, arith, refl, sym, ap, ◌∙◌, inl, inr, both, conj,
  Bool-cases, ==_iff, ltb→lt,
}
use lum_model_face_recogniti.CameraEngine.Images.{
  CropData, History, put, del, keys, sorted, del_all, max_crop_frames, trim, remember,
}
use lum_model_face_recogniti.CameraEngine.Steps.{some_none}
use lum_model_face_recogniti.CameraEngine.Sorting.{
  has, distinct, has-sorted, length-sorted, distinct-sorted, has-take, distinct-take, length-take,
  take-larger, ordered-sorted,
}

length-keys : (h : History) → length (keys h) ≡ length h
length-keys [] = refl
length-keys ((k, d) ∷ h) = ap suc (length-keys h)

has-del : (j k : ℕ) (h : History) → has j (keys (del k h)) ≡ (has j (keys h) && not (k == j))
has-del j k [] = refl
has-del j k ((x, d) ∷ h) = elim (Bool-cases (x == k)) [
  | inl q ↦ rw q (rw (has-del j k h) ground (arith, q))
  | inr q ↦ rw q (rw (has-del j k h) ground (arith, q))
]

del_absent : (k : ℕ) (h : History) → has k (keys h) ≡ false → del k h ≡ h
del_absent k [] q = refl
del_absent k ((x, d) ∷ h) q =
    let b : (x == k) ≡ false = ground (arith, q) in
    rw b (ap (λ l. (x, d) ∷ l) (del_absent k h (ground (arith, q))))

length-del :
    (k : ℕ) (h : History)
    → has k (keys h) ≡ true
    → distinct (keys h) ≡ true
    → suc (length (del k h)) ≡ length h
length-del k [] q d = ground (arith, q)
length-del k ((x, c) ∷ h) q d = elim (Bool-cases (x == k)) [
  | inl b ↦ rw b (ap (λ l. suc (length l)) (del_absent k h (ground (arith, d, b, ==_iff x k))))
  | inr b ↦ rw b (ap suc (length-del k h (ground (arith, q, b)) (ground (arith, d))))
]

distinct-del : (k : ℕ) (h : History) → distinct (keys h) ≡ true → distinct (keys (del k h)) ≡ true
distinct-del k [] d = refl
distinct-del k ((x, c) ∷ h) d = elim (Bool-cases (x == k)) [
  | inl b ↦ rw b (distinct-del k h (ground (arith, d)))
  | inr b ↦ rw b (ground (arith, d, has-del x k h, distinct-del k h))
]

-- All of these are keys.
all_keys : List ℕ → History → Bool
all_keys [] h = true
all_keys (k ∷ ks) h = has k (keys h) && all_keys ks h

all_keys-del :
    (k : ℕ) (ks : List ℕ) (h : History)
    → has k ks ≡ false
    → all_keys ks h ≡ true
    → all_keys ks (del k h) ≡ true
unfolding all_keys
all_keys-del k [] h q a = refl
all_keys-del k (x ∷ ks) h q a =
    ground (arith, a, q, has-del x k h, all_keys-del k ks h, ==_iff k x, ==_iff x k)

length-del_all :
    (ks : List ℕ) (h : History)
    → distinct ks ≡ true
    → all_keys ks h ≡ true
    → distinct (keys h) ≡ true
    → (length ks + length (del_all ks h) ≡ length h) × (distinct (keys (del_all ks h)) ≡ true)
unfolding all_keys
length-del_all [] h e a d = (omega arith, d)
length-del_all (k ∷ ks) h e a d =
    let b = both (not (has k ks)) (distinct ks) e in
    let c = both (has k (keys h)) (all_keys ks h) a in
    let r =
      length-del_all ks (del k h) b.1 (all_keys-del k ks h (ground (arith, b.0)) c.1)
        (distinct-del k h d) in
    (omega (arith, r.0, length-del k h c.0 d), r.1)

has-put :
    (j k : ℕ) (c : CropData) (h : History) → has j (keys (put k c h)) ≡ (has j (keys h) || k == j)
has-put j k c [] = ground arith
has-put j k c ((x, d) ∷ h) = elim (Bool-cases (x == k)) [
  | inl b ↦ rw b (ground (arith, ==_iff x k))
  | inr b ↦ rw b (rw (has-put j k c h) ground arith)
]

distinct-put :
    (k : ℕ) (c : CropData) (h : History)
    → distinct (keys h) ≡ true
    → distinct (keys (put k c h)) ≡ true
distinct-put k c [] d = refl
distinct-put k c ((x, e) ∷ h) d = elim (Bool-cases (x == k)) [
  | inl b ↦ rw b (ground (arith, d))
  | inr b ↦ rw b (ground (arith, d, b, has-put x k c h, distinct-put k c h, ==_iff x k, ==_iff k x))
]

-- A sublist of the keys.
all_keys-has :
    (ks : List ℕ) (h : History)
    → ((k : ℕ) → has k ks ≡ true → has k (keys h) ≡ true)
    → all_keys ks h ≡ true
unfolding all_keys
all_keys-has [] h f = refl
all_keys-has (k ∷ ks) h f =
    conj (has k (keys h)) (all_keys ks h) (f k (ground arith))
      (all_keys-has ks h (λ j q. f j (ground (arith, q))))

-- The crop of a frame.
abbrev pub find : ℕ → History → Option CropData
find k [] = none
find k ((x, d) ∷ h) = if x == k then some d else find k h

find-put : (k : ℕ) (c : CropData) (h : History) → find k (put k c h) ≡ some c
find-put k c [] = rw ((==_iff k k).1 refl) refl
find-put k c ((x, d) ∷ h) = elim (Bool-cases (x == k)) [
  | inl b ↦ rw b (rw b refl)
  | inr b ↦ rw b (rw b (find-put k c h))
]

find-del : (j k : ℕ) (h : History) → (k == j) ≡ false → find j (del k h) ≡ find j h
find-del j k [] q = refl
find-del j k ((x, d) ∷ h) q = elim (Bool-cases (x == k)) [
  | inl b ↦
      let c : (x == j) ≡ false = ground (arith, q, b, ==_iff x k) in rw (b, c) (find-del j k h q)
  | inr b ↦ rw b (ap (λ o. if x == j then some d else o) (find-del j k h q))
]

find-del_all :
    (j : ℕ) (ks : List ℕ) (h : History) → has j ks ≡ false → find j (del_all ks h) ≡ find j h
find-del_all j [] h q = refl
find-del_all j (k ∷ ks) h q =
    find-del_all j ks (del k h) (ground (arith, q)) ∙ find-del j k h (ground (arith, q))

abbrev pub all_below : ℕ → List ℕ → Bool
all_below n [] = true
all_below n (k ∷ ks) = ltb k n && all_below n ks

has-all_below : (n k : ℕ) (ks : List ℕ) → all_below n ks ≡ true → has k ks ≡ true → k < n
has-all_below n k [] a q = some_none (some true) true refl (ground (arith, q))
has-all_below n k (x ∷ ks) a q = elim (Bool-cases (x == k)) [
  | inl b ↦ ground (arith, a, b)
  | inr b ↦ has-all_below n k ks (ground (arith, a)) (ground (arith, q, b))
]

length-trim :
    (h : History)
    → distinct (keys h) ≡ true
    → (length (trim h) ≤ max_crop_frames) × (distinct (keys (trim h)) ≡ true)
unfolding trim
length-trim h d = elim (Bool-cases (ltb max_crop_frames (length h))) [
  | inr b ↦ rw b (ground (arith, b), d)
  | inl b ↦
      let n = length h - max_crop_frames in
      let old = take n (sorted (keys h)) in
      let r =
        length-del_all old h (distinct-take n (sorted (keys h)) (distinct-sorted (keys h) d))
          (all_keys-has old h
            (λ k q. sym (has-sorted k (keys h)) ∙ has-take k n (sorted (keys h)) q))
          d in
      rw b (
        omega (
          arith,
          r.0,
          length-take n (sorted (keys h)) (omega (arith, length-sorted (keys h), length-keys h)),
          ltb→lt max_crop_frames (length h) b,
        ),
        r.1,
      )
]

-- The newest frame is not among those that go.
newest_stays :
    (n : ℕ) (c : CropData) (h : History)
    → distinct (keys h) ≡ true
    → all_below n (keys h) ≡ true
    → (m : ℕ) → m < length (put n c h)
    → has n (take m (sorted (keys (put n c h)))) ≡ false
newest_stays n c h d a m l = elim (Bool-cases (has n (take m (sorted (keys (put n c h)))))) [
  | inr b ↦ b
  | inl b ↦
      let ks = keys (put n c h) in
      let y =
        take-larger n m (sorted ks) (ordered-sorted ks) (distinct-sorted ks (distinct-put n c h d))
          (omega (arith, l, length-sorted ks, length-keys (put n c h))) b in
      elim (Bool-cases (has y.0 (keys h))) [
        | inl e ↦ ground (arith, y.2, has-all_below n y.0 (keys h) a e)
        | inr e ↦
            let q : (n == y.0) ≡ true =
              ground (arith, e, sym (has-put y.0 n c h) ∙ sym (has-sorted y.0 ks) ∙ y.1) in
            ground (arith, y.2, q)
      ]
]

find-trim :
    (n : ℕ) (c : CropData) (h : History)
    → distinct (keys h) ≡ true
    → all_below n (keys h) ≡ true
    → find n (trim (put n c h)) ≡ some c
unfolding trim
find-trim n c h d a = elim (Bool-cases (ltb max_crop_frames (length (put n c h)))) [
  | inr b ↦ rw b (find-put n c h)
  | inl b ↦
      let m = length (put n c h) - max_crop_frames in
      let l = ltb→lt max_crop_frames (length (put n c h)) b in
      rw b (
        find-del_all n (take m (sorted (keys (put n c h)))) (put n c h)
          (newest_stays n c h d a m (omega (arith, l)))
        ∙ find-put n c h)
]

-- After a frame with a face whose number is above those in the history of its track, each of which is
-- there once, the history has at most 30 frames, each once, and that frame's crop is among them,
-- however many frames a merge left in the history.
pub remember-le :
    (frame_num : ℕ) (d : CropData) (h : History)
    → distinct (keys h) ≡ true
    → all_below frame_num (keys h) ≡ true
    → (length (remember frame_num d h) ≤ 30)
      × (distinct (keys (remember frame_num d h)) ≡ true)
      × (find frame_num (remember frame_num d h) ≡ some d)
unfolding remember
remember-le n c h d a =
    let r = length-trim (put n c h) (distinct-put n c h d) in (r.0, r.1, find-trim n c h d a)
