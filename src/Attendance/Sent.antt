-- ===== src/Attendance/Sent.antt =====
-- The throttle of attendance by track: how long an entry lasts, and how large the throttle grows.
use lum_model_face_recogniti.Base.{
  ℕ, suc, zero, ◌+◌, ◌≤◌, ◌<◌, ◌≡◌, not, true, false, Option, none, some, List, [], ◌∷◌,
  if◌then◌else◌, String, eq_iff, arith, refl, ap, length, take,
}
use lum_model_face_recogniti.Attendance.{
  Services, Sighting, SentKey, State, sent_attendance_cap, key_eq, mem_key, drop_oldest, trim,
  send_if_moved, record_entry, log_person_entry, record_once,
}

take-drop_oldest : (n : ℕ) (xs : List SentKey) → n < length xs → take n (drop_oldest xs) ≡ take n xs
take-drop_oldest zero xs h = refl
take-drop_oldest (suc n) [] h = refl
take-drop_oldest (suc n) (x ∷ []) h = ground arith
take-drop_oldest (suc n) (x ∷ y ∷ ys) h =
    ap (λ l. x ∷ l) (take-drop_oldest n (y ∷ ys) (omega arith))

length-drop_oldest : (x : SentKey) (xs : List SentKey) → length (drop_oldest (x ∷ xs)) ≡ length xs
length-drop_oldest x [] = refl
length-drop_oldest x (y ∷ ys) = ap suc (length-drop_oldest y ys)

take-trim : (n : ℕ) (xs : List SentKey) → n ≤ sent_attendance_cap → take n (trim xs) ≡ take n xs
take-trim n xs h = ground (arith, take-drop_oldest n xs)

mem-take :
    (a : SentKey) (n : ℕ) (xs : List SentKey) → mem_key a (take n xs) ≡ true → mem_key a xs ≡ true
mem-take a zero xs h = cc
mem-take a (suc n) [] h = h
mem-take a (suc n) (x ∷ xs) h = ground (arith, mem-take a n xs)

mem-take-suc :
    (a : SentKey) (n : ℕ) (xs : List SentKey)
    → mem_key a (take n xs) ≡ true
    → mem_key a (take (suc n) xs) ≡ true
mem-take-suc a zero xs h = cc
mem-take-suc a (suc n) [] h = h
mem-take-suc a (suc n) (x ∷ xs) h = ground (arith, mem-take-suc a n xs)

key_eq_refl : (a : SentKey) → key_eq a a ≡ true
key_eq_refl a = ground (arith, eq_iff a.1 a.1)

-- What is left of the throttle's entries when one more comes in.
abbrev noted : Option ℕ → String → List SentKey → List SentKey
noted none name sent = sent
noted (some t) name sent = if mem_key (t, name) sent then sent else trim ((t, name) ∷ sent)

mem-noted :
    (a : SentKey) (n : ℕ) (t : Option ℕ) (name : String) (sent : List SentKey)
    → suc n ≤ sent_attendance_cap
    → mem_key a (take n sent) ≡ true
    → mem_key a (take (suc n) (noted t name sent)) ≡ true
mem-noted a n none name sent c h = mem-take-suc a n sent h
mem-noted a n (some t) name sent c h =
    ground (arith, mem-take-suc a n sent, take-trim (suc n) ((t, name) ∷ sent) c)

length-noted :
    (t : Option ℕ) (name : String) (sent : List SentKey)
    → length sent ≤ sent_attendance_cap
    → length (noted t name sent) ≤ sent_attendance_cap
length-noted none name sent h = h
length-noted (some t) name sent h = ground (arith, length-drop_oldest (t, name) sent)

noted_new :
    (t : ℕ) (name : String) (sent : List SentKey)
    → mem_key (t, name) sent ≡ false
    → mem_key (t, name) (take 1 (noted (some t) name sent)) ≡ true
noted_new t name sent h =
    ground (arith, take-trim 1 ((t, name) ∷ sent) (omega arith), key_eq_refl (t, name))

module _ {E : Type 0} (S : Services E) where
  sent-send_if_moved :
      (p : Sighting) (s : State S) → (send_if_moved S p s).0.sent_attendance ≡ s.0.sent_attendance
  unfolding send_if_moved
  sent-send_if_moved p s = ground arith

  sent-log_person_entry :
      (p : Sighting) (s : State S)
      → (log_person_entry S p s).1.0.sent_attendance ≡ noted p.track_id p.name s.0.sent_attendance
  unfolding log_person_entry record_once record_entry
  sent-log_person_entry p s = ground (arith, sent-send_if_moved p s)

  -- The throttle of attendance by track never has more than 4096 entries, whatever is logged.
  pub log_person_entry-le-cap :
      (p : Sighting) (s : State S)
      → length s.0.sent_attendance ≤ sent_attendance_cap
      → length (log_person_entry S p s).1.0.sent_attendance ≤ sent_attendance_cap
  log_person_entry-le-cap p s h =
      rw (sent-log_person_entry p s) (length-noted p.track_id p.name s.0.sent_attendance h)

  abbrev pub log_all : List Sighting → State S → State S
  log_all [] s = s
  log_all (p ∷ ps) s = log_all ps (log_person_entry S p s).1

  told :
      (p : Sighting) (t : ℕ) (s : State S)
      → p.track_id ≡ some t
      → (log_person_entry S p s).0 ≡ not (mem_key (t, p.name) s.0.sent_attendance)
  unfolding log_person_entry record_once
  told p t s h = ground (arith, sent-send_if_moved p s)

  mem-log_all :
      (a : SentKey) (ps : List Sighting) (n : ℕ) (s : State S)
      → n + length ps ≤ sent_attendance_cap
      → mem_key a (take n s.0.sent_attendance) ≡ true
      → mem_key a (log_all ps s).0.sent_attendance ≡ true
  mem-log_all a [] n s c h = mem-take a n s.0.sent_attendance h
  mem-log_all a (p ∷ ps) n s c h =
      mem-log_all a ps (suc n) (log_person_entry S p s).1 (omega arith) (
        rw (sent-log_person_entry p s)
          (mem-noted a n p.track_id p.name s.0.sent_attendance (omega arith) h))

  -- Once an appearance of a person on a track was recorded, a sighting of the same person on the same
  -- track is not recorded again, with up to 4095 other sightings in between.
  pub log_person_entry-once :
      (p q : Sighting) (t : ℕ) (between : List Sighting) (s : State S)
      → p.track_id ≡ some t
      → q.track_id ≡ some t
      → q.name ≡ p.name
      → suc (length between) ≤ sent_attendance_cap
      → (log_person_entry S p s).0 ≡ true
      → (log_person_entry S q (log_all between (log_person_entry S p s).1)).0 ≡ false
  log_person_entry-once p q t between s hp hq same few recorded =
      let fresh : mem_key (t, p.name) s.0.sent_attendance ≡ false = ground (arith, told p t s hp) in
      let newest : mem_key (t, p.name) (take 1 (log_person_entry S p s).1.0.sent_attendance)
          ≡ true =
        rw (sent-log_person_entry p s, hp) (noted_new t p.name s.0.sent_attendance fresh) in
      let kept =
        mem-log_all (t, p.name) between 1 (log_person_entry S p s).1 (omega arith) newest in
      rw (told q t (log_all between (log_person_entry S p s).1) hq, same, kept) refl
