-- ===== src/Attendance/Reports.antt =====
-- What a sighting leaves behind, what pruning keeps, and the gate of unrecognized faces.
use lum_model_face_recogniti.Base.{
  ℕ, ◌&&◌, ◌≡◌, not, true, false, Option, none, some, List, [], ◌∷◌, if◌then◌else◌, leb, String,
  str_eq, eq_iff, arith, refl, ap, ◌∙◌, inl, inr, Bool-cases,
}
use lum_model_face_recogniti.Attendance.{
  Image, Services, Sighting, EntryLogger, State, find, put, is_some, keep_known, is_camera,
  prune_location_cache, send_if_moved, record_entry, log_person_entry, record_once,
  send_unrecognized_face,
}

find-put : (n v : String) (m : List (String × String)) → find n (put n v m) ≡ some v
find-put n v [] = ground (arith, eq_iff n n)
find-put n v ((k, u) ∷ m) = ground (arith, find-put n v m)

find-keep_known :
    (users : List (String × ℕ)) (n : String) (m : List (String × String))
    → find n (keep_known users m) ≡ (if is_some (find n users) then find n m else none)
find-keep_known users n [] = ground arith
find-keep_known users n ((k, u) ∷ m) = elim (Bool-cases (str_eq k n)) [
  | inl q ↦ rw ((eq_iff k n).0 q) (ground (arith, find-keep_known users n m, eq_iff n n))
  | inr q ↦ ground (arith, find-keep_known users n m)
]

is_camera_find : (c : String) (o : Option String) → not (is_camera c o) ≡ false → o ≡ some c
is_camera_find c none h = cc
is_camera_find c (some d) h = ground (arith, eq_iff d c)

-- After pruning, a person's last camera is what it was if the person is a known user, and forgotten
-- otherwise.
pub find-prune_location_cache :
    (l : EntryLogger) (n : String)
    → find n (prune_location_cache l).person_last_camera
      ≡ (if is_some (find n l.name_to_id) then find n l.person_last_camera else none)
unfolding prune_location_cache
find-prune_location_cache l n = find-keep_known l.name_to_id n l.person_last_camera

module _ {E : Type 0} (S : Services E) where
  find-send_if_moved :
      (p : Sighting) (s : State S)
      → s.0.production ≡ true
      → find p.name (send_if_moved S p s).0.person_last_camera ≡ some p.camera_name
  unfolding send_if_moved
  find-send_if_moved p s h = ground (
    arith,
    find-put p.name p.camera_name s.0.person_last_camera,
    is_camera_find p.camera_name (find p.name s.0.person_last_camera),
  )

  send_if_moved-idle :
      (p : Sighting) (s : State S)
      → is_camera p.camera_name (find p.name s.0.person_last_camera) ≡ true
      → send_if_moved S p s ≡ s
  unfolding send_if_moved
  send_if_moved-idle p s h = ground arith

  send_if_moved-off :
      (p : Sighting) (s : State S) → s.0.production ≡ false → send_if_moved S p s ≡ s
  unfolding send_if_moved
  send_if_moved-off p s h = ground arith

  production-send_if_moved :
      (p : Sighting) (s : State S) → (send_if_moved S p s).0.production ≡ s.0.production
  unfolding send_if_moved
  production-send_if_moved p s = ground arith

  send_if_moved-repeat :
      (p : Sighting) (s : State S) → send_if_moved S p (send_if_moved S p s) ≡ send_if_moved S p s
  send_if_moved-repeat p s = elim (Bool-cases s.0.production) [
    | inl h ↦
        send_if_moved-idle p (send_if_moved S p s)
          (rw (find-send_if_moved p s h) ((eq_iff p.camera_name p.camera_name).1 refl))
    | inr h ↦ send_if_moved-off p (send_if_moved S p s) (production-send_if_moved p s ∙ h)
  ]

  -- In production the last camera of a person who was logged is the camera of the sighting, whether or
  -- not attendance was recorded.
  pub find-log_person_entry :
      (p : Sighting) (s : State S)
      → s.0.production ≡ true
      → find p.name (log_person_entry S p s).1.0.person_last_camera ≡ some p.camera_name
  unfolding log_person_entry record_once record_entry
  find-log_person_entry p s h = ground (arith, find-send_if_moved p s h)

  -- A sighting that is not recorded only moves the person's last camera.
  unrecorded :
      (p : Sighting) (s : State S)
      → (log_person_entry S p s).0 ≡ false
      → (log_person_entry S p s).1 ≡ send_if_moved S p s
  unfolding log_person_entry record_once
  unrecorded p s h = ground arith

  same_throttle :
      (p : Sighting) (s s' : State S)
      → send_if_moved S p s ≡ send_if_moved S p s'
      → log_person_entry S p s ≡ log_person_entry S p s'
  unfolding log_person_entry record_once
  same_throttle p s s' e = ap (record_once S p) e

  -- A sighting that was not recorded, seen again by the same camera, is not recorded, changes nothing
  -- and sends nothing.
  pub log_person_entry-repeat :
      (p : Sighting) (s : State S)
      → (log_person_entry S p s).0 ≡ false
      → log_person_entry S p (log_person_entry S p s).1 ≡ (false, (log_person_entry S p s).1)
  log_person_entry-repeat p s h =
      let again = same_throttle p (send_if_moved S p s) s (send_if_moved-repeat p s) in
      let r = unrecorded p s h in
      ap (log_person_entry S p) r ∙ again ∙ ap (λ b. (b, (log_person_entry S p s).1)) h

  -- Of an unrecognized face whose frontality or pitch is below its threshold nothing is uploaded and
  -- no task is sent, and the answer is false.
  pub send_unrecognized_face-gate :
      (face : Image) (status : String) (camera_id : Option ℕ) (camera_name : String)
      (frontality pitch : ℕ) (l : EntryLogger) (e : E)
      → (leb l.unrecognized_frontality_min frontality && leb l.unrecognized_pitch_min pitch) ≡ false
      → send_unrecognized_face S face status camera_id camera_name frontality pitch (l, e)
        ≡ (false, e)
  unfolding send_unrecognized_face
  send_unrecognized_face-gate face status camera_id camera_name frontality pitch l e h =
      ground arith
