-- ===== src/Attendance.antt =====
-- src/infrastructure/attendance_state.py: what a camera worker reports of the people it sees.
pub mod Sent
pub mod Reports
use lum_model_face_recogniti.Base.{
  ℕ, ◌==◌, ◌&&◌, ◌||◌, not, Bool, true, false, Option, none, some, List, [], ◌∷◌, if◌then◌else◌,
  ltb, String, str_eq, length, take,
}

-- A picture's bytes.
abbrev pub Image : Type 0
Image = List ℕ

-- The tasks that are put on Celery's queues, with their arguments.
pub data Task : Type 0 where
  record_attendance :
      (client_slug : String) (user_id : ℕ) (user_name status : String) (camera_id : Option ℕ)
      (camera_name : String) (proof_image_url : Option String) (recorded_at : ℕ)
      → Task
  update_user_location :
      (client_slug : String) (user_id : Option ℕ) (user_name : String) (camera_id : ℕ)
      (camera_name status : String) (updated_at : ℕ)
      → Task
  save_unrecognized_face :
      (client_slug : String) (camera_id : Option ℕ) (camera_name status : String)
      (image_url : Option String) (detected_at : ℕ)
      → Task

-- Cloud storage, where an upload that raises answers as one without a link; `delay`, which answers
-- whether it returned; and the clock.
pub record Services (E : Type 0) : Type 0 where
  pub upload_image : Image → String → String → E → Option String × E
  pub delay : Task → E → Bool × E
  pub now : E → ℕ

pub record Sighting : Type 0 where
  pub name : String
  pub status : String
  pub appear_time : ℕ
  pub camera_name : String
  pub camera_id : Option ℕ
  pub proof_image : Option Image
  pub track_id : Option ℕ

abbrev pub SentKey : Type 0
SentKey = ℕ × String

abbrev pub sent_attendance_cap : ℕ
sent_attendance_cap = 4096

-- `sent_attendance` and `recent_entries` have their newest entry first. Scores are in thousandths.
pub record EntryLogger : Type 0 where
  pub client_slug : String
  pub production : Bool
  pub unrecognized_frontality_min : ℕ
  pub unrecognized_pitch_min : ℕ
  pub max_entries : ℕ
  pub recent_entries : List (String × String × ℕ)
  pub person_last_camera : List (String × String)
  pub name_to_id : List (String × ℕ)
  pub sent_attendance : List SentKey

-- `__init__`, with the users that the repository returned.
abbrev pub init : String → Bool → ℕ → ℕ → ℕ → List (String × ℕ) → EntryLogger
init client_slug production frontality_min pitch_min max_entries name_to_id = record {
  client_slug = client_slug;
  production = production;
  unrecognized_frontality_min = frontality_min;
  unrecognized_pitch_min = pitch_min;
  max_entries = max_entries;
  recent_entries = [];
  person_last_camera = [];
  name_to_id = name_to_id;
  sent_attendance = [];
}

-- The first entry under a name.
abbrev pub find {ℓ} : {A : Type ℓ} → String → List (String × A) → Option A
find n [] = none
find n ((k, v) ∷ m) = if str_eq k n then some v else find n m

abbrev pub put : String → String → List (String × String) → List (String × String)
put n v [] = (n, v) ∷ []
put n v ((k, u) ∷ m) = if str_eq k n then (k, v) ∷ m else (k, u) ∷ put n v m

abbrev pub is_some {ℓ} : {A : Type ℓ} → Option A → Bool
is_some none = false
is_some (some x) = true

abbrev pub keep_known : List (String × ℕ) → List (String × String) → List (String × String)
keep_known users [] = []
keep_known users ((k, v) ∷ m) =
    let rest = keep_known users m in if is_some (find k users) then (k, v) ∷ rest else rest

-- `prune_location_cache`
unfoldable pub prune_location_cache : EntryLogger → EntryLogger
prune_location_cache l = record l {
  person_last_camera = keep_known l.name_to_id l.person_last_camera;
}

abbrev pub key_eq : SentKey → SentKey → Bool
key_eq a b = a.0 == b.0 && str_eq a.1 b.1

abbrev pub mem_key : SentKey → List SentKey → Bool
mem_key a [] = false
mem_key a (x ∷ xs) = key_eq a x || mem_key a xs

abbrev pub drop_oldest {ℓ} : {A : Type ℓ} → List A → List A
drop_oldest [] = []
drop_oldest (x ∷ []) = []
drop_oldest (x ∷ y ∷ ys) = x ∷ drop_oldest (y ∷ ys)

-- Past the cap the oldest entry goes.
abbrev pub trim : List SentKey → List SentKey
trim xs = if ltb sent_attendance_cap (length xs) then drop_oldest xs else xs

abbrev pub is_camera : String → Option String → Bool
is_camera c none = false
is_camera c (some d) = str_eq d c

abbrev pub or_zero : Option ℕ → ℕ
or_zero none = 0
or_zero (some c) = c

module _ {E : Type 0} (S : Services E) where
  abbrev pub State : Type 0
  State = EntryLogger × E

  -- `_send_location_data`; a task that is not queued is only logged.
  unfoldable pub send_location_data : Sighting → State → E
  send_location_data p (l, e) =
      let task : Task =
        update_user_location l.client_slug (find p.name l.name_to_id) p.name (or_zero p.camera_id)
          p.camera_name p.status p.appear_time in
      (S.delay task e).1

  abbrev pub upload_proof : Option Image → String → E → Option String × E
  upload_proof none client_slug e = (none, e)
  upload_proof (some image) client_slug e = S.upload_image image "attendance_proofs" client_slug e

  -- `_send_attendance`; a user who is not in the database is passed over.
  unfoldable pub send_attendance : Sighting → State → E
  send_attendance p (l, e) =
      let (url, e') = upload_proof p.proof_image l.client_slug e in
      elim (find p.name l.name_to_id) [
        | none ↦ e
        | some id ↦
            (S.delay
              (record_attendance l.client_slug id p.name p.status p.camera_id p.camera_name url
                (S.now e'))
              e').1
      ]

  -- The location is sent when the camera has changed.
  unfoldable pub send_if_moved : Sighting → State → State
  send_if_moved p (l, e) =
      if l.production && not (is_camera p.camera_name (find p.name l.person_last_camera))
      then (
        record l { person_last_camera = put p.name p.camera_name l.person_last_camera },
        send_location_data p (l, e),
      )
      else (l, e)

  unfoldable pub record_entry : Sighting → State → State
  record_entry p (l, e) = (
    record l {
      recent_entries = take l.max_entries ((p.name, p.status, p.appear_time) ∷ l.recent_entries);
    },
    if l.production then send_attendance p (l, e) else e,
  )

  -- At most once for a track and a person, as long as the throttle has the pair.
  unfoldable pub record_once : Sighting → State → Bool × State
  unfolding record_entry
  record_once p (l, e) = elim p.track_id [
    | none ↦ (true, record_entry p (l, e))
    | some t ↦ if mem_key (t, p.name) l.sent_attendance then (false, (l, e)) else (
      true,
      record_entry p (record l { sent_attendance = trim ((t, p.name) ∷ l.sent_attendance) }, e),
    )
  ]

  unfoldable pub log_person_entry : Sighting → State → Bool × State
  unfolding send_if_moved record_once
  log_person_entry p s = record_once p (send_if_moved p s)

  -- `send_unrecognized_face`
  unfoldable pub send_unrecognized_face :
      Image → String → Option ℕ → String → ℕ → ℕ → State → Bool × E
  send_unrecognized_face face status camera_id camera_name frontality pitch (l, e) =
      let (url, e') = S.upload_image face "unrecognized_faces" l.client_slug e in
      let task : Task =
        save_unrecognized_face l.client_slug camera_id camera_name status url (S.now e') in
      if ltb frontality l.unrecognized_frontality_min
      then (false, e)
      else if ltb pitch l.unrecognized_pitch_min
      then (false, e)
      else S.delay task e'
