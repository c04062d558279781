-- ===== src/AsyncLogger.antt =====
-- src/infrastructure/async_write_queue.py: the queues in front of the database, of cloud storage and of
-- the event stream, and one turn of each worker that serves them.
pub mod Uploads
use lum_model_face_recogniti.Base.{
  ℕ, ◌==◌, ◌&&◌, ◌||◌, not, Bool, true, false, Option, none, some, List, [], ◌∷◌, ◌++◌,
  if◌then◌else◌, leb, String, str_eq, length,
}
use lum_model_face_recogniti.Attendance.{
  Image, Services, Sighting, EntryLogger, log_person_entry, send_unrecognized_face,
}

-- An entry of the database queue, with the keys that `_process_db_entry` reads.
pub record Entry : Type 0 where
  pub name : Option String
  pub status : String
  pub appear_time : ℕ
  pub camera_name : String
  pub camera_id : Option ℕ
  pub proof_image : Option Image
  pub application : List String
  pub recognized : Bool
  pub face_image : Option Image
  pub face_frontality : ℕ
  pub face_pitch : ℕ
  pub track_id : Option ℕ

-- `callback` names the function that is to be called with the link.
pub record Upload : Type 0 where
  pub image : Option Image
  pub folder : String
  pub client_slug : String
  pub callback : Option ℕ

pub record Event : Type 0 where
  pub stream : String
  pub fields : List (String × String)

-- Whoever is called with the link of an upload, and the server of the event stream. What either raises
-- is only logged.
pub record Callees (E : Type 0) : Type 0 where
  pub call : ℕ → Option String → E → E
  pub xadd : String → List (String × String) → E → E

-- The queues have their next item first.
pub record AsyncLogger : Type 0 where
  pub running : Bool
  pub async_queue_size : ℕ
  pub db_queue : List Entry
  pub gcs_queue : List Upload
  pub redis_queue : List Event

abbrev pub gcs_queue_size : ℕ
gcs_queue_size = 200

-- `__init__`
abbrev pub init : ℕ → AsyncLogger
init async_queue_size = record {
  running = false;
  async_queue_size = async_queue_size;
  db_queue = [];
  gcs_queue = [];
  redis_queue = [];
}

abbrev pub start : AsyncLogger → AsyncLogger
start a = record a { running = true }

-- A worker that is in the middle of an item finishes it, and one that waits in `get` may still take
-- one; what is queued then stays where it is.
abbrev pub stop : AsyncLogger → AsyncLogger
stop a = record a { running = false }

-- `queue.Queue.put_nowait`: none for `queue.Full`. A queue of size 0 is unbounded.
abbrev pub put_nowait {ℓ} : {A : Type ℓ} → ℕ → A → List A → Option (List A)
put_nowait maxsize x xs =
    if not (maxsize == 0) && leb maxsize (length xs) then none else some (xs ++ (x ∷ []))

abbrev pub or_same {ℓ} : {A : Type ℓ} → A → Option A → A
or_same a none = a
or_same a (some b) = b

-- A full queue drops the entry.
abbrev pub log_entry : Entry → AsyncLogger → AsyncLogger
log_entry x a = record a {
  db_queue = or_same a.db_queue (put_nowait a.async_queue_size x a.db_queue);
}

abbrev pub publish_event : Event → AsyncLogger → AsyncLogger
publish_event x a = record a {
  redis_queue = or_same a.redis_queue (put_nowait a.async_queue_size x a.redis_queue);
}

unfoldable pub upload_image : Upload → AsyncLogger → Bool × AsyncLogger
upload_image x a = elim (put_nowait gcs_queue_size x a.gcs_queue) [
  | none ↦ (false, a)
  | some queue ↦ (true, record a { gcs_queue = queue })
]

abbrev pub contains : String → List String → Bool
contains s [] = false
contains s (x ∷ xs) = str_eq x s || contains s xs

abbrev pub has_pixels : Option Image → Bool
has_pixels none = false
has_pixels (some []) = false
has_pixels (some (x ∷ xs)) = true

abbrev pub pixels : Option Image → Image
pixels none = []
pixels (some face) = face

-- `recognized and name`: the name of a recognized person, where it is not empty.
abbrev pub recognized_name : Entry → Option String
recognized_name x = elim x.name [
  | none ↦ none
  | some n ↦ if x.recognized && not (str_eq n "") then some n else none
]

module _ {E : Type 0} (S : Services E) (C : Callees E) where
  abbrev pub sighting : Entry → String → Sighting
  sighting x name = record {
    name = name;
    status = x.status;
    appear_time = x.appear_time;
    camera_name = x.camera_name;
    camera_id = x.camera_id;
    proof_image = x.proof_image;
    track_id = x.track_id;
  }

  unfoldable pub process_db_entry : Entry → EntryLogger × E → EntryLogger × E
  process_db_entry x (l, e) = elim (recognized_name x) [
    | some n ↦ (log_person_entry S (sighting x n) (l, e)).1
    | none ↦
        if contains "unrecognized" x.application && has_pixels x.face_image
        then (
          l,
          (send_unrecognized_face S (pixels x.face_image) x.status x.camera_id x.camera_name
              x.face_frontality x.face_pitch (l, e)).1,
        )
        else (l, e)
  ]

  abbrev pub call_back : Option ℕ → Option String → E → E
  call_back none url e = e
  call_back (some k) url e = C.call k url e

  -- Without an image, or where the upload fails, the callback is called without a link.
  unfoldable pub process_gcs_upload : Upload → E → E
  process_gcs_upload x e = elim x.image [
    | none ↦ call_back x.callback none e
    | some image ↦
        let (url, e') = S.upload_image image x.folder x.client_slug e in call_back x.callback url e'
  ]

  unfoldable pub process_redis_event : Event → E → E
  process_redis_event x e = elim x.fields [ [] ↦ e | f ∷ fs ↦ C.xadd x.stream x.fields e ]

  -- A turn of a worker is its test of `running` and then its `get` with what follows; `get` may return
  -- after a stop, so that what stands behind the test is an operation of its own (`*_take`).
  unfoldable pub db_take : AsyncLogger × EntryLogger × E → AsyncLogger × EntryLogger × E
  db_take (a, l, e) = elim a.db_queue [
    | [] ↦ (a, l, e)
    | x ∷ xs ↦ (let (l', e') = process_db_entry x (l, e) in (record a { db_queue = xs }, l', e'))
  ]

  unfoldable pub db_worker : AsyncLogger × EntryLogger × E → AsyncLogger × EntryLogger × E
  db_worker (a, l, e) = if a.running then db_take (a, l, e) else (a, l, e)

  unfoldable pub gcs_take : AsyncLogger × E → AsyncLogger × E
  gcs_take (a, e) = elim a.gcs_queue [
    | [] ↦ (a, e)
    | x ∷ xs ↦ (record a { gcs_queue = xs }, process_gcs_upload x e)
  ]

  unfoldable pub gcs_worker : AsyncLogger × E → AsyncLogger × E
  gcs_worker (a, e) = if a.running then gcs_take (a, e) else (a, e)

  unfoldable pub redis_take : AsyncLogger × E → AsyncLogger × E
  redis_take (a, e) = elim a.redis_queue [
    | [] ↦ (a, e)
    | x ∷ xs ↦ (record a { redis_queue = xs }, process_redis_event x e)
  ]

  unfoldable pub redis_worker : AsyncLogger × E → AsyncLogger × E
  redis_worker (a, e) = if a.running then redis_take (a, e) else (a, e)
