-- ===== src/CameraEngine/Finalize.antt =====
-- src/pipeline/camera_engine.py, finalize_identities: the faces of a frame are put to the vote, tracks
-- of one person are merged, and what is found out is reported.
use lum_model_face_recogniti.Base.{
  ℕ, ◌==◌, ◌&&◌, not, Bool, true, false, Option, none, some, if◌then◌else◌, String, str_eq,
}
use lum_model_face_recogniti.ActionWorker
use lum_model_face_recogniti.ActionWorker.{Sighting, Worker, check_and_queue}
use lum_model_face_recogniti.GlobalTrack.{Value, known}
use lum_model_face_recogniti.NameMap.{find}
use lum_model_face_recogniti.CameraEngine.Images.{Image, Box, CropData, image_of, remember}
use lum_model_face_recogniti.CameraEngine.Parts.{Vision, Update, Lock, Track, Engine}
use lum_model_face_recogniti.CameraEngine.Recognition.{FaceData}
use lum_model_face_recogniti.CameraEngine.Vote.{has_text, as_crop, crops_of}

-- The frame, its number, and what the vote left of a track: its identity and the confidence.
pub record Found : Type 0 where
  pub identity : Option String
  pub identity_confidence : ℕ
  pub locked : Option Lock

abbrev pub locked_as : Lock → Found
locked_as l = record { identity = some l.name; identity_confidence = l.confidence; locked = some l }

-- Without a lock, the top candidate; an empty name is none.
abbrev pub candidate : Option (Option String × ℕ) → Found
candidate (some (some n, c)) =
    if str_eq n ""
    then record { identity = none; identity_confidence = 0; locked = none }
    else record { identity = some n; identity_confidence = c; locked = none }
candidate _ = record { identity = none; identity_confidence = 0; locked = none }

abbrev pub is_locked : Found → Bool
is_locked f = elim f.locked [ none ↦ false | some l ↦ true ]

-- Whether the register's track is another one than the track's own.
abbrev pub is_other : ℕ → Option Value → Bool
is_other g (some (known (some i))) = not (g == i)
is_other g _ = true

abbrev pub personal : Image → Track → Found → Update
personal frame t f = record {
  track_id = t.track_id;
  identity = f.identity;
  identity_locked = is_locked f;
  identity_confidence = f.identity_confidence;
  proof_image = image_of frame t.bbox;
}

module _ (V : Vision) where
  -- `_person_crop`
  abbrev pub person_of : Image → Option Box → Option Image × (ℕ × ℕ)
  person_of frame none = (none, (0, 0))
  person_of frame (some b) = V.crop_person_roi frame b

  -- An entry of `crop_history`.
  abbrev pub crop_data : Image → Track → FaceData V.Embedding → Image → CropData
  crop_data frame t d face =
      let (person, offset) = person_of frame t.bbox in
      record {
        face = face;
        bbox = t.bbox;
        person = person;
        offset = offset;
        landmarks = d.face_landmarks;
        det_score = d.det_score;
        frontality = d.frontality;
        pitch = d.pitch;
      }

-- `request_id` is the text that names camera, track and frame number.
module _ {V : Vision} {G X : Type 0} (A : ActionWorker.Outside X) (request_id : ℕ → ℕ → ℕ → String)
    (frame : Image) (frame_num : ℕ) where
  abbrev pub queued : Worker × X → Engine V G X → Engine V G X
  queued (w, x) e = record e { action_recognizer = w; outside = x }

  abbrev pub sighting_of : ℕ → String → Option Image → Engine V G X → Sighting
  sighting_of t name proof e = record {
    track_id = t;
    identity = name;
    proof_image = as_crop proof;
    user_id = find name e.name_to_id_map;
    camera_id = e.camera_id;
    frame_num = frame_num;
    request_id = request_id e.camera_id t frame_num;
  }

  abbrev pub queue_action : ℕ → Option Image → Option Lock → Engine V G X → Engine V G X
  queue_action t proof none e = e
  queue_action t proof (some l) e =
      if e.action_recognizer.enabled && has_text "activity" e.application
      then queued
          (check_and_queue A (sighting_of t l.name proof e) (e.action_recognizer, e.outside)) e
      else e

  abbrev pub remembered : Track → FaceData V.Embedding → Option Image → Engine V G X → Engine V G X
  remembered t d none e = e
  remembered t d (some face) e = record e {
    track_manager =
        V.set_crops t.track_id
          (remember frame_num (crop_data V frame t d face) (crops_of t.track_id e)) e.track_manager;
  }

  -- The state of the person, the action, and the crop of a frame with a face.
  unfoldable pub note :
      Track → FaceData V.Embedding → Option Image → Found → Engine V G X → Engine V G X
  unfolding image_of check_and_queue remember
  note t d face f e =
      let person = record e {
        state_manager = V.update_person (personal frame t f) e.state_manager;
      } in
      remembered t d face (queue_action t.track_id (image_of frame t.bbox) f.locked person)
