-- ===== src/CameraEngine/Recognition.antt =====
-- src/pipeline/camera_engine.py: whose face a face is (_compute_recognition_result).
use lum_model_face_recogniti.Base.{
  ℕ, zero, suc, Bool, true, false, Option, none, some, List, [], ◌∷◌, leb, if◌then◌else◌, String,
}
use lum_model_face_recogniti.Exec.{Outcome, ok, raised, Exec, pure, ◌>>◌}
use lum_model_face_recogniti.GlobalTrack.{
  Outside, Arguments, Method, on_face_detected, on_face_not_visible,
}
use lum_model_face_recogniti.GlobalTrack.Adapter.{notify}
use lum_model_face_recogniti.CameraEngine.Images.{ℤ, pos, negsuc, Image}
use lum_model_face_recogniti.CameraEngine.Parts.{Vision, Result, Engine}

-- An entry of `embeddings_map`; a track without one has `no_face`.
pub record FaceData (V : Type 0) : Type 0 where
  pub embedding : Option V
  pub face_image : Option Image
  pub face_detected : Bool
  pub det_score : ℕ
  pub face_landmarks : Option (List ℕ)
  pub frontality : Option ℕ
  pub pitch : Option ℕ

abbrev pub no_face : {V : Type 0} → FaceData V
no_face = record {
  embedding = none;
  face_image = none;
  face_detected = false;
  det_score = 0;
  face_landmarks = none;
  frontality = none;
  pitch = none;
}

-- `db_names[i]`
abbrev pub name_at : ℕ → List String → Outcome String
name_at i [] = raised
name_at zero (n ∷ ns) = ok n
name_at (suc i) (n ∷ ns) = name_at i ns

-- `n >= threshold`
abbrev pub reaches : ℕ → ℤ → Bool
reaches threshold (pos n) = leb threshold n
reaches threshold (negsuc n) = false

abbrev pub unrecognized : {V : Type 0} → FaceData V → V → ℤ → Result V
unrecognized d v similarity = record {
  face_detected = true;
  recognized = false;
  name = none;
  similarity = similarity;
  embedding = some v;
  face_image = d.face_image;
}

-- What is told of a track; a method reads the arguments that it takes. For on_face_detected the quality
-- stands for the confidence, and whether the face was recognised for the lock.
abbrev pub about_track : ℕ → ℕ → Arguments
about_track camera_id track_id = record {
  camera_id = camera_id;
  local_track_id = track_id;
  person_crop = none;
  detection_confidence = 0;
  frame_num = 0;
  identity = none;
  identity_locked = false;
  global_id = 0;
}

module _ {V : Vision} {G X : Type 0} (O : Outside G) where
  -- A call of the global track manager that no answer is waited for.
  unfoldable pub tell : Method → Arguments → Exec (Engine V G X) (Unit {0})
  unfolding notify
  tell method a e =
      let (r, m) = notify O method a e.global_manager in (r, record e { global_manager = m })

  abbrev pub tell_face :
      ℕ → FaceData V.Embedding → Option String → Bool → Exec (Engine V G X) (Unit {0})
  tell_face track_id d identity recognized e =
      tell on_face_detected
        (record (about_track e.camera_id track_id) {
          detection_confidence = d.det_score;
          identity = identity;
          identity_locked = recognized;
        })
        e

  abbrev pub matched :
      ℕ
      → FaceData V.Embedding
      → V.Embedding
      → ℤ
      → Outcome String
      → Exec (Engine V G X) (Result V.Embedding)
  matched track_id d v similarity raised e = (raised, e)
  matched track_id d v similarity (ok name) e =
      (do
        tell_face track_id d (some name) true
        pure (record (unrecognized d v similarity) { recognized = true; name = some name }))
        e

  abbrev pub unmatched :
      ℕ → FaceData V.Embedding → V.Embedding → ℤ → Exec (Engine V G X) (Result V.Embedding)
  unmatched track_id d v similarity = do
    tell_face track_id d none false
    pure (unrecognized d v similarity)

  -- What the best match is worth.
  abbrev pub judged :
      List String
      → ℕ
      → ℕ
      → FaceData V.Embedding
      → V.Embedding
      → ℕ × ℤ
      → Exec (Engine V G X) (Result V.Embedding)
  judged db_names threshold track_id d v (best_idx, best_similarity) =
      if reaches threshold best_similarity
      then matched track_id d v best_similarity (name_at best_idx db_names)
      else unmatched track_id d v best_similarity

  -- The matcher is read once.
  abbrev pub recognize_with :
      List String
      → List V.Embedding
      → ℕ
      → ℕ
      → FaceData V.Embedding
      → V.Embedding
      → Exec (Engine V G X) (Result V.Embedding)
  recognize_with db_names [] threshold track_id d v = unmatched track_id d v (pos 0)
  recognize_with db_names (x ∷ xs) threshold track_id d v =
      judged db_names threshold track_id d v (V.best_match (x ∷ xs) v)

  abbrev pub faceless : ℕ → Bool → Exec (Engine V G X) (Result V.Embedding)
  faceless track_id face_detected e =
      (do
        tell on_face_not_visible (about_track e.camera_id track_id)
        pure (record {
          face_detected = face_detected;
          recognized = false;
          name = none;
          similarity = pos 0;
          embedding = none;
          face_image = none;
        }))
        e

  abbrev pub recognition_of :
      ℕ
      → FaceData V.Embedding
      → Bool
      → Option V.Embedding
      → Exec (Engine V G X) (Result V.Embedding)
  recognition_of track_id d true (some v) e =
      recognize_with e.face_recognizer.db_names e.face_recognizer.db_embs e.match_threshold track_id
        d v e
  recognition_of track_id d detected v e = faceless track_id detected e

  unfoldable pub compute_recognition_result :
      ℕ → FaceData V.Embedding → Exec (Engine V G X) (Result V.Embedding)
  unfolding tell
  compute_recognition_result track_id d = recognition_of track_id d d.face_detected d.embedding
