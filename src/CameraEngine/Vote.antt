-- ===== src/CameraEngine/Vote.antt =====
-- src/pipeline/camera_engine.py, finalize_identities: the events, and the vote that a face of a track
-- is put to.
use lum_model_face_recogniti.Base.{
  ℕ, ◌==◌, not, Bool, true, false, Option, none, some, List, [], ◌∷◌, ◌++◌, if◌then◌else◌, String,
  str_eq,
}
use lum_model_face_recogniti.Exec.{ok, Exec, pure, modify, ◌>>=◌, ◌>>◌}
use lum_model_face_recogniti.ActionWorker.{Crop}
use lum_model_face_recogniti.GlobalTrack.{Value}
use lum_model_face_recogniti.CameraEngine.Images.{Image, History, height_of, width_of}
use lum_model_face_recogniti.CameraEngine.Choice.{Signals}
use lum_model_face_recogniti.CameraEngine.Parts.{
  Vision, State, Result, Engine, find_track_with_identity, merge_tracks,
}
use lum_model_face_recogniti.CameraEngine.Recognition.{FaceData, no_face}

-- An attendance event. The signals of the orientation are those of a person who was not recognised.
pub record Event : Type 0 where
  pub track_id : ℕ
  pub global_track_id : Option Value
  pub name : Option String
  pub recognized : Bool
  pub confidence : ℕ
  pub signals : Option Signals
  pub appear_time : ℕ
  pub camera_name : String
  pub camera_id : ℕ
  pub status : String
  pub face_image : Option Image
  pub proof_image : Option Image
  pub application : List String

abbrev pub face_of : {V : Type 0} → ℕ → List (ℕ × FaceData V) → FaceData V
face_of k [] = no_face
face_of k ((x, d) ∷ ds) = if x == k then d else face_of k ds

abbrev pub has_text : String → List String → Bool
has_text k [] = false
has_text k (x ∷ xs) = if str_eq x k then true else has_text k xs

abbrev pub flat : Image → List ℕ
flat [] = []
flat (row ∷ rows) = row ++ flat rows

abbrev pub as_crop : Option Image → Option Crop
as_crop none = none
as_crop (some i) = some (record { height = height_of i; width = width_of i; pixels = flat i })

abbrev pub is_some : {A : Type 0} → Option A → Bool
is_some none = false
is_some (some a) = true

-- The state is there and not locked.
abbrev pub is_open : Option State → Bool
is_open none = false
is_open (some s) = not s.identity_locked

abbrev pub recognized_name : {V : Type 0} → Result V → Option String
recognized_name r = if r.recognized then r.name else none

module _ {V : Vision} {G X : Type 0} where
  abbrev pub get : Exec (Engine V G X) (Engine V G X)
  get e = (ok e, e)

  abbrev pub act : (Engine V G X → Engine V G X) → Exec (Engine V G X) (Unit {0})
  act f = modify f tt

  abbrev pub embedded : ℕ → Option V.Embedding → Option String → Engine V G X → Engine V G X
  embedded t none n e = e
  embedded t (some v) n e = record e { id_corrector = V.add_embedding t v n e.id_corrector }

  -- The track that the person was on before, for a new track.
  abbrev pub returning : ℕ → Option String → Engine V G X → Option ℕ
  returning t none e = none
  returning t (some n) e = find_track_with_identity n t e

  abbrev pub voted : ℕ → Result V.Embedding → Engine V G X → Engine V G X
  voted t r e = record e { identity_manager = V.update_identity t r e.identity_manager }

  abbrev pub join_or_vote : ℕ → Result V.Embedding → Option ℕ → Exec (Engine V G X) Bool
  join_or_vote t r (some existing) = modify (merge_tracks existing t) true
  join_or_vote t r none = modify (voted t r) false

  -- A face of a track that is not locked; true where the pass of the track ends here.
  unfoldable pub vote : ℕ → Result V.Embedding → Option State → Exec (Engine V G X) Bool
  unfolding find_track_with_identity merge_tracks
  vote t r prev =
      if r.face_detected
      then (do
        act (embedded t r.embedding (recognized_name r))
        e ← get
        join_or_vote t r (if is_some prev then none else returning t (recognized_name r) e))
      else pure false

  abbrev pub crops_of : ℕ → Engine V G X → History
  crops_of t e = elim (V.get_crops t e.track_manager) [ none ↦ [] | some h ↦ h ]
