-- ===== src/CameraEngine/Parts.antt =====
-- src/pipeline/camera_engine.py: the trackers and managers that a camera engine calls, what it keeps
-- itself, how it looks for a track (_find_track_with_identity) and merges two (_merge_tracks).
use lum_model_face_recogniti.Base.{
  ℕ, ◌==◌, ◌&&◌, ◌++◌, Bool, false, Option, none, some, List, [], ◌∷◌, if◌then◌else◌, String,
  str_eq,
}
use lum_model_face_recogniti.ActionWorker.{Worker}
use lum_model_face_recogniti.GlobalTrack.{Value}
use lum_model_face_recogniti.GlobalTrack.Adapter.{Manager}
use lum_model_face_recogniti.NameMap.{Names}
use lum_model_face_recogniti.CameraEngine.Images.{ℤ, Image, Box, History, put_all}

-- Key points are kept by frame or as a list; the keys and the points are numbered.
pub data Keypoints : Type 0 where
  by_frame : (points : List (ℕ × ℕ)) → Keypoints
  listed : (points : List ℕ) → Keypoints

pub record TrackData : Type 0 where
  pub detections : Option (List ℕ)
  pub keypoints : Option Keypoints

-- Similarities and confidences are in thousandths.
pub record Lock : Type 0 where
  pub name : String
  pub confidence : ℕ

pub record State : Type 0 where
  pub track_id : ℕ
  pub identity : Option String
  pub identity_locked : Bool
  pub first_seen : ℕ

pub record Update : Type 0 where
  pub track_id : ℕ
  pub identity : Option String
  pub identity_locked : Bool
  pub identity_confidence : ℕ
  pub proof_image : Option Image

-- What _compute_recognition_result returns.
pub record Result (V : Type 0) : Type 0 where
  pub face_detected : Bool
  pub recognized : Bool
  pub name : Option String
  pub similarity : ℤ
  pub embedding : Option V
  pub face_image : Option Image

-- The package lum_vision, with the states of its objects. Of `crop_person_roi` the padding is fixed.
pub record Vision : Type 1 where
  pub Embedding : Type 0
  pub PersonTracker : Type 0
  pub PersonTrackManager : Type 0
  pub IdentityManager : Type 0
  pub IDSwitchCorrector : Type 0
  pub PersonStateManager : Type 0
  pub best_match : List Embedding → Embedding → ℕ × ℤ
  pub crop_person_roi : Image → Box → Option Image × (ℕ × ℕ)
  pub laplacian_var : Image → ℕ
  -- `get_track_info` says whether there is any.
  pub get_track_info : ℕ → PersonTracker → Bool
  pub del_active : ℕ → PersonTracker → PersonTracker
  pub get_track_data : ℕ → PersonTrackManager → Option TrackData
  pub set_track_data : ℕ → TrackData → PersonTrackManager → PersonTrackManager
  pub get_crops : ℕ → PersonTrackManager → Option History
  pub set_crops : ℕ → History → PersonTrackManager → PersonTrackManager
  pub remove_track : ℕ → PersonTrackManager → PersonTrackManager
  pub is_identity_locked : ℕ → IdentityManager → Bool
  pub get_locked_identity : ℕ → IdentityManager → Option Lock
  pub update_identity : ℕ → Result Embedding → IdentityManager → IdentityManager
  -- The top candidate and its similarity.
  pub get_voting_status : ℕ → IdentityManager → Option (Option String × ℕ)
  pub reset_identity : ℕ → IdentityManager → IdentityManager
  pub add_embedding : ℕ → Embedding → Option String → IDSwitchCorrector → IDSwitchCorrector
  pub check_identity_consistency : ℕ → Embedding → String → IDSwitchCorrector → IDSwitchCorrector
  pub reset_embeddings : ℕ → IDSwitchCorrector → IDSwitchCorrector
  pub should_run_correction : IDSwitchCorrector → Bool × IDSwitchCorrector
  pub find_duplicate_tracks : IDSwitchCorrector → List (ℕ × ℕ) × IDSwitchCorrector
  pub get_state : ℕ → PersonStateManager → Option State
  pub get_all_states : PersonStateManager → List State
  pub update_person : Update → PersonStateManager → PersonStateManager
  pub remove_person : ℕ → PersonStateManager → PersonStateManager

-- A track that is active; `global_track_id` is none until one was assigned.
pub record Track : Type 0 where
  pub track_id : ℕ
  pub bbox : Option Box
  pub global_track_id : Option Value

abbrev pub put_point : ℕ → ℕ → List (ℕ × ℕ) → List (ℕ × ℕ)
put_point k p [] = (k, p) ∷ []
put_point k p ((x, old) ∷ ps) = if x == k then (x, p) ∷ ps else (x, old) ∷ put_point k p ps

-- `update`
abbrev pub put_points : List (ℕ × ℕ) → List (ℕ × ℕ) → List (ℕ × ℕ)
put_points [] ps = ps
put_points ((k, p) ∷ new) ps = put_points new (put_point k p ps)

abbrev pub merged_keypoints : Option Keypoints → Option Keypoints → Option Keypoints
merged_keypoints (some (by_frame s)) (some (by_frame t)) = some (by_frame (put_points s t))
merged_keypoints (some (listed s)) (some (listed t)) = some (listed (t ++ s))
merged_keypoints s t = t

abbrev pub merged_detections : Option (List ℕ) → Option (List ℕ) → Option (List ℕ)
merged_detections (some s) (some t) = some (t ++ s)
merged_detections s t = t

abbrev pub merged_data : TrackData → TrackData → TrackData
merged_data s t = record {
  detections = merged_detections s.detections t.detections;
  keypoints = merged_keypoints s.keypoints t.keypoints;
}

module _ (V : Vision) (G X : Type 0) where
  pub record Matcher : Type 0 where
    pub db_names : List String
    pub db_embs : List V.Embedding

  -- The global track manager and the action worker are given, as camera_tasks.py gives them; `outside`
  -- is what the worker calls.
  pub record Engine : Type 0 where
    pub camera_id : ℕ
    pub camera_name : String
    pub cam_type : String
    pub application : List String
    pub match_threshold : ℕ
    pub min_face_size : ℕ
    pub unrecognized_frontality_min : ℕ
    pub unrecognized_pitch_min : ℕ
    pub name_to_id_map : Names
    pub face_recognizer : Matcher
    pub global_enabled : Bool
    pub global_manager : Manager G
    pub action_recognizer : Worker
    pub outside : X
    pub person_tracker : V.PersonTracker
    pub track_manager : V.PersonTrackManager
    pub identity_manager : V.IdentityManager
    pub id_corrector : V.IDSwitchCorrector
    pub state_manager : V.PersonStateManager

module _ (V : Vision) where
  abbrev pub is_named : String → Option String → Bool
  is_named n none = false
  is_named n (some m) = str_eq m n

  abbrev pub is_match : String → V.PersonTracker → State → Bool
  is_match n tracker s =
      s.identity_locked && (is_named n s.identity && V.get_track_info s.track_id tracker)

  -- `_find_track_with_identity`, with a track to leave out.
  abbrev pub find_in : String → ℕ → V.PersonTracker → List State → Option ℕ
  find_in n excluded tracker [] = none
  find_in n excluded tracker (s ∷ ss) =
      let rest = find_in n excluded tracker ss in
      if s.track_id == excluded
      then rest
      else if is_match n tracker s
      then some s.track_id
      else rest

  abbrev pub merge_both :
      ℕ → Option TrackData → Option TrackData → V.PersonTrackManager → V.PersonTrackManager
  merge_both target (some s) (some t) m = V.set_track_data target (merged_data s t) m
  merge_both target _ _ m = m

  abbrev pub merge_crops :
      ℕ → Option History → Option History → V.PersonTrackManager → V.PersonTrackManager
  merge_crops target none t m = m
  merge_crops target (some s) none m = V.set_crops target (put_all s []) m
  merge_crops target (some s) (some t) m = V.set_crops target (put_all s t) m

  -- What is known of the source goes to the target.
  unfoldable pub transferred : ℕ → ℕ → V.PersonTrackManager → V.PersonTrackManager
  transferred source target m =
      let joined = merge_both target (V.get_track_data source m) (V.get_track_data target m) m in
      merge_crops target (V.get_crops source joined) (V.get_crops target joined) joined

module _ {V : Vision} {G X : Type 0} where
  unfoldable pub find_track_with_identity : String → ℕ → Engine V G X → Option ℕ
  find_track_with_identity n excluded e =
      find_in V n excluded e.person_tracker (V.get_all_states e.state_manager)

  unfoldable pub merge_tracks : ℕ → ℕ → Engine V G X → Engine V G X
  unfolding transferred
  merge_tracks source target e = record e {
    track_manager = V.remove_track source (transferred V source target e.track_manager);
    state_manager = V.remove_person source e.state_manager;
    identity_manager = V.reset_identity source e.identity_manager;
    id_corrector = V.reset_embeddings source e.id_corrector;
    person_tracker = V.del_active source e.person_tracker;
  }
