-- ===== src/CameraEngine/Gone.antt =====
-- src/pipeline/camera_engine.py, finalize_identities: the tracks that the tracker removed, and the
-- tracks that the correction joins.
use lum_model_face_recogniti.Base.{
  ℕ, ◌&&◌, Bool, true, false, Option, none, some, List, [], ◌∷◌, ◌++◌, ltb, if◌then◌else◌,
}
use lum_model_face_recogniti.Exec.{Exec, pure, ◌>>=◌, ◌>>◌}
use lum_model_face_recogniti.GlobalTrack.{Outside, Value}
use lum_model_face_recogniti.GlobalTrack.Adapter.{Key, get_global_id, forget_track}
use lum_model_face_recogniti.CameraEngine.Images.{Image}
use lum_model_face_recogniti.CameraEngine.Choice.{
  Signals, pick_best_signals, unrecognized_card_image,
}
use lum_model_face_recogniti.CameraEngine.Parts.{Vision, State, Engine, merge_tracks}
use lum_model_face_recogniti.CameraEngine.Vote.{Event, get, act, crops_of}

module _ {V : Vision} {G X : Type 0} where
  -- Two tracks that the correction found to be one; the smaller id stays.
  abbrev pub correct : ℕ × ℕ → Engine V G X → Engine V G X
  correct (a, b) e =
      let keep = if ltb a b then a else b in
      let merge = if ltb a b then b else a in
      if V.get_track_info keep e.person_tracker && V.get_track_info merge e.person_tracker
      then merge_tracks merge keep e
      else e

  abbrev pub correct_all : List (ℕ × ℕ) → Engine V G X → Engine V G X
  correct_all [] e = e
  correct_all (d ∷ ds) e = correct_all ds (correct d e)

  abbrev pub corrected_by : List (ℕ × ℕ) × V.IDSwitchCorrector → Engine V G X → Engine V G X
  corrected_by (ds, c) e = correct_all ds (record e { id_corrector = c })

  abbrev pub run_if : Bool × V.IDSwitchCorrector → Engine V G X → Engine V G X
  run_if (false, c) e = record e { id_corrector = c }
  run_if (true, c) e = corrected_by (V.find_duplicate_tracks c) e

  -- The batch correction.
  unfoldable pub run_correction : Engine V G X → Engine V G X
  run_correction e = run_if (V.should_run_correction e.id_corrector) e

  abbrev pub unrecognized_event : ℕ → State → Option Value → Signals → Image → Engine V G X → Event
  unrecognized_event t s global signals card e = record {
    track_id = t;
    global_track_id = global;
    name = none;
    recognized = false;
    confidence = 0;
    signals = some signals;
    appear_time = s.first_seen;
    camera_name = e.camera_name;
    camera_id = e.camera_id;
    status = e.cam_type;
    face_image = some card;
    proof_image = none;
    application = e.application;
  }

  abbrev pub key_of : ℕ → Engine V G X → Key
  key_of t e = record { camera_id = e.camera_id; local_track_id = t }

module _ {V : Vision} {G X : Type 0} (O : Outside G) where
  abbrev pub forget_global : ℕ → Engine V G X → Engine V G X
  forget_global t e =
      if e.global_enabled
      then record e { global_manager = forget_track O (key_of t e) e.global_manager }
      else e

  -- A track that the tracker removed is forgotten.
  abbrev pub forget : ℕ → Engine V G X → Engine V G X
  forget t e =
      let g = forget_global t e in
      record g {
        track_manager = V.remove_track t g.track_manager;
        state_manager = V.remove_person t g.state_manager;
        identity_manager = V.reset_identity t g.identity_manager;
        id_corrector = V.reset_embeddings t g.id_corrector;
      }

  abbrev pub known_global : ℕ → Engine V G X → Option Value
  known_global t e =
      if e.global_enabled then get_global_id O (key_of t e) e.global_manager else none

  abbrev pub carded : ℕ → State → Signals → Engine V G X → List Event
  carded t s signals e = elim (unrecognized_card_image signals.crop) [
    | none ↦ []
    | some card ↦ unrecognized_event t s (known_global t e) signals card e ∷ []
  ]

  -- A removed track that was never locked is reported, where there is a picture of it.
  abbrev pub unrecognized_events : ℕ → Option State → Engine V G X → List Event
  unrecognized_events t none e = []
  unrecognized_events t (some s) e =
      let signals =
        pick_best_signals e.unrecognized_frontality_min e.unrecognized_pitch_min (crops_of t e) in
      if s.identity_locked then [] else carded t s signals e

  unfoldable pub remove_pass : ℕ → Exec (Engine V G X) (List Event)
  remove_pass t = do
    e ← get
    act (forget t)
    pure (unrecognized_events t (V.get_state t e.state_manager) e)

  unfoldable pub remove_all : List ℕ → Exec (Engine V G X) (List Event)
  unfolding remove_pass
  remove_all [] = pure []
  remove_all (t ∷ ts) = do es ← remove_pass t; rest ← remove_all ts; pure (es ++ rest)
