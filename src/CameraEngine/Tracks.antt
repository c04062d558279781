-- ===== src/CameraEngine/Tracks.antt =====
-- src/pipeline/camera_engine.py, finalize_identities: what becomes of each track of a frame, in the
-- source's order.
use lum_model_face_recogniti.Base.{
  ℕ, Bool, true, false, Option, none, some, List, [], ◌∷◌, ◌++◌, if◌then◌else◌, String,
}
use lum_model_face_recogniti.Exec.{ok, raised, Exec, pure, ◌>>=◌, ◌>>◌}
use lum_model_face_recogniti.ActionWorker
use lum_model_face_recogniti.GlobalTrack.{
  Outside, Value, known, update_global_track_identity, reassign_local_track,
}
use lum_model_face_recogniti.GlobalTrack.Adapter.{find_by_identity}
use lum_model_face_recogniti.CameraEngine.Images.{Image}
use lum_model_face_recogniti.CameraEngine.Choice.{best_person_image}
use lum_model_face_recogniti.CameraEngine.Parts.{
  Vision, State, Lock, Result, Track, Engine, find_track_with_identity, merge_tracks,
}
use lum_model_face_recogniti.CameraEngine.Recognition.{
  FaceData, about_track, tell, compute_recognition_result,
}
use lum_model_face_recogniti.CameraEngine.Vote.{Event, face_of, get, act, crops_of, vote}
use lum_model_face_recogniti.CameraEngine.Finalize.{locked_as, candidate, is_other, note}
use lum_model_face_recogniti.CameraEngine.Gone.{remove_all, run_correction}

module _ {V : Vision} {G X : Type 0} where
  abbrev pub checked_by : ℕ → Lock → Option V.Embedding → Engine V G X → Engine V G X
  checked_by t l none e = e
  checked_by t l (some v) e = record e {
    id_corrector =
        V.check_identity_consistency t v l.name (V.add_embedding t v (some l.name) e.id_corrector);
  }

  -- TIER 2
  abbrev pub checked_again : ℕ → Lock → Result V.Embedding → Engine V G X → Engine V G X
  checked_again t l r = checked_by t l (if r.face_detected then r.embedding else none)

  abbrev pub vote_unless : ℕ → Result V.Embedding → Option State → Bool → Exec (Engine V G X) Bool
  vote_unless t r prev true = pure false
  vote_unless t r prev false = vote t r prev

  abbrev pub recognized_event :
      Track → Lock → State → Option Value → Result V.Embedding → Engine V G X → Event
  recognized_event t l prev global r e = record {
    track_id = t.track_id;
    global_track_id = global;
    name = some l.name;
    recognized = true;
    confidence = l.confidence;
    signals = none;
    appear_time = prev.first_seen;
    camera_name = e.camera_name;
    camera_id = e.camera_id;
    status = e.cam_type;
    face_image = r.face_image;
    proof_image = best_person_image V.laplacian_var e.min_face_size (crops_of t.track_id e);
    application = e.application;
  }

module _ {V : Vision} {G X : Type 0} (O : Outside G) where
  abbrev pub find_global : ℕ → String → Exec (Engine V G X) (Option ℕ)
  find_global t name e =
      let (r, m) =
        find_by_identity O (record (about_track e.camera_id t) { identity = some name })
          e.global_manager in
      (r, record e { global_manager = m })

  abbrev pub publish_identity : ℕ → String → Option Value → Exec (Engine V G X) (Unit {0})
  publish_identity t name (some (known (some i))) e =
      tell O update_global_track_identity
        (record (about_track e.camera_id t) {
          global_id = i;
          identity = some name;
          identity_locked = true;
        })
        e
  publish_identity t name _ e = (ok tt, e)

  abbrev pub reassign : ℕ → ℕ → Exec (Engine V G X) (Unit {0})
  reassign t g e =
      tell O reassign_local_track (record (about_track e.camera_id t) { global_id = g }) e

  abbrev pub adopt_global : Track → String → Option ℕ → Exec (Engine V G X) (Option Value)
  adopt_global t name none = do
    publish_identity t.track_id name t.global_track_id
    pure t.global_track_id
  adopt_global t name (some g) =
      if is_other g t.global_track_id
      then (do reassign t.track_id g; pure (some (known (some g))))
      else pure t.global_track_id

  abbrev pub global_id_if : Bool → Track → String → Exec (Engine V G X) (Option Value)
  global_id_if false t name = pure t.global_track_id
  global_id_if true t name = do existing ← find_global t.track_id name; adopt_global t name existing

  -- The id that the event of a recognised person names.
  unfoldable pub reassigned : Track → String → Exec (Engine V G X) (Option Value)
  reassigned t name = do e ← get; global_id_if e.global_enabled t name

module _ {V : Vision} {G X : Type 0} (O : Outside G) (A : ActionWorker.Outside X)
    (request_id : ℕ → ℕ → ℕ → String) (frame : Image) (frame_num : ℕ) where
  abbrev pub noted :
      Track → FaceData V.Embedding → Result V.Embedding → Lock → Engine V G X → Engine V G X
  noted t d r l = note A request_id frame frame_num t d r.face_image (locked_as l)

  abbrev pub report_first :
      Track
      → FaceData V.Embedding
      → Result V.Embedding
      → Lock
      → State
      → Exec (Engine V G X) (List Event)
  report_first t d r l prev = do
    global ← reassigned O t l.name
    e ← get
    act (noted t d r l)
    pure (recognized_event t l prev global r e ∷ [])

  abbrev pub join_or_report :
      Track
      → FaceData V.Embedding
      → Result V.Embedding
      → Lock
      → State
      → Option ℕ
      → Exec (Engine V G X) (List Event)
  join_or_report t d r l prev (some existing) = do act (merge_tracks t.track_id existing); pure []
  join_or_report t d r l prev none = report_first t d r l prev

  abbrev pub lock_first :
      Track
      → FaceData V.Embedding
      → Result V.Embedding
      → Lock
      → State
      → Exec (Engine V G X) (List Event)
  lock_first t d r l prev = do
    e ← get
    join_or_report t d r l prev (find_track_with_identity l.name t.track_id e)

  abbrev pub stay_locked :
      Track → FaceData V.Embedding → Result V.Embedding → Lock → Exec (Engine V G X) (List Event)
  stay_locked t d r l = do act (checked_again t.track_id l r); act (noted t d r l); pure []

  abbrev pub locked_pass :
      Track
      → FaceData V.Embedding
      → Result V.Embedding
      → Lock
      → Option State
      → Exec (Engine V G X) (List Event)
  locked_pass t d r l none = stay_locked t d r l
  locked_pass t d r l (some prev) =
      if prev.identity_locked then stay_locked t d r l else lock_first t d r l prev

  abbrev pub open_pass :
      Track → FaceData V.Embedding → Result V.Embedding → Exec (Engine V G X) (List Event)
  open_pass t d r = do
    e ← get
    act (
        note A request_id frame frame_num t d r.face_image
          (candidate (V.get_voting_status t.track_id e.identity_manager)))
    pure []

  -- `locked["name"]` raises where the manager has no lock to tell.
  abbrev pub name_lock :
      Track
      → FaceData V.Embedding
      → Result V.Embedding
      → Option State
      → Option Lock
      → Exec (Engine V G X) (List Event)
  name_lock t d r prev none e = (raised, e)
  name_lock t d r prev (some l) e = locked_pass t d r l prev e

  -- After the vote.
  unfoldable pub settle :
      Track
      → FaceData V.Embedding
      → Result V.Embedding
      → Option State
      → Exec (Engine V G X) (List Event)
  settle t d r prev = do
    e ← get
    if V.is_identity_locked t.track_id e.identity_manager
        then name_lock t d r prev (V.get_locked_identity t.track_id e.identity_manager)
        else open_pass t d r

  abbrev pub settle_unless :
      Track
      → FaceData V.Embedding
      → Result V.Embedding
      → Option State
      → Bool
      → Exec (Engine V G X) (List Event)
  settle_unless t d r prev true = pure []
  settle_unless t d r prev false = settle t d r prev

  -- One active track.
  unfoldable pub track_pass : Track → FaceData V.Embedding → Exec (Engine V G X) (List Event)
  unfolding compute_recognition_result
  track_pass t d = do
    r ← compute_recognition_result O t.track_id d
    e ← get
    let prev = V.get_state t.track_id e.state_manager
    merged ← vote_unless t.track_id r prev (V.is_identity_locked t.track_id e.identity_manager)
    settle_unless t d r prev merged

  unfoldable pub track_all :
      List Track → List (ℕ × FaceData V.Embedding) → Exec (Engine V G X) (List Event)
  unfolding track_pass
  track_all [] ds = pure []
  track_all (t ∷ ts) ds = do
    es ← track_pass t (face_of t.track_id ds)
    rest ← track_all ts ds
    pure (es ++ rest)

  unfoldable pub finalize_identities :
      List Track → List ℕ → List (ℕ × FaceData V.Embedding) → Exec (Engine V G X) (List Event)
  unfolding track_all remove_all run_correction
  finalize_identities active removed embeddings_map = do
    recognized ← track_all active embeddings_map
    gone ← remove_all O removed
    act run_correction
    pure (recognized ++ gone)
