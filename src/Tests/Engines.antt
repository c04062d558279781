-- ===== src/Tests/Engines.antt =====
-- Two tracks with the face of one person: the first is locked and reported, the second joins it.
use lum_model_face_recogniti.Base.{
  ℕ, ◌≡◌, true, false, Option, none, some, List, [], ◌∷◌, length, refl, String,
}
use lum_model_face_recogniti.Exec.{Outcome, ok, raised}
use lum_model_face_recogniti.ActionWorker
use lum_model_face_recogniti.GlobalTrack.{Outside, new_client}
use lum_model_face_recogniti.GlobalTrack.Adapter.{new_manager}
use lum_model_face_recogniti.CameraEngine.Parts.{Engine, Track}
use lum_model_face_recogniti.CameraEngine.Recognition.{FaceData}
use lum_model_face_recogniti.CameraEngine.Vote.{Event, vote}
use lum_model_face_recogniti.CameraEngine.Finalize.{note}
use lum_model_face_recogniti.CameraEngine.Tracks.{
  settle, reassigned, track_pass, finalize_identities,
}
use lum_model_face_recogniti.CameraEngine.Reported.{AreReports, track_pass-AreReports}
use lum_model_face_recogniti.CameraEngine.Sound.{IsSound}
use lum_model_face_recogniti.CameraEngine.Unique.{finalize_identities-IsSound}
use lum_model_face_recogniti.Tests.Vision.{vision, documented, empty-IsSound, get_state}

abbrev register : Outside ℕ
register = record {
  write_crop = λ c crop e. (raised, e);
  apply_async = λ m p t e. (ok 4, e);
  get = λ k t e. (raised, e);
  forget = λ k e. (raised, e);
  on_fallback = λ e. (ok tt, e);
}

abbrev actions : ActionWorker.Outside ℕ
actions = record {
  now = λ e. 0;
  total_timeouts = λ e. 0;
  recognize = λ c m e. (raised, e);
  record_metric = λ s e. e;
  upload_image = λ c a e. (false, e);
  delay = λ a url e. (ok tt, e);
  callback = λ id r e. (raised, e);
  reserve = λ i e. (true, e);
  cancel = λ i e. e;
}

abbrev engine : Engine vision ℕ ℕ
engine = record {
  camera_id = 7;
  camera_name = "Door";
  cam_type = "IN";
  application = "attendance" ∷ [];
  match_threshold = 300;
  min_face_size = 150;
  unrecognized_frontality_min = 600;
  unrecognized_pitch_min = 400;
  name_to_id_map = ("Ann", 5) ∷ [];
  face_recognizer = record { db_names = "Ann" ∷ "Bob" ∷ []; db_embs = 0 ∷ 1 ∷ [] };
  global_enabled = false;
  global_manager = new_manager register (new_client 1000 1500 30000) 0;
  action_recognizer = record {
    enabled = false;
    client_slug = none;
    has_async_logger = true;
    max_queue_size = 1;
    min_crop_height = 0;
    min_crop_width = 0;
    min_crop_area = 0;
    inference_queue = [];
    result_callbacks = [];
    running = true;
    total_queued = 0;
    total_dropped = 0;
    total_posted = 0;
    total_too_small = 0;
  };
  outside = 0;
  person_tracker = 1 ∷ 2 ∷ [];
  track_manager = tt;
  identity_manager = λ u. (0, none);
  id_corrector = tt;
  state_manager = [];
}

abbrev track : ℕ → Track
track t = record { track_id = t; bbox = none; global_track_id = none }

abbrev face : FaceData ℕ
face = record {
  embedding = some 0;
  face_image = none;
  face_detected = true;
  det_score = 800;
  face_landmarks = none;
  frontality = none;
  pitch = none;
}

abbrev faces : List (ℕ × FaceData ℕ)
faces = (1, face) ∷ (2, face) ∷ []

abbrev id_of : ℕ → ℕ → ℕ → String
id_of c t n = "id"

-- The call for a frame with both tracks, and the engine that it leaves.
abbrev run : Engine vision ℕ ℕ → Outcome (List Event) × Engine vision ℕ ℕ
run = finalize_identities register actions id_of [] 12 (track 1 ∷ track 2 ∷ []) [] faces

abbrev names : Outcome (List Event) → List (Option String)
names raised = []
names (ok []) = []
names (ok (e ∷ es)) = e.name ∷ names (ok es)

-- The second frame locks the first track; the second track then is merged into it.
finalize_identities_test :
    let (r, e) = run (run engine).1 in
    (names r ≡ some "Ann" ∷ []) × (get_state 2 e.state_manager ≡ none) × (e.person_tracker ≡ 1 ∷ [])
unfolding finalize_identities vote settle note reassigned
finalize_identities_test = (refl, refl, refl)

finalize_identities-IsSound_example :
    let e = (run engine).1 in
    IsSound documented none e.person_tracker e.identity_manager e.state_manager
finalize_identities-IsSound_example =
    finalize_identities-IsSound documented register actions id_of [] 12 (track 1 ∷ track 2 ∷ []) []
      faces engine (empty-IsSound (1 ∷ 2 ∷ []))

abbrev events_of : Outcome (List Event) → List Event
events_of raised = []
events_of (ok es) = es

-- The pass of the first track in the second frame.
abbrev pass : Outcome (List Event) × Engine vision ℕ ℕ
pass = track_pass register actions id_of [] 12 (track 1) face (run engine).1

pass_ok : pass ≡ (ok (events_of pass.0), pass.1)
unfolding track_pass finalize_identities vote settle note reassigned
pass_ok = refl

pass_reports : length (events_of pass.0) ≡ 1
unfolding track_pass finalize_identities vote settle note reassigned
pass_reports = refl

track_pass-AreReports_example :
    AreReports vision 1
      (get_state 1 (run engine).1.state_manager)
      (events_of pass.0)
      pass.1.state_manager
track_pass-AreReports_example =
    track_pass-AreReports documented register actions id_of [] 12 (track 1) face (run engine).1
      pass.1 (events_of pass.0) pass_ok
