-- ===== src/Tests/Reloads.antt =====
-- A reload that renames one camera, adds one and removes one.
use lum_model_face_recogniti.Base.{ℕ, ◌≡◌, true, false, some, List, [], ◌∷◌, refl, String}
use lum_model_face_recogniti.Exec.{ok, raised}
use lum_model_face_recogniti.PipelineEngine.{
  CameraConfig, Outside, Engine, camera_ids, reload_camera_configs,
}
use lum_model_face_recogniti.PipelineEngine.Settings.{setting, setting-reload_camera_configs}
use lum_model_face_recogniti.PipelineEngine.Shown.{IsShown, reload_camera_configs-IsShown}

abbrev camera : ℕ → String → CameraConfig
camera k url = record { camera_id = some k; settings = ("stream_url", url) ∷ [] }

abbrev given : List CameraConfig
given = camera 2 "rtsp://edge/lobby" ∷ camera 3 "rtsp://edge/gate" ∷ []

-- The Redis client raises in the publication.
abbrev outside : Outside ℕ
outside = record { load_cameras_from_db = λ e. (ok given, e); publish = λ e. (raised, e) }

abbrev engine : Engine ℕ
engine = record {
  camera_configs = camera 1 "rtsp://edge/door" ∷ camera 2 "rtsp://edge/hall" ∷ [];
  metrics_enabled = true;
  dashboard = 1 ∷ 2 ∷ [];
  frame_state = 2 ∷ 1 ∷ [];
  outside = 0;
}

reload_camera_configs_test :
    let r = reload_camera_configs outside false engine in
    (r.0 ≡ true) × (r.1.dashboard ≡ 2 ∷ 3 ∷ []) × (r.1.frame_state ≡ 2 ∷ [])
unfolding reload_camera_configs
reload_camera_configs_test = (refl, refl, refl)

engine-IsShown : IsShown engine.metrics_enabled engine.dashboard engine.camera_configs
unfolding camera_ids
engine-IsShown = refl

reload_camera_configs-IsShown_example :
    let e' = (reload_camera_configs outside false engine).1 in
    IsShown e'.metrics_enabled e'.dashboard e'.camera_configs
reload_camera_configs-IsShown_example =
    reload_camera_configs-IsShown outside false engine engine-IsShown

setting-reload_camera_configs_example :
    let r = reload_camera_configs outside false engine in
    (setting (some 2) "stream_url" r.1.camera_configs ≡ setting (some 2) "stream_url" given)
    × (r.0 ≡ true)
unfolding camera_ids
setting-reload_camera_configs_example =
    setting-reload_camera_configs outside (some 2) "stream_url" false given 0 engine refl refl refl
