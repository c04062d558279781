-- ===== src/PipelineEngine.antt =====
-- src/pipeline/engine.py, reload_camera_configs: the cameras of the main process after a change of their
-- configuration, the cameras that the dashboard shows, and what the metrics keep of each camera.
pub mod Ids
pub mod Settings
pub mod Shown
use lum_model_face_recogniti.Base.{
  ℕ, ◌==◌, ◌&&◌, ◌||◌, not, Bool, true, false, Option, none, some, List, [], ◌∷◌, if◌then◌else◌,
}
use lum_model_face_recogniti.Exec.{Outcome, ok, raised, Exec}
use lum_model_face_recogniti.DecodeWorker.{Config, synced}

-- A configuration that the loader returns: its `camera_id`, and the other keys.
pub record CameraConfig : Type 0 where
  pub camera_id : Option ℕ
  pub settings : Config

abbrev pub same_id : Option ℕ → Option ℕ → Bool
same_id none none = true
same_id (some a) (some b) = a == b
same_id _ _ = false

abbrev pub has_id : Option ℕ → List CameraConfig → Bool
has_id k [] = false
has_id k (c ∷ cs) = same_id c.camera_id k || has_id k cs

-- Whether each camera of the first list is in the second.
abbrev pub is_within : List CameraConfig → List CameraConfig → Bool
is_within [] ds = true
is_within (c ∷ cs) ds = has_id c.camera_id ds && is_within cs ds

-- `old_ids == new_ids`, of sets.
abbrev pub same_ids : List CameraConfig → List CameraConfig → Bool
same_ids cs ds = is_within cs ds && is_within ds cs

-- `_camera_ids`, which raises where an id is missing or there twice.
abbrev pub cons_id : Option ℕ → Bool → Outcome (List ℕ) → Outcome (List ℕ)
cons_id (some k) false (ok ks) = ok (k ∷ ks)
cons_id _ _ _ = raised

unfoldable pub camera_ids : List CameraConfig → Outcome (List ℕ)
camera_ids [] = ok []
camera_ids (c ∷ cs) = cons_id c.camera_id (has_id c.camera_id cs) (camera_ids cs)

-- The database, and the call of the Redis client's publish with CAMERA_CONFIG_RELOAD; both may raise.
pub record Outside (E : Type 0) : Type 0 where
  pub load_cameras_from_db : Exec E (List CameraConfig)
  pub publish : Exec E (Unit {0})

-- `dashboard` has the cameras that the dashboard and its store show, `frame_state` those that the
-- collector of the metrics keeps something of.
pub record Engine (E : Type 0) : Type 0 where
  pub camera_configs : List CameraConfig
  pub metrics_enabled : Bool
  pub dashboard : List ℕ
  pub frame_state : List ℕ
  pub outside : E

-- A configuration that is there is brought up to date in place.
abbrev pub updated : CameraConfig → CameraConfig → CameraConfig
updated new old = record { camera_id = new.camera_id; settings = synced new.settings old.settings }

abbrev pub update_first : CameraConfig → List CameraConfig → List CameraConfig
update_first new [] = []
update_first new (old ∷ cs) =
    if same_id old.camera_id new.camera_id then updated new old ∷ cs else old ∷ update_first new cs

unfoldable pub update_all : List CameraConfig → List CameraConfig → List CameraConfig
unfolding synced
update_all [] cs = cs
update_all (new ∷ news) cs = update_all news (update_first new cs)

-- `forget_camera`
abbrev pub forget_camera : Option ℕ → List ℕ → List ℕ
forget_camera k [] = []
forget_camera k (x ∷ xs) =
    let rest = forget_camera k xs in if same_id (some x) k then rest else x ∷ rest

-- For the cameras of the first list that are not in the second.
abbrev pub forget_removed : List CameraConfig → List CameraConfig → List ℕ → List ℕ
forget_removed [] news xs = xs
forget_removed (c ∷ cs) news xs =
    let rest = forget_removed cs news xs in
    if has_id c.camera_id news then rest else forget_camera c.camera_id rest

module _ {E : Type 0} (O : Outside E) where
  abbrev pub is_sent : Outcome (Unit {0}) → Bool
  is_sent (ok u) = true
  is_sent raised = false

  -- `RedisClient.publish`: false where the client raises.
  unfoldable pub redis_publish : E → Bool × E
  redis_publish x = let (o, y) = O.publish x in (is_sent o, y)

  -- What the publication answers is not looked at.
  abbrev pub notified : Engine E → Bool × Engine E
  notified e = (true, record e { outside = (redis_publish e.outside).1 })

  abbrev pub shown : List ℕ → List CameraConfig → List CameraConfig → Engine E → Engine E
  shown ids olds news e =
      if e.metrics_enabled
      then record e { dashboard = ids; frame_state = forget_removed olds news e.frame_state }
      else e

  -- The new set is kept where its ids are valid.
  abbrev pub commit : List CameraConfig → Outcome (List ℕ) → Engine E → Bool × Engine E
  commit news raised e = (false, e)
  commit news (ok ids) e =
      notified (shown ids e.camera_configs news (record e { camera_configs = news }))

  abbrev pub replaced : List CameraConfig → Engine E → Bool × Engine E
  replaced news e =
      if same_ids e.camera_configs news
      then notified (record e { camera_configs = update_all news e.camera_configs })
      else commit news (camera_ids news) e

  abbrev pub loaded : Bool → Outcome (List CameraConfig) → Engine E → Bool × Engine E
  loaded allow_empty raised e = (false, e)
  loaded allow_empty (ok []) e = if allow_empty then replaced [] e else (false, e)
  loaded allow_empty (ok (c ∷ cs)) e = replaced (c ∷ cs) e

  -- True where the reload was carried out, published or not.
  unfoldable pub reload_camera_configs : Bool → Engine E → Bool × Engine E
  unfolding update_all camera_ids
  reload_camera_configs allow_empty e =
      let (news, x) = O.load_cameras_from_db e.outside in
      loaded allow_empty news (record e { outside = x })
