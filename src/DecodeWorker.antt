-- ===== src/DecodeWorker.antt =====
-- src/decode_main.py: one replica of the decode pool, which claims cameras up to its capacity and runs
-- a stream for each. Each pass is one step; times are whole milliseconds.
pub mod Held
use lum_model_face_recogniti.Base.{
  ℕ, suc, ◌+◌, ◌-◌, ◌==◌, ◌&&◌, ◌||◌, not, Bool, true, false, Option, none, some, List, [], ◌∷◌,
  if◌then◌else◌, leb, ltb, String, str_eq, length,
}
use lum_model_face_recogniti.Attendance.{find, put, is_some}
use lum_model_face_recogniti.CameraWorker.Sets.{mem, add, discard}

-- A camera's configuration, a dictionary without repeated keys.
abbrev pub Config : Type 0
Config = List (String × String)

-- `dict.update`
abbrev pub update : Config → Config → Config
update [] old = old
update ((k, v) ∷ new) old = put k v (update new old)

abbrev pub keep_keys_of : Config → Config → Config
keep_keys_of new [] = []
keep_keys_of new ((k, v) ∷ m) =
    let rest = keep_keys_of new m in if is_some (find k new) then (k, v) ∷ rest else rest

-- What `_sync_config` makes of the old configuration, in place.
unfoldable pub synced : Config → Config → Config
synced new old = keep_keys_of new (update new old)

abbrev pub same_url : Option String → Option String → Bool
same_url none none = true
same_url none (some v) = false
same_url (some u) none = false
same_url (some u) (some v) = str_eq u v

abbrev pub Owned : Type 0
Owned = List (ℕ × Config)

abbrev pub config_of {ℓ} : {A : Type ℓ} → ℕ → List (ℕ × A) → Option A
config_of c [] = none
config_of c ((d, v) ∷ m) = if d == c then some v else config_of c m

abbrev pub own : ℕ → Config → Owned → Owned
own c v [] = (c, v) ∷ []
own c v ((d, u) ∷ m) = if d == c then (d, v) ∷ m else (d, u) ∷ own c v m

abbrev pub forget {ℓ} : {A : Type ℓ} → ℕ → List (ℕ × A) → List (ℕ × A)
forget c [] = []
forget c ((d, v) ∷ m) = let rest = forget c m in if d == c then rest else (d, v) ∷ rest

-- The lease manager, as this worker uses it.
pub record DecodeLeases (E : Type 0) : Type 0 where
  pub claim : ℕ → E → Bool × E
  pub renew : ℕ → E → Bool × E
  pub release : ℕ → E → E
  pub is_claimed : ℕ → E → Bool × E

-- The stream, the producer and the raw-frame slot of a camera. `start` starts the three on a URL and
-- answers whether it returned; `stop` stops them.
pub record Machinery (E : Type 0) : Type 0 where
  pub start : ℕ → String → E → Bool × E
  pub stop : ℕ → E → E

-- `fps_samples` has the count and the time of each camera's last sample.
pub record DecodeWorker : Type 0 where
  pub capacity : ℕ
  pub owned : Owned
  pub starting : List ℕ
  pub fps_samples : List (ℕ × (ℕ × ℕ))
  pub running : Bool

module _ {E : Type 0} (L : DecodeLeases E) (M : Machinery E) where
  abbrev pub State : Type 0
  State = DecodeWorker × E

  -- Whether it returned; it raises where the configuration has no URL.
  unfoldable pub start_camera : ℕ → Config → State → Bool × State
  start_camera c config (w, e) = elim (find "stream_url" config) [
    | none ↦ (false, (w, e))
    | some url ↦
        let (started, e') = M.start c url e in
        if started
        then (true, (record w { owned = own c config w.owned }, e'))
        else (false, (w, e'))
  ]

  unfoldable pub stop_camera_locally : ℕ → State → State
  stop_camera_locally c (w, e) = (
    record w { owned = forget c w.owned; fps_samples = forget c w.fps_samples },
    if is_some (config_of c w.owned) then M.stop c e else e,
  )

  unfoldable pub release_camera : ℕ → State → State
  unfolding stop_camera_locally
  release_camera c s = let (w, e) = stop_camera_locally c s in (w, L.release c e)

  -- `starting` has the camera while it starts, and loses it also where that raises.
  unfoldable pub start_marked : ℕ → Config → State → Bool × State
  unfolding start_camera
  start_marked c config (w, e) =
      let (done, (w', e')) = start_camera c config (record w { starting = add c w.starting }, e) in
      (done, (record w' { starting = discard c w'.starting }, e'))

  unfoldable pub restart_camera : ℕ → Config → State → Bool × State
  unfolding stop_camera_locally start_marked
  restart_camera c config s = start_marked c config (stop_camera_locally c s)

  unfoldable pub sync_config : ℕ → Config → State → Bool × State
  unfolding synced restart_camera
  sync_config c new (w, e) = elim (config_of c w.owned) [
    | none ↦ (true, (w, e))
    | some old ↦
        let s : State = (record w { owned = own c (synced new old) w.owned }, e) in
        if same_url (find "stream_url" new) (find "stream_url" old)
        then (true, s)
        else restart_camera c (synced new old) s
  ]

  -- The claims of `_reconcile_locked`; one that raises ends the pass.
  unfoldable pub claim_cameras : Owned → ℕ → State → Bool × State
  unfolding start_marked
  claim_cameras [] held s = (true, s)
  claim_cameras ((c, config) ∷ more) held (w, e) =
      let (won, e') = L.claim c e in
      let (started, s) = start_marked c config (w, e') in
      let skipped = claim_cameras more held (w, e) in
      let refused = claim_cameras more held (w, e') in
      let after = claim_cameras more (suc held) s in
      if leb w.capacity held
      then (true, (w, e))
      else if is_some (config_of c w.owned) || mem c w.starting
      then skipped
      else if won
      then (if started then after else (false, s))
      else refused

  -- `_renew_held`
  unfoldable pub renew_held : List ℕ → State → State
  unfolding stop_camera_locally
  renew_held [] s = s
  renew_held (c ∷ cs) (w, e) =
      let (renewed, e') = L.renew c e in
      let kept = renew_held cs (w, e') in
      let lost = renew_held cs (stop_camera_locally c (w, e')) in
      if w.running then (if renewed then kept else lost) else (w, e)

  abbrev pub keys : Owned → List ℕ
  keys [] = []
  keys ((c, v) ∷ m) = c ∷ keys m

  -- `eligible_by_id`; rows without a camera id are passed over.
  abbrev pub by_id : List (Option ℕ × Config) → Owned → Owned
  by_id [] m = m
  by_id ((none, v) ∷ rows) m = by_id rows m
  by_id ((some c, v) ∷ rows) m = by_id rows (own c v m)

  -- Every camera already held is released or synced.
  unfoldable pub keep_eligible : Owned → List ℕ → State → Bool × State
  unfolding release_camera sync_config
  keep_eligible eligible [] s = (true, s)
  keep_eligible eligible (c ∷ cs) s =
      let gone = keep_eligible eligible cs (release_camera c s) in
      elim (config_of c eligible) [
        | none ↦ gone
        | some config ↦
            let (done, s') = sync_config c config s in
            let rest = keep_eligible eligible cs s' in if done then rest else (false, s')
      ]

  -- `_reconcile_locked`, with the rows that were loaded; where loading raises nothing changes. The
  -- warning of step 3 is left out.
  unfoldable pub reconcile_cameras : Option (List (Option ℕ × Config)) → State → Bool × State
  unfolding keep_eligible claim_cameras
  reconcile_cameras none s = (true, s)
  reconcile_cameras (some rows) (w, e) =
      let eligible = by_id rows [] in
      let (done, (w', e')) = keep_eligible eligible (keys w.owned) (w, e) in
      if done
      then (let claimed = claim_cameras eligible (length w'.owned) (w', e') in claimed)
      else (false, (w', e'))
