-- ===== src/Tests/Actions.antt =====
-- Three sightings of which the second finds the queue full.
use lum_model_face_recogniti.Base.{◌≡◌, true, false, some, List, [], ◌∷◌, length, refl, String}
use lum_model_face_recogniti.Exec.{ok, raised}
use lum_model_face_recogniti.ActionWorker.{
  Outside, Worker, Sighting, Turn, check, work_turn, steps, work_off, recognize_async,
}
use lum_model_face_recogniti.ActionWorker.Ids.{ids, is_over}
use lum_model_face_recogniti.ActionWorker.Pending.{steps-result_callbacks}

-- The identities whose reservations were cancelled.
abbrev outside : Outside (List String)
outside = record {
  now = λ e. 0;
  total_timeouts = λ e. 0;
  recognize = λ c m e. (ok (some (record { action = some "walk"; activity_type = "WALKING" })), e);
  record_metric = λ s e. e;
  upload_image = λ c a e. (false, e);
  delay = λ a url e. (ok tt, e);
  callback = λ id r e. (raised, e);
  reserve = λ i e. (true, e);
  cancel = λ i e. i ∷ e;
}

abbrev worker : Worker
worker = record {
  enabled = true;
  client_slug = some "a";
  has_async_logger = true;
  max_queue_size = 1;
  min_crop_height = 0;
  min_crop_width = 0;
  min_crop_area = 0;
  inference_queue = [];
  result_callbacks = [];
  running = true;
  total_queued = 0;
  total_dropped = 0;
  total_posted = 0;
  total_too_small = 0;
}

abbrev sighting : String → String → Sighting
sighting identity id = record {
  track_id = 1;
  identity = identity;
  proof_image = some (record { height = 2; width = 1; pixels = 3 ∷ 4 ∷ [] });
  user_id = some 5;
  camera_id = 7;
  frame_num = 12;
  request_id = id;
}

abbrev turns : List (Turn outside)
turns =
    check (sighting "Ann" "cam7_track1_frame12")
    ∷ check (sighting "Bob" "cam7_track2_frame12")
    ∷ work_turn
    ∷ check (sighting "Cid" "cam7_track3_frame14")
    ∷ []

steps_test :
    let x = steps outside turns (worker, []) in
    (x.0.total_posted ≡ 1)
    × (x.1 ≡ "Bob" ∷ [])
    × (ids x.0.inference_queue ≡ "cam7_track3_frame14" ∷ [])
unfolding steps recognize_async
steps_test = (refl, refl, refl)

steps-result_callbacks_example :
    let x = steps outside turns (worker, []) in
    (x.0.result_callbacks ≡ ids x.0.inference_queue)
    × (is_over x.0 ≡ false)
    × ((work_off outside (length x.0.inference_queue) x).0.result_callbacks ≡ [])
steps-result_callbacks_example = steps-result_callbacks outside turns worker [] refl refl refl refl
