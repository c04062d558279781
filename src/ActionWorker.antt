-- ===== src/ActionWorker.antt =====
-- src/pipeline/action_worker.py, and the gate in front of it in src/pipeline/camera_engine.py: which
-- crops of persons are classified, and what is reported of them.
pub mod Ids
pub mod Reporting
pub mod Pending
use lum_model_face_recogniti.Base.{
  ℕ, zero, suc, ◌+◌, ◌*◌, ◌==◌, ◌&&◌, ◌||◌, not, Bool, true, false, Option, none, some, List, [],
  ◌∷◌, ◌++◌, length, if◌then◌else◌, leb, ltb, String, str_eq,
}
use lum_model_face_recogniti.Exec.{Outcome, ok, raised, Exec}

-- A crop of a person, with its dimensions in pixels.
pub record Crop : Type 0 where
  pub height : ℕ
  pub width : ℕ
  pub pixels : List ℕ

pub record Metadata : Type 0 where
  pub track_id : ℕ
  pub identity : String
  pub user_id : ℕ
  pub camera_id : ℕ
  pub frame_num : ℕ

pub record Item : Type 0 where
  pub image : Crop
  pub request_id : String
  pub metadata : Metadata

-- What the model answers; no action where the answer could not be read.
pub record ActionResult : Type 0 where
  pub action : Option String
  pub activity_type : String

pub data Status : Type 0 where
  timeout error parse_fail recognized : Status

-- The task `task_record_activity`, without the address of the proof.
pub record Activity : Type 0 where
  pub client_slug : String
  pub user_id : ℕ
  pub user_name : String
  pub activity_type : String
  pub camera_id : ℕ
  pub detected_at : ℕ

-- The model, Celery and the callbacks, which may raise; the metrics, the queue of the uploads and the
-- throttle, which do not.
pub record Outside (E : Type 0) : Type 0 where
  pub now : E → ℕ
  pub total_timeouts : E → ℕ
  pub recognize : Crop → Metadata → Exec E (Option ActionResult)
  pub record_metric : Status → E → E
  pub upload_image : Crop → Activity → E → Bool × E
  pub delay : Activity → Option String → Exec E (Unit {0})
  pub callback : String → ActionResult → Exec E (Unit {0})
  pub reserve : String → E → Bool × E
  pub cancel : String → E → E

-- `result_callbacks` has the ids of the requests whose callbacks are kept.
pub record Worker : Type 0 where
  pub enabled : Bool
  pub client_slug : Option String
  pub has_async_logger : Bool
  pub max_queue_size : ℕ
  pub min_crop_height : ℕ
  pub min_crop_width : ℕ
  pub min_crop_area : ℕ
  pub inference_queue : List Item
  pub result_callbacks : List String
  pub running : Bool
  pub total_queued : ℕ
  pub total_dropped : ℕ
  pub total_posted : ℕ
  pub total_too_small : ℕ

abbrev pub has_id : String → List String → Bool
has_id k [] = false
has_id k (x ∷ xs) = str_eq x k || has_id k xs

-- `pop`
abbrev pub pop_id : String → List String → List String
pop_id k [] = []
pop_id k (x ∷ xs) = if str_eq x k then xs else x ∷ pop_id k xs

-- A key that is there keeps its place.
abbrev pub add_id : String → List String → List String
add_id k xs = if has_id k xs then xs else xs ++ (k ∷ [])

-- `_crop_too_small`
unfoldable pub crop_too_small : Worker → Crop → Bool
crop_too_small w c =
    ltb c.height w.min_crop_height
    || (ltb c.width w.min_crop_width || ltb (c.height * c.width) w.min_crop_area)

abbrev pub should_skip_small : Crop → Worker → Bool × Worker
should_skip_small c w =
    if crop_too_small w c
    then (true, record w { total_too_small = suc w.total_too_small })
    else (false, w)

-- A queue without a limit is never full.
abbrev pub is_full : Worker → Bool
is_full w = not (w.max_queue_size == 0) && leb w.max_queue_size (length w.inference_queue)

-- The part of `recognize_async` that queues, with a callback.
unfoldable pub put_request : Item → Worker → Bool × Worker
put_request i w =
    if is_full w
    then (
      false,
      record w {
        result_callbacks = pop_id i.request_id (add_id i.request_id w.result_callbacks);
        total_dropped = suc w.total_dropped;
      },
    )
    else (
      true,
      record w {
        result_callbacks = add_id i.request_id w.result_callbacks;
        inference_queue = w.inference_queue ++ (i ∷ []);
        total_queued = suc w.total_queued;
      },
    )

unfoldable pub recognize_async : Item → Worker → Bool × Worker
unfolding put_request crop_too_small
recognize_async i w =
    let (small, skipped) = should_skip_small i.image w in
    if not w.enabled then (false, w) else if small then (false, skipped) else put_request i w

unfoldable pub start_workers : Worker → Worker
start_workers w = if w.enabled then record w { running = true } else w

unfoldable pub stop_workers : Worker → Worker
stop_workers w = if w.running then record w { running = false; result_callbacks = [] } else w

-- A sighting that the camera engine checks; `user_id` is none where the name is unknown.
pub record Sighting : Type 0 where
  pub track_id : ℕ
  pub identity : String
  pub proof_image : Option Crop
  pub user_id : Option ℕ
  pub camera_id : ℕ
  pub frame_num : ℕ
  pub request_id : String

abbrev pub item_of : Sighting → Crop → ℕ → Item
item_of s image user_id = record {
  image = image;
  request_id = s.request_id;
  metadata = record {
    track_id = s.track_id;
    identity = s.identity;
    user_id = user_id;
    camera_id = s.camera_id;
    frame_num = s.frame_num;
  };
}

module _ {E : Type 0} (O : Outside E) where
  abbrev pub cancelled : String → Bool × Worker → E → Worker × E
  cancelled identity (true, w) e = (w, e)
  cancelled identity (false, w) e = (w, O.cancel identity e)

  -- From the reservation on.
  abbrev pub reserved : Sighting → Crop → Worker → Bool × E → Worker × E
  reserved s image w (false, e) = (w, e)
  reserved s image w (true, e) = elim s.user_id [
    | none ↦ (w, O.cancel s.identity e)
    | some u ↦ cancelled s.identity (recognize_async (item_of s image u) w) e
  ]

  abbrev pub checked : Sighting → Crop → Bool × Worker → E → Worker × E
  checked s image (true, w) e = (w, e)
  checked s image (false, w) e = reserved s image w (O.reserve s.identity e)

  -- `_check_and_queue_action_recognition`
  unfoldable pub check_and_queue : Sighting → Worker × E → Worker × E
  unfolding recognize_async
  check_and_queue s (w, e) = elim s.proof_image [
    | none ↦ (w, e)
    | some image ↦
        if image.height * image.width == 0
        then (w, e)
        else checked s image (should_skip_small image w) e
  ]

  abbrev pub posted : Worker → Outcome (Unit {0}) × E → Worker × E
  posted w (ok u, e) = (record w { total_posted = suc w.total_posted }, e)
  posted w (raised, e) = (w, e)

  -- `fire`: what Celery raises is only logged.
  unfoldable pub fire : Activity → Option String → Worker × E → Worker × E
  fire a url (w, e) = posted w (O.delay a url e)

  abbrev pub fire_unless : Activity → Worker → Bool × E → Worker × E
  fire_unless a w (true, e) = (w, e)
  fire_unless a w (false, e) = fire a none (w, e)

  abbrev pub activity_of : String → ℕ → Item → ActionResult → Activity
  activity_of slug now i r = record {
    client_slug = slug;
    user_id = i.metadata.user_id;
    user_name = if str_eq i.metadata.identity "" then "Unknown" else i.metadata.identity;
    activity_type = r.activity_type;
    camera_id = i.metadata.camera_id;
    detected_at = now;
  }

  abbrev pub post_for : Option String → Item → ActionResult → Worker × E → Worker × E
  post_for none i r (w, e) = (w, e)
  post_for (some slug) i r (w, e) =
      let a = activity_of slug (O.now e) i r in
      if str_eq slug ""
      then (w, e)
      else if w.has_async_logger
      then fire_unless a w (O.upload_image i.image a e)
      else fire a none (w, e)

  -- `_post_activity_to_backend`; a proof that is queued calls `fire` when it is uploaded.
  unfoldable pub post_activity : Item → ActionResult → Worker × E → Worker × E
  unfolding fire
  post_activity i r (w, e) = post_for w.client_slug i r (w, e)

  -- What the callback raises is only logged.
  abbrev pub called_back : Bool → String → ActionResult → Worker × E → Worker × E
  called_back false id r (w, e) = (w, e)
  called_back true id r (w, e) = (w, (O.callback id r e).1)

  abbrev pub reported : Bool → Item → ActionResult → Worker × E → Worker × E
  reported called i r s =
      if i.metadata.user_id == 0 || i.metadata.camera_id == 0
      then called_back called i.request_id r s
      else called_back called i.request_id r (post_activity i r s)

  abbrev pub understood : Bool → Item → ActionResult → Option String → Worker × E → Worker × E
  understood called i r none (w, e) = (w, O.record_metric parse_fail e)
  understood called i r (some action) (w, e) = reported called i r (w, O.record_metric recognized e)

  abbrev pub failure_of : ℕ → ℕ → Status
  failure_of before after = if ltb before after then timeout else error

  abbrev pub inferred : Bool → ℕ → Item → Worker → Outcome (Option ActionResult) × E → Worker × E
  inferred called before i w (raised, e) = (w, e)
  inferred called before i w (ok none, e) =
      (w, O.record_metric (failure_of before (O.total_timeouts e)) e)
  inferred called before i w (ok (some r), e) = understood called i r r.action (w, e)

  -- `_process_inference_request`, of an item that was taken from the queue.
  unfoldable pub process_request : Item → Worker × E → Worker × E
  unfolding post_activity
  process_request i (w, e) =
      let claimed : Worker = record w {
        result_callbacks = pop_id i.request_id w.result_callbacks;
      } in
      inferred (has_id i.request_id w.result_callbacks) (O.total_timeouts e) i claimed
        (O.recognize i.image i.metadata e)

  abbrev pub work_next : Bool → List Item → Worker × E → Worker × E
  work_next false is s = s
  work_next true [] s = s
  work_next true (i ∷ is) (w, e) = process_request i (record w { inference_queue = is }, e)

  -- A turn of `_worker_loop`.
  unfoldable pub work : Worker × E → Worker × E
  unfolding process_request
  work (w, e) = work_next w.running w.inference_queue (w, e)

  pub data Turn : Type 0 where
    check : (s : Sighting) → Turn
    work_turn : Turn
    proof_uploaded : (a : Activity) (url : Option String) → Turn

  unfoldable pub step : Turn → Worker × E → Worker × E
  unfolding check_and_queue work fire
  step (check s) x = check_and_queue s x
  step work_turn x = work x
  step (proof_uploaded a url) x = fire a url x

  unfoldable pub steps : List Turn → Worker × E → Worker × E
  unfolding step
  steps [] x = x
  steps (t ∷ ts) x = steps ts (step t x)

  unfoldable pub work_off : ℕ → Worker × E → Worker × E
  unfolding work
  work_off zero x = x
  work_off (suc n) x = work_off n (work x)
