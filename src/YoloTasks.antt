-- ===== src/YoloTasks.antt =====
-- src/workers/yolo_tasks.py: a batch of frames of many cameras goes through the detector in one call,
-- and each frame's detections go on to its camera's queue.
pub mod Handling
pub mod Batch
use lum_model_face_recogniti.Base.{
  ℕ, suc, ◌+◌, ◌-◌, ◌%◌, ◌==◌, Bool, true, false, Option, none, some, List, [], ◌∷◌, length,
  if◌then◌else◌, leb, ltb, String, str_eq,
}
use lum_model_face_recogniti.Exec.{Outcome, ok, raised, Exec, pure, ◌>>=◌, ◌>>◌}
use lum_model_face_recogniti.FrameStore.Slot.{Array, FrameHandle}

-- A box of the detector; its corners and its confidence are floats, which are only passed on.
pub record Box (F : Type 0) : Type 0 where
  pub cls : ℕ
  pub xyxy : List F
  pub conf : F

pub record Detection (F : Type 0) : Type 0 where
  pub bbox : List F
  pub confidence : F
  pub person_id : ℕ

pub record Request : Type 0 where
  pub camera_id : ℕ
  pub frame_handle : FrameHandle
  pub frame_num : ℕ
  pub next_queue : Option String
  pub deadline : Option ℕ

-- The task `camera.track`.
pub record Forward (F : Type 0) : Type 0 where
  pub camera_id : ℕ
  pub frame_handle : FrameHandle
  pub frame_num : ℕ
  pub detections : List (Detection F)
  pub deadline : Option ℕ
  pub queue : String
  pub expires : Option ℕ

-- The clock, the frames in shared memory, the model and Celery; the last two may raise.
pub record Outside (E F : Type 0) : Type 0 where
  pub now : E → ℕ
  pub attach_and_read : FrameHandle → E → Option Array × E
  pub model : List Array → Exec E (List (Option (List (Box F))))
  pub dispatch : Forward F → Exec E (Unit {0})
  -- The metrics, which never raise: a duration and a number of frames.
  pub report : ℕ → ℕ → E → E

-- `_BatchStats`
pub record BatchStats : Type 0 where
  pub log_every : ℕ
  pub n : ℕ
  pub window_batch : ℕ
  pub window_ms : ℕ
  pub skipped_expired : ℕ
  pub skipped_gone : ℕ

-- The window starts anew after each line of the log.
unfoldable pub record_batch : ℕ → ℕ → ℕ → ℕ → BatchStats → BatchStats
record_batch batch_size wall_ms expired gone s =
    let t : BatchStats = record s {
      n = suc s.n;
      window_batch = s.window_batch + batch_size;
      window_ms = s.window_ms + wall_ms;
      skipped_expired = s.skipped_expired + expired;
      skipped_gone = s.skipped_gone + gone;
    } in
    if t.n % s.log_every == 0 then record t { window_batch = 0; window_ms = 0 } else t

module _ {F : Type 0} where
  -- Only persons, the class 0, under their place among the boxes.
  abbrev pub persons_from : ℕ → List (Box F) → List (Detection F)
  persons_from idx [] = []
  persons_from idx (b ∷ bs) =
      let rest = persons_from (suc idx) bs in
      if b.cls == 0
      then record { bbox = b.xyxy; confidence = b.conf; person_id = idx } ∷ rest
      else rest

  abbrev pub parse_yolo_result : Option (List (Box F)) → List (Detection F)
  parse_yolo_result none = []
  parse_yolo_result (some boxes) = persons_from 0 boxes

  abbrev pub parse_all : List (Option (List (Box F))) → List (List (Detection F))
  parse_all [] = []
  parse_all (r ∷ rs) = parse_yolo_result r ∷ parse_all rs

-- The requests whose frames are there, with the frames, and how many were skipped.
pub record Survivors : Type 0 where
  pub live : List (Request × Array)
  pub expired : ℕ
  pub gone : ℕ

abbrev pub is_late : ℕ → Option ℕ → Bool
is_late now none = false
is_late now (some deadline) = ltb deadline now

-- The time that a request has left, if it has a deadline.
pub data Remaining : Type 0 where
  unlimited : Remaining
  over : Remaining
  left : (ms : ℕ) → Remaining

abbrev pub remaining : ℕ → Option ℕ → Remaining
remaining now none = unlimited
remaining now (some deadline) = if leb deadline now then over else left (deadline - now)

-- `camera_queue_name` is the name of a camera's queue.
abbrev pub queue_of : (ℕ → String) → Request → String
queue_of camera_queue_name r = elim r.next_queue [
  | none ↦ camera_queue_name r.camera_id
  | some q ↦ if str_eq q "" then camera_queue_name r.camera_id else q
]

abbrev pub frames_of : List (Request × Array) → List Array
frames_of [] = []
frames_of ((r, f) ∷ ls) = f ∷ frames_of ls

module _ {F : Type 0} where
  abbrev pub forward_of : (ℕ → String) → Request → List (Detection F) → Option ℕ → Forward F
  forward_of camera_queue_name r detections expires = record {
    camera_id = r.camera_id;
    frame_handle = r.frame_handle;
    frame_num = r.frame_num;
    detections = detections;
    deadline = r.deadline;
    queue = queue_of camera_queue_name r;
    expires = expires;
  }

  abbrev pub none_each : List (Request × Array) → List (List (Detection F))
  none_each [] = []
  none_each (l ∷ ls) = [] ∷ none_each ls

module _ {E F : Type 0} (O : Outside E F) (camera_queue_name : ℕ → String) where
  abbrev pub add_expired : Survivors × E → Survivors × E
  add_expired (s, e) = (record s { expired = suc s.expired }, e)

  abbrev pub add_read : Request → Option Array → Survivors × E → Survivors × E
  add_read r none (s, e) = (record s { gone = suc s.gone }, e)
  add_read r (some f) (s, e) = (record s { live = (r, f) ∷ s.live }, e)

  -- The first loop; `now` is the time at its start.
  unfoldable pub collect : ℕ → List Request → E → Survivors × E
  collect now [] e = (record { live = []; expired = 0; gone = 0 }, e)
  collect now (r ∷ rs) e = elim (is_late now r.deadline) [
    | true ↦ add_expired (collect now rs e)
    | false ↦ let (f, e') = O.attach_and_read r.frame_handle e in add_read r f (collect now rs e')
  ]

  abbrev pub parsed :
      List (Request × Array)
      → Outcome (List (Option (List (Box F)))) × E
      → List (List (Detection F)) × E
  parsed live (ok results, e) = (parse_all results, e)
  parsed live (raised, e) = (none_each live, e)

  -- One call of the model; where it raises, no frame has detections.
  unfoldable pub infer : List (Request × Array) → E → List (List (Detection F)) × E
  infer [] e = ([], e)
  infer (l ∷ ls) e = parsed (l ∷ ls) (O.model (frames_of (l ∷ ls)) e)

  abbrev pub one_more : Outcome ℕ × E → Outcome ℕ × E
  one_more (raised, e) = (raised, e)
  one_more (ok n, e) = (ok (suc n), e)

  -- The second loop, and how many requests expired in it.
  unfoldable pub forward_all : List (Request × Array) → List (List (Detection F)) → Exec E ℕ
  forward_all [] ds e = (ok 0, e)
  forward_all (l ∷ ls) [] e = (ok 0, e)
  forward_all ((r, f) ∷ ls) (d ∷ ds) e = elim (remaining (O.now e) r.deadline) [
    | over ↦ one_more (forward_all ls ds e)
    | unlimited ↦ (O.dispatch (forward_of camera_queue_name r d none) >> forward_all ls ds) e
    | left ms ↦ (O.dispatch (forward_of camera_queue_name r d (some ms)) >> forward_all ls ds) e
  ]

  -- The end: the statistics, and the metrics of a batch that is not empty.
  abbrev pub finish : ℕ → Survivors → BatchStats → Outcome ℕ × E → Outcome BatchStats × E
  finish start s stats (raised, e) = (raised, e)
  finish start s stats (ok expired, e) =
      let size = length s.live in
      let wall_ms = O.now e - start in
      (
        ok (record_batch size wall_ms (s.expired + expired) s.gone stats),
        if size == 0 then e else O.report wall_ms size e,
      )

  -- What is left of the statistics where it returns.
  unfoldable pub run_detect_batch : List Request → BatchStats → Exec E BatchStats
  unfolding record_batch collect infer forward_all
  run_detect_batch requests stats e =
      let start = O.now e in
      let (s, e1) = collect start requests e in
      let (detections, e2) = infer s.live e1 in
      finish start s stats (forward_all s.live detections e2)
