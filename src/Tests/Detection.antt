-- ===== src/Tests/Detection.antt =====
-- A batch of three frames: one is detected, one is too late, and one is no longer there.
use lum_model_face_recogniti.Base.{
  ℕ, ◌+◌, ◌==◌, ◌≡◌, ◌++◌, Option, none, some, List, [], ◌∷◌, map, if◌then◌else◌, refl, arith, inr,
  String,
}
use lum_model_face_recogniti.Exec.{ok}
use lum_model_face_recogniti.FrameStore.Slot.{Array, FrameHandle}
use lum_model_face_recogniti.YoloTasks.{
  Box, Forward, Request, Outside, BatchStats, run_detect_batch,
}
use lum_model_face_recogniti.YoloTasks.Handling.{Serving}
use lum_model_face_recogniti.YoloTasks.Batch.{Settles, run_detect_batch-Settles}

abbrev picture : Array
picture = record { shape = 1 ∷ 2 ∷ 1 ∷ []; bytes = 3 ∷ 4 ∷ [] }

-- A person, and a dog.
abbrev boxes : List (Box ℕ)
boxes = record { cls = 16; xyxy = []; conf = 4 } ∷ record { cls = 0; xyxy = 1 ∷ []; conf = 5 } ∷ []

abbrev frame_at : FrameHandle → Option Array
frame_at h = if h.seq == 0 then none else some picture

-- The time, and what was sent.
abbrev State : Type 0
State = ℕ × List (Forward ℕ)

abbrev outside : Outside State ℕ
outside = record {
  now = λ e. e.0;
  attach_and_read = λ h e. (frame_at h, (e.0 + 1, e.1));
  model = λ fs e. (ok (map (λ f. some boxes) fs), (e.0 + 20, e.1));
  dispatch = λ f e. (ok tt, (e.0 + 1, e.1 ++ (f ∷ [])));
  report = λ ms size e. e;
}

abbrev serving : Serving outside
serving = record {
  frames = frame_at;
  analyse = λ f. some boxes;
  sent = λ e. e.1;
  attach_lem = λ h e. (refl, refl, omega arith);
  model_lem = λ fs e. (inr refl, refl, omega arith);
  dispatch_lem = λ f e. (refl, refl, omega arith);
  report_lem = λ ms size e. (refl, omega arith);
}

abbrev request : ℕ → ℕ → ℕ → Request
request camera seq deadline = record {
  camera_id = camera;
  frame_handle = record {
    camera_id = camera;
    seq = seq;
    segment = 0;
    instance_id = 5;
    shape = record { height = 1; width = 2; channels = 1 };
  };
  frame_num = 12;
  next_queue = none;
  deadline = some deadline;
}

abbrev requests : List Request
requests = request 7 3 1900 ∷ request 8 3 999 ∷ request 9 0 1900 ∷ []

abbrev queue : ℕ → String
queue camera = "cam"

abbrev stats : BatchStats
stats = record {
  log_every = 100;
  n = 0;
  window_batch = 0;
  window_ms = 0;
  skipped_expired = 0;
  skipped_gone = 0;
}

run_detect_batch_test :
    (run_detect_batch outside queue requests stats (1000, [])).1.1
    ≡ record {
      camera_id = 7;
      frame_handle = (request 7 3 1900).frame_handle;
      frame_num = 12;
      detections = record { bbox = 1 ∷ []; confidence = 5; person_id = 1 } ∷ [];
      deadline = some 1900;
      queue = "cam";
      expires = some 878;
    }
      ∷ []
unfolding run_detect_batch
run_detect_batch_test = refl

run_detect_batch-Settles_example :
    Settles serving queue requests stats
      (1000, [])
      (run_detect_batch outside queue requests stats (1000, []))
run_detect_batch-Settles_example = run_detect_batch-Settles serving queue requests stats (1000, [])
