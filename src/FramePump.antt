-- ===== src/FramePump.antt =====
-- src/pipeline/frame_pump.py: one thread for each camera, which crops every new frame of the stream,
-- writes each `detection_interval`-th to shared memory, and asks for its detections.
pub mod Rate
pub mod Delivery
use lum_model_face_recogniti.Base.{
  ℕ, suc, ◌+◌, ◌%◌, ◌==◌, ◌&&◌, not, max, Bool, true, false, Option, none, some, List, [], ◌∷◌,
  ◌++◌, if◌then◌else◌, String,
}
use lum_model_face_recogniti.Exec.{Outcome, ok, raised}
use lum_model_face_recogniti.FrameStore.Slot.{Array, FrameHandle, Writer, write, new_slot}
use lum_model_face_recogniti.FrameStore.Roi.{product}
use lum_model_face_recogniti.StreamHandler.{
  Handler, Mode, reading, update_step, stop, read_with_seq,
}

pub record Roi : Type 0 where
  pub x1 : ℕ
  pub y1 : ℕ
  pub x2 : ℕ
  pub y2 : ℕ

pub record Producer : Type 0 where
  pub camera_id : ℕ
  pub detection_interval : ℕ
  pub frame_num : ℕ
  pub last_frame_seq : ℕ
  pub frames_emitted : ℕ

-- The task `yolo.detect`; times are milliseconds.
pub record Request : Type 0 where
  pub camera_id : ℕ
  pub frame_handle : FrameHandle
  pub frame_num : ℕ
  pub next_queue : String
  pub deadline : ℕ
  pub expires : ℕ

abbrev pub task_expires_ms : ℕ
task_expires_ms = 1000

-- `__init__`
abbrev pub new_producer : ℕ → ℕ → Producer
new_producer camera_id detection_interval = record {
  camera_id = camera_id;
  detection_interval = max 1 detection_interval;
  frame_num = 0;
  last_frame_seq = 0;
  frames_emitted = 0;
}

abbrev pub Polled : Type 0
Polled = Outcome (Option Request) × (Producer × Writer)

-- The camera's stream, its producer, and the slot that the producer writes to.
pub record Camera : Type 0 where
  pub mode : Mode
  pub handler : Handler
  pub producer : Producer
  pub writer : Writer

-- What the two threads do, one turn at a time; `given` is what the source gives, `roi` what the
-- configuration says at that moment.
pub data Turn : Type 0 where
  update : (now : ℕ) (given : Option Array) → Turn
  poll : (now : ℕ) (roi : Option Roi) (given : Option Array) → Turn
  stop_stream : (exits : Bool) → Turn

abbrev pub updated : Mode × Handler → Camera → Camera
updated (mode, h) c = record c { mode = mode; handler = h }

abbrev pub sent : Outcome (Option Request) → List Request
sent (ok (some r)) = r ∷ []
sent (ok none) = []
sent raised = []

abbrev pub polled : Handler → Polled → Camera → List Request × Camera
polled h (r, (p, w)) c = (sent r, record c { handler = h; producer = p; writer = w })

abbrev pub counted : ℕ → Producer → Producer
counted seq p = record p { last_frame_seq = seq; frame_num = suc p.frame_num }

-- `crop` is the slice of an array, `camera_queue_name` the name of a camera's queue.
module _ (crop : Roi → Array → Array) (camera_queue_name : ℕ → String) where
  -- Step 2; none where nothing is left of the frame.
  unfoldable pub apply_roi : Option Roi → Array → Option Array
  apply_roi none f = some f
  apply_roi (some roi) f =
      let cropped = crop roi f in if product cropped.shape == 0 then none else some cropped

  abbrev pub request_of : ℕ → Producer → FrameHandle → Request
  request_of now p handle = record {
    camera_id = p.camera_id;
    frame_handle = handle;
    frame_num = p.frame_num;
    next_queue = camera_queue_name p.camera_id;
    deadline = now + task_expires_ms;
    expires = task_expires_ms;
  }

  abbrev pub requested : ℕ → Producer → Outcome FrameHandle × Writer → Polled
  requested now p (raised, w) = (raised, (p, w))
  requested now p (ok handle, w) = (ok (some (request_of now p handle)), (p, w))

  -- Step 4.
  unfoldable pub hand_off : ℕ → Array → Producer → Writer → Polled
  hand_off now f p w =
      requested now (record p { frames_emitted = suc p.frames_emitted }) (write f w)

  -- Steps 3 and 4.
  unfoldable pub detect : ℕ → Option Array → Producer → Writer → Polled
  unfolding hand_off
  detect now none p w = (ok none, (p, w))
  detect now (some f) p w =
      if p.frame_num % p.detection_interval == 0 then hand_off now f p w else (ok none, (p, w))

  -- `_produce_one_frame`, with what `read_with_seq` gave, up to the call of Celery: the request that it
  -- sends, if it sends one.
  unfoldable pub produce_one_frame :
      Option Roi → ℕ → Bool × (Option Array × ℕ) → Producer → Writer → Polled
  unfolding apply_roi detect
  produce_one_frame roi now (false, (frame, seq)) p w = (ok none, (p, w))
  produce_one_frame roi now (true, (none, seq)) p w = (ok none, (p, w))
  produce_one_frame roi now (true, (some f, seq)) p w =
      if seq == p.last_frame_seq
      then (ok none, (p, w))
      else detect now (apply_roi roi f) (counted seq p) w

  -- The requests that are handed to Celery; what is raised, by Celery too, is only logged.
  unfoldable pub step : Turn → Camera → List Request × Camera
  unfolding produce_one_frame
  step (update now given) c = ([], updated (update_step now given (c.mode, c.handler)) c)
  step (poll now roi given) c =
      let (r, h) = read_with_seq now given c.handler in
      polled h (produce_one_frame roi now r c.producer c.writer) c
  step (stop_stream exits) c = ([], record c { handler = stop exits c.handler })

  unfoldable pub steps : List Turn → Camera → List Request × Camera
  unfolding step
  steps [] c = ([], c)
  steps (t ∷ ts) c =
      let (requests, c') = step t c in let (more, c'') = steps ts c' in (requests ++ more, c'')
