-- ===== src/Tests/Pump.antt =====
-- A camera whose every second frame is announced.
use lum_model_face_recogniti.Base.{
  ℕ, ◌+◌, ◌*◌, ◌≤◌, ◌≡◌, true, false, none, some, List, [], ◌∷◌, length, refl, arith, String,
}
use lum_model_face_recogniti.Exec.{ok}
use lum_model_face_recogniti.FrameStore.Slot.{Array, write}
use lum_model_face_recogniti.FrameStore.Reader.{read_ring}
use lum_model_face_recogniti.StreamHandler.{
  grabbing, opening, stop, reading, update_step, read_with_seq,
}
use lum_model_face_recogniti.FramePump.{
  Roi, Producer, Request, Camera, Turn, update, poll, new_producer, produce_one_frame,
  task_expires_ms, steps, apply_roi,
}
use lum_model_face_recogniti.StreamHandler.Stopped.{updates, IsOver, updates-stop}
use lum_model_face_recogniti.FramePump.Rate.{length-steps-le}
use lum_model_face_recogniti.FramePump.Delivery.{produce_one_frame-read}
use lum_model_face_recogniti.Tests.Frames.{start, start-IsValid, start-Behind, pair, other_process}

abbrev picture : Array
picture = record { shape = 1 ∷ 2 ∷ 1 ∷ []; bytes = 3 ∷ 4 ∷ [] }

abbrev crop : Roi → Array → Array
crop roi f = f

abbrev queue : ℕ → String
queue n = "cam.7"

abbrev live : Camera
live = record {
  mode = reading 0;
  handler = record {
    is_video = false;
    opened = true;
    connected = true;
    stopped = false;
    reconnecting = false;
    latest_ret = false;
    latest_frame = none;
    ret = true;
    frame = some picture;
    frame_seq = 0;
    last_frame_at = some 0;
  };
  producer = new_producer 7 2;
  writer = start;
}

-- Three frames, each of them polled twice.
abbrev turns : List Turn
turns =
    update 99 none
    ∷ update 100 (some picture)
    ∷ poll 101 none none
    ∷ poll 102 none none
    ∷ update 199 none
    ∷ update 200 (some picture)
    ∷ poll 201 none none
    ∷ poll 202 none none
    ∷ update 299 none
    ∷ update 300 (some picture)
    ∷ poll 301 none none
    ∷ poll 302 none none
    ∷ []

steps_test : length (steps crop queue turns live).0 ≡ 1
unfolding steps update_step read_with_seq write
steps_test = refl

length-steps-le_example :
    length (steps crop queue turns live).0 * 2 ≤ (steps crop queue turns live).1.handler.frame_seq
length-steps-le_example = length-steps-le crop queue 2 (omega arith) turns live 7 refl

abbrev acted_on : Producer
acted_on = record (new_producer 7 2) { frame_num = 1; last_frame_seq = 1 }

applied : apply_roi crop queue none picture ≡ some picture
unfolding apply_roi
applied = refl

produce_one_frame-read_example :
    let r = produce_one_frame crop queue none 900 (true, (some picture, 2)) acted_on start in
    (q : Request) × (r.0 ≡ ok (some q))
    × (q.frame_num ≡ 2)
    × (q.next_queue ≡ "cam.7")
    × (q.deadline ≡ 900 + task_expires_ms)
    × ((read_ring q.frame_handle start.slot.base r.1.1.shm other_process).0 ≡ some (3 ∷ 4 ∷ []))
produce_one_frame-read_example =
    produce_one_frame-read crop queue none 900 2 picture picture pair acted_on start other_process
      (omega arith) applied refl refl refl start-IsValid start-Behind refl

-- A reconnection publishes its frame under the number of the frame before the interruption, so that a
-- producer that has acted on that one never acts on this one.
abbrev reconnected : List Turn
reconnected =
    update 99 none
    ∷ update 100 (some picture)
    ∷ poll 101 none none
    ∷ update 199 none
    ∷ update 200 none
    ∷ update 699 none
    ∷ update 700 none
    ∷ update 1199 none
    ∷ update 1200 none
    ∷ update 1699 none
    ∷ update 1700 (some picture)
    ∷ poll 1701 none none
    ∷ []

reconnected_test :
    let c = (steps crop queue reconnected live).1 in
    (c.producer.frame_num ≡ 1) × (c.handler.frame_seq ≡ 1) × (c.handler.last_frame_at ≡ some 1700)
unfolding steps update_step read_with_seq write
reconnected_test = (refl, refl, refl)

-- `stop` while the thread opens the source once more, which then gives a frame.
updates-stop_example :
    let s =
      updates
        ((1700, some picture) ∷ (1800, some picture) ∷ [])
        (opening, stop false live.handler) in
    IsOver (some picture) live.handler s × (updates ((1900, none) ∷ []) s ≡ s)
updates-stop_example =
    updates-stop false opening live.handler 1700 1800 (some picture) (some picture)
      ((1900, none) ∷ [])

-- `stop` while a frame is grabbed: this frame is published still.
late_frame :
    (updates
      ((100, some picture) ∷ (200, some picture) ∷ [])
      (grabbing 0, stop false live.handler)).1.frame_seq
    ≡ 1
unfolding update_step stop
late_frame = refl
