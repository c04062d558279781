-- ===== src/FramePump/Delivery.antt =====
-- The way of a frame from the producer to the process that is told of it.
use lum_model_face_recogniti.Base.{
  ℕ, suc, ◌+◌, ◌%◌, ◌==◌, ◌≡◌, ◌≢◌, true, false, Option, none, some, List, [], ◌∷◌, length, arith,
  refl, String, ==_iff,
}
use lum_model_face_recogniti.Exec.{ok}
use lum_model_face_recogniti.FrameStore.Slot.{Array, Shape, Writer, bytes_of, write, write_shaped}
use lum_model_face_recogniti.FrameStore.Segments.{IsValid}
use lum_model_face_recogniti.FrameStore.Reader.{Reader, read_ring}
use lum_model_face_recogniti.FrameStore.Fresh.{Behind, write-read}
use lum_model_face_recogniti.FramePump.{
  Roi, Producer, Request, apply_roi, hand_off, detect, produce_one_frame, task_expires_ms,
}

abbrev pub dims : Shape → List ℕ
dims s = s.height ∷ s.width ∷ s.channels ∷ []

write-dims :
    (shape : Shape) (g : Array) (w : Writer)
    → g.shape ≡ dims shape
    → let done = write_shaped shape g.bytes w in write g w ≡ (ok done.0, done.1)
unfolding write
write-dims shape g w e = rw e refl

module _ (crop : Roi → Array → Array) (camera_queue_name : ℕ → String) where
  -- A poll that finds a new frame whose turn it is, and that is not cropped to nothing, sends one
  -- request: for this frame's number, to the camera's queue, with a second to live. Any other process
  -- that follows the request's handle before the next write reads the cropped frame, where no block
  -- that has the writer's instance id is stamped ahead of the slot's count: the slot is the only one
  -- that its process ever made, so that its stream was not restarted.
  pub produce_one_frame-read :
      (roi : Option Roi) (now seq : ℕ) (f g : Array) (shape : Shape) (p : Producer) (w : Writer)
      (reader : Reader)
      → seq ≢ p.last_frame_seq
      → apply_roi crop camera_queue_name roi f ≡ some g
      → suc p.frame_num % p.detection_interval ≡ 0
      → g.shape ≡ dims shape
      → length g.bytes ≡ bytes_of shape
      → IsValid w
      → Behind w
      → reader.local_slots w.slot.base ≡ none
      → let r = produce_one_frame crop camera_queue_name roi now (true, (some f, seq)) p w in
        (q : Request) × (r.0 ≡ ok (some q))
        × (q.frame_num ≡ suc p.frame_num)
        × (q.next_queue ≡ camera_queue_name p.camera_id)
        × (q.deadline ≡ now + task_expires_ms)
        × ((read_ring q.frame_handle w.slot.base r.1.1.shm reader).0 ≡ some g.bytes)
  unfolding produce_one_frame detect hand_off
  produce_one_frame-read roi now seq f g shape p w reader fresh crops turn dim fits v before
        remote =
      let new : (seq == p.last_frame_seq) ≡ false = ground (arith, ==_iff seq p.last_frame_seq) in
      let due : (suc p.frame_num % p.detection_interval == 0) ≡ true = (==_iff _ 0).1 turn in
      rw (new, crops, due, write-dims shape g w dim)
        (_, refl, refl, refl, refl, write-read shape g.bytes w reader v before fits remote)
