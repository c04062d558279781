-- ===== src/FrameStore/Roi.antt =====
-- Batches of crops: `RoiBatchSlot`, whose crops are packed one behind the other in one segment, and
-- `attach_and_read_roi_batch`.
pub mod Packing
pub mod Batches
use lum_model_face_recogniti.Base.{
  ℕ, zero, suc, ◌+◌, ◌*◌, ◌%◌, ◌==◌, Bool, Option, none, some, List, [], ◌∷◌, if◌then◌else◌, String,
  max, length, take, drop, str_eq,
}
use lum_model_face_recogniti.Exec.{Outcome, ok, raised}
use lum_model_face_recogniti.FrameStore.Memory.{RingName, Name, Shm, header_size, modify, splice}
use lum_model_face_recogniti.FrameStore.Slot.{
  Shape, bytes_of, Array, Slot, Writer, new_slot, ensure_sized, stamp, release, close,
}
use lum_model_face_recogniti.FrameStore.Reader.{Reader, header_matches, locate}

abbrev pub roi_ring_size : ℕ
roi_ring_size = 24

-- The prefix is "camroi_<purpose>".
abbrev pub roi_slot_name : ℕ → String → RingName
roi_slot_name camera_id prefix = record { prefix = prefix; camera_id = camera_id }

pub record RoiHandle : Type 0 where
  pub track_id : ℕ
  pub offset : ℕ
  pub shape : Shape

pub record RoiBatchHandle : Type 0 where
  pub camera_id : ℕ
  pub seq : ℕ
  pub segment : ℕ
  pub instance_id : ℕ
  pub rois : List RoiHandle
  pub purpose : String

-- `__init__`. The slot is that of the camera rings, with no shape of its own.
abbrev pub new_roi_slot : ℕ → String → Slot
new_roi_slot camera_id prefix = new_slot camera_id prefix roi_ring_size

-- `_ensure_segment`: what is large enough is kept.
unfoldable pub ensure_roi_segment : ℕ → ℕ → Writer → ℕ × Writer
ensure_roi_segment segment nbytes w = ensure_sized segment (max nbytes header_size) w

-- `int(np.prod(shape))`
abbrev pub product_from : ℕ → List ℕ → ℕ
product_from k [] = k
product_from k (n ∷ ns) = product_from (k * n) ns

abbrev pub product : List ℕ → ℕ
product = product_from 1

abbrev pub total_bytes : List Array → ℕ
total_bytes [] = 0
total_bytes (roi ∷ rois) = product roi.shape + total_bytes rois

-- An H×W×C shape.
abbrev pub crop_shape : List ℕ → Option Shape
crop_shape (h ∷ v ∷ c ∷ []) = some (record { height = h; width = v; channels = c })
crop_shape _ = none

abbrev pub zip : List Array → List ℕ → List (Array × ℕ)
zip [] ids = []
zip (roi ∷ rois) [] = []
zip (roi ∷ rois) (t ∷ ids) = (roi, t) ∷ zip rois ids

abbrev pub cons_ok : RoiHandle → Outcome (List RoiHandle) → Outcome (List RoiHandle)
cons_ok r (ok rs) = ok (r ∷ rs)
cons_ok r raised = raised

-- The loop of `write`, on the payload of the block; a crop that is not H×W×C ends it.
abbrev pub pack : ℕ → List (Array × ℕ) → List ℕ → Outcome (List RoiHandle) × List ℕ
pack offset [] payload = (ok [], payload)
pack offset ((roi, t) ∷ crops) payload =
    let (rois, packed) =
      pack (offset + product roi.shape) crops (splice offset roi.bytes payload) in
    elim (crop_shape roi.shape) [
      | none ↦ (raised, payload)
      | some shape ↦
          (cons_ok (record { track_id = t; offset = offset; shape = shape }) rois, packed)
    ]

abbrev pub set_payload : ℕ → List ℕ → Writer → Writer
set_payload b payload w = record w { shm = modify b (λ k. record k { payload = payload }) w.shm }

-- The segment that the next batch goes to, made ready.
unfoldable pub prepare_batch : ℕ → Writer → ℕ × Writer
unfolding ensure_roi_segment
prepare_batch bytes w =
    ensure_roi_segment (suc w.slot.seq % roi_ring_size) (header_size + bytes)
      (record w { slot = record w.slot { seq = suc w.slot.seq } })

abbrev pub batch_handle : String → List RoiHandle → Writer → RoiBatchHandle
batch_handle purpose rois w = record {
  camera_id = w.slot.camera_id;
  seq = w.slot.seq;
  segment = w.slot.seq % roi_ring_size;
  instance_id = w.instance_id;
  rois = rois;
  purpose = purpose;
}

-- The end of `write`: where a crop was refused nothing is stamped.
abbrev pub seal :
    String → ℕ → Writer → Outcome (List RoiHandle) × List ℕ → Outcome RoiBatchHandle × Writer
seal purpose b w (raised, payload) = (raised, set_payload b payload w)
seal purpose b w (ok rois, payload) =
    let done = stamp b (set_payload b payload w) in (ok (batch_handle purpose rois done), done)

-- `write`
unfoldable pub write_batch : String → List Array → List ℕ → Writer → Outcome RoiBatchHandle × Writer
unfolding prepare_batch
write_batch purpose person_rois track_ids w =
    let (b, w') = prepare_batch (total_bytes person_rois) w in
    let packed = pack 0 (zip person_rois track_ids) (w'.shm.blocks b).payload in
    if length person_rois == length track_ids then seal purpose b w' packed else (raised, w)

abbrev pub close_batch : Writer → Writer
close_batch w = close w

abbrev pub last_byte : List RoiHandle → ℕ
last_byte [] = 0
last_byte (r ∷ rs) = max (r.offset + bytes_of r.shape) (last_byte rs)

abbrev pub crop_at : List ℕ → RoiHandle → ℕ × List ℕ
crop_at payload r = (r.track_id, take (bytes_of r.shape) (drop r.offset payload))

abbrev pub crops_at : List ℕ → List RoiHandle → List (ℕ × List ℕ)
crops_at payload [] = []
crops_at payload (r ∷ rs) = crop_at payload r ∷ crops_at payload rs

abbrev pub copy_batch : RoiBatchHandle → Option ℕ → Shm → Shm → Option (List (ℕ × List ℕ))
copy_batch h none during after = none
copy_batch h (some b) during after =
    if header_matches (after.blocks b) h.instance_id h.seq
    then some (crops_at (during.blocks b).payload h.rois)
    else none

-- `attach_and_read_roi_batch`; the memory may change as for a frame. An empty batch reads nothing.
unfoldable pub read_batch :
    RoiBatchHandle → RingName → Shm → Shm → Shm → Reader → Option (List (ℕ × List ℕ)) × Reader
unfolding locate
read_batch h base before during after r = elim h.rois [
  | [] ↦ (some [], r)
  | x ∷ xs ↦
      let (b, r') =
        locate (record { ring = base; segment = h.segment }) (header_size + last_byte h.rois)
          h.instance_id h.seq before r in
      (copy_batch h b during after, r')
]
