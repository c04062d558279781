-- ===== src/FrameStore/Slot.antt =====
-- The writer's side: `CameraFrameSlot`. `RawFrameSlot` is the same class under another prefix.
use lum_model_face_recogniti.Base.{
  ℕ, suc, ◌+◌, ◌*◌, ◌%◌, ◌==◌, ◌&&◌, Bool, false, Option, none, some, List, [], ◌∷◌, leb,
  if◌then◌else◌, String,
}
use lum_model_face_recogniti.Exec.{Outcome, ok, raised}
use lum_model_face_recogniti.FrameStore.Memory.{
  RingName, Name, Shm, header_size, unlink, modify, create_or_reclaim, splice,
}

pub record Shape : Type 0 where
  pub height : ℕ
  pub width : ℕ
  pub channels : ℕ

-- `int(np.prod(shape))`
abbrev pub bytes_of : Shape → ℕ
bytes_of s = s.height * s.width * s.channels

abbrev pub shape_eq : Shape → Shape → Bool
shape_eq a b = a.height == b.height && (a.width == b.width && a.channels == b.channels)

-- A `uint8` array: its dimensions and its bytes in order.
pub record Array : Type 0 where
  pub shape : List ℕ
  pub bytes : List ℕ

pub record FrameHandle : Type 0 where
  pub camera_id : ℕ
  pub seq : ℕ
  pub segment : ℕ
  pub instance_id : ℕ
  pub shape : Shape

-- `_shms`, a dictionary from segments to mapped blocks.
abbrev pub Mapped : Type 0
Mapped = List (ℕ × ℕ)

abbrev pub lookup : ℕ → Mapped → Option ℕ
lookup k [] = none
lookup k ((j, b) ∷ m) = if j == k then some b else lookup k m

abbrev pub put : ℕ → ℕ → Mapped → Mapped
put k b [] = (k, b) ∷ []
put k b ((j, c) ∷ m) = if j == k then (k, b) ∷ m else (j, c) ∷ put k b m

pub record Slot : Type 0 where
  pub camera_id : ℕ
  pub base : RingName
  pub ring_size : ℕ
  pub shms : Mapped
  pub shape : Option Shape
  pub seq : ℕ

-- The process that owns the slot, and the memory that it writes to.
pub record Writer : Type 0 where
  pub instance_id : ℕ
  pub slot : Slot
  pub shm : Shm

-- `__init__`
abbrev pub new_slot : ℕ → String → ℕ → Slot
new_slot camera_id name_prefix ring_size = record {
  camera_id = camera_id;
  base = record { prefix = name_prefix; camera_id = camera_id };
  ring_size = ring_size;
  shms = [];
  shape = none;
  seq = 0;
}

abbrev pub segment_name : Slot → ℕ → Name
segment_name slot segment = record { ring = slot.base; segment = segment }

abbrev pub unlink_all : RingName → Mapped → Shm → Shm
unlink_all base [] s = s
unlink_all base ((k, b) ∷ m) s = unlink_all base m (unlink (record { ring = base; segment = k }) s)

-- `_release`
abbrev pub release : Writer → Writer
release w = record w {
  slot = record w.slot { shms = [] };
  shm = unlink_all w.slot.base w.slot.shms w.shm;
}

-- A change of shape drops every segment.
abbrev pub same_shape : Option Shape → Shape → Bool
same_shape none shape = false
same_shape (some old) shape = shape_eq old shape

unfoldable pub reshape : Shape → Writer → Writer
reshape shape w =
    if same_shape w.slot.shape shape
    then w
    else (let released = release w in
        record released { slot = record released.slot { shape = some shape } })

-- A new block under the segment's name.
unfoldable pub allocate : ℕ → ℕ → Writer → ℕ × Writer
allocate segment nbytes w =
    let shm = create_or_reclaim (segment_name w.slot segment) nbytes w.shm in
    (
      w.shm.next,
      record w { slot = record w.slot { shms = put segment w.shm.next w.slot.shms }; shm = shm },
    )

-- `_ensure_segment`, below the test on the shape.
unfoldable pub ensure_sized : ℕ → ℕ → Writer → ℕ × Writer
unfolding allocate
ensure_sized segment nbytes w = elim (lookup segment w.slot.shms) [
  | none ↦ allocate segment nbytes w
  | some b ↦
      if leb nbytes (w.shm.blocks b).size
      then (b, w)
      else allocate segment nbytes (record w { shm = unlink (segment_name w.slot segment) w.shm })
]

unfoldable pub ensure_segment : ℕ → Shape → Writer → ℕ × Writer
unfolding reshape ensure_sized
ensure_segment segment shape w =
    ensure_sized segment (header_size + bytes_of shape) (reshape shape w)

-- `write`, in the three steps that a reader in another process can tell apart: the segment is made
-- ready, the pixels are copied, the header is stamped.
unfoldable pub prepare : Shape → Writer → ℕ × Writer
unfolding ensure_segment
prepare shape w =
    let w' : Writer = record w { slot = record w.slot { seq = suc w.slot.seq } } in
    ensure_segment (suc w.slot.seq % w.slot.ring_size) shape w'

abbrev pub copy_pixels : ℕ → List ℕ → Writer → Writer
copy_pixels b bytes w = record w {
  shm = modify b (λ k. record k { payload = splice 0 bytes k.payload }) w.shm;
}

abbrev pub stamp : ℕ → Writer → Writer
stamp b w = record w {
  shm = modify b (λ k. record k { instance_id = w.instance_id; seq = w.slot.seq }) w.shm;
}

abbrev pub handle_of : Shape → Writer → FrameHandle
handle_of shape w = record {
  camera_id = w.slot.camera_id;
  seq = w.slot.seq;
  segment = w.slot.seq % w.slot.ring_size;
  instance_id = w.instance_id;
  shape = shape;
}

unfoldable pub write_shaped : Shape → List ℕ → Writer → FrameHandle × Writer
unfolding prepare
write_shaped shape bytes w =
    let (b, w') = prepare shape w in
    let done = stamp b (copy_pixels b bytes w') in (handle_of shape done, done)

-- An array that is not H×W×C is refused, before anything changes.
unfoldable pub write : Array → Writer → Outcome FrameHandle × Writer
unfolding write_shaped
write frame w = elim frame.shape [
  | h ∷ v ∷ c ∷ [] ↦
      let (handle, w') =
        write_shaped (record { height = h; width = v; channels = c }) frame.bytes w in
      (ok handle, w')
  | _ ↦ (raised, w)
]

-- `close`
unfoldable pub close : Writer → Writer
close w = release w
