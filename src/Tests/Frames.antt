-- ===== src/Tests/Frames.antt =====
-- The ring of one camera, three segments deep, with frames of two bytes.
use lum_model_face_recogniti.Base.{ℕ, ◌≡◌, refl, none, some, List, [], ◌∷◌, arith, inl}
use lum_model_face_recogniti.Exec.{raised}
use lum_model_face_recogniti.FrameStore.Memory.{RingName, blank}
use lum_model_face_recogniti.FrameStore.Slot.{
  Shape, Writer, FrameHandle, new_slot, write_shaped, write, prepare, reshape, ensure_segment,
}
use lum_model_face_recogniti.FrameStore.Reader.{Reader, read_ring, read_racing, locate}
use lum_model_face_recogniti.FrameStore.Segments.{IsValid}
use lum_model_face_recogniti.FrameStore.Fresh.{Behind, Stored, write-read, write_shaped-IsValid}
use lum_model_face_recogniti.FrameStore.Lifetime.{write_all, write-read_later}
use lum_model_face_recogniti.FrameStore.Recycled.{read-write_shaped}
use lum_model_face_recogniti.FrameStore.Provenance.{
  Site, Action, writes, restarts, step, run, IsSound, AllAllowed, read-run,
}
use lum_model_face_recogniti.FrameStore.RingSize.{raw_ring_size}

abbrev camera : RingName
camera = record { prefix = "camframe"; camera_id = 7 }

abbrev pub start : Writer
start = record {
  instance_id = 5;
  slot = new_slot 7 "camframe" 3;
  shm = record { names = λ n. none; blocks = λ i. blank 0; next = 0 };
}

pub start-IsValid : IsValid start
start-IsValid = record {
  memory = record { bound = λ n b h. cc; apart = λ n m b h g. cc };
  mapped = λ k b h. cc;
}

pub start-Behind : Behind start
start-Behind i e = omega arith

abbrev pub pair : Shape
pair = record { height = 1; width = 2; channels = 1 }

abbrev pub other_process : Reader
other_process = record { attached = λ n. none; local_slots = λ n. none }

write-read_example :
    (read_ring
      (write_shaped pair (3 ∷ 4 ∷ []) start).0
      camera
      (write_shaped pair (3 ∷ 4 ∷ []) start).1.shm
      other_process).0
    ≡ some (3 ∷ 4 ∷ [])
write-read_example =
    write-read pair (3 ∷ 4 ∷ []) start other_process start-IsValid start-Behind refl refl

abbrev later_frames : List (List ℕ)
later_frames = (5 ∷ 6 ∷ []) ∷ (7 ∷ 8 ∷ []) ∷ []

write-read_later_example :
    (read_ring
      (write_shaped pair (3 ∷ 4 ∷ []) start).0
      camera
      (write_all pair later_frames (write_shaped pair (3 ∷ 4 ∷ []) start).1).shm
      other_process).0
    ≡ some (3 ∷ 4 ∷ [])
write-read_later_example =
    write-read_later pair (3 ∷ 4 ∷ []) later_frames start other_process start-IsValid refl
      (omega arith) refl (inl refl)

-- The fourth frame takes the segment of the first.
abbrev first : FrameHandle
first = record { camera_id = 7; seq = 1; segment = 1; instance_id = 5; shape = pair }

abbrev third : Writer
third = write_all pair later_frames (write_shaped pair (3 ∷ 4 ∷ []) start).1

first_handle : (write_shaped pair (3 ∷ 4 ∷ []) start).0 ≡ first
unfolding write_shaped prepare ensure_segment reshape
first_handle = refl

third-Stored : Stored first (3 ∷ 4 ∷ []) 0 third
unfolding write_all write_shaped prepare ensure_segment reshape
third-Stored = record {
  mapped = refl;
  room = omega arith;
  instance_id = refl;
  seq = refl;
  pixels = refl;
  shape = refl;
}

third-IsValid : IsValid third
unfolding write_all
third-IsValid =
    write_shaped-IsValid pair _ _
      (write_shaped-IsValid pair _ _ (write_shaped-IsValid pair (3 ∷ 4 ∷ []) start start-IsValid))

third_base : third.slot.base ≡ camera
unfolding write_all write_shaped prepare ensure_segment reshape
third_base = refl

read-write_shaped_example :
    (read_ring first third.slot.base (write_shaped pair (9 ∷ 9 ∷ []) third).1.shm other_process).0
    ≡ none
unfolding write_all write_shaped prepare ensure_segment reshape
read-write_shaped_example =
    read-write_shaped first (3 ∷ 4 ∷ []) (9 ∷ 9 ∷ []) 0 third third-Stored refl other_process
      third-IsValid refl refl refl (omega arith)

-- A frame, a restart of the writer's process, and a frame of the new process under the same
-- sequence number.
abbrev site : Site
site = record { writer = start; log = λ i q. none }

abbrev history : List Action
history = writes pair (3 ∷ 4 ∷ []) ∷ restarts 6 3 ∷ writes pair (5 ∷ 6 ∷ []) ∷ []

site-IsSound : IsSound site
site-IsSound = record { valid = start-IsValid; behind = start-Behind; recorded = λ i. inl refl }

abbrev second_life : FrameHandle
second_life = record first { instance_id = 6 }

history-AllAllowed : AllAllowed site history
unfolding step run write_shaped prepare ensure_segment reshape
history-AllAllowed = (refl, ((λ i e. ground arith), (refl, tt)))

read-run_example : ◌≡◌ {A = List ℕ} (5 ∷ 6 ∷ []) (5 ∷ 6 ∷ [])
unfolding step run write_shaped prepare ensure_segment reshape read_racing locate
read-run_example =
    read-run site history second_life camera other_process (5 ∷ 6 ∷ []) (5 ∷ 6 ∷ []) site-IsSound
      history-AllAllowed (omega arith) refl refl refl

default_raw_ring : raw_ring_size 2000 ≡ 4
unfolding raw_ring_size
default_raw_ring = refl

-- An array that is not three-dimensional is refused, and the slot is as it was.
flat_frame :
    write (record { shape = 2 ∷ 2 ∷ []; bytes = 1 ∷ 2 ∷ 3 ∷ 4 ∷ [] }) start ≡ (raised, start)
unfolding write
flat_frame = refl
