-- ===== src/Tests/Batches.antt =====
-- A batch of two crops of different sizes.
use lum_model_face_recogniti.Base.{◌≡◌, none, some, List, [], ◌∷◌, arith, refl, ap, sym, subst}
use lum_model_face_recogniti.Exec.{ok}
use lum_model_face_recogniti.FrameStore.Memory.{blank}
use lum_model_face_recogniti.FrameStore.Slot.{Writer}
use lum_model_face_recogniti.FrameStore.Reader.{Reader}
use lum_model_face_recogniti.FrameStore.Segments.{IsValid}
use lum_model_face_recogniti.FrameStore.Fresh.{Behind}
use lum_model_face_recogniti.FrameStore.Roi.{
  RoiBatchHandle, new_roi_slot, write_batch, read_batch, total_bytes,
}
use lum_model_face_recogniti.FrameStore.Roi.Packing.{Crop, arrays}
use lum_model_face_recogniti.FrameStore.Roi.Batches.{read-write_batch}

abbrev pub start : Writer
start = record {
  instance_id = 5;
  slot = new_roi_slot 7 "camroi_face";
  shm = record { names = λ n. none; blocks = λ i. blank 0; next = 0 };
}

pub start-IsValid : IsValid start
start-IsValid = record {
  memory = record { bound = λ n b h. cc; apart = λ n m b h g. cc };
  mapped = λ k b h. cc;
}

pub start-Behind : Behind start
start-Behind i e = omega arith

abbrev pub crops : List Crop
crops =
    record {
      track_id = 31;
      shape = record { height = 1; width = 2; channels = 1 };
      bytes = 3 ∷ 4 ∷ [];
    }
    ∷ record {
      track_id = 32;
      shape = record { height = 1; width = 1; channels = 3 };
      bytes = 5 ∷ 6 ∷ 7 ∷ [];
    }
    ∷ []

abbrev pub other_process : Reader
other_process = record { attached = λ n. none; local_slots = λ n. none }

total_bytes_test : total_bytes (arrays crops) ≡ 5
total_bytes_test = refl

-- The slot after a first batch.
abbrev after : Writer
after = (write_batch "face" (arrays crops) (31 ∷ 32 ∷ []) start).1

after-Behind : IsValid after × Behind after
after-Behind =
    let (h, w', written, read, kept) =
      read-write_batch "face" crops start other_process start-IsValid start-Behind
        (refl, (refl, tt)) refl in
    subst (λ w. IsValid w × Behind w) (ap (λ r. r.1) (sym written)) kept

read-write_batch_example :
    (h : RoiBatchHandle) × (w' : Writer) × (write_batch "face" (arrays crops) (31 ∷ 32 ∷ []) after
      ≡ (ok h, w'))
    × ((read_batch h after.slot.base w'.shm w'.shm w'.shm other_process).0
        ≡ some ((31, 3 ∷ 4 ∷ []) ∷ (32, 5 ∷ 6 ∷ 7 ∷ []) ∷ []))
    × (IsValid w' × Behind w')
read-write_batch_example =
    read-write_batch "face" crops after other_process after-Behind.0 after-Behind.1
      (refl, (refl, tt)) refl
