-- ===== src/Tests/Faces.antt =====
-- The batch of two crops, of which the second shows no face.
use lum_model_face_recogniti.Base.{ℕ, ◌+◌, ◌≡◌, some, List, [], ◌∷◌, refl}
use lum_model_face_recogniti.Exec.{Outcome, ok, raised}
use lum_model_face_recogniti.FrameStore.Slot.{Writer}
use lum_model_face_recogniti.FrameStore.Roi.{RoiBatchHandle, write_batch, read_batch}
use lum_model_face_recogniti.FrameStore.Roi.Packing.{arrays, tracks}
use lum_model_face_recogniti.FaceTasks.{
  Roi, Face, blank, detected, Models, embed_rois, embed_batch, embeddings_by_track,
}
use lum_model_face_recogniti.FaceTasks.Aligned.{Steady}
use lum_model_face_recogniti.FaceTasks.Routing.{embeddings_by_track-embed_batch}
use lum_model_face_recogniti.Tests.Batches.{
  start, start-IsValid, start-Behind, crops, other_process,
}

-- A crop of two bytes shows a face, any other makes the detector raise; a face is its first byte.
abbrev faces_in : Roi → Outcome (List (Face ℕ ℕ))
faces_in (x ∷ y ∷ []) = ok (record { aligned_crop = some x; geometry = y } ∷ [])
faces_in _ = raised

abbrev models : Models ℕ ℕ ℕ ℕ ℕ
models = record {
  detect_and_align = λ roi e. (faces_in roi, e + 1);
  embed_batch = λ c e. (ok (c ∷ []), e + 1);
  describe = λ roi f v. ok v;
}

abbrev steady : Steady models
steady = record {
  faces = faces_in;
  vectors = λ c. ok (c ∷ []);
  description = λ roi f v. v;
  detect_lem = λ roi e. refl;
  embed_lem = λ c e. refl;
  describe_lem = λ roi f v. refl;
}

embed_rois_test :
    embed_rois models ((5 ∷ 6 ∷ 7 ∷ []) ∷ (3 ∷ 4 ∷ []) ∷ []) 0 ≡ (blank ∷ detected 3 ∷ [], 3)
unfolding embed_rois
embed_rois_test = refl

embeddings_by_track-embed_batch_example :
    (h : RoiBatchHandle) × (w' : Writer) × (write_batch "face" (arrays crops) (tracks crops) start
      ≡ (ok h, w'))
    × (let packed = (read_batch h start.slot.base w'.shm w'.shm w'.shm other_process).0 in
        embeddings_by_track (embed_batch models h packed 0).0 h
        ≡ (31, detected 3) ∷ (32, blank) ∷ [])
embeddings_by_track-embed_batch_example =
    embeddings_by_track-embed_batch steady "face" crops start other_process 0 start-IsValid
      start-Behind (refl, (refl, tt)) refl
