-- ===== src/YoloTasks/Handling.antt =====
-- The specification of a batch: what may become of each request.
use lum_model_face_recogniti.Base.{
  ℕ, suc, ◌≡◌, ◌≤◌, ◌<◌, ◌⊎◌, Option, none, some, List, [], ◌∷◌, ◌++◌, map, String,
}
use lum_model_face_recogniti.Exec.{ok, raised}
use lum_model_face_recogniti.FrameStore.Slot.{Array, FrameHandle}
use lum_model_face_recogniti.YoloTasks.{Box, Detection, Request, Forward, Outside, forward_of}

-- Clocks do not go back; the frames of the batch are not written meanwhile; the model answers each
-- image on its own, or raises; and Celery takes what it is given. `sent` is what it was given.
pub record Serving {E F : Type 0} (O : Outside E F) : Type 0 where
  pub frames : FrameHandle → Option Array
  pub analyse : Array → Option (List (Box F))
  pub sent : E → List (Forward F)
  pub attach_lem :
      (h : FrameHandle) (e : E)
      → let r = O.attach_and_read h e in
        (r.0 ≡ frames h) × (sent r.1 ≡ sent e) × (O.now e ≤ O.now r.1)
  pub model_lem :
      (fs : List Array) (e : E)
      → let r = O.model fs e in
        ((r.0 ≡ raised) ⊎ (r.0 ≡ ok (map analyse fs))) × (sent r.1 ≡ sent e) × (O.now e ≤ O.now r.1)
  pub dispatch_lem :
      (f : Forward F) (e : E)
      → let r = O.dispatch f e in
        (r.0 ≡ ok tt) × (sent r.1 ≡ sent e ++ (f ∷ [])) × (O.now e ≤ O.now r.1)
  pub report_lem :
      (ms size : ℕ) (e : E) → let r = O.report ms size e in (sent r ≡ sent e) × (O.now e ≤ O.now r)

-- The time that a forward has, where its request has a deadline.
abbrev pub IsFresh : Option ℕ → Option ℕ → Type 0
IsFresh none expires = expires ≡ none
IsFresh (some d) expires = (ms : ℕ) × (expires ≡ some ms) × (0 < ms) × (ms ≤ d)

module _ {F : Type 0} (camera_queue_name : ℕ → String) (frames : FrameHandle → Option Array)
    (detect : Array → List (Detection F)) (now : ℕ) where
  -- The forward `f` is the request `r` with the detections of the frame `img`.
  abbrev pub Carries : Request → Array → Forward F → Type 0
  Carries r img f =
      (expires : Option ℕ) × (f ≡ forward_of camera_queue_name r (detect img) expires)
      × IsFresh r.deadline expires

  -- The specification of a batch that ends at the time `now`: in order, each request is forwarded with
  -- the detections of its own frame, or its frame is gone, or its deadline is not later than `now`.
  abbrev pub Handled : List Request → List (Forward F) → ℕ → ℕ → Type 0
  Handled [] fs expired gone = (fs ≡ []) × (expired ≡ 0) × (gone ≡ 0)
  Handled (r ∷ rs) fs expired gone =
      ((img : Array) × (f : Forward F) × (rest : List (Forward F)) × (frames r.frame_handle
          ≡ some img)
        × Carries r img f
        × (fs ≡ f ∷ rest)
        × Handled rs rest expired gone)
      ⊎ (((n : ℕ) × (frames r.frame_handle ≡ none) × (gone ≡ suc n) × Handled rs fs expired n)
          ⊎ ((d n : ℕ) × (r.deadline ≡ some d)
              × (d ≤ now)
              × (expired ≡ suc n)
              × Handled rs fs n gone))

  -- The same for the second loop.
  abbrev pub Forwarded : List (Request × Array) → List (Forward F) → ℕ → Type 0
  Forwarded [] fs expired = (fs ≡ []) × (expired ≡ 0)
  Forwarded ((r, img) ∷ ls) fs expired =
      ((f : Forward F) × (rest : List (Forward F)) × Carries r img f
        × (fs ≡ f ∷ rest)
        × Forwarded ls rest expired)
      ⊎ ((d n : ℕ) × (r.deadline ≡ some d) × (d ≤ now) × (expired ≡ suc n) × Forwarded ls fs n)
