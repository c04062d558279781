-- ===== src/FaceTasks.antt =====
-- src/workers/face_tasks.py and src/workers/face_client.py: the crops of persons of one camera are
-- looked through for faces, the faces are embedded, and each result goes back to its track.
pub mod Aligned
pub mod Routing
use lum_model_face_recogniti.Base.{
  ℕ, zero, suc, ◌==◌, Bool, true, false, Option, none, some, List, [], ◌∷◌, length, if◌then◌else◌,
}
use lum_model_face_recogniti.Exec.{Outcome, ok, raised, Exec, pure, ◌>>=◌, ◌>>◌}
use lum_model_face_recogniti.FrameStore.Roi.{RoiHandle, RoiBatchHandle}

-- The bytes of a crop.
abbrev pub Roi : Type 0
Roi = List ℕ

-- A face that the detector found; none where it has no landmarks to align it by.
pub record Face (C F : Type 0) : Type 0 where
  pub aligned_crop : Option C
  pub geometry : F

-- A result dictionary: that of an ROI without a usable face, or what is known of the face.
pub data FaceResult (D : Type 0) : Type 0 where
  blank : FaceResult D
  detected : (d : D) → FaceResult D

-- The detector and the embedder, which may raise, and `describe`: what `embed_batch` itself reads off an
-- embedded face, its crop, its box, its landmarks and its orientation. This code computes on numpy's
-- arrays and is not modelled; where it raises, the results of the whole batch are blank.
pub record Models (E C F V D : Type 0) : Type 0 where
  pub detect_and_align : Roi → Exec E (List (Face C F))
  pub embed_batch : C → Exec E (List V)
  pub describe : Roi → Face C F → V → Outcome D

module _ {A : Type 0} where
  abbrev pub set_at : ℕ → A → List A → List A
  set_at i a [] = []
  set_at zero a (x ∷ xs) = a ∷ xs
  set_at (suc i) a (x ∷ xs) = x ∷ set_at i a xs

  abbrev pub get_at : ℕ → List A → Option A
  get_at i [] = none
  get_at zero (x ∷ xs) = some x
  get_at (suc i) (x ∷ xs) = get_at i xs

module _ {D : Type 0} where
  -- `_blank_results`
  abbrev pub blank_results : ℕ → List (FaceResult D)
  blank_results zero = []
  blank_results (suc n) = blank ∷ blank_results n

  abbrev pub or_blank : ℕ → Outcome (List (FaceResult D)) → List (FaceResult D)
  or_blank n raised = blank_results n
  or_blank n (ok results) = results

abbrev pub rois_of : List (ℕ × Roi) → List Roi
rois_of [] = []
rois_of ((t, roi) ∷ packed) = roi ∷ rois_of packed

module _ {E C F V D : Type 0} (M : Models E C F V D) where
  -- An entry of `faces_to_embed` with its crop: the place of the ROI, and the face.
  abbrev pub Entry : Type 0
  Entry = ℕ × (Face C F × C)

  -- The first face, where it is aligned.
  abbrev pub usable : Outcome (List (Face C F)) → Option (Face C F × C)
  usable raised = none
  usable (ok []) = none
  usable (ok (f ∷ fs)) = elim f.aligned_crop [ none ↦ none | some c ↦ some (f, c) ]

  abbrev pub detect_one : Roi → E → Option (Face C F × C) × E
  detect_one [] e = (none, e)
  detect_one (x ∷ roi) e = let (r, e') = M.detect_and_align (x ∷ roi) e in (usable r, e')

  abbrev pub add_entry : ℕ → Option (Face C F × C) → List Entry → List Entry
  add_entry i none es = es
  add_entry i (some f) es = (i, f) ∷ es

  -- The first loop, from the ROI at the place `i` on.
  unfoldable pub detect_all : ℕ → List Roi → E → List Entry × E
  detect_all i [] e = ([], e)
  detect_all i (roi ∷ rois) e =
      let (f, e') = detect_one roi e in
      let (entries, e'') = detect_all (suc i) rois e' in (add_entry i f entries, e'')

  abbrev pub first_of : Outcome (List V) → Option V
  first_of raised = none
  first_of (ok []) = none
  first_of (ok (v ∷ vs)) = some v

  -- The second loop, one crop for each call.
  unfoldable pub embed_all : List Entry → E → List (Option V) × E
  embed_all [] e = ([], e)
  embed_all ((i, (f, c)) ∷ entries) e =
      let (v, e') = M.embed_batch c e in
      let (vs, e'') = embed_all entries e' in (first_of v ∷ vs, e'')

  abbrev pub write_at : ℕ → Outcome D → List (FaceResult D) → Outcome (List (FaceResult D))
  write_at i raised results = raised
  write_at i (ok d) results = ok (set_at i (detected d) results)

  abbrev pub describe_at :
      ℕ → Option Roi → Face C F → V → List (FaceResult D) → Outcome (List (FaceResult D))
  describe_at i none f v results = raised
  describe_at i (some roi) f v results = write_at i (M.describe roi f v) results

  -- What is written at a place; nothing where the face was not embedded.
  abbrev pub placed :
      List Roi → Entry → Option V → List (FaceResult D) → Outcome (List (FaceResult D))
  placed rois (i, (f, c)) none results = ok results
  placed rois (i, (f, c)) (some v) results = describe_at i (get_at i rois) f v results

  abbrev pub and_then :
      Outcome (List (FaceResult D))
      → (List (FaceResult D) → Outcome (List (FaceResult D)))
      → Outcome (List (FaceResult D))
  and_then raised k = raised
  and_then (ok results) k = k results

  -- The third loop: each result goes to the place of its ROI.
  unfoldable pub scatter :
      List Roi → List Entry → List (Option V) → List (FaceResult D) → Outcome (List (FaceResult D))
  scatter rois [] vs results = ok results
  scatter rois (x ∷ xs) [] results = ok results
  scatter rois (x ∷ xs) (v ∷ vs) results = and_then (placed rois x v results) (scatter rois xs vs)

  unfoldable pub embed_rois : List Roi → E → List (FaceResult D) × E
  unfolding detect_all embed_all scatter
  embed_rois rois e =
      let n = length rois in
      let (entries, e1) = detect_all 0 rois e in
      let (vs, e2) = embed_all entries e1 in
      (or_blank n (scatter rois entries vs (blank_results n)), e2)

  -- `_embed_batch`, with what `attach_and_read_roi_batch` gave.
  unfoldable pub embed_batch :
      RoiBatchHandle → Option (List (ℕ × Roi)) → E → List (FaceResult D) × E
  unfolding embed_rois
  embed_batch h none e = (blank_results (length h.rois), e)
  embed_batch h (some packed) e =
      if length h.rois == 0 then ([], e) else embed_rois (rois_of packed) e

module _ {A : Type 0} where
  abbrev pub pair_up : List RoiHandle → List A → List (ℕ × A)
  pair_up [] xs = []
  pair_up (r ∷ rs) [] = []
  pair_up (r ∷ rs) (x ∷ xs) = (r.track_id, x) ∷ pair_up rs xs

  -- `embeddings_by_track` of the client: a reply of another length is refused.
  unfoldable pub embeddings_by_track : List A → RoiBatchHandle → List (ℕ × A)
  embeddings_by_track results h =
      if length results == length h.rois then pair_up h.rois results else []

-- Celery and the hook of failures, as the client uses them; each may raise.
pub record Celery (E R : Type 0) : Type 0 where
  pub apply_async : RoiBatchHandle → ℕ → Exec E ℕ
  pub get : ℕ → ℕ → Exec E (List R)
  pub forget : ℕ → Exec E (Unit {0})
  pub on_fallback : Exec E (Unit {0})

-- Times are milliseconds.
pub record FaceEmbedClient : Type 0 where
  pub expires_ms : ℕ
  pub timeout_ms : ℕ

module _ {E R : Type 0} (K : Celery E R) where
  -- The `except`, which the hook may leave by a raise.
  abbrev pub or_none : RoiBatchHandle → Outcome (List R) × E → Outcome (List (ℕ × R)) × E
  or_none h (ok results, e) = (ok (embeddings_by_track results h), e)
  or_none h (raised, e) = (do K.on_fallback; pure []) e

  abbrev pub then_forget : ℕ → Outcome (List (ℕ × R)) × E → Outcome (List (ℕ × R)) × E
  then_forget ticket (raised, e) = (raised, (K.forget ticket e).1)
  then_forget ticket (ok map, e) = (do K.forget ticket; pure map) e

  -- `embed`: the request itself is outside the `try`, and the result is forgotten in any case.
  unfoldable pub embed : FaceEmbedClient → RoiBatchHandle → Exec E (List (ℕ × R))
  embed c h = do
    ticket ← K.apply_async h c.expires_ms
    λ e. then_forget ticket (or_none h (K.get ticket c.timeout_ms e))
