-- ===== src/AsyncLogger/Uploads.antt =====
-- The callbacks of uploads: which are called, and in which order.
use lum_model_face_recogniti.Base.{
  ℕ, append_nil, append_assoc, zero, suc, ◌≤◌, ◌≡◌, ◌++◌, true, Option, none, some, List, [], ◌∷◌,
  if◌then◌else◌, String, length, length-append, arith, refl, ap, sym, ◌∙◌, inl, inr, Option-cases,
  ◌⊎◌, subst,
}
use lum_model_face_recogniti.Attendance.{Image, Services}
use lum_model_face_recogniti.AsyncLogger.{
  Upload, Callees, AsyncLogger, gcs_queue_size, stop, upload_image, process_gcs_upload, gcs_take,
  gcs_worker, call_back,
}

abbrev pub callbacks : List Upload → List ℕ
callbacks [] = []
callbacks (x ∷ xs) = elim x.callback [ none ↦ callbacks xs | some k ↦ k ∷ callbacks xs ]

List-cases {ℓ} :
    {A : Type ℓ} → (xs : List A) → (xs ≡ []) ⊎ ((x : A) × (ys : List A) × (xs ≡ x ∷ ys))
List-cases [] = inl refl
List-cases (x ∷ xs) = inr (x, xs, refl)

callbacks-append : (xs ys : List Upload) → callbacks (xs ++ ys) ≡ callbacks xs ++ callbacks ys
callbacks-append [] ys = refl
callbacks-append (x ∷ xs) ys = ground (arith, callbacks-append xs ys)

-- The queue of uploads never has more than 200 items.
pub length-upload_image-le :
    (x : Upload) (a : AsyncLogger)
    → length a.gcs_queue ≤ gcs_queue_size
    → length (upload_image x a).1.gcs_queue ≤ gcs_queue_size
unfolding upload_image
length-upload_image-le x a h = ground (arith, length-append a.gcs_queue (x ∷ []))

pub data Step : Type 0 where
  submit : (x : Upload) → Step
  work : Step
  -- The worker takes an upload though the test of `running` was made before a stop.
  work_late : Step
  halt : Step

callbacks-upload_image :
    (x : Upload) (a : AsyncLogger)
    → callbacks (upload_image x a).1.gcs_queue
      ≡ callbacks a.gcs_queue ++ (if (upload_image x a).0 then callbacks (x ∷ []) else [])
unfolding upload_image
callbacks-upload_image x a =
    ground (arith, callbacks-append a.gcs_queue (x ∷ []), append_nil (callbacks a.gcs_queue))

module _ {E : Type 0} (S : Services E) (C : Callees E) where
  -- The callbacks of the uploads that were queued, and where the steps lead.
  abbrev pub run : List Step → AsyncLogger × E → List ℕ × (AsyncLogger × E)
  run [] s = ([], s)
  run (submit x ∷ ss) (a, e) =
      let (queued, a') = upload_image x a in
      let rest = run ss (a', e) in ((if queued then callbacks (x ∷ []) else []) ++ rest.0, rest.1)
  run (work ∷ ss) s = run ss (gcs_worker S C s)
  run (work_late ∷ ss) s = run ss (gcs_take S C s)
  run (halt ∷ ss) (a, e) = run ss (stop a, e)

  abbrev pub work_off : ℕ → AsyncLogger × E → AsyncLogger × E
  work_off zero s = s
  work_off (suc n) s = work_off n (gcs_worker S C s)

  -- `called` lists the callbacks that were called so far; a call adds to it, an upload does not.
  module _ (called : E → List ℕ)
      (calls : (k : ℕ) (url : Option String) (e : E)
        → called (C.call k url e) ≡ called e ++ (k ∷ []))
      (uploads : (i : Image) (folder slug : String) (e : E)
        → called (S.upload_image i folder slug e).1 ≡ called e) where
    called-call_back :
        (x : Upload) (url : Option String) (e : E)
        → called (call_back S C x.callback url e) ≡ called e ++ callbacks (x ∷ [])
    called-call_back x url e = elim (Option-cases x.callback) [
      | inl h ↦ rw h (sym (append_nil (called e)))
      | inr (k, h) ↦ rw h (calls k url e)
    ]

    called-process_gcs_upload :
        (x : Upload) (e : E) → called (process_gcs_upload S C x e) ≡ called e ++ callbacks (x ∷ [])
    unfolding process_gcs_upload
    called-process_gcs_upload x e = elim (Option-cases x.image) [
      | inl h ↦ rw h (called-call_back x none e)
      | inr (i, h) ↦ rw h (
          called-call_back x (S.upload_image i x.folder x.client_slug e).0
            (S.upload_image i x.folder x.client_slug e).1
          ∙ ap (λ l. l ++ callbacks (x ∷ [])) (uploads i x.folder x.client_slug e))
    ]

    callbacks_cons :
        (x : Upload) (xs : List Upload) → callbacks (x ∷ xs) ≡ callbacks (x ∷ []) ++ callbacks xs
    callbacks_cons x xs = ground arith

    called_first :
        (x : Upload) (xs : List Upload) (e : E)
        → called (process_gcs_upload S C x e) ++ callbacks xs ≡ called e ++ callbacks (x ∷ xs)
    called_first x xs e =
        ap (λ l. l ++ callbacks xs) (called-process_gcs_upload x e)
        ∙ append_assoc (called e) (callbacks (x ∷ [])) (callbacks xs)
        ∙ ap (λ l. called e ++ l) (sym (callbacks_cons x xs))

    called-gcs_take :
        (a : AsyncLogger) (e : E)
        → let r = gcs_take S C (a, e) in
          called r.1 ++ callbacks r.0.gcs_queue ≡ called e ++ callbacks a.gcs_queue
    unfolding gcs_take
    called-gcs_take a e = elim (List-cases a.gcs_queue) [
      | inl h ↦ rw h refl
      | inr (x, xs, h) ↦ rw h (called_first x xs e)
    ]

    called-gcs_worker :
        (a : AsyncLogger) (e : E)
        → let r = gcs_worker S C (a, e) in
          called r.1 ++ callbacks r.0.gcs_queue ≡ called e ++ callbacks a.gcs_queue
    unfolding gcs_worker
    called-gcs_worker a e = ground (arith, called-gcs_take a e)

    -- Whatever is submitted, worked off, also late, or stopped, in whatever order: the callbacks called
    -- so far and then those still queued are those called or queued before and then those of the
    -- uploads that were accepted since. None is lost, doubled or out of order.
    pub called-run :
        (ss : List Step) (a : AsyncLogger) (e : E)
        → let r = run ss (a, e) in
          called r.1.1 ++ callbacks r.1.0.gcs_queue ≡ (called e ++ callbacks a.gcs_queue) ++ r.0
    called-run [] a e = sym (append_nil _)
    called-run (submit x ∷ ss) a e =
        let r = upload_image x a in
        let more = if r.0 then callbacks (x ∷ []) else [] in
        called-run ss r.1 e
        ∙ ap (λ l. (called e ++ l) ++ (run ss (r.1, e)).0) (callbacks-upload_image x a)
        ∙ ap (λ l. l ++ (run ss (r.1, e)).0)
            (sym (append_assoc (called e) (callbacks a.gcs_queue) more))
        ∙ append_assoc (called e ++ callbacks a.gcs_queue) more (run ss (r.1, e)).0
    called-run (work ∷ ss) a e =
        let s = gcs_worker S C (a, e) in
        called-run ss s.0 s.1 ∙ ap (λ l. l ++ (run ss s).0) (called-gcs_worker a e)
    called-run (work_late ∷ ss) a e =
        let s = gcs_take S C (a, e) in
        called-run ss s.0 s.1 ∙ ap (λ l. l ++ (run ss s).0) (called-gcs_take a e)
    called-run (halt ∷ ss) a e = called-run ss (stop a) e

    worker_first :
        (a : AsyncLogger) (e : E) (x : Upload) (xs : List Upload)
        → a.running ≡ true
        → gcs_worker S C (record a { gcs_queue = x ∷ xs }, e)
          ≡ (record a { gcs_queue = xs }, process_gcs_upload S C x e)
    unfolding gcs_worker gcs_take
    worker_first a e x xs h = rw h refl

    work_off_lem :
        (q : List Upload) (a : AsyncLogger) (e : E)
        → a.running ≡ true
        → let r = work_off (length q) (record a { gcs_queue = q }, e) in
          (r.0.gcs_queue ≡ []) × (called r.1 ≡ called e ++ callbacks q)
    work_off_lem [] a e h = (refl, sym (append_nil (called e)))
    work_off_lem (x ∷ xs) a e h =
        let r = work_off_lem xs a (process_gcs_upload S C x e) h in
        subst
          (λ s.
            ((work_off (length xs) s).0.gcs_queue ≡ [])
            × (called (work_off (length xs) s).1 ≡ called e ++ callbacks (x ∷ xs)))
          (sym (worker_first a e x xs h)) (r.0, r.1 ∙ called_first x xs e)

    -- While the workers run, as many turns as there are queued uploads empty the queue, and call the
    -- callback of each queued upload exactly once, in order.
    pub called-work_off :
        (a : AsyncLogger) (e : E)
        → a.running ≡ true
        → let r = work_off (length a.gcs_queue) (a, e) in
          (r.0.gcs_queue ≡ []) × (called r.1 ≡ called e ++ callbacks a.gcs_queue)
    called-work_off a e h = work_off_lem a.gcs_queue a e h
