-- ===== src/YoloTasks/Batch.antt =====
-- What becomes of the requests of a batch.
use lum_model_face_recogniti.Base.{
  ℕ, append_nil, append_assoc, suc, ◌%◌, ◌==◌, ◌+◌, ◌-◌, ◌≡◌, ◌≤◌, ◌<◌, ◌⊎◌, Bool, true, false,
  Option, none, some, List, [], ◌∷◌, ◌++◌, map, length, if◌then◌else◌, arith, refl, ap, sym, ◌∙◌,
  subst, inl, inr, Bool-cases, Option-cases, String, leb,
}
use lum_model_face_recogniti.Exec.{Outcome, ok, raised, Exec, continue, ◌>>◌}
use lum_model_face_recogniti.FrameStore.Slot.{Array}
use lum_model_face_recogniti.YoloTasks.{
  Detection, Request, Forward, Outside, BatchStats, record_batch, parse_yolo_result, parse_all,
  Survivors, is_late, remaining, over, unlimited, left, forward_of, frames_of, none_each, collect,
  infer, one_more, forward_all, finish, run_detect_batch,
}
use lum_model_face_recogniti.YoloTasks.Handling.{Serving, IsFresh, Handled, Forwarded}

late_lem : (t : ℕ) (o : Option ℕ) → is_late t o ≡ true → (d : ℕ) × (o ≡ some d) × (d ≤ t)
late_lem t none h = cc
late_lem t (some d) h = (d, refl, ground (arith, h))

remaining_cases :
    (t : ℕ) (o : Option ℕ)
    → ((o ≡ none) × (remaining t o ≡ unlimited))
      ⊎ (((d : ℕ) × (o ≡ some d) × (d ≤ t) × (remaining t o ≡ over))
          ⊎ ((d : ℕ) × (o ≡ some d) × (t < d) × (remaining t o ≡ left (d - t))))
remaining_cases t none = inl (refl, refl)
remaining_cases t (some d) = elim (Bool-cases (leb d t)) [
  | inl q ↦ inr (inl (d, refl, ground (arith, q), rw q refl))
  | inr q ↦ inr (inr (d, refl, ground (arith, q), rw q refl))
]

module _ {F : Type 0} where
  abbrev answers : (Array → List (Detection F)) → List (Request × Array) → List (List (Detection F))
  answers detect [] = []
  answers detect ((r, img) ∷ ls) = detect img ∷ answers detect ls

module _ {E F : Type 0} {O : Outside E F} (S : Serving O) (camera_queue_name : ℕ → String) where
  module _ (detect : Array → List (Detection F)) (fin : ℕ) where
    collect_lem :
        (start : ℕ) (rs : List Request) (e : E) (fs : List (Forward F)) (y : ℕ)
        → start ≤ fin
        → let s = (collect O camera_queue_name start rs e).0 in
          Forwarded camera_queue_name S.frames detect fin s.live fs y
          → Handled camera_queue_name S.frames detect fin rs fs (s.expired + y) s.gone
    unfolding collect
    collect_lem start [] e fs y le = λ h. (h.0, omega (arith, h.1), refl)
    collect_lem start (r ∷ rs) e fs y le = elim (Bool-cases (is_late start r.deadline)) [
      | inl q ↦
          let (d, dl, before) = late_lem start r.deadline q in
          rw (q, collect, Forwarded)
            (λ h. inr (
              inr (
                d,
                (collect O camera_queue_name start rs e).0.expired + y,
                dl,
                omega (arith, before, le),
                omega arith,
                collect_lem start rs e fs y le h,
              )))
      | inr q ↦
          let f = O.attach_and_read r.frame_handle e in
          elim (Option-cases f.0) [
            | inl g ↦
                let miss = sym (S.attach_lem r.frame_handle e).0 ∙ g in
                rw (q, g, collect, Forwarded)
                  (λ h. inr (inl (_, miss, refl, collect_lem start rs f.1 fs y le h)))
            | inr (img, g) ↦
                let hit = sym (S.attach_lem r.frame_handle e).0 ∙ g in
                rw (q, g, collect, Forwarded)
                  (λ h. elim h [
                    | inl (w, rest, c, p, k) ↦
                        inl (img, w, rest, hit, c, p, collect_lem start rs f.1 rest y le k)
                    | inr (d, n, dl, late, p, k) ↦ inr (
                        inr (
                          d,
                          (collect O camera_queue_name start rs f.1).0.expired + n,
                          dl,
                          late,
                          omega (arith, p),
                          collect_lem start rs f.1 fs n le k,
                        ))
                  ])
          ]
    ]

    -- What the second loop does from the state `e` on.
    abbrev Sends : List (Request × Array) → E → Outcome ℕ × E → Type 0
    Sends ls e r =
        (n : ℕ) × (fs : List (Forward F)) × (r.0 ≡ ok n)
        × (S.sent r.1 ≡ S.sent e ++ fs)
        × (O.now e ≤ O.now r.1)
        × (O.now r.1 ≤ fin → Forwarded camera_queue_name S.frames detect fin ls fs n)

    Sends-send :
        (r : Request) (img : Array) (ls : List (Request × Array)) (expires : Option ℕ) (e : E)
        (rest : Exec E ℕ)
        → IsFresh r.deadline expires
        → let d = O.dispatch (forward_of camera_queue_name r (detect img) expires) in
          Sends ls (d e).1 (rest (d e).1) → Sends ((r, img) ∷ ls) e ((d >> rest) e)
    Sends-send r img ls expires e rest fresh (n, fs, done, log, time, k) =
        let f = forward_of camera_queue_name r (detect img) expires in
        let s = (O.dispatch f e).1 in
        let told = S.dispatch_lem f e in
        let path : (O.dispatch f >> rest) e ≡ rest s = ap (λ o. continue o (λ u. rest) s) told.0 in
        subst (Sends ((r, img) ∷ ls) e) (sym path) (
          n,
          f ∷ fs,
          done,
          log ∙ ap (λ l. l ++ fs) told.1 ∙ append_assoc (S.sent e) (f ∷ []) fs,
          omega (arith, time, told.2),
          λ le. inl (f, fs, (expires, refl, fresh), refl, k le),
        )

    Sends-over :
        (r : Request) (img : Array) (ls : List (Request × Array)) (d : ℕ) (e : E)
        (o : Outcome ℕ × E)
        → r.deadline ≡ some d
        → d ≤ O.now e
        → Sends ls e o
        → Sends ((r, img) ∷ ls) e (one_more O camera_queue_name o)
    Sends-over r img ls d e (raised, s) dl late (n, fs, done, log, time, k) = cc
    Sends-over r img ls d e (ok m, s) dl late (n, fs, done, log, time, k) =
        (suc n, fs, cc, log, time, λ le. inr (d, n, dl, omega (arith, late, time, le), refl, k le))

    forward_lem :
        (ls : List (Request × Array)) (e : E)
        → Sends ls e (forward_all O camera_queue_name ls (answers detect ls) e)
    unfolding forward_all
    forward_lem [] e = (0, [], refl, sym (append_nil (S.sent e)), omega arith, λ le. (refl, refl))
    forward_lem ((r, img) ∷ ls) e = elim (remaining_cases (O.now e) r.deadline) [
      | inl (dl, q) ↦
          rw (q, forward_all) (Sends-send r img ls none e _ (rw dl refl) (forward_lem ls _))
      | inr (inl (d, dl, late, q)) ↦
          rw (q, forward_all) (Sends-over r img ls d e _ dl late (forward_lem ls e))
      | inr (inr (d, dl, early, q)) ↦
          rw (q, forward_all)
            (Sends-send r img ls (some (d - O.now e)) e _
              (rw dl (d - O.now e, refl, omega (arith, early), omega arith)) (forward_lem ls _))
    ]

  abbrev pub detect_of : Bool → Array → List (Detection F)
  detect_of works img = if works then parse_yolo_result (S.analyse img) else []

  answers-works :
      (ls : List (Request × Array))
      → parse_all (map S.analyse (frames_of ls)) ≡ answers (detect_of true) ls
  answers-works [] = refl
  answers-works ((r, img) ∷ ls) = ap (λ l. parse_yolo_result (S.analyse img) ∷ l) (answers-works ls)

  answers-fails : (ls : List (Request × Array)) → none_each ls ≡ answers (detect_of false) ls
  answers-fails [] = refl
  answers-fails ((r, img) ∷ ls) = ap (λ l. [] ∷ l) (answers-fails ls)

  -- Nothing is sent, and the clock does not go back.
  abbrev Waits : E → E → Type 0
  Waits e s = (S.sent s ≡ S.sent e) × (O.now e ≤ O.now s)

  Waits-trans : (e s t : E) → Waits e s → Waits s t → Waits e t
  Waits-trans e s t p q = (q.0 ∙ p.0, omega (arith, p.1, q.1))

  Waits-collect :
      (start : ℕ) (rs : List Request) (e : E) → Waits e (collect O camera_queue_name start rs e).1
  unfolding collect
  Waits-collect start [] e = (refl, omega arith)
  Waits-collect start (r ∷ rs) e = elim (Bool-cases (is_late start r.deadline)) [
    | inl q ↦ rw (q, collect) (Waits-collect start rs e)
    | inr q ↦
        let f = O.attach_and_read r.frame_handle e in
        let both =
          Waits-trans e f.1 _ ((S.attach_lem r.frame_handle e).1, (S.attach_lem r.frame_handle e).2)
            (Waits-collect start rs f.1) in
        elim (Option-cases f.0) [
          | inl g ↦ rw (q, g, collect) both
          | inr (img, g) ↦ rw (q, g, collect) both
        ]
  ]

  infer_lem :
      (ls : List (Request × Array)) (e : E)
      → let r = infer O camera_queue_name ls e in
        (works : Bool) × (r.0 ≡ answers (detect_of works) ls) × Waits e r.1
  unfolding infer
  infer_lem [] e = (true, refl, (refl, omega arith))
  infer_lem (l ∷ ls) e =
      let fs = frames_of (l ∷ ls) in
      let told = S.model_lem fs e in
      elim told.0 [
        | inl q ↦ rw q (false, answers-fails (l ∷ ls), (told.1, told.2))
        | inr q ↦ rw q (true, answers-works (l ∷ ls), (told.1, told.2))
      ]

  -- What a batch that starts at the state `e` comes to.
  abbrev pub Settles : List Request → BatchStats → E → Outcome BatchStats × E → Type 0
  Settles requests stats e r =
      (after : BatchStats) × (works : Bool) × (fs : List (Forward F)) × (expired gone : ℕ) × (r.0
        ≡ ok after)
      × (S.sent r.1 ≡ S.sent e ++ fs)
      × (after.skipped_expired ≡ stats.skipped_expired + expired)
      × (after.skipped_gone ≡ stats.skipped_gone + gone)
      × Handled camera_queue_name S.frames (detect_of works) (O.now r.1) requests fs expired gone

  record_batch_lem :
      (size wall expired gone : ℕ) (stats : BatchStats)
      → let after = record_batch size wall expired gone stats in
        (after.skipped_expired ≡ stats.skipped_expired + expired)
        × (after.skipped_gone ≡ stats.skipped_gone + gone)
  unfolding record_batch
  record_batch_lem size wall expired gone stats =
      elim (Bool-cases (suc stats.n % stats.log_every == 0)) [
        | inl q ↦ rw q (refl, refl)
        | inr q ↦ rw q (refl, refl)
      ]

  Waits-report : (ms size : ℕ) (e : E) → Waits e (if size == 0 then e else O.report ms size e)
  Waits-report ms size e = elim (Bool-cases (size == 0)) [
    | inl q ↦ rw q (refl, omega arith)
    | inr q ↦ rw q (S.report_lem ms size e)
  ]

  finish_lem :
      (start n : ℕ) (s : Survivors) (stats : BatchStats) (o : Outcome ℕ × E)
      → o.0 ≡ ok n
      → let r = finish O camera_queue_name start s stats o in
        (after : BatchStats) × (r.0 ≡ ok after)
        × (after.skipped_expired ≡ stats.skipped_expired + (s.expired + n))
        × (after.skipped_gone ≡ stats.skipped_gone + s.gone)
        × Waits o.1 r.1
  finish_lem start n s stats (raised, e) h = cc
  finish_lem start n s stats (ok m, e) h =
      let size = length s.live in
      let k = record_batch_lem size (O.now e - start) (s.expired + m) s.gone stats in
      let same : m ≡ n = cc in
      (
        _,
        refl,
        k.0 ∙ ap (λ i. stats.skipped_expired + (s.expired + i)) same,
        k.1,
        Waits-report (O.now e - start) size e,
      )

  -- Where Celery takes every forward that it is given without a raise, the model raises or returns one
  -- result for each frame, each image's own, a frame is read the same throughout the batch, and the
  -- clock does not go back: the batch is worked off to its end, and every request, in order, is either
  -- forwarded, with the detections of its own frame, or none where the model raised, and with what is
  -- left of its time; or counted as gone, and its frame is; or counted as expired, and its deadline is
  -- past before the batch ends.
  pub run_detect_batch-Settles :
      (requests : List Request) (stats : BatchStats) (e : E)
      → Settles requests stats e (run_detect_batch O camera_queue_name requests stats e)
  unfolding run_detect_batch
  run_detect_batch-Settles requests stats e =
      let start = O.now e in
      let c = collect O camera_queue_name start requests e in
      let (works, same, waits) = infer_lem c.0.live c.1 in
      let e2 = (infer O camera_queue_name c.0.live c.1).1 in
      let out = forward_all O camera_queue_name c.0.live (answers (detect_of works) c.0.live) e2 in
      let r = finish O camera_queue_name start c.0 stats out in
      let fin = O.now r.1 in
      let (n, fs, done, log, time, k) = forward_lem (detect_of works) fin c.0.live e2 in
      let (after, returns, x, g, end) = finish_lem start n c.0 stats out done in
      let before = Waits-trans e c.1 e2 (Waits-collect start requests e) waits in
      subst (Settles requests stats e)
        (ap
          (λ d.
            finish O camera_queue_name start c.0 stats
              (forward_all O camera_queue_name c.0.live d e2))
          (sym same))
        (
          after,
          works,
          fs,
          c.0.expired + n,
          c.0.gone,
          returns,
          end.0 ∙ log ∙ ap (λ l. l ++ fs) before.0,
          x,
          g,
          collect_lem (detect_of works) fin start requests e fs n
              (omega (arith, before.1, time, end.1)) (k end.1),
        )
