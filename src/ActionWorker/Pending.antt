-- ===== src/ActionWorker/Pending.antt =====
-- The callbacks that are kept, and the queue.
use lum_model_face_recogniti.Base.{
  ℕ, append_assoc, zero, suc, ◌*◌, ◌≡◌, ◌≤◌, ◌==◌, ◌⊎◌, not, Bool, true, false, List, [], ◌∷◌, ◌++◌,
  length, length-append, if◌then◌else◌, arith, refl, ap, sym, ◌∙◌, subst, inl, inr, Bool-cases,
  Option-cases, String,
}
use lum_model_face_recogniti.ActionWorker.{
  Crop, Item, Outside, Worker, has_id, pop_id, crop_too_small, should_skip_small, is_full,
  put_request, recognize_async, Sighting, item_of, cancelled, reserved, checked, check_and_queue,
  fire, process_request, work_next, work, Turn, check, work_turn, proof_uploaded, steps, work_off,
}
use lum_model_face_recogniti.ActionWorker.Ids.{
  distinct, ids, ids_of, is_over, str_eq_refl, distinct-middle, pop_id-last, ids-append,
}
use lum_model_face_recogniti.ActionWorker.Reporting.{Same, Same-fire, Same-inferred}

-- While the workers run, with `later` the ids of the requests to come.
record IsTidy (later : List String) (w : Worker) : Type 0 where
  running : w.running ≡ true
  exact : w.result_callbacks ≡ ids w.inference_queue
  once : distinct (ids w.inference_queue ++ later) ≡ true
  bound : is_over w ≡ false

IsTidy-Same : (later : List String) (w v : Worker) → IsTidy later w → Same w v → IsTidy later v
IsTidy-Same later w v t s = record {
  running = s.0 ∙ t.running;
  exact = s.1 ∙ t.exact ∙ ap ids (sym s.2);
  once = ap (λ q. distinct (ids q ++ later)) s.2 ∙ t.once;
  bound = ground (arith, t.bound, s.3, ap length s.2);
}

IsTidy-put_request :
    (later : List String) (i : Item) (w : Worker)
    → IsTidy (i.request_id ∷ later) w
    → IsTidy later (put_request i w).1
unfolding put_request
IsTidy-put_request later i w t =
    let id = i.request_id in
    let m = distinct-middle id (ids w.inference_queue) later t.once in
    let absent : has_id id w.result_callbacks ≡ false = ap (has_id id) t.exact ∙ m.0 in
    elim (Bool-cases (is_full w)) [
      | inl q ↦
          rw (q, absent)
            record {
              running = t.running;
              exact = pop_id-last id w.result_callbacks absent ∙ t.exact;
              once = m.1;
              bound = t.bound;
            }
      | inr q ↦
          rw (q, absent)
            record {
              running = t.running;
              exact =
                  ap (λ l. l ++ (id ∷ [])) t.exact ∙ sym (ids-append w.inference_queue (i ∷ []));
              once =
                  ap (λ l. distinct (l ++ later)) (ids-append w.inference_queue (i ∷ []))
                  ∙ ap distinct (append_assoc (ids w.inference_queue) (id ∷ []) later)
                  ∙ t.once;
              bound = ground (arith, q, length-append w.inference_queue (i ∷ []));
            }
    ]

IsTidy-skipped :
    (k : String) (later : List String) (w : Worker) → IsTidy (k ∷ later) w → IsTidy later w
IsTidy-skipped k later w t = record {
  running = t.running;
  exact = t.exact;
  once = (distinct-middle k (ids w.inference_queue) later t.once).1;
  bound = t.bound;
}

IsTidy-should_skip_small :
    (later : List String) (c : Crop) (w : Worker)
    → IsTidy later w
    → IsTidy later (should_skip_small c w).1
IsTidy-should_skip_small later c w t = elim (Bool-cases (crop_too_small w c)) [
  | inl q ↦ rw q (IsTidy-Same later w _ t (refl, refl, refl, refl))
  | inr q ↦ rw q t
]

IsTidy-if :
    (later : List String) (b : Bool) (x y : Bool × Worker)
    → IsTidy later x.1
    → IsTidy later y.1
    → IsTidy later (if b then x else y).1
IsTidy-if later true x y p q = p
IsTidy-if later false x y p q = q

IsTidy-recognize_async :
    (later : List String) (i : Item) (w : Worker)
    → IsTidy (i.request_id ∷ later) w
    → IsTidy later (recognize_async i w).1
unfolding recognize_async
IsTidy-recognize_async later i w t =
    let skipped = IsTidy-skipped i.request_id later w t in
    let r = should_skip_small i.image w in
    IsTidy-if later (not w.enabled) (false, w) _ skipped
      (IsTidy-if later r.0 (false, r.1) (put_request i w)
        (IsTidy-should_skip_small later i.image w skipped) (IsTidy-put_request later i w t))

module _ {E : Type 0} (O : Outside E) where
  IsTidy-cancelled :
      (later : List String) (identity : String) (b : Bool) (w : Worker) (e : E)
      → IsTidy later w
      → IsTidy later (cancelled O identity (b, w) e).0
  IsTidy-cancelled later identity true w e t = t
  IsTidy-cancelled later identity false w e t = t

  IsTidy-reserved :
      (later : List String) (s : Sighting) (c : Crop) (w : Worker) (b : Bool) (e : E)
      → IsTidy (s.request_id ∷ later) w
      → IsTidy later (reserved O s c w (b, e)).0
  IsTidy-reserved later s c w false e t = IsTidy-skipped s.request_id later w t
  IsTidy-reserved later s c w true e t = elim (Option-cases s.user_id) [
    | inl q ↦ rw q (IsTidy-skipped s.request_id later w t)
    | inr (u, q) ↦
        let i = item_of s c u in
        let r = recognize_async i w in
        rw q (IsTidy-cancelled later s.identity r.0 r.1 e (IsTidy-recognize_async later i w t))
  ]

  IsTidy-checked :
      (later : List String) (s : Sighting) (c : Crop) (b : Bool) (w : Worker) (e : E)
      → IsTidy (s.request_id ∷ later) w
      → IsTidy later (checked O s c (b, w) e).0
  IsTidy-checked later s c true w e t = IsTidy-skipped s.request_id later w t
  IsTidy-checked later s c false w e t =
      let r = O.reserve s.identity e in IsTidy-reserved later s c w r.0 r.1 t

  IsTidy-check_and_queue :
      (later : List String) (s : Sighting) (w : Worker) (e : E)
      → IsTidy (s.request_id ∷ later) w
      → IsTidy later (check_and_queue O s (w, e)).0
  unfolding check_and_queue
  IsTidy-check_and_queue later s w e t =
      let skipped = IsTidy-skipped s.request_id later w t in
      elim (Option-cases s.proof_image) [
        | inl q ↦ rw q skipped
        | inr (c, q) ↦ elim (Bool-cases (c.height * c.width == 0)) [
          | inl g ↦ rw (q, g) skipped
          | inr g ↦
              let r = should_skip_small c w in
              rw (q, g)
                (IsTidy-checked later s c r.0 r.1 e
                  (IsTidy-should_skip_small (s.request_id ∷ later) c w t))
        ]
      ]

  -- A turn of a worker takes one request off, whatever the model, Celery and the callbacks do.
  IsTidy-process :
      (later : List String) (i : Item) (is : List Item) (w : Worker) (e : E)
      → w.inference_queue ≡ i ∷ is
      → IsTidy later w
      → let r = (process_request O i (record w { inference_queue = is }, e)).0 in
        IsTidy later r × (r.inference_queue ≡ is)
  unfolding process_request
  IsTidy-process later i is w e q t =
      let claimed : Worker = record w {
        inference_queue = is;
        result_callbacks = pop_id i.request_id w.result_callbacks;
      } in
      let once = ap (λ l. distinct (ids l ++ later)) (sym q) ∙ t.once in
      let tidy : IsTidy later claimed = record {
        running = t.running;
        exact = ap (pop_id i.request_id) (t.exact ∙ ap ids q) ∙ rw (str_eq_refl i.request_id) refl;
        once = ground (arith, once);
        bound = ground (arith, t.bound, ap length q);
      } in
      let same =
        Same-inferred O (has_id i.request_id w.result_callbacks) (O.total_timeouts e) i claimed
          (O.recognize i.image i.metadata e) in
      (IsTidy-Same later claimed _ tidy same, same.2)

  List-cases : (is : List Item) → (is ≡ []) ⊎ ((i : Item) × (js : List Item) × (is ≡ i ∷ js))
  List-cases [] = inl refl
  List-cases (i ∷ is) = inr (i, is, refl)

  work_path :
      (w : Worker) (e : E) (is : List Item)
      → w.running ≡ true
      → w.inference_queue ≡ is
      → work O (w, e) ≡ work_next O true is (w, e)
  unfolding work
  work_path w e is r q =
      ap (λ b. work_next O b w.inference_queue (w, e)) r ∙ ap (λ l. work_next O true l (w, e)) q

  work_lem :
      (later : List String) (n : ℕ) (w : Worker) (e : E)
      → IsTidy later w
      → length w.inference_queue ≤ suc n
      → IsTidy later (work O (w, e)).0 × (length (work O (w, e)).0.inference_queue ≤ n)
  work_lem later n w e t le =
      let Good = λ (x : Worker × E). IsTidy later x.0 × (length x.0.inference_queue ≤ n) in
      elim (List-cases w.inference_queue) [
        | inl q ↦ subst Good (sym (work_path w e [] t.running q)) (t, omega (arith, ap length q))
        | inr (i, is, q) ↦
            let p = IsTidy-process later i is w e q t in
            subst Good (sym (work_path w e (i ∷ is) t.running q))
              (p.0, omega (arith, le, ap length q, ap length p.1))
      ]

  IsTidy-steps :
      (ts : List (Turn O)) (w : Worker) (e : E)
      → IsTidy (ids_of O ts) w
      → IsTidy [] (steps O ts (w, e)).0
  unfolding steps
  IsTidy-steps [] w e t = t
  IsTidy-steps (check s ∷ ts) w e t =
      let x = check_and_queue O s (w, e) in
      IsTidy-steps ts x.0 x.1 (IsTidy-check_and_queue (ids_of O ts) s w e t)
  IsTidy-steps (work_turn ∷ ts) w e t =
      let x = work O (w, e) in
      IsTidy-steps ts x.0 x.1
        (work_lem (ids_of O ts) (length w.inference_queue) w e t (omega arith)).0
  IsTidy-steps (proof_uploaded a url ∷ ts) w e t =
      let x = fire O a url (w, e) in
      IsTidy-steps ts x.0 x.1 (IsTidy-Same (ids_of O ts) w x.0 t (Same-fire O a url w e))

  ids-nil : (is : List Item) → length is ≤ 0 → ids is ≡ []
  ids-nil [] h = refl
  ids-nil (i ∷ is) h = absurd (omega (arith, h))

  work_off-nil :
      (n : ℕ) (w : Worker) (e : E)
      → IsTidy [] w
      → length w.inference_queue ≤ n
      → (work_off O n (w, e)).0.result_callbacks ≡ []
  unfolding work_off
  work_off-nil zero w e t le = t.exact ∙ ids-nil w.inference_queue le
  work_off-nil (suc n) w e t le =
      let x = work O (w, e) in let k = work_lem [] n w e t le in work_off-nil n x.0 x.1 k.0 k.1

  -- While the workers run, and where no two sightings have the same request id: whatever is checked,
  -- worked off and uploaded, and whatever the model, Celery and the callbacks do, the callbacks that
  -- are kept are those of the queued requests, in order; the queue is never longer than its limit; and
  -- as many turns of the workers as there are requests leave no callback behind.
  pub steps-result_callbacks :
      (ts : List (Turn O)) (w : Worker) (e : E)
      → w.running ≡ true
      → w.inference_queue ≡ []
      → w.result_callbacks ≡ []
      → distinct (ids_of O ts) ≡ true
      → let x = steps O ts (w, e) in
        (x.0.result_callbacks ≡ ids x.0.inference_queue)
        × (is_over x.0 ≡ false)
        × ((work_off O (length x.0.inference_queue) x).0.result_callbacks ≡ [])
  steps-result_callbacks ts w e run queue callbacks once =
      let start : IsTidy (ids_of O ts) w = record {
        running = run;
        exact = callbacks ∙ ap ids (sym queue);
        once = ap (λ q. distinct (ids q ++ ids_of O ts)) queue ∙ once;
        bound = ground (arith, ap length queue);
      } in
      let x = steps O ts (w, e) in
      let t = IsTidy-steps ts w e start in
      (t.exact, t.bound, work_off-nil (length x.0.inference_queue) x.0 x.1 t (omega arith))
