-- ===== src/ActionWorker/Reporting.antt =====
-- What is reported of a result, and the state of the worker.
use lum_model_face_recogniti.Base.{
  ℕ, ◌≡◌, ◌==◌, ◌||◌, Bool, true, false, Option, none, some, if◌then◌else◌, refl, String, str_eq,
}
use lum_model_face_recogniti.Exec.{Outcome, ok, raised}
use lum_model_face_recogniti.ActionWorker.{
  Item, ActionResult, Activity, Outside, Worker, posted, fire, fire_unless, post_activity, post_for,
  activity_of, recognized, understood, called_back, reported, inferred,
}

-- Only counters differ.
abbrev pub Same : Worker → Worker → Type 0
Same w v =
    (v.running ≡ w.running)
    × (v.result_callbacks ≡ w.result_callbacks)
    × (v.inference_queue ≡ w.inference_queue)
    × (v.max_queue_size ≡ w.max_queue_size)

module _ {E : Type 0} (O : Outside E) where
  -- What follows the model's answer.
  Same-self : (w : Worker) → Same w w
  Same-self w = (refl, refl, refl, refl)

  Same-if :
      (b : Bool) (w : Worker) (x y : Worker × E)
      → Same w x.0
      → Same w y.0
      → Same w (if b then x else y).0
  Same-if true w x y p q = p
  Same-if false w x y p q = q

  Same-posted : (w : Worker) (r : Outcome (Unit {0}) × E) → Same w (posted O w r).0
  Same-posted w (ok u, e) = Same-self w
  Same-posted w (raised, e) = Same-self w

  pub Same-fire :
      (a : Activity) (url : Option String) (w : Worker) (e : E) → Same w (fire O a url (w, e)).0
  unfolding fire
  Same-fire a url w e = Same-posted w (O.delay a url e)

  Same-fire_unless : (a : Activity) (w : Worker) (r : Bool × E) → Same w (fire_unless O a w r).0
  Same-fire_unless a w (true, e) = Same-self w
  Same-fire_unless a w (false, e) = Same-fire a none w e

  Same-post_for :
      (slug : Option String) (i : Item) (r : ActionResult) (w : Worker) (e : E)
      → Same w (post_for O slug i r (w, e)).0
  Same-post_for none i r w e = Same-self w
  Same-post_for (some slug) i r w e =
      let a = activity_of O slug (O.now e) i r in
      Same-if (str_eq slug "") w (w, e) _ (Same-self w)
        (Same-if w.has_async_logger w _ _ (Same-fire_unless a w (O.upload_image i.image a e))
          (Same-fire a none w e))

  Same-called_back :
      (b : Bool) (id : String) (r : ActionResult) (w v : Worker) (e : E)
      → Same w v
      → Same w (called_back O b id r (v, e)).0
  Same-called_back true id r w v e s = s
  Same-called_back false id r w v e s = s

  Same-reported :
      (b : Bool) (i : Item) (r : ActionResult) (w : Worker) (e : E)
      → Same w (reported O b i r (w, e)).0
  unfolding post_activity
  Same-reported b i r w e =
      let p = post_activity O i r (w, e) in
      Same-if (i.metadata.user_id == 0 || i.metadata.camera_id == 0) w _ _
        (Same-called_back b i.request_id r w w e (Same-self w))
        (Same-called_back b i.request_id r w p.0 p.1 (Same-post_for w.client_slug i r w e))

  Same-understood :
      (b : Bool) (i : Item) (r : ActionResult) (action : Option String) (w : Worker) (e : E)
      → Same w (understood O b i r action (w, e)).0
  Same-understood b i r none w e = Same-self w
  Same-understood b i r (some action) w e = Same-reported b i r w (O.record_metric recognized e)

  pub Same-inferred :
      (b : Bool) (before : ℕ) (i : Item) (w : Worker) (o : Outcome (Option ActionResult) × E)
      → Same w (inferred O b before i w o).0
  Same-inferred b before i w (raised, e) = Same-self w
  Same-inferred b before i w (ok none, e) = Same-self w
  Same-inferred b before i w (ok (some r), e) = Same-understood b i r r.action w e
