-- ===== src/GlobalTrack/Adapter.antt =====
-- src/workers/global_track_adapter.py: RemoteGlobalTrackManager, which asks for the global ids of the
-- tracks on a thread of its own. The frame path and that thread take turns between the sections that
-- the lock guards.
use lum_model_face_recogniti.Base.{
  ℕ, zero, suc, ◌==◌, ◌&&◌, ◌||◌, Bool, false, Option, none, some, List, [], ◌∷◌, ◌++◌,
  if◌then◌else◌,
}
use lum_model_face_recogniti.Exec.{Outcome, ok, raised}
use lum_model_face_recogniti.GlobalTrack.{
  Outside, Client, Arguments, Method, Value, known, local, MethodCallResult, assign_global_id,
  find_global_track_by_identity, call, call_one_way,
}

-- A camera and a track of it.
pub record Key : Type 0 where
  pub camera_id : ℕ
  pub local_track_id : ℕ

abbrev pub key_eq : Key → Key → Bool
key_eq a b = a.camera_id == b.camera_id && a.local_track_id == b.local_track_id

abbrev pub has_key : Key → List Key → Bool
has_key k [] = false
has_key k (x ∷ xs) = key_eq x k || has_key k xs

-- `discard`
abbrev pub discard : Key → List Key → List Key
discard k [] = []
discard k (x ∷ xs) = if key_eq x k then xs else x ∷ discard k xs

abbrev pub Assigned : Type 0
Assigned = List (Key × Value)

abbrev pub find : Key → Assigned → Option Value
find k [] = none
find k ((x, v) ∷ m) = if key_eq x k then some v else find k m

-- `pop`
abbrev pub pop : Key → Assigned → Assigned
pop k [] = []
pop k ((x, v) ∷ m) = if key_eq x k then pop k m else (x, v) ∷ pop k m

-- A call of `_run_assign`.
pub record Job : Type 0 where
  pub key : Key
  pub arguments : Arguments

-- `running` is what the thread of the pool is doing, `queue` what it has still to do.
pub record Manager (E : Type 0) : Type 0 where
  pub client : Client
  pub outside : E
  pub assigned : Assigned
  pub in_flight : List Key
  pub queue : List Job
  pub running : Option Job
  pub submitted_count : ℕ

abbrev pub key_of : Arguments → Key
key_of a = record { camera_id = a.camera_id; local_track_id = a.local_track_id }

module _ {E : Type 0} (O : Outside E) where
  abbrev pub new_manager : Client → E → Manager E
  new_manager c e = record {
    client = c;
    outside = e;
    assigned = [];
    in_flight = [];
    queue = [];
    running = none;
    submitted_count = 0;
  }

  -- `assign_global_id`, where it does not wait for the answer.
  unfoldable pub assign : Arguments → Manager E → Option Value × Manager E
  assign a m =
      let k = key_of a in
      let job : Job = record { key = k; arguments = a } in
      if has_key k m.in_flight then (find k m.assigned, m) else (
        find k m.assigned,
        record m {
          in_flight = m.in_flight ++ (k ∷ []);
          queue = m.queue ++ (job ∷ []);
          submitted_count = suc m.submitted_count;
        },
      )

  abbrev pub begin_next_job : Option Job → List Job → Manager E → Manager E
  begin_next_job (some j) js m = m
  begin_next_job none [] m = m
  begin_next_job none (j ∷ js) m = record m { running = some j; queue = js }

  -- The thread takes the next job, when it has none.
  unfoldable pub begin_assign : Manager E → Manager E
  begin_assign m = begin_next_job m.running m.queue m

  abbrev pub recorded : Key → Outcome MethodCallResult → Assigned → Assigned
  recorded k raised m = m
  recorded k (ok r) m = (k, r.value) ∷ m

  -- `_run_assign`, from the call to its end: every way out discards the key.
  abbrev pub run_assign : Job → Manager E → Manager E
  run_assign j m =
      let (r, (c, e)) = call O assign_global_id j.arguments (m.client, m.outside) in
      record m {
        client = c;
        outside = e;
        assigned = recorded j.key r m.assigned;
        in_flight = discard j.key m.in_flight;
        running = none;
      }

  abbrev pub run_job : Option Job → Manager E → Manager E
  run_job none m = m
  run_job (some j) m = run_assign j m

  unfoldable pub finish_assign : Manager E → Manager E
  unfolding call
  finish_assign m = run_job m.running m

  unfoldable pub forget_track : Key → Manager E → Manager E
  forget_track k m = record m { assigned = pop k m.assigned }

  unfoldable pub get_global_id : Key → Manager E → Option Value
  get_global_id k m = find k m.assigned

  abbrev pub found : Outcome MethodCallResult → Outcome (Option ℕ)
  found raised = raised
  found (ok r) = if r.ok then elim r.value [ known id ↦ ok id | local n ↦ ok none ] else ok none

  -- A local id is never taken for a track that was found.
  unfoldable pub find_by_identity : Arguments → Manager E → Outcome (Option ℕ) × Manager E
  unfolding call
  find_by_identity a m =
      let (r, (c, e)) = call O find_global_track_by_identity a (m.client, m.outside) in
      (found r, record m { client = c; outside = e })

  -- `update_global_track_identity`, `reassign_local_track` and the methods that start with `on_`.
  unfoldable pub notify : Method → Arguments → Manager E → Outcome (Unit {0}) × Manager E
  unfolding call_one_way
  notify method a m =
      let (r, (c, e)) = call_one_way O method a (m.client, m.outside) in
      (r, record m { client = c; outside = e })

  -- What the two threads do, one turn at a time.
  pub data Turn : Type 0 where
    assign_turn : (a : Arguments) → Turn
    begin_turn finish_turn : Turn
    forget_turn : (k : Key) → Turn
    find_turn : (a : Arguments) → Turn
    notify_turn : (method : Method) (a : Arguments) → Turn

  unfoldable pub step : Turn → Manager E → Manager E
  unfolding assign begin_assign finish_assign forget_track find_by_identity notify
  step (assign_turn a) m = (assign a m).1
  step begin_turn m = begin_assign m
  step finish_turn m = finish_assign m
  step (forget_turn k) m = forget_track k m
  step (find_turn a) m = (find_by_identity a m).1
  step (notify_turn method a) m = (notify method a m).1

  unfoldable pub steps : List Turn → Manager E → Manager E
  unfolding step
  steps [] m = m
  steps (t ∷ ts) m = steps ts (step t m)

  -- `n` jobs of the pool's thread, one after the other.
  unfoldable pub work_off : ℕ → Manager E → Manager E
  unfolding begin_assign finish_assign
  work_off zero m = m
  work_off (suc n) m = work_off n (finish_assign (begin_assign m))
