-- ===== src/StreamConsumer/Commands.antt =====
-- The specification of the consumer: which tasks the commands of a batch stand for, one time each.
use lum_model_face_recogniti.Base.{
  ℕ, ◌≡◌, ◌++◌, ◌||◌, ◌&&◌, not, Bool, false, Option, none, some, List, [], ◌∷◌, if◌then◌else◌,
  String, str_eq, refl,
}
use lum_model_face_recogniti.Exec.{Outcome, ok, raised, pure, recover}
use lum_model_face_recogniti.StreamConsumer.{
  Message, ErrorType, dlq, dlq_index, Parsed, invalid, other, object, Key, idempotency, Task,
  camera, Outside, Consumer, is_foreign, embedding_stream, camera_stream, embedding_task,
}

abbrev pub has : String → List String → Bool
has k [] = false
has k (x ∷ xs) = str_eq x k || has k xs

-- Servers that answer every call that is not guarded by a `try`: `processed` are the keys that are
-- marked, none of which expires meanwhile, and `dispatched` what was handed over.
pub record Answering {E : Type 0} (O : Outside E) (c : Consumer) : Type 0 where
  pub processed : E → List String
  pub dispatched : E → List Task
  pub exists_lem :
      (k : String) (e : E)
      → O.exists (idempotency c.consumer_group k) e ≡ (ok (has k (processed e)), e)
  pub setex_lem :
      (k : String) (ttl : ℕ) (e : E)
      → let r = O.setex (idempotency c.consumer_group k) ttl e in
        (r.0 ≡ ok tt) × (dispatched r.1 ≡ dispatched e) × (processed r.1 ≡ k ∷ processed e)
  pub delay_lem :
      (t : Task) (e : E)
      → let r = O.delay t e in
        (r.0 ≡ ok tt) × (dispatched r.1 ≡ dispatched e ++ (t ∷ [])) × (processed r.1 ≡ processed e)
  pub xack_lem :
      (s g i : String) (e : E)
      → let r = (O.xack s g i e).1 in (dispatched r ≡ dispatched e) × (processed r ≡ processed e)
  pub lpush_lem :
      (s : String) (m : Message) (error : ErrorType) (e : E)
      → let r = (O.lpush (dlq s) m error e).1 in
        (dispatched r ≡ dispatched e) × (processed r ≡ processed e)
  pub hset_lem :
      (s : String) (m : Message) (error : ErrorType) (e : E)
      → let r = (O.hset (dlq_index s) m error e).1 in
        (dispatched r ≡ dispatched e) × (processed r ≡ processed e)
  pub expire_lem :
      (k : Key) (ttl : ℕ) (e : E)
      → let r = (O.expire k ttl e).1 in (dispatched r ≡ dispatched e) × (processed r ≡ processed e)

pub recover_tt : {E : Type 0} (o : Outcome (Unit {0})) (e : E) → recover o (pure tt) e ≡ (ok tt, e)
recover_tt (ok u) e = refl
recover_tt raised e = refl

-- The specification: what a command asks for, or none where it is refused or left alone.
abbrev pub to_list : Option Task → List Task
to_list none = []
to_list (some t) = t ∷ []

-- A payload that is no object is only accepted where nobody reads it.
abbrev pub bare_tasks : Consumer → Message → Option (List Task)
bare_tasks c m =
    if str_eq m.stream embedding_stream
    then none
    else if str_eq m.stream camera_stream
    then (if c.has_camera_handler then none else some [])
    else none

abbrev pub tasks_of : Consumer → Message → Parsed → Option (List Task)
tasks_of c m invalid = bare_tasks c m
tasks_of c m other = bare_tasks c m
tasks_of c m (object p) =
    if str_eq m.stream embedding_stream
    then some (if is_foreign c.client_slug p.client_slug then [] else to_list (embedding_task m p))
    else if str_eq m.stream camera_stream
    then some (if c.has_camera_handler then camera m.command_type p.client_slug p ∷ [] else [])
    else none

abbrev pub named_tasks : Consumer → Message → Parsed → Option (List Task)
named_tasks c m p = if str_eq m.command_type "" then none else tasks_of c m p

abbrev pub command_of : Consumer → Message → Parsed → Option (List Task)
command_of c m invalid = none
command_of c m other = named_tasks c m other
command_of c m (object p) = named_tasks c m (object p)

abbrev pub command : (String → Parsed) → Consumer → Message → Option (List Task)
command parse c m = command_of c m (parse m.payload)

abbrev pub keys_of : Message → List String
keys_of m = if str_eq m.idempotency_key "" then [] else m.idempotency_key ∷ []

abbrev pub is_repeated : Message → List String → Bool
is_repeated m seen = not (str_eq m.idempotency_key "") && has m.idempotency_key seen

abbrev pub settled {ℓ} : {A : Type ℓ} → Bool → Option (List A) → List A
settled repeated none = []
settled repeated (some xs) = if repeated then [] else xs

abbrev pub keys_settled : Bool → Option (List Task) → Message → List String
keys_settled repeated none m = []
keys_settled repeated (some ts) m = if repeated then [] else keys_of m

-- Each command is carried out unless its key was marked before.
abbrev pub carried_out : (String → Parsed) → Consumer → List String → List Message → List Task
carried_out parse c seen [] = []
carried_out parse c seen (m ∷ ms) =
    settled (is_repeated m seen) (command parse c m)
    ++ carried_out parse c (keys_settled (is_repeated m seen) (command parse c m) m ++ seen) ms
