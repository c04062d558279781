-- ===== src/StreamConsumer.antt =====
-- src/messaging/stream_consumer.py: commands from the backend, read from Redis streams and handed to
-- Celery tasks, with a dead-letter queue and a check against doing one twice.
pub mod Commands
pub mod Rules
pub mod Once
use lum_model_face_recogniti.Base.{
  ℕ, ◌*◌, ◌&&◌, ◌≡◌, not, Bool, true, false, Option, none, some, List, [], ◌∷◌, if◌then◌else◌, leb,
  String, str_eq,
}
use lum_model_face_recogniti.Exec.{Outcome, ok, raised, Exec, pure, ◌>>=◌, ◌>>◌, try}

-- The fields of an entry; a field that is missing has its default here.
pub record Message : Type 0 where
  pub stream : String
  pub message_id : String
  pub command_id : String
  pub command_type : String
  pub idempotency_key : String
  pub payload : String

pub record Payload : Type 0 where
  pub client_slug : Option String
  pub user_id : Option ℕ
  pub full_name : Option String
  pub image_urls : List String

-- What `json.loads` makes of a text: it may raise, or return something that is not an object.
pub data Parsed : Type 0 where
  invalid : Parsed
  other : Parsed
  object : (payload : Payload) → Parsed

pub data ErrorType : Type 0 where
  parse_error validation_error routing_error : ErrorType

pub data Key : Type 0 where
  dlq dlq_index : (stream : String) → Key
  idempotency : (group key : String) → Key

-- The tasks of the embeddings, and the call of the camera handler.
pub data Task : Type 0 where
  add_user update_user :
      (command_id : String) (client_slug : Option String) (user_id : Option ℕ) (full_name : String)
      (image_urls : List String)
      → Task
  delete_user : (command_id : String) (client_slug : Option String) (user_id : Option ℕ) → Task
  camera : (command_type : String) (client_slug : Option String) (payload : Payload) → Task

-- Redis, Celery and the camera handler; each call may raise. `disconnected` says whether what was
-- raised last is a `redis.ConnectionError`.
pub record Outside (E : Type 0) : Type 0 where
  pub exists : Key → Exec E Bool
  pub setex : Key → ℕ → Exec E (Unit {0})
  pub xack : String → String → String → Exec E (Unit {0})
  pub lpush : Key → Message → ErrorType → Exec E (Unit {0})
  pub hset : Key → Message → ErrorType → Exec E (Unit {0})
  pub expire : Key → ℕ → Exec E (Unit {0})
  pub delay : Task → Exec E (Unit {0})
  pub disconnected : E → Bool

pub record Consumer : Type 0 where
  pub consumer_group : String
  pub client_slug : Option String
  pub has_camera_handler : Bool

abbrev pub idempotency_ttl : ℕ
idempotency_ttl = 86400

abbrev pub dlq_ttl : ℕ
dlq_ttl = 604800

abbrev pub embedding_stream : String
embedding_stream = "commands:embedding"

abbrev pub camera_stream : String
camera_stream = "commands:camera"

-- Whether both are given, not empty, and different.
abbrev pub is_foreign : Option String → Option String → Bool
is_foreign (some a) (some b) = not (str_eq a "") && (not (str_eq b "") && not (str_eq b a))
is_foreign _ _ = false

abbrev pub name_or_unknown : Option String → String
name_or_unknown none = "Unknown"
name_or_unknown (some n) = n

-- Which task an embedding command stands for.
abbrev pub embedding_task : Message → Payload → Option Task
embedding_task m p =
    if str_eq m.command_type "CreateEmbedding"
    then some
        (add_user m.command_id p.client_slug p.user_id (name_or_unknown p.full_name) p.image_urls)
    else if str_eq m.command_type "UpdateEmbedding"
    then some (
        update_user m.command_id p.client_slug p.user_id (name_or_unknown p.full_name) p.image_urls)
    else if str_eq m.command_type "DeleteEmbedding"
    then some (delete_user m.command_id p.client_slug p.user_id)
    else none

-- What XREADGROUP with `>` gave: messages that were never given to this group before, or a raise.
pub data Read : Type 0 where
  messages : (batch : List Message) → Read
  disconnect : Read
  failure : Read

-- `parse` is `json.loads`.
module _ {E : Type 0} (parse : String → Parsed) (O : Outside E) (c : Consumer) where
  -- `MessageDLQ.send`
  unfoldable pub dlq_send : Message → ErrorType → Exec E (Unit {0})
  dlq_send m error =
      try
        (do
          O.lpush (dlq m.stream) m error
          O.expire (dlq m.stream) dlq_ttl
          O.hset (dlq_index m.stream) m error
          O.expire (dlq_index m.stream) dlq_ttl)
        (pure tt)

  unfoldable pub ack : Message → Exec E (Unit {0})
  ack m = try (O.xack m.stream c.consumer_group m.message_id) (pure tt)

  unfoldable pub is_duplicate : Message → Exec E Bool
  is_duplicate m =
      if str_eq m.idempotency_key ""
      then pure false
      else O.exists (idempotency c.consumer_group m.idempotency_key)

  unfoldable pub mark_processed : Message → Exec E (Unit {0})
  mark_processed m =
      if str_eq m.idempotency_key ""
      then pure tt
      else O.setex (idempotency c.consumer_group m.idempotency_key) idempotency_ttl

  abbrev pub raise : Exec E (Unit {0})
  raise e = (raised, e)

  abbrev pub delay_task : Option Task → Exec E (Unit {0})
  delay_task none = pure tt
  delay_task (some t) = O.delay t

  -- A payload that is no object has no `get`.
  unfoldable pub dispatch_embedding_command : Message → Parsed → Exec E (Unit {0})
  dispatch_embedding_command m invalid = raise
  dispatch_embedding_command m other = raise
  dispatch_embedding_command m (object p) =
      if is_foreign c.client_slug p.client_slug then pure tt else delay_task (embedding_task m p)

  -- What the handler raises is only logged.
  unfoldable pub dispatch_camera_command : Message → Parsed → Exec E (Unit {0})
  dispatch_camera_command m (object p) =
      if c.has_camera_handler
      then try (O.delay (camera m.command_type p.client_slug p)) (pure tt)
      else pure tt
  dispatch_camera_command m invalid = if c.has_camera_handler then raise else pure tt
  dispatch_camera_command m other = if c.has_camera_handler then raise else pure tt

  -- Steps 4 and 5; what they raise is only logged.
  unfoldable pub dispatch : Message → Parsed → Exec E (Unit {0})
  unfolding dispatch_embedding_command dispatch_camera_command dlq_send mark_processed ack
  dispatch m p =
      try
        (if str_eq m.stream embedding_stream
          then (do dispatch_embedding_command m p; mark_processed m; ack m)
          else if str_eq m.stream camera_stream
          then (do dispatch_camera_command m p; mark_processed m; ack m)
          else (do dlq_send m routing_error; ack m))
        (pure tt)

  unfoldable pub refuse : Message → ErrorType → Exec E (Unit {0})
  unfolding dlq_send ack
  refuse m error = do dlq_send m error; ack m

  -- Steps 3 to 5.
  unfoldable pub process_command : Message → Parsed → Exec E (Unit {0})
  unfolding is_duplicate dispatch ack
  process_command m p = do duplicate ← is_duplicate m; if duplicate then ack m else dispatch m p

  -- Step 2, and what follows it.
  abbrev pub process_named : Message → Parsed → Exec E (Unit {0})
  process_named m p =
      if str_eq m.command_type "" then refuse m validation_error else process_command m p

  abbrev pub process_parsed : Message → Parsed → Exec E (Unit {0})
  process_parsed m invalid = refuse m parse_error
  process_parsed m other = process_named m other
  process_parsed m (object p) = process_named m (object p)

  -- `_process_message`
  unfoldable pub process_message : Message → Exec E (Unit {0})
  unfolding refuse process_command
  process_message m = process_parsed m (parse m.payload)

  -- The messages of one read; one that raises ends it.
  unfoldable pub process_batch : List Message → Exec E (Unit {0})
  process_batch [] = pure tt
  process_batch (m ∷ ms) = do process_message m; process_batch ms

  abbrev pub backoff : ℕ → ℕ
  backoff delay = if leb (delay * 2) 30 then delay * 2 else 30

  abbrev pub after_batch : Outcome (Unit {0}) × E → ℕ × E
  after_batch (ok u, e) = (1, e)
  after_batch (raised, e) = (if O.disconnected e then backoff 1 else 1, e)

  -- One turn of `_consume_loop`, with the delay of the next retry in seconds.
  unfoldable pub consume : Read → ℕ × E → ℕ × E
  unfolding process_batch
  consume (messages batch) (delay, e) = after_batch (process_batch batch e)
  consume disconnect (delay, e) = (backoff delay, e)
  consume failure (delay, e) = (delay, e)

  abbrev pub consume_all : List Read → ℕ × E → ℕ × E
  consume_all [] s = s
  consume_all (r ∷ rs) s = consume_all rs (consume r s)
