-- ===== src/StreamConsumer/Once.antt =====
-- The batches of the consumer, where the servers answer.
use lum_model_face_recogniti.Base.{
  append_nil, append_assoc, ◌≡◌, ◌++◌, Bool, true, false, Option, none, List, [], ◌∷◌,
  if◌then◌else◌, String, str_eq, Bool-cases, Option-cases, inl, inr, refl, ap, sym, ◌∙◌, subst,
}
use lum_model_face_recogniti.Exec.{ok, Exec, pure, ◌>>◌, try, continue}
use lum_model_face_recogniti.StreamConsumer.{
  Message, ErrorType, routing_error, parse_error, validation_error, dlq, dlq_index, Payload, Parsed,
  invalid, other, object, dlq_ttl, idempotency_ttl, Task, camera, Outside, Consumer, is_foreign,
  embedding_stream, camera_stream, embedding_task, dlq_send, ack, is_duplicate, mark_processed,
  dispatch_embedding_command, dispatch_camera_command, dispatch, refuse, process_command,
  process_named, process_parsed, process_message, process_batch, raise,
}
use lum_model_face_recogniti.StreamConsumer.Commands.{
  Answering, to_list, bare_tasks, tasks_of, named_tasks, command_of, command, keys_of, is_repeated,
  settled, keys_settled, carried_out,
}
use lum_model_face_recogniti.StreamConsumer.Rules.{
  Does, Does-pure, Quiet-seq, Does-try-Quiet, Does-try, Does-seq, Does-delay,
}

module _ {E : Type 0} {O : Outside E} {c : Consumer} (A : Answering O c) where
  module _ (parse : String → Parsed) (m : Message) where
    Does-ack : Does A (ack parse O c m) [] []
    unfolding ack
    Does-ack =
        Does-try-Quiet A (O.xack m.stream c.consumer_group m.message_id)
          (A.xack_lem m.stream c.consumer_group m.message_id)

    Does-dlq_send : (error : ErrorType) → Does A (dlq_send parse O c m error) [] []
    unfolding dlq_send
    Does-dlq_send error =
        let push = O.lpush (dlq m.stream) m error in
        let keep = O.expire (dlq m.stream) dlq_ttl in
        let index = O.hset (dlq_index m.stream) m error in
        let keep_index = O.expire (dlq_index m.stream) dlq_ttl in
        Does-try-Quiet A (push >> (keep >> (index >> keep_index))) (
          Quiet-seq A push (keep >> (index >> keep_index)) (A.lpush_lem m.stream m error) (
            Quiet-seq A keep (index >> keep_index) (A.expire_lem (dlq m.stream) dlq_ttl) (
              Quiet-seq A index keep_index (A.hset_lem m.stream m error)
                (A.expire_lem (dlq_index m.stream) dlq_ttl))))

    Does-refuse : (error : ErrorType) → Does A (refuse parse O c m error) [] []
    unfolding refuse
    Does-refuse error =
        Does-seq A (dlq_send parse O c m error) (ack parse O c m) [] [] [] [] (Does-dlq_send error)
          Does-ack

    Does-mark_processed : Does A (mark_processed parse O c m) [] (keys_of m)
    unfolding mark_processed
    Does-mark_processed e = elim (Bool-cases (str_eq m.idempotency_key "")) [
      | inl q ↦ rw q (Does-pure A e)
      | inr q ↦
          let r = A.setex_lem m.idempotency_key idempotency_ttl e in
          rw q (r.0, r.1 ∙ sym (append_nil (A.dispatched e)), r.2)
    ]

    Does-command :
        (d : Exec E (Unit {0})) (ts : List Task)
        → Does A d ts []
        → Does A
            (try (d >> (mark_processed parse O c m >> ack parse O c m)) (pure tt))
            ts
            (keys_of m)
    Does-command d ts h e =
        let mark = mark_processed parse O c m in
        let settle =
          Does-seq A mark (ack parse O c m) [] [] (keys_of m) [] Does-mark_processed Does-ack in
        let r =
          Does-try A (d >> (mark >> ack parse O c m)) (ts ++ []) (keys_of m ++ [])
            (Does-seq A d (mark >> ack parse O c m) ts [] [] (keys_of m) h settle) e in
        (
          r.0,
          r.1 ∙ ap (λ l. A.dispatched e ++ l) (append_nil ts),
          r.2 ∙ ap (λ l. l ++ A.processed e) (append_nil (keys_of m)),
        )

    -- What raises at once leaves everything as it is.
    Does-raised : (n : Exec E (Unit {0})) → Does A (try (raise parse O c >> n) (pure tt)) [] []
    Does-raised n e = Does-pure A e

    Does-dispatch_embedding_command :
        (p : Payload)
        → Does A
            (dispatch_embedding_command parse O c m (object p))
            (if is_foreign c.client_slug p.client_slug then [] else to_list (embedding_task m p))
            []
    unfolding dispatch_embedding_command
    Does-dispatch_embedding_command p e =
        elim (Bool-cases (is_foreign c.client_slug p.client_slug)) [
          | inl q ↦ rw q (Does-pure A e)
          | inr q ↦ rw q (Does-delay A parse (embedding_task m p) e)
        ]

    Does-dispatch_camera_command :
        (p : Payload)
        → Does A
            (dispatch_camera_command parse O c m (object p))
            (if c.has_camera_handler then camera m.command_type p.client_slug p ∷ [] else [])
            []
    unfolding dispatch_camera_command
    Does-dispatch_camera_command p e = elim (Bool-cases c.has_camera_handler) [
      | inl q ↦
          let t : Task = camera m.command_type p.client_slug p in
          rw q (Does-try A (O.delay t) (t ∷ []) [] (A.delay_lem t) e)
      | inr q ↦ rw q (Does-pure A e)
    ]

    -- How `dispatch` goes on where both handlers refuse the payload.
    Does-bare :
        Does A
          (dispatch parse O c m other)
          (settled false (bare_tasks c m))
          (keys_settled false (bare_tasks c m) m)
    unfolding dispatch refuse
    Does-bare e = elim (Bool-cases (str_eq m.stream embedding_stream)) [
      | inl q ↦ rw q (Does-pure A e)
      | inr q ↦ elim (Bool-cases (str_eq m.stream camera_stream)) [
        | inl g ↦ elim (Bool-cases c.has_camera_handler) [
          | inl h ↦ rw (q, g, h) (Does-pure A e)
          | inr h ↦ rw (q, g, h) (Does-command (pure tt) [] (Does-pure A) e)
        ]
        | inr g ↦
            rw (q, g)
              (Does-try A (refuse parse O c m routing_error) [] [] (Does-refuse routing_error) e)
      ]
    ]

    Does-dispatch :
        (p : Parsed)
        → Does A
            (dispatch parse O c m p)
            (settled false (tasks_of c m p))
            (keys_settled false (tasks_of c m p) m)
    unfolding dispatch refuse
    Does-dispatch invalid e = Does-bare e
    Does-dispatch other e = Does-bare e
    Does-dispatch (object p) e = elim (Bool-cases (str_eq m.stream embedding_stream)) [
      | inl q ↦ rw q (
          Does-command (dispatch_embedding_command parse O c m (object p)) _
            (Does-dispatch_embedding_command p) e)
      | inr q ↦ elim (Bool-cases (str_eq m.stream camera_stream)) [
        | inl g ↦
            rw (q, g)
              (Does-command (dispatch_camera_command parse O c m (object p)) _
                (Does-dispatch_camera_command p) e)
        | inr g ↦
            rw (q, g)
              (Does-try A (refuse parse O c m routing_error) [] [] (Does-refuse routing_error) e)
      ]
    ]

    duplicate_lem : (e : E) → is_duplicate parse O c m e ≡ (ok (is_repeated m (A.processed e)), e)
    unfolding is_duplicate
    duplicate_lem e = elim (Bool-cases (str_eq m.idempotency_key "")) [
      | inl q ↦ rw q refl
      | inr q ↦ rw q (A.exists_lem m.idempotency_key e)
    ]

    -- What a message does that starts where the keys `A.processed e` are marked.
    abbrev Settles : Exec E (Unit {0}) → Option (List Task) → Type 0
    Settles a tasks =
        (e : E)
        → let repeated = is_repeated m (A.processed e) in
          ((a e).0 ≡ ok tt)
          × (A.dispatched (a e).1 ≡ A.dispatched e ++ settled repeated tasks)
          × (A.processed (a e).1 ≡ keys_settled repeated tasks m ++ A.processed e)

    Settles-refuse : (error : ErrorType) → Settles (refuse parse O c m error) none
    Settles-refuse error e = Does-refuse error e

    Settles-either :
        (b : Bool) (p : Parsed) (e : E)
        → let r = (if b then ack parse O c m else dispatch parse O c m p) e in
          (r.0 ≡ ok tt)
          × (A.dispatched r.1 ≡ A.dispatched e ++ settled b (tasks_of c m p))
          × (A.processed r.1 ≡ keys_settled b (tasks_of c m p) m ++ A.processed e)
    Settles-either false p e = Does-dispatch p e
    Settles-either true p e = elim (Option-cases (tasks_of c m p)) [
      | inl q ↦ rw q (Does-ack e)
      | inr (ts, q) ↦ rw q (Does-ack e)
    ]

    Settles-process_command :
        (p : Parsed) → Settles (process_command parse O c m p) (tasks_of c m p)
    unfolding process_command
    Settles-process_command p e =
        let repeated = is_repeated m (A.processed e) in
        let path =
          ap (λ r. continue r.0 (λ d. if d then ack parse O c m else dispatch parse O c m p) r.1)
            (duplicate_lem e) in
        subst
          (λ r.
            (r.0 ≡ ok tt)
            × (A.dispatched r.1 ≡ A.dispatched e ++ settled repeated (tasks_of c m p))
            × (A.processed r.1 ≡ keys_settled repeated (tasks_of c m p) m ++ A.processed e))
          (sym path) (Settles-either repeated p e)

    Settles-process_named : (p : Parsed) → Settles (process_named parse O c m p) (named_tasks c m p)
    Settles-process_named p e = elim (Bool-cases (str_eq m.command_type "")) [
      | inl q ↦ rw q (Settles-refuse validation_error e)
      | inr q ↦ rw q (Settles-process_command p e)
    ]

    Settles-process_parsed :
        (p : Parsed) → Settles (process_parsed parse O c m p) (command_of c m p)
    Settles-process_parsed invalid = Settles-refuse parse_error
    Settles-process_parsed other = Settles-process_named other
    Settles-process_parsed (object p) = Settles-process_named (object p)

    Settles-process_message : Settles (process_message parse O c m) (command parse c m)
    unfolding process_message
    Settles-process_message = Settles-process_parsed (parse m.payload)

  -- Where the servers answer, a batch is processed to its end, and hands over exactly the tasks of those
  -- of its commands whose idempotency key was not marked before, in order: by an earlier command of the
  -- batch or before it. A command without a key is always carried out, one that is refused marks
  -- nothing.
  pub process_batch-eq-carried_out :
      (parse : String → Parsed) (ms : List Message) (e : E)
      → let r = process_batch parse O c ms e in
        (r.0 ≡ ok tt)
        × (A.dispatched r.1 ≡ A.dispatched e ++ carried_out parse c (A.processed e) ms)
  unfolding process_batch
  process_batch-eq-carried_out parse [] e = (refl, sym (append_nil (A.dispatched e)))
  process_batch-eq-carried_out parse (m ∷ ms) e =
      let repeated = is_repeated m (A.processed e) in
      let out = settled repeated (command parse c m) in
      let keys = keys_settled repeated (command parse c m) m in
      let h = Settles-process_message parse m e in
      let s = (process_message parse O c m e).1 in
      let rest = process_batch-eq-carried_out parse ms s in
      let path : (process_message parse O c m >> process_batch parse O c ms) e
          ≡ process_batch parse O c ms s =
        ap (λ r. continue r (λ _. process_batch parse O c ms) s) h.0 in
      subst
        (λ r.
          (r.0 ≡ ok tt)
          × (A.dispatched r.1
              ≡ A.dispatched e ++ (out ++ carried_out parse c (keys ++ A.processed e) ms)))
        (sym path)
        (
          rest.0,
          rest.1
              ∙ ap (λ l. A.dispatched s ++ carried_out parse c l ms) h.2
              ∙ ap (λ l. l ++ carried_out parse c (keys ++ A.processed e) ms) h.1
              ∙ append_assoc (A.dispatched e) out (carried_out parse c (keys ++ A.processed e) ms),
        )
