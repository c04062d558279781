-- ===== src/Tests/Commands.antt =====
-- Three commands of one batch, the second of which repeats the first.
use lum_model_face_recogniti.Base.{◌≡◌, ◌++◌, false, none, some, List, [], ◌∷◌, refl, String}
use lum_model_face_recogniti.Exec.{ok, raised}
use lum_model_face_recogniti.StreamConsumer.{
  Message, Payload, Parsed, object, Key, dlq, dlq_index, idempotency, Task, delete_user, Outside,
  Consumer, process_message, process_batch,
}
use lum_model_face_recogniti.StreamConsumer.Commands.{has, Answering, carried_out}
use lum_model_face_recogniti.StreamConsumer.Once.{process_batch-eq-carried_out}

record Servers : Type 0 where
  done : List String
  handed : List Task

abbrev key_name : Key → String
key_name (dlq s) = s
key_name (dlq_index s) = s
key_name (idempotency g k) = k

abbrev outside : Outside Servers
outside = record {
  exists = λ k e. (ok (has (key_name k) e.done), e);
  setex = λ k ttl e. (ok tt, record e { done = key_name k ∷ e.done });
  xack = λ s g i e. (ok tt, e);
  lpush = λ k m error e. (raised, e);
  hset = λ k m error e. (ok tt, e);
  expire = λ k ttl e. (ok tt, e);
  delay = λ t e. (ok tt, record e { handed = e.handed ++ (t ∷ []) });
  disconnected = λ e. false;
}

abbrev consumer : Consumer
consumer = record {
  consumer_group = "ai-service-group:a";
  client_slug = some "a";
  has_camera_handler = false;
}

abbrev answering : Answering outside consumer
answering = record {
  processed = λ e. e.done;
  dispatched = λ e. e.handed;
  exists_lem = λ k e. refl;
  setex_lem = λ k ttl e. (refl, refl, refl);
  delay_lem = λ t e. (refl, refl, refl);
  xack_lem = λ s g i e. (refl, refl);
  lpush_lem = λ s m error e. (refl, refl);
  hset_lem = λ s m error e. (refl, refl);
  expire_lem = λ k ttl e. (refl, refl);
}

abbrev payload : Payload
payload = record { client_slug = some "a"; user_id = some 7; full_name = none; image_urls = [] }

abbrev parse : String → Parsed
parse s = object payload

abbrev deletion : String → String → String → Message
deletion message_id command_id key = record {
  stream = "commands:embedding";
  message_id = message_id;
  command_id = command_id;
  command_type = "DeleteEmbedding";
  idempotency_key = key;
  payload = "{}";
}

abbrev batch : List Message
batch = deletion "1-0" "c1" "k1" ∷ deletion "2-0" "c2" "k1" ∷ deletion "3-0" "c3" "" ∷ []

abbrev fresh : Servers
fresh = record { done = []; handed = [] }

process_batch_test :
    (process_batch parse outside consumer batch fresh).1.handed
    ≡ delete_user "c1" (some "a") (some 7) ∷ delete_user "c3" (some "a") (some 7) ∷ []
unfolding process_batch process_message
process_batch_test = refl

process_batch-eq-carried_out_example :
    let r = process_batch parse outside consumer batch fresh in
    (r.0 ≡ ok tt) × (r.1.handed ≡ [] ++ carried_out parse consumer [] batch)
process_batch-eq-carried_out_example = process_batch-eq-carried_out answering parse batch fresh
