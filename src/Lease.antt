-- ===== src/Lease.antt =====
-- src/pipeline/camera_lease.py: the claim, renewal and release of the right to decode or track one
-- camera. A method is an action of `Exec (Process S)`: it may raise, and what it wrote before stays.
-- `has_client` is `_redis is not None`; `renew_loaded` is `_renew_sha is not None`.
pub mod Calls
pub mod Exclusive
pub mod Outcomes
pub mod Fleet
use lum_model_face_recogniti.Base.{
  ℕ, String, Bool, true, false, Option, none, some, max, if◌then◌else◌, str_eq, ◌&&◌, not,
}
use lum_model_face_recogniti.Exec.{Exec, Outcome, ok, raised, pure, modify, ◌>>=◌, ◌>>◌, try}
use lum_model_face_recogniti.Redis.{Redis, World, call}

pub record Lease : Type 0 where
  pub ttl : ℕ
  pub worker_id : String
  pub key_prefix : String
  pub has_client : Bool
  pub owns_client : Bool
  pub degraded : Bool
  pub renew_loaded : Bool
  pub release_loaded : Bool

-- A manager and the server that it talks to.
pub record Process (S : Type 0) : Type 0 where
  pub lease : Lease
  pub world : World S

-- `__init__`; `injected` says whether the caller passed a client.
unfoldable pub init : ℕ → String → String → Bool → Lease
init ttl_seconds worker_id key_prefix injected = record {
  ttl = max 1 ttl_seconds;
  worker_id = worker_id;
  key_prefix = key_prefix;
  has_client = injected;
  owns_client = not injected;
  degraded = false;
  renew_loaded = false;
  release_loaded = false;
}

-- The Redis key is the prefix followed by the camera id; here it is the pair of the two.
pub record Key : Type 0 where
  pub prefix : String
  pub camera_id : ℕ

abbrev pub key : Lease → ℕ → Key
key l camera_id = record { prefix = l.key_prefix; camera_id = camera_id }

module _ {S A : Type 0} where
  abbrev pub answered : Process S → Outcome A × World S → Outcome A × Process S
  answered p (r, w) = (r, record p { world = w })

  -- One command, with the manager's own fields as arguments.
  unfoldable pub send : (Lease → ℕ → S → A × S) → Exec (Process S) A
  send f p = answered p (call (f p.lease) p.world)

module _ {S : Type 0} where
  abbrev pub update : (Lease → Lease) → Exec (Process S) (Unit {0})
  update f = modify (λ p. record p { lease = f p.lease }) tt

  -- `RedisClient.get_instance()` connects, so it may fail.
  unfoldable pub resolve : Exec (Process S) (Unit {0})
  unfolding send
  resolve = do send (λ l now s. (tt, s)); update (λ l. record l { has_client = true })

  unfoldable pub client : Exec (Process S) (Unit {0})
  unfolding resolve
  client p = if p.lease.has_client then (ok tt, p) else resolve p

  unfoldable pub on_success : Exec (Process S) (Unit {0})
  on_success = update (λ l. record l { degraded = false })

  unfoldable pub on_failure : Exec (Process S) (Unit {0})
  on_failure =
      update (λ l. record l { degraded = true; has_client = l.has_client && not l.owns_client })

  -- `client.script_load(…)`: the server keeps the script, and its keys are as they were.
  unfoldable pub script_load : Exec (Process S) (Unit {0})
  unfolding send
  script_load = send (λ l now s. (tt, s))

  unfoldable pub load_renew : Exec (Process S) (Unit {0})
  unfolding script_load
  load_renew = do script_load; update (λ l. record l { renew_loaded = true })

  unfoldable pub load_release : Exec (Process S) (Unit {0})
  unfolding script_load
  load_release = do script_load; update (λ l. record l { release_loaded = true })

module _ {S : Type 0} (R : Redis Key S) where
  -- `_RENEW_SCRIPT`, which the server runs in one piece.
  unfoldable pub renew_script : Key → String → ℕ → ℕ → S → Bool × S
  renew_script k worker_id ttl now s = elim (R.get s now k) [
    | none ↦ (false, s)
    | some v ↦ if str_eq v worker_id then R.expire k ttl now s else (false, s)
  ]

  -- `_RELEASE_SCRIPT`.
  unfoldable pub release_script : Key → String → ℕ → S → Bool × S
  release_script k worker_id now s = elim (R.get s now k) [
    | none ↦ (false, s)
    | some v ↦ if str_eq v worker_id then R.del k now s else (false, s)
  ]

  unfoldable pub send_claim : ℕ → Exec (Process S) Bool
  unfolding send
  send_claim c = send (λ l. R.set_nx_ex (key l c) l.worker_id l.ttl)

  unfoldable pub send_renew : ℕ → Exec (Process S) Bool
  unfolding send renew_script
  send_renew c = send (λ l. renew_script (key l c) l.worker_id l.ttl)

  unfoldable pub send_release : ℕ → Exec (Process S) Bool
  unfolding send release_script
  send_release c = send (λ l. release_script (key l c) l.worker_id)

  unfoldable pub send_exists : ℕ → Exec (Process S) Bool
  unfolding send
  send_exists c = send (λ l. R.exists (key l c))

  unfoldable pub claim : ℕ → Exec (Process S) Bool
  unfolding client send_claim on_success on_failure
  claim c =
      try (do client; claimed ← send_claim c; on_success; pure claimed) (do on_failure; pure false)

  pub eval_renew : ℕ → Exec (Process S) Bool
  unfolding client load_renew send_renew
  eval_renew c = do
    client
    (λ p. if p.lease.renew_loaded then (ok tt, p) else load_renew p)
    try (send_renew c) (do load_renew; send_renew c)

  -- `some true`: still ours; `some false`: lost; `none`: the call failed.
  unfoldable pub renew_status : ℕ → Exec (Process S) (Option Bool)
  unfolding eval_renew on_success on_failure
  renew_status c =
      try (do result ← eval_renew c; on_success; pure (some result)) (do on_failure; pure none)

  unfoldable pub renew : ℕ → Exec (Process S) Bool
  unfolding renew_status
  renew c = do status ← renew_status c; pure (elim status [ none ↦ false | some b ↦ b ])

  pub eval_release : ℕ → Exec (Process S) Bool
  unfolding client load_release send_release
  eval_release c = do
    client
    (λ p. if p.lease.release_loaded then (ok tt, p) else load_release p)
    try (send_release c) (do load_release; send_release c)

  pub release : ℕ → Exec (Process S) (Unit {0})
  unfolding eval_release
  release c = try (do eval_release c; pure tt) (pure tt)

  pub is_claimed : ℕ → Exec (Process S) Bool
  unfolding client send_exists
  is_claimed c = try (do client; send_exists c) (pure true)
