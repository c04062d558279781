-- ===== src/Throttle.antt =====
-- src/workers/identity_throttle.py: the claim and the release of the right to classify a person.
pub mod Once
use Prim.Native.String.{◌++◌ as concat}
use lum_model_face_recogniti.Base.{
  ℕ, String, Bool, true, false, max, if◌then◌else◌, str_eq, ◌&&◌, not,
}
use lum_model_face_recogniti.Exec.{Exec, Outcome, ok, pure, modify, ◌>>=◌, ◌>>◌, try}
use lum_model_face_recogniti.Redis.{Redis, World, call}

pub record Throttle : Type 0 where
  pub interval : ℕ
  pub has_client : Bool
  pub owns_client : Bool
  pub degraded : Bool

pub record Process (S : Type 0) : Type 0 where
  pub throttle : Throttle
  pub world : World S

-- `__init__`; `injected` says whether the caller passed a client.
unfoldable pub init : ℕ → Bool → Throttle
init interval_seconds injected = record {
  interval = max 1 interval_seconds;
  has_client = injected;
  owns_client = not injected;
  degraded = false;
}

-- `_key`
abbrev pub key : String → String
key identity = concat "throttle:action:" identity

module _ {S : Type 0} where
  abbrev pub answered {ℓ} : {A : Type ℓ} → Process S → Outcome A × World S → Outcome A × Process S
  answered p (r, w) = (r, record p { world = w })

  abbrev pub update : (Throttle → Throttle) → Exec (Process S) (Unit {0})
  update f = modify (λ p. record p { throttle = f p.throttle }) tt

module _ {S A : Type 0} where
  unfoldable pub send : (Throttle → ℕ → S → A × S) → Exec (Process S) A
  send f p = answered p (call (f p.throttle) p.world)

module _ {S : Type 0} where
  unfoldable pub resolve : Exec (Process S) (Unit {0})
  unfolding send
  resolve = do send (λ l now s. (tt, s)); update (λ l. record l { has_client = true })

  unfoldable pub client : Exec (Process S) (Unit {0})
  unfolding resolve
  client p = if p.throttle.has_client then (ok tt, p) else resolve p

module _ {S : Type 0} (R : Redis String S) where
  unfoldable pub claim : String → Exec (Process S) Bool
  unfolding send client
  claim identity = do
    client
    claimed ← send (λ l. R.set_nx_ex (key identity) "1" l.interval)
    update (λ l. record l { degraded = false })
    pure claimed

  unfoldable pub decline : Exec (Process S) Bool
  decline = do
    update (λ l. record l { degraded = true; has_client = l.has_client && not l.owns_client })
    pure false

  unfoldable pub reserve : String → Exec (Process S) Bool
  unfolding claim decline
  reserve identity = if str_eq identity "" then pure false else try (claim identity) decline

  pub cancel : String → Exec (Process S) (Unit {0})
  unfolding send client
  cancel identity =
      if str_eq identity ""
      then pure tt
      else try (do client; send (λ l. R.del (key identity)); pure tt) (pure tt)
