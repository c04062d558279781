-- ===== src/Lease/Exclusive.antt =====
-- One camera has one owner: while a lease runs, nothing that the other workers do moves it, and none
-- of them is told that the camera is its own.
use lum_model_face_recogniti.Base.{
  ℕ, ◌≤◌, ◌<◌, String, ◌≡◌, ◌≢◌, Bool, true, false, none, some, List, [], ◌∷◌, refl, arith, str_eq,
  ◌&&◌, ◌==◌, ◌∙◌, eq_iff, inl, inr, Bool-cases, sym, subst, ap, ◌⊎◌, All,
}
use lum_model_face_recogniti.Exec.{
  Exec, Outcome, ok, raised, pure, Holds, Ensures, Ensures-bind, ◌>>◌,
}
use lum_model_face_recogniti.Redis.{Redis, Link}
use lum_model_face_recogniti.Lease.{
  Lease, Process, Key, key, renew_script, release_script, claim, renew_status, renew, release,
  is_claimed,
}
use lum_model_face_recogniti.Lease.Calls.{
  Fact, About, Never, Ensures-claim, Ensures-renew_status, Ensures-release, Ensures-is_claimed,
}
use native.Mathlib.Nat.{le_refl}

-- What a worker asks of its lease manager.
pub data Request : Type 0 where
  claims renews releases asks : ℕ → Request

abbrev pub camera_of : Request → ℕ
camera_of (claims c) = c
camera_of (renews c) = c
camera_of (releases c) = c
camera_of (asks c) = c

-- A request by some worker, whatever the state of its manager, at some time.
pub record Turn : Type 0 where
  pub lease : Lease
  pub at : ℕ
  pub links : List Link
  pub request : Request

module _ {S : Type 0} (R : Redis Key S) where
  -- The answer says whether the worker may take the camera to be its own.
  unfoldable pub act : Request → Exec (Process S) Bool
  unfolding renew
  act (claims c) = claim R c
  act (renews c) = renew R c
  act (releases c) = do release R c; pure false
  act (asks c) = do is_claimed R c; pure false

  unfoldable pub turn : S → Turn → Outcome Bool × Process S
  unfolding act
  turn s t =
      act t.request
        (record { lease = t.lease; world = record { server = s; now = t.at; links = t.links } })

  pub run : S → List Turn → S
  unfolding turn
  run s [] = s
  run s (t ∷ ts) = run (turn s t).1.world.server ts

-- From time `n` until `d` the key names `owner`.
abbrev pub Owned : {S : Type 0} → Redis Key S → Key → String → ℕ → S → ℕ → Type 0
Owned R k owner d s n = (t : ℕ) → n ≤ t → t < d → R.get s t k ≡ some owner

module _ {S : Type 0} (R : Redis Key S) (k : Key) (owner pre : String) (d m : ℕ) where
  -- The asker is another worker, and the time has not passed `m`.
  abbrev Rival : Fact S
  Rival w p ttl s n = (w ≢ owner) × (n < d) × (n ≤ m) × Owned R k owner d s n × (p ≡ pre)

  abbrev Told : ℕ → Bool → Fact S
  Told c b w p ttl s n =
      Rival w p ttl s n × (record { prefix = pre; camera_id = c } ≡ k → b ≡ false)

Key-cases : (k j : Key) → (k ≡ j) ⊎ (k ≢ j)
Key-cases k j = elim (Bool-cases (str_eq k.prefix j.prefix && k.camera_id == j.camera_id)) [
  | inl e ↦ inl (ground (arith, eq_iff k.prefix j.prefix))
  | inr e ↦ inr (λ q. ground (
    arith,
    eq_iff k.prefix j.prefix,
    ap (λ (i : Key). i.prefix) q,
    ap (λ (i : Key). i.camera_id) q,
  ))
]

module _ {S : Type 0} (R : Redis Key S) (j : Key) (w v : String) (n : ℕ) (s : S)
    (taken : R.get s n j ≡ some v) (ne : w ≢ v) where
  pub renew_script_foreign : (ttl : ℕ) → renew_script R j w ttl n s ≡ (false, s)
  unfolding renew_script
  renew_script_foreign ttl = ground (arith, eq_iff v w)

  pub release_script_foreign : release_script R j w n s ≡ (false, s)
  unfolding release_script
  release_script_foreign = ground (arith, eq_iff v w)

module _ {S : Type 0} (R : Redis Key S) (k : Key) (owner pre : String) (d m : ℕ) where
  Owned-at :
      (j : Key) (n : ℕ) (s : S) → k ≡ j → n < d → Owned R k owner d s n → R.get s n j ≡ some owner
  Owned-at j n s e lt own = subst (λ i. R.get s n i ≡ some owner) e (own n (omega arith) lt)

  module _ (c : ℕ) (w p : String) (ttl n : ℕ) (s : S)
      (h : Rival R k owner pre d m w p ttl s n) where
    abbrev asked : Key
    asked = record { prefix = p; camera_id = c }

    same_key : asked ≡ record { prefix = pre; camera_id = c }
    same_key = ap (λ q. record { prefix = q; camera_id = c }) h.4

    set-Rival : let r = R.set_nx_ex asked w ttl n s in Told R k owner pre d m c r.0 w p ttl r.1 n
    set-Rival = elim (Key-cases k asked) [
      | inl e ↦ rw (R.set_taken asked w ttl n s owner (Owned-at asked n s e h.1 h.3)) (h, λ _. refl)
      | inr e ↦ (
        (h.0, h.1, h.2, λ t a b. R.set_other asked k w ttl n t s e a ∙ h.3 t a b, h.4),
        λ e'. absurd (e (sym (same_key ∙ e'))),
      )
    ]

    renew-Rival :
        let r = renew_script R asked w ttl n s in Told R k owner pre d m c r.0 w p ttl r.1 n
    unfolding renew_script
    renew-Rival = elim (Key-cases k asked) [
      | inl e ↦
          rw (renew_script_foreign R asked w owner n s (Owned-at asked n s e h.1 h.3) h.0 ttl)
            (h, λ _. refl)
      | inr e ↦ (
        (
          h.0,
          h.1,
          h.2,
          λ t a b. ground (arith, R.expire_other asked k ttl n t s e a, h.3 t a b),
          h.4,
        ),
        λ e'. absurd (e (sym (same_key ∙ e'))),
      )
    ]

    release-Rival : let r = release_script R asked w n s in Rival R k owner pre d m w p ttl r.1 n
    unfolding release_script
    release-Rival = elim (Key-cases k asked) [
      | inl e ↦ rw (release_script_foreign R asked w owner n s (Owned-at asked n s e h.1 h.3) h.0) h
      | inr e ↦
          (h.0, h.1, h.2, λ t a b. ground (arith, R.del_other asked k n t s e a, h.3 t a b), h.4)
    ]

    exists-Rival : Rival R k owner pre d m w p ttl (R.exists asked n s).1 n
    exists-Rival = ground (arith, R.exists_lem asked n s)

  abbrev Unmoved : ℕ → Bool → Process S → Type 0
  Unmoved c b = About (Told R k owner pre d m c b)

  act-Rival :
      (r : Request)
      → Ensures (About (Rival R k owner pre d m)) (act R r) (Unmoved (camera_of r)) Never
  unfolding act
  act-Rival (claims c) =
      Ensures-claim R c (Rival R k owner pre d m) (Told R k owner pre d m c) (λ w p ttl n s h.
        let r = set-Rival c w p ttl n s h in ((h, λ _. refl), (r.0, λ _. refl), r))
  act-Rival (renews c) =
      Ensures-bind (renew_status R c) _
        (Ensures-renew_status R c (Rival R k owner pre d m) (Told R k owner pre d m c)
          (λ w p ttl n s h. let r = renew-Rival c w p ttl n s h in (r.0, r)))
        (elim [ none ↦ record { at = λ p h. (h, λ _. refl) } | some b ↦ record { at = λ p h. h } ])
  act-Rival (releases c) =
      Ensures-bind (release R c) _ (Ensures-release R c (Rival R k owner pre d m) (release-Rival c))
        (λ _. record { at = λ p h. (h, λ _. refl) })
  act-Rival (asks c) =
      Ensures-bind (is_claimed R c) _
        (Ensures-is_claimed R c (Rival R k owner pre d m) (λ _. Rival R k owner pre d m)
          (λ w p ttl n s h. let r = exists-Rival c w p ttl n s h in (h, r, r)))
        (λ _. record { at = λ p h. (h, λ _. refl) })

-- The turns of other workers than `owner`, in order of time, none before `n` and all before `d`.
abbrev pub Rivals : String → ℕ → ℕ → List Turn → Type 0
Rivals owner d n [] = Unit
Rivals owner d n (t ∷ ts) =
    (t.lease.worker_id ≢ owner) × (n ≤ t.at) × (t.at < d) × Rivals owner d t.at ts

-- The keys whose cameras a worker was told are its own, in the order of the turns.
abbrev pub granted_key : Turn → Outcome Bool → List Key → List Key
granted_key t (ok true) ks = key t.lease (camera_of t.request) ∷ ks
granted_key t _ ks = ks

pub grants : {S : Type 0} → Redis Key S → S → List Turn → List Key
grants R s [] = []
grants R s (t ∷ ts) = granted_key t (turn R s t).0 (grants R (turn R s t).1.world.server ts)

abbrev pub last_time : ℕ → List Turn → ℕ
last_time n [] = n
last_time n (t ∷ ts) = last_time t.at ts

module _ {S : Type 0} (R : Redis Key S) (k : Key) (owner : String) (d : ℕ) where
  turn-Rival :
      (n : ℕ) (s : S) (t : Turn)
      → Owned R k owner d s n
      → t.lease.worker_id ≢ owner
      → n ≤ t.at
      → t.at < d
      → Owned R k owner d (turn R s t).1.world.server t.at
        × (key t.lease (camera_of t.request) ≡ k → (turn R s t).0 ≡ ok false)
  unfolding turn
  turn-Rival n s t own ne le lt = told (turn R s t) (
      (act-Rival R k owner t.lease.key_prefix d t.at t.request).at _
        (ne, lt, le_refl t.at, (λ u a b. own u (omega arith) b), refl))
    where
      told :
          (r : Outcome Bool × Process S)
          → Holds (Unmoved R k owner t.lease.key_prefix d t.at (camera_of t.request)) Never r
          → Owned R k owner d r.1.world.server t.at
            × (key t.lease (camera_of t.request) ≡ k → r.0 ≡ ok false)
      told (ok b, p) h = ((λ u a e. h.0.3 u (omega (arith, h.0.2)) e), λ e. ap ok (h.1 e))
      told (raised, p) h = absurd h

  not_granted :
      (t : Turn) (j : Key) (r : Outcome Bool) (ks : List Key)
      → (key t.lease (camera_of t.request) ≡ j → r ≡ ok false)
      → All (λ i. i ≢ j) ks
      → All (λ i. i ≢ j) (granted_key t r ks)
  not_granted t j (ok true) ks h later = ((λ e. cc (h e)), later)
  not_granted t j (ok false) ks h later = later
  not_granted t j raised ks h later = later

  -- While `owner` holds the key, no other worker's request moves it or is granted.
  pub run-Rivals :
      (n : ℕ) (s : S) (ts : List Turn)
      → Owned R k owner d s n
      → Rivals owner d n ts
      → All (λ j. j ≢ k) (grants R s ts) × Owned R k owner d (run R s ts) (last_time n ts)
  unfolding run grants
  run-Rivals n s [] own h = (tt, own)
  run-Rivals n s (t ∷ ts) own h =
      let now = turn-Rival n s t own h.0 h.1 h.2 in
      let later = run-Rivals t.at (turn R s t).1.world.server ts now.0 h.3 in
      (not_granted t k (turn R s t).0 _ now.1 later.0, later.1)
