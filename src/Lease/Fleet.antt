-- ===== src/Lease/Fleet.antt =====
-- What a fleet of workers may rely on: at most one owner for each camera, and an owner that is
-- answered in time stays the owner.
use lum_model_face_recogniti.Base.{
  ℕ, ◌≤◌, ◌<◌, String, ◌≡◌, ◌≢◌, Bool, true, false, Option, none, some, List, [], refl, arith,
  str_eq, eq_iff, inl, inr, Bool-cases, Option-cases, sym, subst, ap, All, ◌∙◌,
}
use lum_model_face_recogniti.Exec.{ok}
use lum_model_face_recogniti.Redis.{Redis, call}
use lum_model_face_recogniti.Lease.{Lease, Process, Key, key, claim, renew_status, renew}
use lum_model_face_recogniti.Lease.Outcomes.{claim_lem, renew_status_lem, deadline, Answer}
use lum_model_face_recogniti.Lease.Exclusive.{
  Owned, Turn, Rivals, grants, run, run-Rivals, last_time,
}

-- A manager whose calls are all answered.
abbrev pub answering : {S : Type 0} → Lease → S → ℕ → Process S
answering l s n = record { lease = l; world = record { server = s; now = n; links = [] } }

abbrev pub is_none {ℓ} : {A : Type ℓ} → Option A → Bool
is_none none = true
is_none (some a) = false

ok-injective : {a b : Bool} → ok a ≡ ok b → a ≡ b
ok-injective h = cc

module _ {S : Type 0} (R : Redis Key S) (c : ℕ) where
  -- An answered claim is granted exactly when nobody holds the camera, and ends any degradation.
  pub claim_answered :
      (l : Lease) (s : S) (n : ℕ)
      → ((claim R c (answering l s n)).0 ≡ ok (is_none (R.get s n (key l c))))
        × ((claim R c (answering l s n)).1.lease.degraded ≡ false)
  unfolding claim call
  claim_answered l s n = elim (Option-cases (R.get s n (key l c))) [
    | inl e ↦ ground (arith, R.set_free (key l c) l.worker_id l.ttl n s e)
    | inr (u, e) ↦ ground (arith, R.set_taken (key l c) l.worker_id l.ttl n s u e)
  ]

  -- An answered renewal keeps a camera that is still this worker's.
  pub renew_answered :
      (l : Lease) (s : S) (n : ℕ)
      → R.get s n (key l c) ≡ some l.worker_id
      → (renew R c (answering l s n)).0 ≡ ok true
  unfolding renew call
  renew_answered l s n e =
      ground
        (arith, eq_iff l.worker_id l.worker_id, R.expire_reply (key l c) l.ttl n s l.worker_id e)

abbrev pub names : Option String → String → Bool
names none w = false
names (some v) w = str_eq v w

names_sound : (o : Option String) (w : String) → names o w ≡ true → o ≡ some w
names_sound none w h = cc
names_sound (some v) w h = ap some ((eq_iff v w).0 h)

module _ {S : Type 0} (R : Redis Key S) (c : ℕ) (p : Process S) where
  abbrev pub claimed : S
  claimed = (claim R c p).1.world.server

  module _ (granted : (claim R c p).0 ≡ ok true) where
    owned : Owned R (key p.lease c) p.lease.worker_id (deadline R c p) claimed p.world.now
    owned =
        let (b, returned, apart, won) = claim_lem R c p in
        (won (ok-injective (sym returned ∙ granted))).1

    -- A granted claim is exclusive for the lifetime of the lease: of the other workers, in whatever
    -- state, whatever they ask for and whatever becomes of their calls, none is granted the camera.
    pub claim_exclusive :
        (ts : List Turn)
        → Rivals p.lease.worker_id (deadline R c p) p.world.now ts
        → All (λ k. k ≢ key p.lease c) (grants R claimed ts)
    claim_exclusive ts rivals =
        (run-Rivals R (key p.lease c) p.lease.worker_id (deadline R c p) p.world.now claimed ts
          owned rivals).0

    -- After a granted claim and any requests of the other workers, the owner's renewal at any time
    -- before the deadline succeeds if its calls are answered.
    pub claim_renewable :
        (ts : List Turn) (l : Lease) (t : ℕ)
        → Rivals p.lease.worker_id (deadline R c p) p.world.now ts
        → l.worker_id ≡ p.lease.worker_id
        → l.key_prefix ≡ p.lease.key_prefix
        → last_time p.world.now ts ≤ t
        → t < deadline R c p
        → (renew R c (answering l (run R claimed ts) t)).0 ≡ ok true
    claim_renewable ts l t rivals same_id same_prefix late early =
        let after =
          run-Rivals R (key p.lease c) p.lease.worker_id (deadline R c p) p.world.now claimed ts
            owned rivals in
        renew_answered R c l (run R claimed ts) t (
          subst (λ w. R.get (run R claimed ts) t (key l c) ≡ some w) (sym same_id)
            (subst
              (λ x.
                R.get (run R claimed ts) t (record { prefix = x; camera_id = c })
                ≡ some p.lease.worker_id)
              (sym same_prefix) (after.1 t late early)))

  -- `GET` names this worker.
  abbrev pub holds : Bool
  holds = names (R.get p.world.server p.world.now (key p.lease c)) p.lease.worker_id

  module _ (live : 0 < p.lease.ttl) where
    told_holds :
        (b : Bool) (o : Option Bool) (s : S) → o ≡ some b → Answer R c p live o s → b ≡ holds
    told_holds b none s e h = cc
    told_holds b (some true) s e h =
        ground (arith, (h.1 refl).0, eq_iff p.lease.worker_id p.lease.worker_id)
    told_holds b (some false) s e h = elim (Bool-cases holds) [
      | inl q ↦ absurd (h.2 refl (names_sound _ p.lease.worker_id q))
      | inr q ↦ cc
    ]

    -- An answered renewal tells exactly whether the camera was this worker's at that time.
    pub renew_status_told : (b : Bool) → (renew_status R c p).0 ≡ ok (some b) → b ≡ holds
    renew_status_told b h =
        let (o, returned, answer) = renew_status_lem R c p live in
        told_holds b o (renew_status R c p).1.world.server (cc) answer

    -- After a renewal that succeeded the key names this worker for a whole lifetime from now.
    pub renew_status_extends :
        (t : ℕ)
        → (renew_status R c p).0 ≡ ok (some true)
        → p.world.now ≤ t
        → t < deadline R c p
        → R.get (renew_status R c p).1.world.server t (key p.lease c) ≡ some p.lease.worker_id
    renew_status_extends t h late early =
        let (o, returned, answer) = renew_status_lem R c p live in
        told o (renew_status R c p).1.world.server (cc) answer
      where
        told :
            (o : Option Bool) (s : S)
            → o ≡ some true
            → Answer R c p live o s
            → R.get s t (key p.lease c) ≡ some p.lease.worker_id
        told none s e a = cc
        told (some true) s e a = (a.1 refl).1 t late early
        told (some false) s e a = cc
