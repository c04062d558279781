-- ===== src/Lease/Calls.antt =====
-- Rules for what a lease manager does, one for each method: what holds of its identity, its
-- settings and the server afterwards, whatever becomes of its calls.
use lum_model_face_recogniti.Base.{
  ℕ, String, Bool, true, false, none, some, if◌then◌else◌, inl, inr, Bool-cases,
}
use lum_model_face_recogniti.Exec.{Exec, ok, Holds, Ensures, Ensures-bind, Ensures-try, try, ◌>>◌}
use lum_model_face_recogniti.Redis.{Redis, call_cases}
use lum_model_face_recogniti.Lease.{
  Lease, Process, Key, send, resolve, client, script_load, load_renew, load_release, renew_script,
  release_script, send_claim, send_renew, send_release, claim, eval_renew, renew_status,
  eval_release, release, is_claimed,
}

-- A statement about the parts of a process that outlast a method: its identity, its settings, the
-- server and the time.
abbrev pub Fact : Type 0 → Type 1
Fact S = String → String → ℕ → S → ℕ → Type 0

module _ {S : Type 0} where
  abbrev pub About : Fact S → Process S → Type 0
  About T p = T p.lease.worker_id p.lease.key_prefix p.lease.ttl p.world.server p.world.now

  abbrev pub Never : Process S → Type 0
  Never p = ⊥

module _ {S A : Type 0} (T E : Fact S) (Q : A → Fact S) where
  pub Ensures-send :
      (f : Lease → ℕ → S → A × S)
      → ((l : Lease) (s : S) (n : ℕ)
          → T l.worker_id l.key_prefix l.ttl s n
          → E l.worker_id l.key_prefix l.ttl s n
            × E l.worker_id l.key_prefix l.ttl (f l n s).1 n
            × Q (f l n s).0 l.worker_id l.key_prefix l.ttl (f l n s).1 n)
      → Ensures (About T) (send f) (λ a. About (Q a)) (About E)
  unfolding send
  Ensures-send f step = record {
    at = λ p h.
        let done = step p.lease p.world.server p.world.now h in
        call_cases
          (λ r. Holds (λ a. About (Q a)) (About E) (r.0, record { lease = p.lease; world = r.1 }))
          (f p.lease) p.world (λ ls. done.0) (λ ls. done.1) (λ ls. done.2);
  }

-- The calls that read and write no key: a raise in one of them ends in any `E` that follows from `T`.
module _ {S : Type 0} (T E : Fact S)
    (weaken : (w p : String) (ttl n : ℕ) (s : S) → T w p ttl s n → E w p ttl s n) where
  abbrev Quiet : Exec (Process S) (Unit {0}) → Type 0
  Quiet m = Ensures (About T) m (λ _. About T) (About E)

  -- `if test: pass else: m`
  Quiet-unless :
      (test : Process S → Bool) (m : Exec (Process S) (Unit {0}))
      → Quiet m
      → Quiet (λ p. if test p then (ok tt, p) else m p)
  Quiet-unless test m q = record {
    at = λ p h. elim (Bool-cases (test p)) [ inl e ↦ rw e h | inr e ↦ rw e (q.at p h) ];
  }

  Quiet-ping : Quiet (send (λ l now s. (tt, s)))
  Quiet-ping =
      Ensures-send T E (λ _. T) (λ l now s. (tt, s))
        (λ l s n h. let e = weaken l.worker_id l.key_prefix l.ttl n s h in (e, e, h))

  Quiet-client : Quiet client
  unfolding client
  Quiet-client =
      Quiet-unless (λ p. p.lease.has_client) resolve
        (Ensures-bind (send (λ l now s. (tt, s))) _ Quiet-ping (λ _. record { at = λ p h. h }))

  Quiet-load_renew : Quiet load_renew
  unfolding load_renew
  Quiet-load_renew = Ensures-bind script_load _ Quiet-ping (λ _. record { at = λ p h. h })

  Quiet-load_release : Quiet load_release
  unfolding load_release
  Quiet-load_release = Ensures-bind script_load _ Quiet-ping (λ _. record { at = λ p h. h })

module _ {S : Type 0} (R : Redis Key S) (c : ℕ) (T : Fact S) where
  abbrev on_key : String → Key
  on_key p = record { prefix = p; camera_id = c }

  -- A claim does nothing, or SET NX EX with or without its answer; it never raises.
  pub Ensures-claim :
      (Q : Bool → Fact S)
      → ((w p : String) (ttl n : ℕ) (s : S)
          → T w p ttl s n
          → let r = R.set_nx_ex (on_key p) w ttl n s in
            Q false w p ttl s n × Q false w p ttl r.1 n × Q r.0 w p ttl r.1 n)
      → Ensures (About T) (claim R c) (λ b. About (Q b)) Never
  unfolding claim
  Ensures-claim Q step =
      Ensures-try {E' = About (Q false)} _ _
        (Ensures-bind client _ (Quiet-client T (Q false) (λ w p ttl n s h. (step w p ttl n s h).0))
          (λ _.
            Ensures-bind (send_claim R c) _
              (Ensures-send T (Q false) Q _ (λ l s n h. step l.worker_id l.key_prefix l.ttl n s h))
              (λ b. record { at = λ p h. h })))
        (record { at = λ p h. h })

  -- A script is run up to twice, the second time if the first call raised. So what a run gives is
  -- asked of `T` after any number of runs, and `T` lasts through a run.
  module _ (script : String → String → ℕ → ℕ → S → Bool × S) (loaded : Process S → Bool)
      (load : Exec (Process S) (Unit {0})) (quiet : Quiet T T (λ w p ttl n s h. h) load)
      (Q : Bool → Fact S)
      (step : (w p : String) (ttl n : ℕ) (s : S)
        → T w p ttl s n
        → T w p ttl (script w p ttl n s).1 n
          × Q (script w p ttl n s).0 w p ttl (script w p ttl n s).1 n) where
    abbrev sent : Exec (Process S) Bool
    sent = send (λ l. script l.worker_id l.key_prefix l.ttl)

    Ensures-sent : Ensures (About T) sent (λ b. About (Q b)) (About T)
    unfolding send
    Ensures-sent =
        Ensures-send T T Q _
          (λ l s n h. let d = step l.worker_id l.key_prefix l.ttl n s h in (h, d.0, d.1))

    Ensures-script :
        Ensures
          (About T)
          (client >> ((λ p. if loaded p then (ok tt, p) else load p) >> try sent (load >> sent)))
          (λ b. About (Q b))
          (About T)
    Ensures-script = Ensures-bind client _ (Quiet-client T T (λ w p ttl n s h. h)) (λ _.
        Ensures-bind (λ p. if loaded p then (ok tt, p) else load p) _
          (Quiet-unless T T (λ w p ttl n s h. h) loaded load quiet)
          (λ _.
            Ensures-try {E' = About T} sent _ Ensures-sent
              (Ensures-bind load _ quiet (λ _. Ensures-sent))))

  abbrev renewed : String → String → ℕ → ℕ → S → Bool × S
  renewed w p ttl n s = renew_script R (on_key p) w ttl n s

  abbrev released : String → String → ℕ → ℕ → S → Bool × S
  released w p ttl n s = release_script R (on_key p) w n s

  pub Ensures-renew_status :
      (Q : Bool → Fact S)
      → ((w p : String) (ttl n : ℕ) (s : S)
          → T w p ttl s n
          → T w p ttl (renewed w p ttl n s).1 n
            × Q (renewed w p ttl n s).0 w p ttl (renewed w p ttl n s).1 n)
      → Ensures (About T) (renew_status R c) (elim [ none ↦ About T | some b ↦ About (Q b) ]) Never
  unfolding renew_status eval_renew send_renew
  Ensures-renew_status Q step =
      Ensures-try {E' = About T} _ _
        (Ensures-bind (eval_renew R c) _
          (Ensures-script renewed (λ p. p.lease.renew_loaded) load_renew
            (Quiet-load_renew T T (λ w p ttl n s h. h)) Q step)
          (λ b. record { at = λ p h. h }))
        (record { at = λ p h. h })

  pub Ensures-release :
      ((w p : String) (ttl n : ℕ) (s : S) → T w p ttl s n → T w p ttl (released w p ttl n s).1 n)
      → Ensures (About T) (release R c) (λ _. About T) Never
  unfolding release eval_release send_release
  Ensures-release step =
      Ensures-try {E' = About T} _ _
        (Ensures-bind (eval_release R c) _
          (Ensures-script released (λ p. p.lease.release_loaded) load_release
            (Quiet-load_release T T (λ w p ttl n s h. h)) (λ _. T)
            (λ w p ttl n s h. let t = step w p ttl n s h in (t, t)))
          (λ b. record { at = λ p h. h }))
        (record { at = λ p h. h })

  pub Ensures-is_claimed :
      (Q : Bool → Fact S)
      → ((w p : String) (ttl n : ℕ) (s : S)
          → T w p ttl s n
          → let r = R.exists (on_key p) n s in
            Q true w p ttl s n × Q true w p ttl r.1 n × Q r.0 w p ttl r.1 n)
      → Ensures (About T) (is_claimed R c) (λ b. About (Q b)) Never
  unfolding is_claimed
  Ensures-is_claimed Q step =
      Ensures-try {E' = About (Q true)} _ _
        (Ensures-bind client _ (Quiet-client T (Q true) (λ w p ttl n s h. (step w p ttl n s h).0))
          (λ _. Ensures-send T (Q true) Q _ (λ l s n h. step l.worker_id l.key_prefix l.ttl n s h)))
        (record { at = λ p h. h })
