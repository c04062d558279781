-- ===== src/Throttle/Once.antt =====
-- One classification for each person and interval, over all processes.
use lum_model_face_recogniti.Base.{
  ℕ, ◌+◌, ◌*◌, ◌≤◌, ◌<◌, String, ◌≡◌, ◌≢◌, Bool, true, false, List, [], ◌∷◌, some, refl, arith,
  str_eq, eq_iff, inl, inr, Bool-cases, Option-cases, sym, if◌then◌else◌, ap, ◌∙◌, All,
}
use lum_model_face_recogniti.Exec.{
  Exec, Outcome, ok, raised, pure, Holds, Ensures, Ensures-bind, Ensures-try, ◌>>◌,
}
use lum_model_face_recogniti.Redis.{Redis, Link, call_cases}
use lum_model_face_recogniti.Throttle.{
  Throttle, Process, key, send, resolve, client, claim, decline, reserve, cancel,
}
use mathlib.Core.Bool.{false≢true}
use text.Mathlib.TextLemmas.{append_cancel_left}
use native.Mathlib.Nat.{le_refl}

-- A statement about the interval of a throttle, the server and the time.
abbrev Fact : Type 0 → Type 1
Fact S = ℕ → S → ℕ → Type 0

module _ {S : Type 0} where
  abbrev About : Fact S → Process S → Type 0
  About T p = T p.throttle.interval p.world.server p.world.now

  abbrev Never : Process S → Type 0
  Never p = ⊥

module _ {S A : Type 0} (T E : Fact S) (Q : A → Fact S) where
  Ensures-send :
      (f : Throttle → ℕ → S → A × S)
      → ((l : Throttle) (s : S) (n : ℕ)
          → T l.interval s n
          → E l.interval s n × E l.interval (f l n s).1 n × Q (f l n s).0 l.interval (f l n s).1 n)
      → Ensures (About T) (send f) (λ a. About (Q a)) (About E)
  unfolding send
  Ensures-send f step = record {
    at = λ p h.
        let done = step p.throttle p.world.server p.world.now h in
        call_cases
          (λ r.
            Holds (λ a. About (Q a)) (About E) (r.0, record { throttle = p.throttle; world = r.1 }))
          (f p.throttle) p.world (λ ls. done.0) (λ ls. done.1) (λ ls. done.2);
  }

module _ {S : Type 0} (T E : Fact S) (weaken : (i n : ℕ) (s : S) → T i s n → E i s n) where
  Quiet-resolve : Ensures (About T) resolve (λ _. About T) (About E)
  unfolding resolve
  Quiet-resolve =
      Ensures-bind (send (λ l now s. (tt, s))) _
        (Ensures-send T E (λ _. T) (λ l now s. (tt, s))
          (λ l s n h. let e = weaken l.interval n s h in (e, e, h)))
        (λ _. record { at = λ p h. h })

  -- `if test: pass else: m`
  Quiet-unless :
      (test : Process S → Bool) (m : Exec (Process S) (Unit {0}))
      → Ensures (About T) m (λ _. About T) (About E)
      → Ensures (About T) (λ p. if test p then (ok tt, p) else m p) (λ _. About T) (About E)
  Quiet-unless test m q = record {
    at = λ p h. elim (Bool-cases (test p)) [ inl e ↦ rw e h | inr e ↦ rw e (q.at p h) ];
  }

  Quiet-client : Ensures (About T) client (λ _. About T) (About E)
  unfolding client
  Quiet-client = Quiet-unless (λ p. p.throttle.has_client) resolve Quiet-resolve

module _ {S : Type 0} (R : Redis String S) (who : String) (T : Fact S) where
  -- A reservation asks nothing of the server, or one SET NX EX; it never raises.
  Ensures-reserve :
      (Q : Bool → Fact S)
      → ((i n : ℕ) (s : S)
          → T i s n
          → let r = R.set_nx_ex (key who) "1" i n s in
            Q false i s n × Q false i r.1 n × Q r.0 i r.1 n)
      → Ensures (About T) (reserve R who) (λ b. About (Q b)) Never
  unfolding reserve claim decline
  Ensures-reserve Q step = elim (Bool-cases (str_eq who "")) [
    | inl e ↦ rw e (record { at = λ p h. (step _ _ _ h).0 })
    | inr e ↦ rw e (
        Ensures-try {E' = About (Q false)} (claim R who) (decline R)
          (Ensures-bind client _ (Quiet-client T (Q false) (λ i n s h. (step i n s h).0)) (λ _.
            Ensures-bind (send (λ l. R.set_nx_ex (key who) "1" l.interval)) _
              (Ensures-send T (Q false) Q _ (λ l s n h. step l.interval n s h))
              (λ b. record { at = λ p h. h })))
          (record { at = λ p h. h }))
  ]

  Ensures-cancel :
      ((i n : ℕ) (s : S) → T i s n → T i (R.del (key who) n s).1 n)
      → Ensures (About T) (cancel R who) (λ _. About T) Never
  unfolding cancel
  Ensures-cancel step = elim (Bool-cases (str_eq who "")) [
    | inl e ↦ rw e (record { at = λ p h. h })
    | inr e ↦ rw e (
        Ensures-try {E' = About T} _ _
          (Ensures-bind client _ (Quiet-client T T (λ i n s h. h)) (λ _.
            Ensures-bind (send (λ l. R.del (key who))) _
              (Ensures-send T T (λ _. T) (λ l. R.del (key who))
                (λ l s n h. let r = step l.interval n s h in (h, r, r)))
              (λ b. record { at = λ p h. h })))
          (record { at = λ p h. h }))
  ]

pub data Request : Type 0 where
  reserves cancels : String → Request

-- What some process asks of its throttle, at some time and whatever the throttle's state.
pub record Turn : Type 0 where
  pub throttle : Throttle
  pub at : ℕ
  pub links : List Link
  pub request : Request

module _ {S : Type 0} (R : Redis String S) where
  pub act : Request → Exec (Process S) Bool
  act (reserves j) = reserve R j
  act (cancels j) = cancel R j >> pure false

  pub turn : S → Turn → Outcome Bool × Process S
  unfolding act
  turn s t =
      act t.request (record {
        throttle = t.throttle;
        world = record { server = s; now = t.at; links = t.links };
      })

-- From time `n` until `d` the person is taken.
abbrev pub Taken : {S : Type 0} → Redis String S → String → ℕ → S → ℕ → Type 0
Taken R who d s n = (t : ℕ) → n ≤ t → t < d → R.get s t (key who) ≡ some "1"

abbrev pub Spares : String → Request → Type 0
Spares who (reserves j) = Unit
Spares who (cancels j) = j ≢ who

-- Turns in order of time, none before `n`, all before `d`, and no cancellation of `who`.
abbrev pub Uncancelled : String → ℕ → ℕ → List Turn → Type 0
Uncancelled who d n [] = Unit
Uncancelled who d n (t ∷ ts) =
    Spares who t.request × (n ≤ t.at) × (t.at < d) × Uncancelled who d t.at ts

abbrev pub identity_of : Request → String
identity_of (reserves j) = j
identity_of (cancels j) = j

-- The persons that were granted, in the order of the turns.
abbrev pub granted_identity : Turn → Outcome Bool → List String → List String
granted_identity t (ok true) js = identity_of t.request ∷ js
granted_identity t _ js = js

pub grants : {S : Type 0} → Redis String S → S → List Turn → List String
grants R s [] = []
grants R s (t ∷ ts) = granted_identity t (turn R s t).0 (grants R (turn R s t).1.world.server ts)

key-injective : (a b : String) → key a ≡ key b → a ≡ b
key-injective a b h = append_cancel_left "throttle:action:" a b h

module _ {S : Type 0} (R : Redis String S) (who : String) (d m : ℕ) where
  abbrev Busy : Fact S
  Busy i s n = (n ≤ m) × (n < d) × Taken R who d s n

  abbrev Told : String → Bool → Fact S
  Told j b i s n = Busy i s n × (j ≡ who → b ≡ false)

  reserve-Busy :
      (j : String) (i n : ℕ) (s : S)
      → Busy i s n
      → let r = R.set_nx_ex (key j) "1" i n s in Told j r.0 i r.1 n
  reserve-Busy j i n s h = elim (Bool-cases (str_eq j who)) [
    | inl q ↦
        let e : j ≡ who = (eq_iff j who).0 q in
        rw (R.set_taken (key j) "1" i n s "1" (rw e (h.2 n (le_refl n) h.1))) (h, λ _. refl)
    | inr q ↦
        let ne : j ≢ who = λ e. false≢true (sym q ∙ (eq_iff j who).1 e) in
        (
          (
            h.0,
            h.1,
            λ t a b.
                R.set_other (key j) (key who) "1" i n t s (λ e. ne (sym (key-injective who j e))) a
                ∙ h.2 t a b,
          ),
          λ e. absurd (ne e),
        )
  ]

  cancel-Busy :
      (j : String) (i n : ℕ) (s : S) → j ≢ who → Busy i s n → Busy i (R.del (key j) n s).1 n
  cancel-Busy j i n s ne h = (
    h.0,
    h.1,
    λ t a b.
        R.del_other (key j) (key who) n t s (λ e. ne (sym (key-injective who j e))) a ∙ h.2 t a b,
  )

  act-Busy :
      (r : Request)
      → Spares who r
      → Ensures (About Busy) (act R r) (λ b. About (Told (identity_of r) b)) Never
  unfolding act
  act-Busy (reserves j) spares =
      Ensures-reserve R j Busy (Told j)
        (λ i n s h. let r = reserve-Busy j i n s h in ((h, λ _. refl), (r.0, λ _. refl), r))
  act-Busy (cancels j) spares =
      Ensures-bind (cancel R j) _
        (Ensures-cancel R j Busy (λ i n s h. cancel-Busy j i n s spares h))
        (λ _. record { at = λ p h. (h, λ _. refl) })

module _ {S : Type 0} (R : Redis String S) (who : String) (d : ℕ) where
  turn-Busy :
      (n : ℕ) (s : S) (t : Turn)
      → Taken R who d s n
      → Spares who t.request
      → n ≤ t.at
      → t.at < d
      → Taken R who d (turn R s t).1.world.server t.at
        × (identity_of t.request ≡ who → (turn R s t).0 ≡ ok false)
  unfolding turn
  turn-Busy n s t own spares le lt = told (turn R s t) (
      (act-Busy R who d t.at t.request spares).at _
        (le_refl t.at, lt, λ u a b. own u (omega arith) b))
    where
      told :
          (r : Outcome Bool × Process S)
          → Holds (λ b. About (Told R who d t.at (identity_of t.request) b)) Never r
          → Taken R who d r.1.world.server t.at × (identity_of t.request ≡ who → r.0 ≡ ok false)
      told (ok b, p) h = ((λ u a e. h.0.2 u (omega (arith, h.0.0)) e), λ e. ap ok (h.1 e))
      told (raised, p) h = absurd h

  not_granted :
      (t : Turn) (r : Outcome Bool) (js : List String)
      → (identity_of t.request ≡ who → r ≡ ok false)
      → All (λ j. j ≢ who) js
      → All (λ j. j ≢ who) (granted_identity t r js)
  not_granted t (ok true) js h later = ((λ e. cc (h e)), later)
  not_granted t (ok false) js h later = later
  not_granted t raised js h later = later

  run-Busy :
      (n : ℕ) (s : S) (ts : List Turn)
      → Taken R who d s n
      → Uncancelled who d n ts
      → All (λ j. j ≢ who) (grants R s ts)
  unfolding grants
  run-Busy n s [] own h = tt
  run-Busy n s (t ∷ ts) own h =
      let now = turn-Busy n s t own h.0 h.1 h.2 in
      not_granted t (turn R s t).0 _ now.1 (run-Busy t.at (turn R s t).1.world.server ts now.0 h.3)

module _ {S : Type 0} (R : Redis String S) (who : String) (p : Process S) where
  abbrev pub deadline : ℕ
  deadline = p.world.now + p.throttle.interval * 1000

  abbrev Start : Fact S
  Start i s n = (i ≡ p.throttle.interval) × (n ≡ p.world.now)

  abbrev Granted : Bool → Fact S
  Granted b i s n = b ≡ true → Taken R who deadline s p.world.now

  set_granted :
      (s : S)
      → let r = R.set_nx_ex (key who) "1" p.throttle.interval p.world.now s in
        r.0 ≡ true → Taken R who deadline r.1 p.world.now
  set_granted s = elim (Option-cases (R.get s p.world.now (key who))) [
    | inl e ↦ λ _ t a b. R.set_live (key who) "1" p.throttle.interval p.world.now t s e a b
    | inr (u, e) ↦ rw (R.set_taken (key who) "1" p.throttle.interval p.world.now s u e) (λ f. cc)
  ]

  reserve_granted :
      (reserve R who p).0 ≡ ok true
      → Taken R who deadline (reserve R who p).1.world.server p.world.now
  reserve_granted =
      read (reserve R who p) ((Ensures-reserve R who Start Granted step).at p (refl, refl))
    where
      step :
          (i n : ℕ) (s : S)
          → Start i s n
          → let r = R.set_nx_ex (key who) "1" i n s in
            Granted false i s n × Granted false i r.1 n × Granted r.0 i r.1 n
      step i n s (e, f) = rw (e, f) ((λ x. cc), (λ x. cc), set_granted s)

      read :
          (r : Outcome Bool × Process S)
          → Holds (λ b. About (Granted b)) Never r
          → r.0 ≡ ok true
          → Taken R who deadline r.1.world.server p.world.now
      read (ok b, q) h e = h (cc)
      read (raised, q) h e = absurd h

  -- After a granted reservation no process is granted the same person within the interval, whatever
  -- becomes of its calls, as long as nobody cancels the reservation.
  pub reserve_once :
      (ts : List Turn)
      → (reserve R who p).0 ≡ ok true
      → Uncancelled who deadline p.world.now ts
      → All (λ j. j ≢ who) (grants R (reserve R who p).1.world.server ts)
  reserve_once ts granted h =
      run-Busy R who deadline p.world.now (reserve R who p).1.world.server ts
        (reserve_granted granted) h
