-- ===== src/Lease/Outcomes.antt =====
-- What the answers of one manager mean: a granted claim, the three answers of a renewal, a release.
use lum_model_face_recogniti.Base.{
  ℕ, ◌+◌, ◌*◌, ◌≤◌, ◌<◌, String, ◌≡◌, ◌≢◌, Bool, true, false, Option, none, some, refl, arith,
  str_eq, eq_iff, ◌∙◌, inl, inr, Bool-cases, Option-cases, sym, subst, ap,
}
use lum_model_face_recogniti.Exec.{Outcome, ok, raised, Holds}
use lum_model_face_recogniti.Redis.{Redis}
use lum_model_face_recogniti.Lease.{Process, Key, key, renew_script, claim, renew_status}
use lum_model_face_recogniti.Lease.Calls.{Fact, About, Never, Ensures-claim, Ensures-renew_status}
use lum_model_face_recogniti.Lease.Exclusive.{Owned, renew_script_foreign}
use mathlib.Core.Bool.{false≢true}

module _ {S : Type 0} (p : Process S) where
  -- The identity, the settings and the time are those of `p`.
  abbrev Settings : String → String → ℕ → ℕ → Type 0
  Settings w pre ttl n =
      (w ≡ p.lease.worker_id) × (pre ≡ p.lease.key_prefix) × (ttl ≡ p.lease.ttl) × (n ≡ p.world.now)

  abbrev settled : Settings p.lease.worker_id p.lease.key_prefix p.lease.ttl p.world.now
  settled = (refl, refl, refl, refl)

  Settings-elim :
      (T : String → String → ℕ → ℕ → Type 0) {w pre : String} {ttl n : ℕ}
      → Settings w pre ttl n
      → T p.lease.worker_id p.lease.key_prefix p.lease.ttl p.world.now
      → T w pre ttl n
  Settings-elim T {w} {pre} {ttl} {n} (a, b, c, e) h =
      subst (λ x. T x pre ttl n) (sym a)
        (subst (λ x. T p.lease.worker_id x ttl n) (sym b)
          (subst (λ x. T p.lease.worker_id p.lease.key_prefix x n) (sym c)
            (subst (T p.lease.worker_id p.lease.key_prefix p.lease.ttl) (sym e) h)))

module _ {S : Type 0} (R : Redis Key S) (c : ℕ) (p : Process S) where
  abbrev mine : Key
  mine = key p.lease c

  -- The other keys read as they did before.
  abbrev pub Apart : S → Type 0
  Apart s = (j : Key) (t : ℕ) → j ≢ mine → p.world.now ≤ t → R.get s t j ≡ R.get p.world.server t j

  abbrev pub deadline : ℕ
  deadline = p.world.now + p.lease.ttl * 1000

  abbrev Granted : Bool → Fact S
  Granted b w pre ttl s n =
      Apart s
      × (b ≡ true
          → (R.get p.world.server p.world.now mine ≡ none)
            × Owned R mine p.lease.worker_id deadline s p.world.now)

  set_granted :
      let r = R.set_nx_ex mine p.lease.worker_id p.lease.ttl p.world.now p.world.server in
      About (Granted r.0) (record p { world = record p.world { server = r.1 } })
  set_granted = elim (Option-cases (R.get p.world.server p.world.now mine)) [
    | inl e ↦ (
      (λ j t ne a.
          R.set_other mine j p.lease.worker_id p.lease.ttl p.world.now t p.world.server ne a),
      λ _. (
        e,
        λ t a b. R.set_live mine p.lease.worker_id p.lease.ttl p.world.now t p.world.server e a b,
      ),
    )
    | inr (u, e) ↦
        rw (R.set_taken mine p.lease.worker_id p.lease.ttl p.world.now p.world.server u e)
          ((λ j t ne a. refl), λ f. cc)
  ]

  -- A claim never raises. It reads and writes no other key, and `True` means that the camera was
  -- free and is this worker's for the whole lifetime of the lease.
  pub claim_lem :
      (b : Bool) × ((claim R c p).0 ≡ ok b)
      × Apart (claim R c p).1.world.server
      × (b ≡ true
          → (R.get p.world.server p.world.now mine ≡ none)
            × Owned R mine p.lease.worker_id deadline (claim R c p).1.world.server p.world.now)
  claim_lem = read (claim R c p) ((Ensures-claim R c Start Granted step).at p (settled p, refl))
    where
      Start : Fact S
      Start w pre ttl s n = Settings p w pre ttl n × (s ≡ p.world.server)

      step :
          (w pre : String) (ttl n : ℕ) (s : S)
          → Start w pre ttl s n
          → let r = R.set_nx_ex (record { prefix = pre; camera_id = c }) w ttl n s in
            Granted false w pre ttl s n
            × Granted false w pre ttl r.1 n
            × Granted r.0 w pre ttl r.1 n
      step w pre ttl n s h =
          Settings-elim p
            (λ w pre ttl n.
              let r = R.set_nx_ex (record { prefix = pre; camera_id = c }) w ttl n s in
              Granted false w pre ttl s n
              × Granted false w pre ttl r.1 n
              × Granted r.0 w pre ttl r.1 n)
            h.0 (rw h.1 (((λ j t ne a. refl), λ f. cc), (set_granted.0, λ f. cc), set_granted))

      read :
          (r : Outcome Bool × Process S)
          → Holds (λ b. About (Granted b)) Never r
          → (b : Bool) × (r.0 ≡ ok b)
            × Apart r.1.world.server
            × (b ≡ true
                → (R.get p.world.server p.world.now mine ≡ none)
                  × Owned R mine p.lease.worker_id deadline r.1.world.server p.world.now)
      read (ok b, q) h = (b, refl, h.0, h.1)
      read (raised, q) h = absurd h

-- The three answers of a renewal. A lease lives at least a second, which `init` sees to.
module _ {S : Type 0} (R : Redis Key S) (c : ℕ) (p : Process S) (live : 0 < p.lease.ttl) where
  abbrev own : Key
  own = key p.lease c

  -- The server as it was, or with this worker's key renewed.
  abbrev Renewable : S → Type 0
  Renewable s = Apart R c p s × (R.get s p.world.now own ≡ R.get p.world.server p.world.now own)

  abbrev Renewed : Bool → S → Type 0
  Renewed b s =
      Apart R c p s
      × (b ≡ true
          → (R.get p.world.server p.world.now own ≡ some p.lease.worker_id)
            × Owned R own p.lease.worker_id (deadline R c p) s p.world.now)
      × (b ≡ false → R.get p.world.server p.world.now own ≢ some p.lease.worker_id)

  abbrev script_at : S → Bool × S
  script_at s = renew_script R own p.lease.worker_id p.lease.ttl p.world.now s

  script_absent : (s : S) → R.get s p.world.now own ≡ none → script_at s ≡ (false, s)
  unfolding renew_script
  script_absent s e = ground arith

  script_ours :
      (s : S)
      → R.get s p.world.now own ≡ some p.lease.worker_id
      → script_at s ≡ R.expire own p.lease.ttl p.world.now s
  unfolding renew_script
  script_ours s e = ground (arith, eq_iff p.lease.worker_id p.lease.worker_id)

  lost :
      (s : S)
      → Renewable s
      → R.get s p.world.now own ≢ some p.lease.worker_id
      → Renewable s × Renewed false s
  lost s h ne = (h, (h.0, (λ f. cc), λ _ f. ne (h.1 ∙ f)))

  renew_script_lem :
      (s : S) → Renewable s → Renewable (script_at s).1 × Renewed (script_at s).0 (script_at s).1
  renew_script_lem s h = elim (Option-cases (R.get s p.world.now own)) [
    | inl e ↦ rw (script_absent s e) (lost s h (λ f. cc))
    | inr (v, e) ↦ elim (Bool-cases (str_eq p.lease.worker_id v)) [
      | inl q ↦
          let w : p.lease.worker_id ≡ v = (eq_iff p.lease.worker_id v).0 q in
          let g : R.get s p.world.now own ≡ some p.lease.worker_id = e ∙ ap some (sym w) in
          rw (script_ours s g) (ours s h g)
      | inr q ↦
          let ne : p.lease.worker_id ≢ v =
            λ f. false≢true (sym q ∙ (eq_iff p.lease.worker_id v).1 f) in
          rw (renew_script_foreign R own p.lease.worker_id v p.world.now s e ne p.lease.ttl)
            (lost s h (λ f. ne (cc)))
    ]
  ]
    where
      ours :
          (s : S)
          → Renewable s
          → R.get s p.world.now own ≡ some p.lease.worker_id
          → let r = R.expire own p.lease.ttl p.world.now s in Renewable r.1 × Renewed r.0 r.1
      ours s h g =
          let apart : Apart R c p (R.expire own p.lease.ttl p.world.now s).1 =
            λ j t ne a. R.expire_other own j p.lease.ttl p.world.now t s ne a ∙ h.0 j t ne a in
          let owned : Owned R own p.lease.worker_id (deadline R c p)
              (R.expire own p.lease.ttl p.world.now s).1 p.world.now =
            λ t a b. R.expire_live own p.lease.ttl p.world.now t s p.lease.worker_id g a b in
          (
            (apart, owned p.world.now (omega arith) (omega arith) ∙ sym g ∙ h.1),
            (
              apart,
              (λ _. (sym h.1 ∙ g, owned)),
              λ f. cc (R.expire_reply own p.lease.ttl p.world.now s p.lease.worker_id g),
            ),
          )

  abbrev pub Answer : Option Bool → S → Type 0
  Answer none s = Apart R c p s
  Answer (some b) s = Renewed b s

  -- A renewal never raises. `True`: the camera was this worker's, and is for a whole lifetime from
  -- now. `False`: the server answered that it was not. In every case no other key is touched.
  pub renew_status_lem :
      (o : Option Bool) × ((renew_status R c p).0 ≡ ok o)
      × Answer o (renew_status R c p).1.world.server
  renew_status_lem =
      read (renew_status R c p)
        ((Ensures-renew_status R c Again Told step).at p (settled p, ((λ j t ne a. refl), refl)))
    where
      Again : Fact S
      Again w pre ttl s n = Settings p w pre ttl n × Renewable s

      Told : Bool → Fact S
      Told b w pre ttl s n = Renewed b s

      step :
          (w pre : String) (ttl n : ℕ) (s : S)
          → Again w pre ttl s n
          → let r = renew_script R (record { prefix = pre; camera_id = c }) w ttl n s in
            Again w pre ttl r.1 n × Renewed r.0 r.1
      step w pre ttl n s h =
          Settings-elim p
            (λ w pre ttl n.
              let r = renew_script R (record { prefix = pre; camera_id = c }) w ttl n s in
              Again w pre ttl r.1 n × Renewed r.0 r.1)
            h.0 (let r = renew_script_lem s h.1 in ((settled p, r.0), r.1))

      read :
          (r : Outcome (Option Bool) × Process S)
          → Holds (elim [ none ↦ About Again | some b ↦ About (Told b) ]) Never r
          → (o : Option Bool) × (r.0 ≡ ok o) × Answer o r.1.world.server
      read (ok none, q) h = (none, refl, h.1.0)
      read (ok (some b), q) h = (some b, refl, h)
      read (raised, q) h = absurd h
