-- ===== src/Records/Linear.antt =====
-- Interleaved calls of `record_attendance`, against a check that is atomic.
use lum_model_face_recogniti.Base.{
  ℕ, ◌==◌, ◌≡◌, ◌≢◌, ◌&&◌, not, Bool, true, false, some, List, [], ◌∷◌, ◌++◌, if◌then◌else◌, String,
  str_eq, ==_iff, Bool-cases, Option-cases, inl, inr, arith, refl, ap, sym, ◌∙◌, subst,
}
use lum_model_face_recogniti.Records.{
  Database, Call, Phase, waiting, locked, checked, finished, failed, recorded, suppressed, undone,
  Event, head, is_status, row_of, record_step, System, turn, run, idle,
}

-- The specification: one user's history, the newest status first, and what an observation does to it.
abbrev pub is_transition : String → List String → Bool
is_transition status history = not (is_status status (head history))

abbrev pub observe : String → List String → List String
observe status history = if is_transition status history then status ∷ history else history

abbrev pub after : Event → List String → List String
after e history = elim e.answer [
  | undone ↦ history
  | recorded ↦ observe e.status history
  | suppressed ↦ observe e.status history
]

abbrev pub agrees : Event → List String → Bool
agrees e history = elim e.answer [
  | undone ↦ true
  | recorded ↦ is_transition e.status history
  | suppressed ↦ not (is_transition e.status history)
]

-- The events of user `u`, one after the other.
abbrev pub replay : ℕ → List Event → List String → List String
replay u [] history = history
replay u (e ∷ es) history = replay u es (if e.user_id == u then after e history else history)

-- Each answer is the one that the specification gives at that point.
abbrev pub answers_agree : ℕ → List Event → List String → Bool
answers_agree u [] history = true
answers_agree u (e ∷ es) history =
    (if e.user_id == u then agrees e history else true)
    && answers_agree u es (if e.user_id == u then after e history else history)

replay-append :
    (u : ℕ) (es fs : List Event) (h : List String)
    → replay u (es ++ fs) h ≡ replay u fs (replay u es h)
replay-append u [] fs h = refl
replay-append u (e ∷ es) fs h = replay-append u es fs _

answers_agree-append :
    (u : ℕ) (es fs : List Event) (h : List String)
    → answers_agree u es h ≡ true
    → answers_agree u fs (replay u es h) ≡ true
    → answers_agree u (es ++ fs) h ≡ true
answers_agree-append u [] fs h p q = q
answers_agree-append u (e ∷ es) fs h p q =
    ground (arith, answers_agree-append u es fs (if e.user_id == u then after e h else h))

module _ {S : Type 0} (D : Database S) (lower : String → String) (calls : ℕ → Call)
    (users_known : (i : ℕ) → D.known (calls i).user_id ≡ true) where
  -- A call between its statements holds the user's row, and what it has read is still so.
  abbrev Owns : ℕ → Phase → S → Type 0
  Owns i waiting s = Unit
  Owns i locked s = D.holder s (calls i).user_id ≡ some i
  Owns i (checked prior) s =
      (D.holder s (calls i).user_id ≡ some i) × (prior ≡ head (D.records s (calls i).user_id))
  Owns i (finished k) s = Unit
  Owns i failed s = Unit

  pub record IsOrderly (y : System D lower) : Type 0 where
    pub owns : (i : ℕ) → Owns i (y.phase i) y.db

  -- What a step does to the calls of others.
  abbrev Leaves : ℕ → S → S → Type 0
  Leaves i s s' =
      (j : ℕ)
      → (j == i) ≡ false
      → D.holder s (calls j).user_id ≡ some j
      → (D.holder s' (calls j).user_id ≡ some j)
        × (D.records s' (calls j).user_id ≡ D.records s (calls j).user_id)

  Owns-Leaves :
      (i j : ℕ) (p : Phase) (s s' : S) → (j == i) ≡ false → Leaves i s s' → Owns j p s → Owns j p s'
  Owns-Leaves i j waiting s s' ne l o = tt
  Owns-Leaves i j locked s s' ne l o = (l j ne o).0
  Owns-Leaves i j (checked prior) s s' ne l o = ((l j ne o.0).0, o.1 ∙ ap head (sym (l j ne o.0).1))
  Owns-Leaves i j (finished k) s s' ne l o = tt
  Owns-Leaves i j failed s s' ne l o = tt

  lock-Leaves : (i : ℕ) (s s' : S) → D.lock i (calls i).user_id s ≡ some s' → Leaves i s s'
  lock-Leaves i s s' e j ne o = elim (Bool-cases ((calls j).user_id == (calls i).user_id)) [
    | inl q ↦
        let free = D.lock_free i (calls i).user_id s s' (users_known i) e in
        let eq = (==_iff (calls j).user_id (calls i).user_id).0 q in cc
    | inr q ↦ (
      D.lock_other i (calls i).user_id (calls j).user_id s s' e (ground arith) ∙ o,
      D.lock_records i (calls i).user_id (calls j).user_id s s' e,
    )
  ]

  insert-Leaves :
      (i : ℕ) (s : S)
      → D.holder s (calls i).user_id ≡ some i
      → Leaves i s (D.insert i (row_of D lower (calls i)) s).1
  insert-Leaves i s h j ne o =
      let r = row_of D lower (calls i) in
      let other : j ≢ i = λ e. ground (arith, (==_iff j i).1 e) in
      (
        D.insert_holder i j (calls j).user_id r s o other,
        D.insert_other i (calls j).user_id r s λ e. other (cc),
      )

  -- The step of one call: what it answers, and what becomes of each user's history.
  abbrev Result : ℕ → ℕ → S → List Event × (Phase × S) → Type 0
  Result i u s r =
      (D.records r.1.1 u ≡ replay u r.0 (D.records s u))
      × (answers_agree u r.0 (D.records s u) ≡ true)
      × Owns i r.1.0 r.1.1

  step_lem :
      (i u : ℕ) (p : Phase) (s : S)
      → Owns i p s
      → Result i u s (record_step D lower i (calls i) p s)
  unfolding record_step
  step_lem i u waiting s o = elim (Option-cases (D.lock i (calls i).user_id s)) [
    | inl e ↦ rw (e, record_step) (refl, refl, tt)
    | inr (s', e) ↦
        rw (e, record_step)
          (
            D.lock_records i (calls i).user_id u s s' e,
            refl,
            D.lock_held i (calls i).user_id s s' (users_known i) e,
          )
  ]
  step_lem i u locked s o = (refl, refl, (o, refl))
  step_lem i u (checked prior) s o =
      let r = row_of D lower (calls i) in
      elim (Bool-cases (is_status r.status prior)) [
        | inl q ↦ rw q (ground (arith, o.1, D.rollback_records i u s))
        | inr q ↦ elim (Option-cases (D.insert i r s).0) [
          | inl e ↦ rw (q, e) (ground (arith, D.insert_undone i u r s e))
          | inr (k, e) ↦
              rw (q, e) (ground (arith, o.1, D.insert_row i k r s o.0 e, D.insert_other i u r s))
        ]
      ]
  step_lem i u (finished k) s o = (refl, refl, tt)
  step_lem i u failed s o = (refl, refl, tt)

  step-Leaves :
      (i : ℕ) (p : Phase) (s : S)
      → Owns i p s
      → Leaves i s (record_step D lower i (calls i) p s).1.1
  unfolding record_step
  step-Leaves i waiting s o j ne h = elim (Option-cases (D.lock i (calls i).user_id s)) [
    | inl e ↦ rw (e, record_step) (h, refl)
    | inr (s', e) ↦ rw (e, record_step) (lock-Leaves i s s' e j ne h)
  ]
  step-Leaves i locked s o j ne h = (h, refl)
  step-Leaves i (checked prior) s o j ne h =
      let other : j ≢ i = λ e. ground (arith, (==_iff j i).1 e) in
      ground (
        arith,
        insert-Leaves i s o.0 j ne h,
        D.rollback_records i (calls j).user_id s,
        D.rollback_other i j (calls j).user_id s h other,
      )
  step-Leaves i (finished k) s o j ne h = (h, refl)
  step-Leaves i failed s o j ne h = (h, refl)

  turn-IsOrderly : (i : ℕ) (y : System D lower) → IsOrderly y → IsOrderly (turn D lower calls i y).1
  unfolding turn
  turn-IsOrderly i y v = record {
    owns = λ j.
        let r = record_step D lower i (calls i) (y.phase i) y.db in
        elim (Bool-cases (j == i)) [
          | inl q ↦
              subst (λ k. Owns k (if k == i then r.1.0 else y.phase k) r.1.1)
                (sym ((==_iff j i).0 q))
                (rw ((==_iff i i).1 refl) (step_lem i 0 (y.phase i) y.db (v.owns i)).2)
          | inr q ↦ rw q (
              Owns-Leaves i j (y.phase j) y.db r.1.1 q (step-Leaves i (y.phase i) y.db (v.owns i))
                (v.owns j))
        ];
  }

  turn_lem :
      (i u : ℕ) (y : System D lower)
      → IsOrderly y
      → let r = turn D lower calls i y in
        (D.records r.1.db u ≡ replay u r.0 (D.records y.db u))
        × (answers_agree u r.0 (D.records y.db u) ≡ true)
  unfolding turn
  turn_lem i u y v = let r = step_lem i u (y.phase i) y.db (v.owns i) in (r.0, r.1)

  run_lem :
      (schedule : List ℕ) (u : ℕ) (y : System D lower)
      → IsOrderly y
      → let r = run D lower calls schedule y in
        (D.records r.1.db u ≡ replay u r.0 (D.records y.db u))
        × (answers_agree u r.0 (D.records y.db u) ≡ true)
  run_lem [] u y v = (refl, refl)
  run_lem (i ∷ schedule) u y v =
      let t = turn D lower calls i y in
      let here = turn_lem i u y v in
      let rest = run_lem schedule u t.1 (turn-IsOrderly i y v) in
      (
        rest.0
            ∙ ap (replay u (run D lower calls schedule t.1).0) here.0
            ∙ sym (replay-append u t.0 (run D lower calls schedule t.1).0 (D.records y.db u)),
        answers_agree-append u t.0 (run D lower calls schedule t.1).0 (D.records y.db u) here.1
            (rw (← here.0) rest.1),
      )

  idle-IsOrderly : (s : S) → IsOrderly (idle D lower s)
  idle-IsOrderly s = record { owns = λ i. tt }

  -- Every interleaving of calls is equivalent to the calls that ended, run one after the other in the
  -- order in which they ended: each user's rows are those that the specification makes of the calls'
  -- observations in that order, and each call that was answered was told what the specification tells.
  -- The calls are for users that the database knows; a call whose insert did not land has no effect.
  pub run-Linear :
      (schedule : List ℕ) (u : ℕ) (s : S)
      → let r = run D lower calls schedule (idle D lower s) in
        (D.records r.1.db u ≡ replay u r.0 (D.records s u))
        × (answers_agree u r.0 (D.records s u) ≡ true)
  run-Linear schedule u s = run_lem schedule u (idle D lower s) (idle-IsOrderly s)

abbrev pub alternates : List String → Bool
alternates [] = true
alternates (x ∷ []) = true
alternates (x ∷ y ∷ ys) = not (str_eq y x) && alternates (y ∷ ys)
