-- ===== src/CameraWorker/Capacity.antt =====
-- What a reconcile pass holds at most, and that it holds nothing but eligible cameras.
use lum_model_face_recogniti.Base.{
  ℕ, suc, ◌+◌, ◌≤◌, ◌≡◌, true, false, Option, List, [], ◌∷◌, max, length, if◌then◌else◌, ◌≢◌, ◌||◌,
  not, ◌==◌, arith, refl, inl, inr, Bool-cases, ap, sym, ◌∙◌,
}
use lum_model_face_recogniti.CameraWorker.Sets.{
  mem, filter, discard_all, insert, sort, pop, set_default, mem-filter, filter-mem,
  length-filter-le, length-add-le,
}
use lum_model_face_recogniti.CameraWorker.{
  Leases, Registry, Worker, State, release, release_each, scan, adopt, claim_loop,
}
use lum_model_face_recogniti.CameraWorker.Pass.{
  present, fair_share, stale, warn, survey, claim_share, reconcile,
}

module _ {E : Type 0} (L : Leases E) (G : Registry E) where
  -- `adopt` gains at most one camera, and none if it fails.
  held-adopt :
      (c : ℕ) (w : Worker) (e : E)
      → let r = adopt L G c (w, e) in
        (r.1.0.capacity ≡ w.capacity)
        × (length r.1.0.held ≤ (if r.0 then suc (length w.held) else length w.held))
  unfolding adopt
  held-adopt c w e = ground (arith, length-add-le c w.held)

  claim_loop-le-capacity :
      (fair : ℕ) (unowned overdue ids : List ℕ) (count : ℕ) (w : Worker) (e : E)
      → length w.held ≤ count
      → count ≤ w.capacity
      → length (claim_loop L G fair unowned overdue ids count (w, e)).0.held ≤ w.capacity
  unfolding claim_loop
  claim_loop-le-capacity fair unowned overdue [] count w e h k = omega arith
  claim_loop-le-capacity fair unowned overdue (c ∷ cs) count w e h k =
      let (won, e') = L.claim c e in
      let a = held-adopt c w e' in
      let (adopted, s') = adopt L G c (w, e') in
      ground (
        arith,
        claim_loop-le-capacity fair unowned overdue cs count w e h k,
        claim_loop-le-capacity fair unowned overdue cs count w e' h k,
        claim_loop-le-capacity fair unowned overdue cs (if adopted then suc count else count) s'.0
            s'.1,
        a,
      )

  -- Past the fair share only overdue cameras are taken.
  claim_loop-le-share :
      (fair : ℕ) (unowned overdue ids : List ℕ) (count : ℕ) (w : Worker) (e : E)
      → length w.held ≤ count
      → length (claim_loop L G fair unowned overdue ids count (w, e)).0.held
        ≤ max fair count + length (filter (λ c. mem c overdue) ids)
  unfolding claim_loop
  claim_loop-le-share fair unowned overdue [] count w e h = omega arith
  claim_loop-le-share fair unowned overdue (c ∷ cs) count w e h =
      let (won, e') = L.claim c e in
      let a = held-adopt c w e' in
      let (adopted, s') = adopt L G c (w, e') in
      ground (
        arith,
        claim_loop-le-share fair unowned overdue cs count w e h,
        claim_loop-le-share fair unowned overdue cs count w e' h,
        claim_loop-le-share fair unowned overdue cs (if adopted then suc count else count) s'.0
            s'.1,
        a,
      )

  mem-adopt :
      (a c : ℕ) (w : Worker) (e : E)
      → mem a (adopt L G c (w, e)).1.0.held ≡ true
      → a ≢ c
      → mem a w.held ≡ true
  unfolding adopt
  mem-adopt a c w e h ne = ground arith

  -- Only cameras of the list are taken.
  mem-claim_loop :
      (fair : ℕ) (unowned overdue ids : List ℕ) (count a : ℕ) (w : Worker) (e : E)
      → mem a ids ≡ false
      → mem a (claim_loop L G fair unowned overdue ids count (w, e)).0.held ≡ true
      → mem a w.held ≡ true
  unfolding claim_loop
  mem-claim_loop fair unowned overdue [] count a w e n h = h
  mem-claim_loop fair unowned overdue (c ∷ cs) count a w e n h =
      let (won, e') = L.claim c e in
      let (adopted, s') = adopt L G c (w, e') in
      ground (
        arith,
        mem-claim_loop fair unowned overdue cs count a w e,
        mem-claim_loop fair unowned overdue cs count a w e',
        mem-claim_loop fair unowned overdue cs (if adopted then suc count else count) a s'.0 s'.1,
        mem-adopt a c w e',
      )

  mem-release_each :
      (cs : List ℕ) (a : ℕ) (w : Worker) (e : E)
      → mem a (release_each L G cs (w, e)).0.held ≡ true
      → (mem a w.held ≡ true) × (mem a cs ≡ false)
  unfolding release_each release
  mem-release_each [] a w e h = (h, refl)
  mem-release_each (c ∷ cs) a w e h =
      let ih = mem-release_each cs a (release L G c (w, e)).0 (release L G c (w, e)).1 h in
      let m = mem-filter (λ x. not (x == c)) a w.held ih.0 in (m.0, ground (arith, m.1, ih.1))

  held-release_each :
      (cs : List ℕ) (w : Worker) (e : E)
      → let w' = (release_each L G cs (w, e)).0 in
        (w'.capacity ≡ w.capacity) × (w'.replicas ≡ w.replicas) × (length w'.held ≤ length w.held)
  unfolding release_each release
  held-release_each [] w e = (refl, refl, omega arith)
  held-release_each (c ∷ cs) w e =
      let r = release L G c (w, e) in
      omega (arith, held-release_each cs r.0 r.1, length-filter-le (λ x. not (x == c)) w.held)

  held-scan :
      (now : ℕ) (ids : List ℕ) (w : Worker) (e : E)
      → let w' = (scan L G now ids (w, e)).1.0 in
        (w'.capacity ≡ w.capacity) × (w'.replicas ≡ w.replicas) × (w'.held ≡ w.held)
  unfolding scan
  held-scan now [] w e = (refl, refl, refl)
  held-scan now (c ∷ cs) w e =
      let (claimed, e') = L.is_claimed c e in
      let forget : Worker = record w { unowned_since = pop c w.unowned_since } in
      let note : Worker = record w { unowned_since = set_default c now w.unowned_since } in
      ground
        (arith, held-scan now cs forget e, held-scan now cs forget e', held-scan now cs note e')

  -- After the survey the worker holds eligible cameras only.
  mem-survey :
      (now : ℕ) (ids : List ℕ) (a : ℕ) (w : Worker) (e : E)
      → mem a (survey L G now ids (w, e)).1.0.held ≡ true
      → mem a ids ≡ true
  unfolding survey
  mem-survey now ids a w e h = elim (Bool-cases (mem a ids)) [
    | inl q ↦ q
    | inr q ↦
        let gone = discard_all ids w.held in
        let r = release_each L G gone (w, e) in
        let m = mem-release_each gone a w e (rw ((held-scan now ids r.0 r.1).2) at h) in
        cc (m.1, filter-mem (λ x. not (mem x ids)) a w.held m.0 (rw q refl))
  ]

  held-survey :
      (now : ℕ) (ids : List ℕ) (w : Worker) (e : E)
      → let w' = (survey L G now ids (w, e)).1.0 in
        (w'.capacity ≡ w.capacity) × (w'.replicas ≡ w.replicas) × (length w'.held ≤ length w.held)
  unfolding survey
  held-survey now ids w e =
      let gone = discard_all ids w.held in
      let r = release_each L G gone (w, e) in
      let s = held-scan now ids r.0 r.1 in
      let t = held-release_each gone w e in (s.0 ∙ t.0, s.1 ∙ t.1, rw s.2 t.2)

mem-insert : (a x : ℕ) (xs : List ℕ) → mem a (insert x xs) ≡ (a == x || mem a xs)
mem-insert a x [] = refl
mem-insert a x (y ∷ ys) = ground (arith, mem-insert a x ys)

mem-sort : (a : ℕ) (xs : List ℕ) → mem a (sort xs) ≡ mem a xs
mem-sort a [] = refl
mem-sort a (x ∷ xs) = mem-insert a x (sort xs) ∙ ap (λ b. a == x || b) (mem-sort a xs)

held-warn : (now : ℕ) (overdue : List ℕ) (w : Worker) → (warn now overdue w).held ≡ w.held
held-warn now overdue w = ground arith

module _ {E : Type 0} (L : Leases E) (G : Registry E) (eligible : List (Option ℕ)) (now : ℕ)
    (w : Worker) (e : E) where
  abbrev pub ids : List ℕ
  ids = sort (present eligible)

  abbrev pub surveyed : List ℕ × State L G
  surveyed = survey L G now ids (w, e)

  abbrev pub after : Worker
  after = (reconcile L G eligible now (w, e)).0

  held-after : after.held ≡ (claim_share L G now ids surveyed.0 surveyed.1).0.held
  unfolding reconcile
  held-after =
      held-warn now (stale now surveyed.1.0 surveyed.0)
        (claim_share L G now ids surveyed.0 surveyed.1).0

  -- A pass never holds more cameras than the capacity, whatever the lease server and Celery answer.
  pub reconcile-le-capacity : length w.held ≤ w.capacity → length after.held ≤ w.capacity
  unfolding claim_share
  reconcile-le-capacity h =
      let s = held-survey L G now ids w e in
      let c =
        claim_loop-le-capacity L G (fair_share surveyed.1.0.replicas ids) surveyed.0
          (stale now surveyed.1.0 surveyed.0) ids (length surveyed.1.0.held) surveyed.1.0
          surveyed.1.1 (omega arith) (omega (arith, s)) in
      omega (arith, c, s, ap length held-after)

  -- After a pass the worker holds at most its fair share or what it held already, whichever is more, and
  -- as many more as there are cameras that nobody has held for the grace period.
  pub reconcile-le-share :
      length after.held
      ≤ max (fair_share w.replicas ids) (length w.held)
        + length (filter (λ c. mem c (stale now surveyed.1.0 surveyed.0)) ids)
  unfolding claim_share
  reconcile-le-share =
      let s = held-survey L G now ids w e in
      let c =
        claim_loop-le-share L G (fair_share surveyed.1.0.replicas ids) surveyed.0
          (stale now surveyed.1.0 surveyed.0) ids (length surveyed.1.0.held) surveyed.1.0
          surveyed.1.1 (omega arith) in
      let f : fair_share surveyed.1.0.replicas ids ≡ fair_share w.replicas ids =
        ap (λ r. fair_share r ids) s.1 in
      omega (arith, c, s.2, f, ap length held-after)

  -- After a pass the worker holds only cameras that were eligible in it.
  pub reconcile-eligible : (a : ℕ) → mem a after.held ≡ true → mem a (present eligible) ≡ true
  unfolding claim_share
  reconcile-eligible a h = elim (Bool-cases (mem a ids)) [
    | inl q ↦ sym (mem-sort a (present eligible)) ∙ q
    | inr q ↦
        let c =
          mem-claim_loop L G (fair_share surveyed.1.0.replicas ids) surveyed.0
            (stale now surveyed.1.0 surveyed.0) ids (length surveyed.1.0.held) a surveyed.1.0
            surveyed.1.1 q (rw held-after at h) in
        sym (mem-sort a (present eligible)) ∙ mem-survey L G now ids a w e c
  ]
