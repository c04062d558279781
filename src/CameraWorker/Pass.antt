-- ===== src/CameraWorker/Pass.antt =====
-- The passes of a worker: `_reconcile_locked` and `renew_once`.
use lum_model_face_recogniti.Base.{
  ℕ, suc, ◌-◌, Bool, true, false, Option, none, some, List, [], ◌∷◌, max, leb, length,
  if◌then◌else◌, ◌&&◌, not,
}
use lum_model_face_recogniti.CameraWorker.Sets.{filter, discard_all, sort, get, keep_keys}
use lum_model_face_recogniti.CameraWorker.{
  Leases, Registry, Worker, State, renew_max_transient_fails, ceil_div, release, release_each, scan,
  claim_loop,
}

abbrev pub present : List (Option ℕ) → List ℕ
present [] = []
present (none ∷ cs) = present cs
present (some c ∷ cs) = c ∷ present cs

abbrev pub fair_share : ℕ → List ℕ → ℕ
fair_share replicas ids = max 1 (ceil_div (length ids) replicas)

abbrev pub stale : ℕ → Worker → List ℕ → List ℕ
stale now w unowned = filter (λ c. leb w.failover_grace (now - get c now w.unowned_since)) unowned

abbrev pub is_empty : List ℕ → Bool
is_empty [] = true
is_empty (c ∷ cs) = false

-- Step 4: the warning is only logged, and its time is kept.
abbrev pub warn : ℕ → List ℕ → Worker → Worker
warn now overdue w =
    if not (is_empty (discard_all w.held overdue))
      && leb w.warn_interval (now - w.last_unclaimed_warn)
    then record w { last_unclaimed_warn = now }
    else w

module _ {E : Type 0} (L : Leases E) (G : Registry E) where
  -- Steps 1 and 2: the cameras that are owned by nobody, and the state that is left.
  unfoldable pub survey : ℕ → List ℕ → State L G → List ℕ × State L G
  survey now ids (w, e) =
      let (unowned, (w', e')) =
        scan L G now ids (release_each L G (discard_all ids w.held) (w, e)) in
      (unowned, (record w' { unowned_since = keep_keys ids w'.unowned_since }, e'))

  -- Step 3.
  unfoldable pub claim_share : ℕ → List ℕ → List ℕ → State L G → State L G
  claim_share now ids unowned (w, e) =
      claim_loop L G (fair_share w.replicas ids) unowned (stale now w unowned) ids (length w.held)
        (w, e)

  -- `_reconcile_locked`, with the cameras that `load_eligible` returned.
  unfoldable pub reconcile : List (Option ℕ) → ℕ → State L G → State L G
  reconcile eligible now s =
      let ids = sort (present eligible) in
      let (unowned, s') = survey now ids s in
      let overdue = stale now s'.0 unowned in
      let (w, e) = claim_share now ids unowned s' in (warn now overdue w, e)

  -- One turn of `_reconcile_loop`: where `load_eligible` raises, the worker stays as it is.
  unfoldable pub reconcile_turn : Option (List (Option ℕ)) → ℕ → State L G → State L G
  unfolding reconcile
  reconcile_turn none now s = s
  reconcile_turn (some eligible) now s = reconcile eligible now s

  -- The loop of `renew_once`; the answer says whether some renewal failed without an answer.
  unfoldable pub renew_each : List ℕ → State L G → Bool × State L G
  renew_each [] s = (false, s)
  renew_each (c ∷ cs) (w, e) =
      let (status, e') = L.renew_status c e in
      let kept = renew_each cs (w, e') in
      let dropped = renew_each cs (release L G c (w, e')) in
      elim status [ none ↦ (true, kept.1) | some held ↦ if held then kept else dropped ]

  -- What the number of failed passes leads to: `os._exit(1)` from the second in a row.
  abbrev pub count_fails : Bool → Worker → Worker
  count_fails false w = record w { transient_renew_fails = 0 }
  count_fails true w = record w {
    transient_renew_fails = suc w.transient_renew_fails;
    exited = leb renew_max_transient_fails (suc w.transient_renew_fails);
  }

  unfoldable pub renew_once : State L G → State L G
  renew_once (w, e) =
      let (transient, (w', e')) = renew_each w.held (w, e) in
      if is_empty w.held
      then (record w { transient_renew_fails = 0 }, e)
      else (count_fails transient w', e')
