-- ===== src/CameraWorker.antt =====
-- src/camera_boot.py: one replica that claims its share of the cameras, renews its leases, and hands
-- cameras back. Each pass is one step; times are whole milliseconds.
pub mod Sets
pub mod Pass
pub mod Capacity
pub mod Renewal
use lum_model_face_recogniti.Base.{
  ℕ, suc, ◌+◌, ◌-◌, ◌/◌, Bool, true, false, Option, none, some, List, [], ◌∷◌, max, leb, ltb,
  length, if◌then◌else◌, ◌&&◌, ◌||◌, not, ◌==◌,
}
use Sets.{mem, add, discard, discard_all, filter, sort, get, pop, set_default}

-- The lease manager, as the worker uses it: an operation answers and moves the outside world on.
pub record Leases (E : Type 0) : Type 0 where
  pub claim : ℕ → E → Bool × E
  pub renew_status : ℕ → E → Option Bool × E
  pub release : ℕ → E → E
  pub is_claimed : ℕ → E → Bool × E

-- `CeleryConsumerRegistry`: `add` answers whether it returned (it may raise); what `remove` raises is
-- only logged.
pub record Registry (E : Type 0) : Type 0 where
  pub add_consumer : ℕ → E → Bool × E
  pub remove_consumer : ℕ → E → E

pub record Worker : Type 0 where
  pub replicas : ℕ
  pub capacity : ℕ
  pub failover_grace : ℕ
  pub warn_interval : ℕ
  pub held : List ℕ
  pub unowned_since : List (ℕ × ℕ)
  pub last_unclaimed_warn : ℕ
  pub transient_renew_fails : ℕ
  pub running : Bool
  pub exited : Bool

abbrev pub renew_max_transient_fails : ℕ
renew_max_transient_fails = 2

-- `__init__`
unfoldable pub init : ℕ → ℕ → ℕ → ℕ → Worker
init replicas capacity failover_grace warn_interval = record {
  replicas = max 1 replicas;
  capacity = max 1 capacity;
  failover_grace = failover_grace;
  warn_interval = warn_interval;
  held = [];
  unowned_since = [];
  last_unclaimed_warn = 0;
  transient_renew_fails = 0;
  running = false;
  exited = false;
}

abbrev pub ceil_div : ℕ → ℕ → ℕ
ceil_div a b = (a + b - 1) / b

module _ {E : Type 0} (L : Leases E) (G : Registry E) where
  abbrev pub State : Type 0
  State = Worker × E

  -- `_release`, and `_on_consumer_add_failed`, which does the same from the event loop.
  unfoldable pub release : ℕ → State → State
  release c (w, e) = (record w { held = discard c w.held }, L.release c (G.remove_consumer c e))

  unfoldable pub release_each : List ℕ → State → State
  release_each [] s = s
  release_each (c ∷ cs) s = release_each cs (release c s)

  -- `release_all`
  unfoldable pub release_all : State → State
  release_all (w, e) = release_each w.held (record w { running = false }, e)

  unfoldable pub adopt : ℕ → State → Bool × State
  adopt c (w, e) =
      let (added, e') = G.add_consumer c e in
      if added then (true, (record w { held = add c w.held }, e')) else (false, (w, L.release c e'))

  -- Which cameras nobody owns, and since when: the loop of step 2.
  unfoldable pub scan : ℕ → List ℕ → State → List ℕ × State
  scan now [] s = ([], s)
  scan now (c ∷ cs) (w, e) =
      let forget : Worker = record w { unowned_since = pop c w.unowned_since } in
      let note : Worker = record w { unowned_since = set_default c now w.unowned_since } in
      let (claimed, e') = L.is_claimed c e in
      if mem c w.held
      then (let rest = scan now cs (forget, e) in rest)
      else if claimed
      then (let rest = scan now cs (forget, e') in rest)
      else (let (unowned, s) = scan now cs (note, e') in (add c unowned, s))

  -- Step 3. `count` is a local count of the cameras held.
  unfoldable pub claim_loop : ℕ → List ℕ → List ℕ → List ℕ → ℕ → State → State
  claim_loop fair_share unowned stale [] count s = s
  claim_loop fair_share unowned stale (c ∷ cs) count (w, e) =
      let skip = claim_loop fair_share unowned stale cs count (w, e) in
      let (won, e') = L.claim c e in
      let (adopted, s') = adopt c (w, e') in
      let unclaimed = claim_loop fair_share unowned stale cs count (w, e') in
      let taken =
        claim_loop fair_share unowned stale cs (if adopted then suc count else count) s' in
      if not (mem c unowned)
      then skip
      else if leb w.capacity count
      then (w, e)
      else if ltb count fair_share || mem c stale
      then (if won then taken else unclaimed)
      else skip
