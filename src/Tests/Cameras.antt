-- ===== src/Tests/Cameras.antt =====
-- One replica of two, with three cameras; the lease server grants and renews everything but camera 2.
use lum_model_face_recogniti.Base.{
  ℕ, suc, ◌≤◌, ◌≡◌, Bool, true, false, Option, none, some, List, [], ◌∷◌, refl, arith, length, leb,
  if◌then◌else◌, ◌&&◌, not, ◌==◌,
}
use lum_model_face_recogniti.CameraWorker.Sets.{mem}
use lum_model_face_recogniti.CameraWorker.{
  Leases, Registry, Worker, init, release, release_each, scan, adopt, claim_loop,
  renew_max_transient_fails,
}
use lum_model_face_recogniti.CameraWorker.Pass.{
  survey, claim_share, reconcile, renew_each, renew_once,
}
use lum_model_face_recogniti.CameraWorker.Capacity.{
  reconcile-le-capacity, reconcile-eligible, after,
}
use lum_model_face_recogniti.CameraWorker.Renewal.{
  renew_once-held, renew_once-exit, is_lost, is_unanswered, any,
}

-- Camera 1 is renewed, camera 2 is lost, the others are not answered for.
abbrev answer : ℕ → Option Bool
answer c = if c == 1 then some true else if c == 2 then some false else none

-- The outside world counts the calls.
abbrev leases : Leases ℕ
leases = record {
  claim = λ c n. (not (c == 2), suc n);
  renew_status = λ c n. (answer c, suc n);
  release = λ c n. suc n;
  is_claimed = λ c n. (false, suc n);
}

abbrev celery : Registry ℕ
celery = record { add_consumer = λ c n. (true, suc n); remove_consumer = λ c n. suc n }

abbrev fresh : Worker
fresh = record (init 2 4 30 60) { running = true }

abbrev eligible : List (Option ℕ)
eligible = some 3 ∷ none ∷ some 1 ∷ some 2 ∷ []

abbrev holding : Worker
holding = record fresh { held = 1 ∷ 2 ∷ 3 ∷ []; transient_renew_fails = 1 }

-- The first pass takes its share of two.
reconcile_test : (reconcile leases celery eligible 10 (fresh, 0)).0.held ≡ 3 ∷ 1 ∷ []
unfolding reconcile survey scan release_each init claim_share claim_loop adopt
reconcile_test = refl

renew_once_test : (renew_once leases celery (holding, 0)).0.held ≡ 1 ∷ 3 ∷ []
unfolding renew_once renew_each release
renew_once_test = refl

reconcile-le-capacity_example : length (reconcile leases celery eligible 10 (holding, 0)).0.held ≤ 4
unfolding init
reconcile-le-capacity_example =
    reconcile-le-capacity leases celery eligible 10 holding 0 (omega arith)

held_after : mem 1 (after leases celery eligible 10 fresh 0).held ≡ true
unfolding reconcile survey scan release_each init claim_share claim_loop adopt
held_after = refl

reconcile-eligible_example : mem 1 (3 ∷ 1 ∷ 2 ∷ []) ≡ true
reconcile-eligible_example = reconcile-eligible leases celery eligible 10 fresh 0 1 held_after

renew_once-held_example :
    mem 2 (renew_once leases celery (holding, 0)).0.held
    ≡ (mem 2 holding.held && not (is_lost (answer 2)))
renew_once-held_example = renew_once-held leases celery answer (λ c e. refl) holding 0 2

renew_once-exit_example :
    let missed = any (λ c. is_unanswered (answer c)) holding.held in
    let w' = (renew_once leases celery (holding, 0)).0 in
    (w'.exited ≡ (missed && leb renew_max_transient_fails 2))
    × (w'.transient_renew_fails ≡ (if missed then 2 else 0))
unfolding init
renew_once-exit_example = renew_once-exit leases celery answer (λ c e. refl) holding 0 refl
