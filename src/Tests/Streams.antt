-- ===== src/Tests/Streams.antt =====
-- A decode worker for two cameras. The lease server grants everything, and renews camera 1 only; each
-- stream starts, and the outside world counts them.
use lum_model_face_recogniti.Base.{
  ℕ, suc, ◌≡◌, ◌==◌, true, false, none, some, List, [], ◌∷◌, refl, arith,
}
use lum_model_face_recogniti.Attendance.{is_some}
use lum_model_face_recogniti.CameraWorker.Sets.{mem}
use lum_model_face_recogniti.DecodeWorker.{
  Config, DecodeLeases, Machinery, DecodeWorker, config_of, claim_cameras, renew_held,
  reconcile_cameras, keep_eligible, start_marked, start_camera,
}
use lum_model_face_recogniti.DecodeWorker.Held.{renew_held-owned}

abbrev leases : DecodeLeases ℕ
leases = record {
  claim = λ c n. (true, n);
  renew = λ c n. (c == 1, n);
  release = λ c n. n;
  is_claimed = λ c n. (false, n);
}

abbrev machinery : Machinery ℕ
machinery = record { start = λ c url n. (true, suc n); stop = λ c n. n }

abbrev camera : Config
camera = ("stream_url", "rtsp://a") ∷ ("roi", "all") ∷ []

abbrev idle : DecodeWorker
idle = record { capacity = 2; owned = []; starting = []; fps_samples = []; running = true }

abbrev busy : DecodeWorker
busy = record idle { owned = (1, camera) ∷ (2, camera) ∷ [] }

-- The third camera is past the capacity.
reconcile_cameras_test :
    (reconcile_cameras leases machinery
      (some ((some 1, camera) ∷ (none, camera) ∷ (some 2, camera) ∷ (some 3, camera) ∷ []))
      (idle, 0)).1
    ≡ (busy, 2)
unfolding reconcile_cameras keep_eligible claim_cameras start_marked start_camera
reconcile_cameras_test = refl

-- The outside world that lists the cameras whose producer and stream were stopped.
abbrev ledger : Machinery (List ℕ)
ledger = record { start = λ c url l. (true, l); stop = λ c l. c ∷ l }

abbrev renewals : DecodeLeases (List ℕ)
renewals = record {
  claim = λ c l. (true, l);
  renew = λ c l. (c == 1, l);
  release = λ c l. l;
  is_claimed = λ c l. (false, l);
}

renew_held-owned_example :
    let r = renew_held renewals ledger (1 ∷ 2 ∷ []) (busy, []) in
    (is_some (config_of 2 r.0.owned) ≡ false) × (mem 2 r.1 ≡ true)
renew_held-owned_example =
    renew_held-owned renewals ledger mem (λ a c l. ground arith) (λ a c l. refl) (λ c. c == 1)
      (λ c e. refl) (1 ∷ 2 ∷ []) 2 busy [] refl
