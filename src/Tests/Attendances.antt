-- ===== src/Tests/Attendances.antt =====
-- Two cameras that see the same person come in, at the same time.
use lum_model_face_recogniti.Base.{ℕ, ◌≡◌, true, none, some, List, [], ◌∷◌, refl, String}
use lum_model_face_recogniti.Records.{Call, recorded, suppressed, record_step, turn, run, idle}
use lum_model_face_recogniti.Records.Server.{store, empty}
use lum_model_face_recogniti.Records.Linear.{replay, answers_agree, run-Linear}

abbrev lower : String → String
lower s = "in"

abbrev calls : ℕ → Call
calls i = record {
  user_id = 5;
  camera_id = some i;
  timestamp = 1000;
  status = "IN";
  proof_image_url = none;
}

-- The second call waits until the first has committed.
abbrev schedule : List ℕ
schedule = 0 ∷ 1 ∷ 0 ∷ 1 ∷ 0 ∷ 1 ∷ 1 ∷ 1 ∷ []

run_test :
    (run store lower calls schedule (idle store lower empty)).0
    ≡ record { user_id = 5; status = "in"; answer = recorded }
      ∷ record { user_id = 5; status = "in"; answer = suppressed }
      ∷ []
unfolding turn record_step
run_test = refl

run-Linear_example :
    let r = run store lower calls schedule (idle store lower empty) in
    (r.1.db.rows 5 ≡ replay 5 r.0 []) × (answers_agree 5 r.0 [] ≡ true)
run-Linear_example = run-Linear store lower calls (λ i. refl) schedule 5 empty
