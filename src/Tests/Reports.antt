-- ===== src/Tests/Reports.antt =====
-- A camera worker's reports in production, and the upload queue, over an outside world that lists what
-- was asked of it.
use lum_model_face_recogniti.Base.{
  ℕ, suc, ◌≡◌, ◌++◌, true, false, none, some, List, [], ◌∷◌, refl, arith,
}
use lum_model_face_recogniti.Attendance.{
  Services, Task, Sighting, EntryLogger, State, find, log_person_entry, record_once, send_if_moved,
  record_entry, send_unrecognized_face, send_location_data, send_attendance, prune_location_cache,
  sent_attendance_cap,
}
use lum_model_face_recogniti.Attendance
use lum_model_face_recogniti.Attendance.Sent.{log_all, log_person_entry-once}
use lum_model_face_recogniti.AsyncLogger.{
  Upload, Callees, AsyncLogger, start, upload_image, gcs_worker, stop, gcs_queue_size,
}
use lum_model_face_recogniti.AsyncLogger
use lum_model_face_recogniti.AsyncLogger.Uploads.{
  callbacks, submit, work, halt, work_late, run, called-run, work_off, called-work_off,
}

-- The outside world: how many tasks were queued, and which callbacks were called.
abbrev services : Services (ℕ × List ℕ)
services = record {
  upload_image = λ image folder slug e. (some "link", e);
  delay = λ task e. (true, (suc e.0, e.1));
  now = λ e. 0;
}

abbrev callees : Callees (ℕ × List ℕ)
callees = record { call = λ k url e. (e.0, e.1 ++ (k ∷ [])); xadd = λ stream fields e. e }

abbrev logger : EntryLogger
logger = Attendance.init "acme" true 600 400 3 (("ada", 5) ∷ [])

abbrev outside : ℕ × List ℕ
outside = (0, [])

abbrev ada : Sighting
ada = record {
  name = "ada";
  status = "IN";
  appear_time = 1000;
  camera_name = "door";
  camera_id = some 7;
  proof_image = none;
  track_id = some 9;
}

abbrev elsewhere : Sighting
elsewhere = record ada { camera_name = "hall"; track_id = some 10 }

-- A location and an attendance are queued for the first sighting.
recorded : (log_person_entry services ada (logger, outside)).0 ≡ true
unfolding log_person_entry record_once
recorded = refl

queued_test : (log_person_entry services ada (logger, outside)).1.1.0 ≡ 2
unfolding log_person_entry record_once record_entry send_if_moved send_location_data send_attendance
queued_test = refl

log_person_entry-once_example :
    (log_person_entry services ada
      (log_all services (elsewhere ∷ []) (log_person_entry services ada (logger, outside)).1)).0
    ≡ false
log_person_entry-once_example =
    log_person_entry-once services ada ada 9 (elsewhere ∷ []) (logger, outside) refl refl refl
      (omega arith) recorded

abbrev seen : State services
seen = (record logger { sent_attendance = (9, "ada") ∷ [] }, outside)

unrecorded : (log_person_entry services ada seen).0 ≡ false
unfolding log_person_entry record_once
unrecorded = refl

abbrev picture : Upload
picture = record {
  image = some (1 ∷ []);
  folder = "proofs";
  client_slug = "acme";
  callback = some 3;
}

abbrev no_picture : Upload
no_picture = record picture { image = none; callback = some 4 }

abbrev idle : AsyncLogger
idle = start (AsyncLogger.init 500)

abbrev waiting : AsyncLogger
waiting = record idle { gcs_queue = picture ∷ no_picture ∷ [] }

called-run_example :
    let r =
      run services callees
        (submit picture ∷ work ∷ submit no_picture ∷ halt ∷ work ∷ work_late ∷ [])
        (idle, outside) in
    r.1.1.1 ++ callbacks r.1.0.gcs_queue ≡ ([] ++ []) ++ r.0
called-run_example =
    called-run services callees (λ e. e.1) (λ k url e. refl) (λ i folder slug e. refl)
      (submit picture ∷ work ∷ submit no_picture ∷ halt ∷ work ∷ work_late ∷ []) idle outside

called-work_off_example :
    let r = work_off services callees 2 (waiting, outside) in
    (r.0.gcs_queue ≡ []) × (r.1.1 ≡ 3 ∷ 4 ∷ [])
called-work_off_example =
    called-work_off services callees (λ e. e.1) (λ k url e. refl) (λ i folder slug e. refl) waiting
      outside refl
