-- ===== src/Tests/Tracks.antt =====
-- Two tracks of one camera, and a register that does not answer.
use lum_model_face_recogniti.Base.{ℕ, ◌≡◌, true, false, none, some, List, [], ◌∷◌, length, refl}
use lum_model_face_recogniti.Exec.{ok, raised}
use lum_model_face_recogniti.GlobalTrack.{Outside, Arguments, Client, local, new_client, call}
use lum_model_face_recogniti.GlobalTrack.Adapter.{
  Turn, assign_turn, begin_turn, forget_turn, new_manager, find, steps, work_off,
}
use lum_model_face_recogniti.GlobalTrack.InFlight.{pending, distinct, steps-work_off}

abbrev outside : Outside ℕ
outside = record {
  write_crop = λ c crop e. (raised, e);
  apply_async = λ m p t e. (ok 4, e);
  get = λ k t e. (raised, e);
  forget = λ k e. (raised, e);
  on_fallback = λ e. (ok tt, e);
}

abbrev client : Client
client = new_client 1000 1500 30000

abbrev sighting : ℕ → Arguments
sighting track = record {
  camera_id = 7;
  local_track_id = track;
  person_crop = none;
  detection_confidence = 900;
  frame_num = 12;
  identity = none;
  identity_locked = false;
  global_id = 0;
}

-- The second sighting of track 1 asks nothing, since the first one's request is running.
abbrev turns : List (Turn outside)
turns =
    assign_turn (sighting 1)
    ∷ begin_turn
    ∷ assign_turn (sighting 2)
    ∷ assign_turn (sighting 1)
    ∷ forget_turn (record { camera_id = 7; local_track_id = 1 })
    ∷ []

steps_test :
    let m = steps outside turns (new_manager outside client 0) in
    (m.submitted_count ≡ 2)
    × (find (record { camera_id = 7; local_track_id = 2 }) (work_off outside 2 m).assigned
        ≡ some (local 2))
unfolding steps work_off call
steps_test = (refl, refl)

steps-work_off_example :
    let m = steps outside turns (new_manager outside client 0) in
    (m.in_flight ≡ pending m.running m.queue)
    × (distinct m.in_flight ≡ true)
    × ((work_off outside (length m.in_flight) m).in_flight ≡ [])
steps-work_off_example = steps-work_off outside turns client 0
