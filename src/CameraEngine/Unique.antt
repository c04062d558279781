-- ===== src/CameraEngine/Unique.antt =====
-- A whole call of finalize_identities.
use lum_model_face_recogniti.Base.{
  ℕ, ◌&&◌, Bool, true, false, none, List, [], ◌∷◌, ◌++◌, if◌then◌else◌, ltb, String, refl,
}
use lum_model_face_recogniti.Exec.{
  Outcome, ok, raised, pure, ◌>>=◌, Holds, Ensures, Ensures-pure, Ensures-bind,
}
use lum_model_face_recogniti.ActionWorker
use lum_model_face_recogniti.GlobalTrack.{Outside}
use lum_model_face_recogniti.GlobalTrack.Adapter.{forget_track}
use lum_model_face_recogniti.CameraEngine.Images.{Image}
use lum_model_face_recogniti.CameraEngine.Parts.{Vision, Track, Engine, merge_tracks}
use lum_model_face_recogniti.CameraEngine.Recognition.{FaceData}
use lum_model_face_recogniti.CameraEngine.Vote.{face_of, act}
use lum_model_face_recogniti.CameraEngine.Gone.{
  correct, correct_all, run_if, run_correction, forget_global, forget, remove_pass, remove_all,
  key_of,
}
use lum_model_face_recogniti.CameraEngine.Tracks.{track_pass, track_all, finalize_identities}
use lum_model_face_recogniti.CameraEngine.Sound.{Documented, IsSound}
use lum_model_face_recogniti.CameraEngine.Steps.{IsSound-drop}
use lum_model_face_recogniti.CameraEngine.Voted.{Sound, Sound-merge_tracks}
use lum_model_face_recogniti.CameraEngine.Settled.{Ensures-track_pass}

module _ {V : Vision} {G X : Type 0} (D : Documented V) (O : Outside G) (A : ActionWorker.Outside X)
    (request_id : ℕ → ℕ → ℕ → String) (frame : Image) (frame_num : ℕ) where
  Ensures-track_all :
      (ts : List Track) (ds : List (ℕ × FaceData V.Embedding))
      → Ensures
          (Sound D none)
          (track_all O A request_id frame frame_num ts ds)
          (λ es. Sound {X = X} D none)
          (Sound D none)
  unfolding track_all
  Ensures-track_all [] ds = Ensures-pure [] (λ e p. p)
  Ensures-track_all (t ∷ ts) ds =
      Ensures-bind (track_pass O A request_id frame frame_num t (face_of t.track_id ds))
        (λ es. track_all O A request_id frame frame_num ts ds >>= λ rest. pure (es ++ rest))
        (Ensures-track_pass D O A request_id frame frame_num t (face_of t.track_id ds))
        (λ es.
          Ensures-bind (track_all O A request_id frame frame_num ts ds) (λ rest. pure (es ++ rest))
            (Ensures-track_all ts ds) (λ rest. Ensures-pure (es ++ rest) (λ e p. p)))

  Sound-forget_global :
      (b : Bool) (t : ℕ) (e f : Engine V G X)
      → Sound D none e
      → Sound D none f
      → Sound D none (if b then e else f)
  Sound-forget_global true t e f h k = h
  Sound-forget_global false t e f h k = k

  Sound-forget : (t : ℕ) (e : Engine V G X) → Sound D none e → Sound D none (forget O t e)
  Sound-forget t e h =
      let g = forget_global O t e in
      IsSound-drop D none t g.person_tracker g.person_tracker g.identity_manager g.state_manager
        (λ u q. refl) (λ u q. q)
        (Sound-forget_global e.global_enabled t
          (record e { global_manager = forget_track O (key_of t e) e.global_manager }) e h h)

  Ensures-remove_all :
      (ts : List ℕ)
      → Ensures (Sound {X = X} D none) (remove_all O ts) (λ es. Sound {X = X} D none) (Sound D none)
  unfolding remove_all remove_pass
  Ensures-remove_all [] = Ensures-pure [] (λ e p. p)
  Ensures-remove_all (t ∷ ts) =
      Ensures-bind (remove_pass O t) (λ es. remove_all O ts >>= λ rest. pure (es ++ rest))
        (record { at = λ e p. Sound-forget t e p })
        (λ es.
          Ensures-bind (remove_all O ts) (λ rest. pure (es ++ rest)) (Ensures-remove_all ts)
            (λ rest. Ensures-pure (es ++ rest) (λ e p. p)))

  Sound-correct_all :
      (ds : List (ℕ × ℕ)) (e : Engine V G X) → Sound D none e → Sound D none (correct_all ds e)
  Sound-correct_all [] e h = h
  Sound-correct_all ((a, b) ∷ ds) e h =
      let keep = if ltb a b then a else b in
      let merge = if ltb a b then b else a in
      Sound-correct_all ds (correct (a, b) e) (
        Sound-forget_global
          (V.get_track_info keep e.person_tracker && V.get_track_info merge e.person_tracker) merge
          (merge_tracks merge keep e) e (Sound-merge_tracks D none merge keep e (λ u q. refl) h) h)

  Sound-run_if :
      (o : Bool × V.IDSwitchCorrector) (e : Engine V G X)
      → Sound D none e
      → Sound D none (run_if o e)
  Sound-run_if (false, c) e h = h
  Sound-run_if (true, c) e h =
      Sound-correct_all (V.find_duplicate_tracks c).0
        (record e { id_corrector = (V.find_duplicate_tracks c).1 }) h

  Ensures-finalize_identities :
      (active : List Track) (removed : List ℕ) (embeddings_map : List (ℕ × FaceData V.Embedding))
      → Ensures
          (Sound D none)
          (finalize_identities O A request_id frame frame_num active removed embeddings_map)
          (λ es. Sound {X = X} D none)
          (Sound D none)
  unfolding finalize_identities run_correction
  Ensures-finalize_identities active removed ds =
      Ensures-bind (track_all O A request_id frame frame_num active ds)
        (λ es. remove_all O removed >>= λ gone. act run_correction >>= λ u. pure (es ++ gone))
        (Ensures-track_all active ds)
        (λ es.
          Ensures-bind (remove_all O removed)
            (λ gone. act run_correction >>= λ u. pure (es ++ gone)) (Ensures-remove_all removed)
            (λ gone. record {
              at = λ e p. Sound-run_if (V.should_run_correction e.id_corrector) e p;
            }))

  Holds-state :
      {B : Type 0} (P : Engine V G X → Type 0) (r : Outcome B × Engine V G X)
      → Holds (λ b. P) P r
      → P r.1
  Holds-state P (ok b, e) h = h
  Holds-state P (raised, e) h = h

  -- However finalize_identities ends, afterwards no two tracks that the tracker has are locked to one
  -- name, each locked state has the name of the identity manager's lock, and a track without a state has
  -- no votes, where this held before and lum_vision does what `Documented` says.
  pub finalize_identities-IsSound :
      (active : List Track) (removed : List ℕ) (embeddings_map : List (ℕ × FaceData V.Embedding))
      (e : Engine V G X)
      → IsSound D none e.person_tracker e.identity_manager e.state_manager
      → let e' =
          (finalize_identities O A request_id frame frame_num active removed embeddings_map e).1 in
        IsSound D none e'.person_tracker e'.identity_manager e'.state_manager
  finalize_identities-IsSound active removed ds e h =
      Holds-state (Sound D none)
        (finalize_identities O A request_id frame frame_num active removed ds e)
        ((Ensures-finalize_identities active removed ds).at e h)
