-- ===== src/CameraEngine/Settled.antt =====
-- A track of finalize_identities after its vote, and its whole pass.
use lum_model_face_recogniti.Base.{
  ℕ, ◌≡◌, Bool, true, false, Option, none, some, [], ◌∷◌, String, refl, ap, ◌∙◌,
}
use lum_model_face_recogniti.Exec.{
  pure, ◌>>=◌, Holds, Ensures, Ensures-pure, Ensures-bind, Holds-continue,
}
use lum_model_face_recogniti.ActionWorker
use lum_model_face_recogniti.GlobalTrack.{Outside}
use lum_model_face_recogniti.CameraEngine.Images.{Image}
use lum_model_face_recogniti.CameraEngine.Parts.{
  Vision, State, Lock, Result, Track, Engine, find_track_with_identity,
}
use lum_model_face_recogniti.CameraEngine.Recognition.{FaceData, compute_recognition_result}
use lum_model_face_recogniti.CameraEngine.Vote.{get, act}
use lum_model_face_recogniti.CameraEngine.Finalize.{locked_as, candidate}
use lum_model_face_recogniti.CameraEngine.Tracks.{
  recognized_event, reassigned, noted, report_first, join_or_report, lock_first, stay_locked,
  locked_pass, open_pass, name_lock, settle, settle_unless, vote_unless, track_pass,
}
use lum_model_face_recogniti.CameraEngine.Sound.{Documented, IsLive, IsSound}
use lum_model_face_recogniti.CameraEngine.Steps.{some_injective}
use lum_model_face_recogniti.CameraEngine.Kept.{
  Core, HoldsAt, Keeps-compute_recognition_result, Keeps-reassigned,
}
use lum_model_face_recogniti.CameraEngine.Voted.{
  at_note, Holds-if, Holds-raised, absurd, Sound, IsReady, Sound-merge_tracks, After,
  Holds-vote_unless,
}
use lum_model_face_recogniti.CameraEngine.Written.{
  Written, Written-open, candidate-open, Written-locked, IsReady-seen, Holds-noted,
  Holds-stay_locked,
}
use lum_model_face_recogniti.CameraEngine.Searches.{IsLive-find_in}

module _ {V : Vision} {G X : Type 0} (D : Documented V) (O : Outside G) (A : ActionWorker.Outside X)
    (request_id : ℕ → ℕ → ℕ → String) (frame : Image) (frame_num : ℕ) where
  Ensures-report_first :
      (t : Track) (d : FaceData V.Embedding) (r : Result V.Embedding) (l : Lock) (s : State)
      → Ensures
          (λ e.
            (Sound D none e)
            × (HoldsAt (Written D O A request_id frame frame_num t (locked_as l)) e))
          (report_first O A request_id frame frame_num t d r l s)
          (λ es. Sound D none)
          (Sound D none)
  Ensures-report_first t d r l s =
      let R : Core V = λ tracker i m.
        (IsSound D none tracker i m)
        × (Written D O A request_id frame frame_num t (locked_as l) tracker i m) in
      Ensures-bind (reassigned O t l.name)
        (λ g. get >>= λ e. act (noted O A request_id frame frame_num t d r l) >>= λ u.
          pure (recognized_event t l s g r e ∷ []))
        (record {
          at = λ e p.
              Holds-raised (λ g. HoldsAt R) (HoldsAt R) (Sound D none) (reassigned O t l.name e)
                (λ a q. q.0) ((Keeps-reassigned O R t l.name).at e p);
        })
        (λ g. record { at = λ e p. Holds-noted D O A request_id frame frame_num t d r l e p.1 })

  Holds-join_or_report :
      (t : Track) (d : FaceData V.Embedding) (r : Result V.Embedding) (l : Lock) (s : State)
      (o : Option ℕ) (e : Engine V G X)
      → find_track_with_identity l.name t.track_id e ≡ o
      → V.is_identity_locked t.track_id e.identity_manager ≡ true
      → V.get_locked_identity t.track_id e.identity_manager ≡ some l
      → IsReady D t.track_id (some s) e
      → Holds
          (λ es. Sound D none)
          (Sound D none)
          (join_or_report O A request_id frame frame_num t d r l s o e)
  unfolding find_track_with_identity
  Holds-join_or_report t d r l s (some x) e f p q h =
      Sound-merge_tracks D (some t.track_id) t.track_id x e (λ u k. k) h.sound
  Holds-join_or_report t d r l s none e f p q h = (Ensures-report_first t d r l s).at e (
    IsReady-seen D O A request_id frame frame_num t.track_id (some s) e p h,
    Written-locked D O A request_id frame frame_num t l e.person_tracker e.identity_manager
        e.state_manager p q
        (λ u g a. IsLive-find_in D l.name t.track_id u e.person_tracker e.state_manager f a)
        h.sound,
  )

  -- A track that is locked already, to the name that its state has.
  stays_unique :
      (t : Track) (l : Lock) (s : State) (e : Engine V G X)
      → s.identity_locked ≡ true
      → V.get_locked_identity t.track_id e.identity_manager ≡ some l
      → IsReady D t.track_id (some s) e
      → (u : ℕ) → V.get_track_info t.track_id e.person_tracker ≡ true
      → IsLive V l.name u e.person_tracker e.state_manager
      → u ≡ t.track_id
  stays_unique t l s e k q h u g a =
      let b = h.sound.agrees t.track_id s h.state k in
      h.sound.unique l.name u t.track_id a record {
        state = s;
        found = h.state;
        locked = k;
        named =
            b.3
            ∙ ap (λ x. some x.name)
                (some_injective b.1 l (V.get_locked_identity t.track_id e.identity_manager) b.2 q);
        tracked = g;
      }

  Holds-locked_pass :
      (t : Track) (d : FaceData V.Embedding) (r : Result V.Embedding) (l : Lock)
      (prev : Option State) (e : Engine V G X)
      → V.is_identity_locked t.track_id e.identity_manager ≡ true
      → V.get_locked_identity t.track_id e.identity_manager ≡ some l
      → IsReady D t.track_id prev e
      → Holds
          (λ es. Sound D none)
          (Sound D none)
          (locked_pass O A request_id frame frame_num t d r l prev e)
  Holds-locked_pass t d r l none e p q h =
      absurd (D.votes t.track_id e.identity_manager) (D.locked_late t.track_id e.identity_manager p)
        (h.first refl)
  Holds-locked_pass t d r l (some s) e p q h =
      Holds-if (λ es. Sound D none) (Sound D none) s.identity_locked
        (stay_locked O A request_id frame frame_num t d r l)
        (lock_first O A request_id frame frame_num t d r l s) e
        (λ k. Holds-stay_locked D O A request_id frame frame_num t d r l e (
          Written-locked D O A request_id frame frame_num t l e.person_tracker e.identity_manager
            e.state_manager p q (stays_unique t l s e k q h) h.sound))
        (λ k.
          Holds-join_or_report t d r l s (find_track_with_identity l.name t.track_id e) e refl p q
            h)

  Holds-name_lock :
      (t : Track) (d : FaceData V.Embedding) (r : Result V.Embedding) (prev : Option State)
      (o : Option Lock) (e : Engine V G X)
      → V.is_identity_locked t.track_id e.identity_manager ≡ true
      → V.get_locked_identity t.track_id e.identity_manager ≡ o
      → IsReady D t.track_id prev e
      → Holds
          (λ es. Sound D none)
          (Sound D none)
          (name_lock O A request_id frame frame_num t d r prev o e)
  Holds-name_lock t d r prev none e p q h =
      IsReady-seen D O A request_id frame frame_num t.track_id prev e p h
  Holds-name_lock t d r prev (some l) e p q h = Holds-locked_pass t d r l prev e p q h

  Holds-settle :
      (t : Track) (d : FaceData V.Embedding) (r : Result V.Embedding) (prev : Option State)
      (e : Engine V G X)
      → IsReady D t.track_id prev e
      → Holds
          (λ es. Sound D none)
          (Sound D none)
          (settle O A request_id frame frame_num t d r prev e)
  unfolding settle
  Holds-settle t d r prev e h =
      Holds-if (λ es. Sound D none) (Sound D none)
        (V.is_identity_locked t.track_id e.identity_manager)
        (name_lock O A request_id frame frame_num t d r prev
          (V.get_locked_identity t.track_id e.identity_manager))
        (open_pass O A request_id frame frame_num t d r) e
        (λ p.
          Holds-name_lock t d r prev (V.get_locked_identity t.track_id e.identity_manager) e p refl
            h)
        (λ p.
          let f = candidate (V.get_voting_status t.track_id e.identity_manager) in
          at_note A request_id frame frame_num (IsSound D none) t d r.face_image f e (
            Written-open D O A request_id frame frame_num t f e.person_tracker e.identity_manager
              e.state_manager
              (candidate-open D O A request_id frame frame_num
                (V.get_voting_status t.track_id e.identity_manager))
              h.sound))

  Ensures-settle_unless :
      (t : Track) (d : FaceData V.Embedding) (r : Result V.Embedding) (prev : Option State)
      (merged : Bool)
      → Ensures
          (After D t.track_id prev merged)
          (settle_unless O A request_id frame frame_num t d r prev merged)
          (λ es. Sound D none)
          (Sound D none)
  unfolding After
  Ensures-settle_unless t d r prev true = Ensures-pure [] (λ e p. p)
  Ensures-settle_unless t d r prev false = record { at = λ e p. Holds-settle t d r prev e p }

  pub Ensures-track_pass :
      (t : Track) (d : FaceData V.Embedding)
      → Ensures
          (Sound D none)
          (track_pass O A request_id frame frame_num t d)
          (λ es. Sound {X = X} D none)
          (Sound D none)
  unfolding track_pass After
  Ensures-track_pass t d =
      Ensures-bind (compute_recognition_result {V = V} {X = X} O t.track_id d)
        (λ r. get {V = V} {G = G} {X = X} >>= λ e.
          vote_unless t.track_id r (V.get_state t.track_id e.state_manager)
            (V.is_identity_locked t.track_id e.identity_manager)
          >>= settle_unless O A request_id frame frame_num t d r
              (V.get_state t.track_id e.state_manager))
        (Keeps-compute_recognition_result {V = V} {X = X} O (IsSound D none) t.track_id d)
        (λ r. record {
          at = λ e p.
              Holds-continue {Q = After D t.track_id (V.get_state t.track_id e.state_manager)}
                {Q' = λ es. Sound {X = X} D none}
                (vote_unless t.track_id r (V.get_state t.track_id e.state_manager)
                  (V.is_identity_locked t.track_id e.identity_manager) e)
                (settle_unless O A request_id frame frame_num t d r
                  (V.get_state t.track_id e.state_manager))
                (Holds-vote_unless D t.track_id r
                  (V.is_identity_locked t.track_id e.identity_manager) e refl p)
                (Ensures-settle_unless t d r (V.get_state t.track_id e.state_manager));
        })
