-- ===== src/CameraEngine/Written.antt =====
-- The state of a track that is written after the vote.
use lum_model_face_recogniti.Base.{
  ℕ, ◌≡◌, true, false, Option, none, some, if◌then◌else◌, String, str_eq, arith, refl, sym, subst,
  inl, inr, Bool-cases,
}
use lum_model_face_recogniti.Exec.{Holds}
use lum_model_face_recogniti.ActionWorker
use lum_model_face_recogniti.GlobalTrack.{Outside}
use lum_model_face_recogniti.CameraEngine.Images.{Image}
use lum_model_face_recogniti.CameraEngine.Parts.{Vision, State, Lock, Result, Track, Engine}
use lum_model_face_recogniti.CameraEngine.Recognition.{FaceData}
use lum_model_face_recogniti.CameraEngine.Finalize.{
  Found, locked_as, candidate, is_locked, personal,
}
use lum_model_face_recogniti.CameraEngine.Tracks.{checked_again, noted, stay_locked}
use lum_model_face_recogniti.CameraEngine.Sound.{Documented, IsLive, IsSound}
use lum_model_face_recogniti.CameraEngine.Steps.{
  some_none, some_injective, IsSound-update_person, IsSound-seen,
}
use lum_model_face_recogniti.CameraEngine.Kept.{Core, HoldsAt}
use lum_model_face_recogniti.CameraEngine.Voted.{at_note, at_checked_by, absurd, Sound, IsReady}

module _ {V : Vision} {G X : Type 0} (D : Documented V) (O : Outside G) (A : ActionWorker.Outside X)
    (request_id : ℕ → ℕ → ℕ → String) (frame : Image) (frame_num : ℕ) where
  -- Once the state of the track is written.
  abbrev pub Written : Track → Found → Core V
  Written t f tracker i m = IsSound D none tracker i (V.update_person (personal frame t f) m)

  pub Written-open :
      (t : Track) (f : Found) (tracker : V.PersonTracker) (i : V.IdentityManager)
      (m : V.PersonStateManager)
      → is_locked f ≡ false
      → IsSound D (some t.track_id) tracker i m
      → Written t f tracker i m
  Written-open t f tracker i m q h =
      IsSound-update_person D (personal frame t f) tracker i m
        (λ l. some_none (some true) true refl (ground (arith, q, l)))
        (λ n u l. some_none (some true) true refl (ground (arith, q, l))) h

  pub candidate-open : (o : Option (Option String × ℕ)) → is_locked (candidate o) ≡ false
  candidate-open none = refl
  candidate-open (some (none, k)) = refl
  candidate-open (some (some n, k)) = elim (Bool-cases (str_eq n "")) [
    | inl q ↦ rw q refl
    | inr q ↦ rw q refl
  ]

  pub Written-locked :
      (t : Track) (l : Lock) (tracker : V.PersonTracker) (i : V.IdentityManager)
      (m : V.PersonStateManager)
      → V.is_identity_locked t.track_id i ≡ true
      → V.get_locked_identity t.track_id i ≡ some l
      → ((u : ℕ)
          → V.get_track_info t.track_id tracker ≡ true
          → IsLive V l.name u tracker m
          → u ≡ t.track_id)
      → IsSound D (some t.track_id) tracker i m
      → Written t (locked_as l) tracker i m
  Written-locked t l tracker i m p q fresh h =
      IsSound-update_person D (personal frame t (locked_as l)) tracker i m (λ k. (p, l, q, refl))
        (λ n u k e g a. fresh u g (
          subst (λ x. IsLive V x u tracker m) (sym (some_injective l.name n (some l.name) refl e))
            a))
        h

  -- A ready track that is locked has a state.
  pub IsReady-seen :
      (t : ℕ) (prev : Option State) (e : Engine V G X)
      → V.is_identity_locked t e.identity_manager ≡ true
      → IsReady D t prev e
      → Sound D none e
  IsReady-seen t none e q h =
      absurd (D.votes t e.identity_manager) (D.locked_late t e.identity_manager q) (h.first refl)
  IsReady-seen t (some s) e q h =
      IsSound-seen D t s e.person_tracker e.identity_manager e.state_manager h.state h.sound

  pub Holds-noted :
      (t : Track) (d : FaceData V.Embedding) (r : Result V.Embedding) (l : Lock) (e : Engine V G X)
      → HoldsAt (Written t (locked_as l)) e
      → Sound D none (noted O A request_id frame frame_num t d r l e)
  Holds-noted t d r l e p =
      at_note A request_id frame frame_num (IsSound D none) t d r.face_image (locked_as l) e p

  pub Holds-stay_locked :
      (t : Track) (d : FaceData V.Embedding) (r : Result V.Embedding) (l : Lock) (e : Engine V G X)
      → HoldsAt (Written t (locked_as l)) e
      → Holds
          (λ es. Sound D none)
          (Sound D none)
          (stay_locked O A request_id frame frame_num t d r l e)
  Holds-stay_locked t d r l e p = Holds-noted t d r l (checked_again t.track_id l r e) (
      at_checked_by (Written t (locked_as l)) t.track_id l
        (if r.face_detected then r.embedding else none) e p)
