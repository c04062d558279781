-- ===== src/CameraEngine/Voted.antt =====
-- A track of finalize_identities up to the end of its vote.
use lum_model_face_recogniti.Base.{
  ℕ, ◌≡◌, ◌≤◌, ◌==◌, ◌&&◌, Bool, true, false, Option, none, some, if◌then◌else◌, String, arith,
  refl,
}
use lum_model_face_recogniti.Exec.{Outcome, ok, raised, Exec, pure, ◌>>=◌, Holds}
use lum_model_face_recogniti.ActionWorker
use lum_model_face_recogniti.CameraEngine.Images.{Image, image_of}
use lum_model_face_recogniti.CameraEngine.Parts.{
  Vision, State, Lock, Result, Track, Engine, merge_tracks,
}
use lum_model_face_recogniti.CameraEngine.Recognition.{FaceData}
use lum_model_face_recogniti.CameraEngine.Vote.{
  get, act, embedded, returning, voted, join_or_vote, vote, recognized_name, is_some, has_text,
}
use lum_model_face_recogniti.CameraEngine.Finalize.{Found, queue_action, remembered, personal, note}
use lum_model_face_recogniti.CameraEngine.Tracks.{checked_by, vote_unless}
use lum_model_face_recogniti.CameraEngine.Sound.{Documented, exempt, IsSound}
use lum_model_face_recogniti.CameraEngine.Steps.{
  IsSound-drop, IsSound-update_identity, IsSound-exempt,
}
use lum_model_face_recogniti.CameraEngine.Kept.{Core, HoldsAt}

module _ {V : Vision} {G X : Type 0} (A : ActionWorker.Outside X) (request_id : ℕ → ℕ → ℕ → String)
    (frame : Image) (frame_num : ℕ) (R : Core V) where
  at_remembered :
      (t : Track) (d : FaceData V.Embedding) (face : Option Image) (e : Engine V G X)
      → HoldsAt R e
      → HoldsAt R (remembered A request_id frame frame_num t d face e)
  at_remembered t d none e p = p
  at_remembered t d (some face) e p = p

  at_if :
      (b : Bool) (e f : Engine V G X) → HoldsAt R e → HoldsAt R f → HoldsAt R (if b then e else f)
  at_if true e f p q = p
  at_if false e f p q = q

  at_queue_action :
      (t : ℕ) (proof : Option Image) (l : Option Lock) (e : Engine V G X)
      → HoldsAt R e
      → HoldsAt R (queue_action A request_id frame frame_num t proof l e)
  at_queue_action t proof none e p = p
  at_queue_action t proof (some l) e p =
      at_if (e.action_recognizer.enabled && has_text "activity" e.application) _ e p p

  pub at_note :
      (t : Track) (d : FaceData V.Embedding) (face : Option Image) (f : Found) (e : Engine V G X)
      → R e.person_tracker e.identity_manager (V.update_person (personal frame t f) e.state_manager)
      → HoldsAt R (note A request_id frame frame_num t d face f e)
  unfolding note
  at_note t d face f e p =
      let person : Engine V G X = record e {
        state_manager = V.update_person (personal frame t f) e.state_manager;
      } in
      at_remembered t d face
        (queue_action A request_id frame frame_num t.track_id (image_of frame t.bbox) f.locked
          person)
        (at_queue_action t.track_id (image_of frame t.bbox) f.locked person p)

module _ {V : Vision} {G X : Type 0} (R : Core V) where
  pub at_checked_by :
      (t : ℕ) (l : Lock) (v : Option V.Embedding) (e : Engine V G X)
      → HoldsAt R e
      → HoldsAt R (checked_by t l v e)
  at_checked_by t l none e p = p
  at_checked_by t l (some v) e p = p

module _ {S A : Type 0} (Q : A → S → Type 0) (E : S → Type 0) where
  pub Holds-if :
      (b : Bool) (m n : Exec S A) (s : S)
      → (b ≡ true → Holds Q E (m s))
      → (b ≡ false → Holds Q E (n s))
      → Holds Q E ((if b then m else n) s)
  Holds-if true m n s h k = h refl
  Holds-if false m n s h k = k refl

module _ {S A : Type 0} (Q : A → S → Type 0) (E E' : S → Type 0) where
  pub Holds-raised : (r : Outcome A × S) → ((s : S) → E s → E' s) → Holds Q E r → Holds Q E' r
  Holds-raised (ok a, s) f h = h
  Holds-raised (raised, s) f h = f s h

pub absurd : {A : Type 0} (n : ℕ) → 2 ≤ n → n ≤ 1 → A
absurd n p q = ground (arith, p, q)

module _ {V : Vision} {G X : Type 0} (D : Documented V) where
  -- Sound, but for the votes of a track that is being looked at.
  abbrev pub Sound : Option ℕ → Engine V G X → Type 0
  Sound x e = HoldsAt (IsSound D x) e

  -- After the vote: the track's state is as before, and without one it had at most this vote.
  pub record IsReady (t : ℕ) (prev : Option State) (e : Engine V G X) : Type 0 where
    pub sound : Sound (some t) e
    pub state : V.get_state t e.state_manager ≡ prev
    pub first : prev ≡ none → D.votes t e.identity_manager ≤ 1

  pub Sound-merge_tracks :
      (x : Option ℕ) (source target : ℕ) (e : Engine V G X)
      → ((u : ℕ) → (u == source) ≡ false → exempt V u x ≡ false)
      → Sound x e
      → Sound none (merge_tracks source target e)
  unfolding merge_tracks
  Sound-merge_tracks x source target e ex h =
      IsSound-drop D x source e.person_tracker (V.del_active source e.person_tracker)
        e.identity_manager e.state_manager ex (λ u. D.deleted u source e.person_tracker) h

  Sound-embedded :
      (t : ℕ) (v : Option V.Embedding) (n : Option String) (e : Engine V G X)
      → HoldsAt (IsSound D none) e
      → HoldsAt (IsSound D none) (embedded t v n e)
  Sound-embedded t none n e h = h
  Sound-embedded t (some v) n e h = h

  IsReady-now :
      (t : ℕ) (e : Engine V G X) → Sound none e → IsReady t (V.get_state t e.state_manager) e
  IsReady-now t e h = record {
    sound = IsSound-exempt D t e.person_tracker e.identity_manager e.state_manager h;
    state = refl;
    first = λ q. omega (arith, h.unvoted t q refl);
  }

  IsReady-voted :
      (t : ℕ) (r : Result V.Embedding) (e : Engine V G X)
      → V.is_identity_locked t e.identity_manager ≡ false
      → Sound none e
      → IsReady t (V.get_state t e.state_manager) (voted t r e)
  IsReady-voted t r e q h = record {
    sound = IsSound-update_identity D t r e.person_tracker e.identity_manager e.state_manager q h;
    state = refl;
    first = λ p. omega (arith, h.unvoted t p refl, D.voted t r e.identity_manager);
  }

  -- What the vote leaves: the pass of the track has ended, or the track is ready to be settled.
  unfoldable pub After : ℕ → Option State → Bool → Engine V G X → Type 0
  After t prev true e = Sound none e
  After t prev false e = IsReady t prev e

  Holds-join_or_vote :
      (t : ℕ) (r : Result V.Embedding) (o : Option ℕ) (e : Engine V G X)
      → V.is_identity_locked t e.identity_manager ≡ false
      → Sound none e
      → Holds (After t (V.get_state t e.state_manager)) (Sound none) (join_or_vote t r o e)
  unfolding After
  Holds-join_or_vote t r none e q h = IsReady-voted t r e q h
  Holds-join_or_vote t r (some x) e q h = Sound-merge_tracks none x t e (λ u k. refl) h

  Holds-embedded :
      (t : ℕ) (r : Result V.Embedding) (v : Option V.Embedding) (n : Option String) (o : Option ℕ)
      (e : Engine V G X)
      → V.is_identity_locked t e.identity_manager ≡ false
      → Sound none e
      → Holds
          (After t (V.get_state t e.state_manager))
          (Sound none)
          (join_or_vote t r o (embedded t v n e))
  Holds-embedded t r none n o e q h = Holds-join_or_vote t r o e q h
  Holds-embedded t r (some v) n o e q h = Holds-join_or_vote t r o (embedded t (some v) n e) q h

  Holds-vote :
      (t : ℕ) (r : Result V.Embedding) (e : Engine V G X)
      → V.is_identity_locked t e.identity_manager ≡ false
      → Sound none e
      → Holds
          (After t (V.get_state t e.state_manager))
          (Sound none)
          (vote t r (V.get_state t e.state_manager) e)
  unfolding vote After
  Holds-vote t r e q h =
      Holds-if (After t (V.get_state t e.state_manager)) (Sound none) r.face_detected
        (act (embedded t r.embedding (recognized_name r)) >>= λ u. get >>= λ a. join_or_vote t r (
          if is_some (V.get_state t e.state_manager)
          then none
          else returning t (recognized_name r) a))
        (pure false) e
        (λ b.
          Holds-embedded t r r.embedding (recognized_name r)
            (if is_some (V.get_state t e.state_manager)
              then none
              else returning t (recognized_name r) (embedded t r.embedding (recognized_name r) e))
            e q h)
        (λ b. IsReady-now t e h)

  pub Holds-vote_unless :
      (t : ℕ) (r : Result V.Embedding) (b : Bool) (e : Engine V G X)
      → V.is_identity_locked t e.identity_manager ≡ b
      → Sound none e
      → Holds
          (After t (V.get_state t e.state_manager))
          (Sound none)
          (vote_unless t r (V.get_state t e.state_manager) b e)
  unfolding After
  Holds-vote_unless t r true e q h = IsReady-now t e h
  Holds-vote_unless t r false e q h = Holds-vote t r e q h
