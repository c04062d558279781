-- ===== src/CameraEngine/Reported.antt =====
-- When finalize_identities reports a person as recognised.
use lum_model_face_recogniti.Base.{
  ℕ, ◌≡◌, Bool, true, false, not, Option, none, some, List, [], ◌∷◌, String, refl, sym, ap, subst,
  ◌∙◌,
}
use lum_model_face_recogniti.Exec.{
  Outcome, ok, raised, pure, ◌>>=◌, Holds, Ensures, Ensures-bind, Holds-continue,
}
use lum_model_face_recogniti.ActionWorker
use lum_model_face_recogniti.GlobalTrack.{Outside}
use lum_model_face_recogniti.CameraEngine.Images.{Image}
use lum_model_face_recogniti.CameraEngine.Parts.{
  Vision, State, Lock, Result, Track, Engine, find_track_with_identity,
}
use lum_model_face_recogniti.CameraEngine.Recognition.{FaceData, compute_recognition_result}
use lum_model_face_recogniti.CameraEngine.Vote.{Event, is_open, get, act}
use lum_model_face_recogniti.CameraEngine.Finalize.{locked_as, personal}
use lum_model_face_recogniti.CameraEngine.Tracks.{
  recognized_event, reassigned, noted, report_first, join_or_report, lock_first, stay_locked,
  locked_pass, open_pass, name_lock, settle, settle_unless, vote_unless, track_pass,
}
use lum_model_face_recogniti.CameraEngine.Sound.{Documented}
use lum_model_face_recogniti.CameraEngine.Kept.{Core, HoldsAt, Keeps-compute_recognition_result}
use lum_model_face_recogniti.CameraEngine.Voted.{at_note, Holds-if, Holds-raised}

-- One event at most, of a track whose state was open, and names the person that the state is locked to.
pub record IsReport (V : Vision) (t : ℕ) (prev : Option State) (v : Event)
    (m : V.PersonStateManager) : Type 0 where
  pub was_open : is_open prev ≡ true
  pub of_track : v.track_id ≡ t
  pub state : State
  pub found : V.get_state t m ≡ some state
  pub locked : state.identity_locked ≡ true
  pub named : v.name ≡ state.identity

abbrev pub AreReports : (V : Vision) → ℕ → Option State → List Event → V.PersonStateManager → Type 0
AreReports V t prev [] m = Unit
AreReports V t prev (v ∷ []) m = IsReport V t prev v m
AreReports V t prev (v ∷ w ∷ es) m = ⊥

module _ {S A : Type 0} where
  Holds-unit : (r : Outcome A × S) → Holds (λ a s. Unit {0}) (λ s. Unit {0}) r
  Holds-unit (ok a, s) = tt
  Holds-unit (raised, s) = tt

module _ {V : Vision} {G X : Type 0} (D : Documented V) (O : Outside G) (A : ActionWorker.Outside X)
    (request_id : ℕ → ℕ → ℕ → String) (frame : Image) (frame_num : ℕ) where
  Told : ℕ → Option State → List Event → Engine V G X → Type 0
  Told t prev es e = AreReports V t prev es e.state_manager

  Fine : Engine V G X → Type 0
  Fine e = Unit

  Told-noted :
      (t : Track) (d : FaceData V.Embedding) (r : Result V.Embedding) (l : Lock) (s : State)
      (v : Event) (e : Engine V G X)
      → s.identity_locked ≡ false
      → v.track_id ≡ t.track_id
      → v.name ≡ some l.name
      → Told t.track_id (some s) (v ∷ []) (noted O A request_id frame frame_num t d r l e)
  unfolding Told
  Told-noted t d r l s v e q i n =
      let p = personal frame t (locked_as l) in
      let u = D.updated p e.state_manager in
      at_note A request_id frame frame_num
        (λ tracker i m. AreReports V t.track_id (some s) (v ∷ []) m) t d r.face_image (locked_as l)
        e
        record {
          was_open = ap not q;
          of_track = i;
          state = u.0;
          found = u.1;
          locked = u.3;
          named = n ∙ sym u.2;
        }

  Holds-report_first :
      (t : Track) (d : FaceData V.Embedding) (r : Result V.Embedding) (l : Lock) (s : State)
      (e : Engine V G X)
      → s.identity_locked ≡ false
      → Holds
          (Told t.track_id (some s))
          Fine
          (report_first O A request_id frame frame_num t d r l s e)
  unfolding Told Fine
  Holds-report_first t d r l s e q =
      (Ensures-bind {E = Fine} {Q = λ g. Fine} {Q' = Told t.track_id (some s)} {P = Fine}
          (reassigned O t l.name)
          (λ g. get >>= λ a. act (noted O A request_id frame frame_num t d r l) >>= λ u.
            pure (recognized_event t l s g r a ∷ []))
          (record { at = λ a p. Holds-unit (reassigned O t l.name a) })
          (λ g. record {
            at = λ a p. Told-noted t d r l s (recognized_event t l s g r a) a q refl refl;
          })).at
        e tt

  Holds-join_or_report :
      (t : Track) (d : FaceData V.Embedding) (r : Result V.Embedding) (l : Lock) (s : State)
      (o : Option ℕ) (e : Engine V G X)
      → s.identity_locked ≡ false
      → Holds
          (Told t.track_id (some s))
          Fine
          (join_or_report O A request_id frame frame_num t d r l s o e)
  unfolding Told
  Holds-join_or_report t d r l s (some x) e q = tt
  Holds-join_or_report t d r l s none e q = Holds-report_first t d r l s e q

  Holds-locked_pass :
      (t : Track) (d : FaceData V.Embedding) (r : Result V.Embedding) (l : Lock)
      (prev : Option State) (e : Engine V G X)
      → Holds
          (Told t.track_id prev)
          Fine
          (locked_pass O A request_id frame frame_num t d r l prev e)
  unfolding Told
  Holds-locked_pass t d r l none e = tt
  Holds-locked_pass t d r l (some s) e =
      Holds-if (Told t.track_id (some s)) Fine s.identity_locked
        (stay_locked O A request_id frame frame_num t d r l)
        (lock_first O A request_id frame frame_num t d r l s) e (λ k. tt)
        (λ k. Holds-join_or_report t d r l s (find_track_with_identity l.name t.track_id e) e k)

  Holds-name_lock :
      (t : Track) (d : FaceData V.Embedding) (r : Result V.Embedding) (prev : Option State)
      (o : Option Lock) (e : Engine V G X)
      → Holds (Told t.track_id prev) Fine (name_lock O A request_id frame frame_num t d r prev o e)
  unfolding Fine
  Holds-name_lock t d r prev none e = tt
  Holds-name_lock t d r prev (some l) e = Holds-locked_pass t d r l prev e

  Ensures-settle_unless :
      (t : Track) (d : FaceData V.Embedding) (r : Result V.Embedding) (prev : Option State)
      (merged : Bool)
      → Ensures Fine
          (settle_unless O A request_id frame frame_num t d r prev merged)
          (Told t.track_id prev)
          Fine
  unfolding Told settle
  Ensures-settle_unless t d r prev true = record { at = λ e p. tt }
  Ensures-settle_unless t d r prev false = record {
    at = λ e p.
        Holds-if (Told t.track_id prev) Fine (V.is_identity_locked t.track_id e.identity_manager)
          (name_lock O A request_id frame frame_num t d r prev
            (V.get_locked_identity t.track_id e.identity_manager))
          (open_pass O A request_id frame frame_num t d r) e
          (λ k. Holds-name_lock t d r prev (V.get_locked_identity t.track_id e.identity_manager) e)
          (λ k. tt);
  }

  -- The state of the track is read after the recognition, which leaves the states alone.
  Holds-track_pass :
      (t : Track) (d : FaceData V.Embedding) (e : Engine V G X)
      → Holds
          (Told t.track_id (V.get_state t.track_id e.state_manager))
          Fine
          (track_pass O A request_id frame frame_num t d e)
  unfolding track_pass Fine
  Holds-track_pass t d e =
      let R : Core V = λ tracker i m. m ≡ e.state_manager in
      (Ensures-bind {E = Fine} {Q = λ r. HoldsAt R}
          {Q' = Told t.track_id (V.get_state t.track_id e.state_manager)} {P = HoldsAt R}
          (compute_recognition_result {V = V} {X = X} O t.track_id d)
          (λ r. get {V = V} {G = G} {X = X} >>= λ a.
            vote_unless t.track_id r (V.get_state t.track_id a.state_manager)
              (V.is_identity_locked t.track_id a.identity_manager)
            >>= settle_unless O A request_id frame frame_num t d r
                (V.get_state t.track_id a.state_manager))
          (record {
            at = λ a p.
                Holds-raised (λ r. HoldsAt R) (HoldsAt R) Fine
                  (compute_recognition_result {V = V} {X = X} O t.track_id d a) (λ s q. tt)
                  ((Keeps-compute_recognition_result {V = V} {X = X} O R t.track_id d).at a p);
          })
          (λ r. record {
            at = λ a p.
                subst
                  (λ m. Holds (Told t.track_id (V.get_state t.track_id m)) Fine (
                    (vote_unless t.track_id r (V.get_state t.track_id a.state_manager)
                          (V.is_identity_locked t.track_id a.identity_manager)
                        >>= settle_unless O A request_id frame frame_num t d r
                            (V.get_state t.track_id a.state_manager))
                      a))
                  p
                  (Holds-continue {E = Fine} {Q = λ b s. Unit {0}}
                    {Q' = Told t.track_id (V.get_state t.track_id a.state_manager)}
                    (vote_unless t.track_id r (V.get_state t.track_id a.state_manager)
                      (V.is_identity_locked t.track_id a.identity_manager) a)
                    (settle_unless O A request_id frame frame_num t d r
                      (V.get_state t.track_id a.state_manager))
                    (Holds-unit (
                      vote_unless t.track_id r (V.get_state t.track_id a.state_manager)
                        (V.is_identity_locked t.track_id a.identity_manager) a))
                    (Ensures-settle_unless t d r (V.get_state t.track_id a.state_manager)));
          })).at
        e refl

  -- An active track is reported as recognised at most once in a pass that returns, only where it had a
  -- state that was not locked, and the state is locked afterwards to the name that is reported: so a
  -- person is not reported again while the state stays locked.
  pub track_pass-AreReports :
      (t : Track) (d : FaceData V.Embedding) (e e' : Engine V G X) (es : List Event)
      → track_pass O A request_id frame frame_num t d e ≡ (ok es, e')
      → AreReports V t.track_id (V.get_state t.track_id e.state_manager) es e'.state_manager
  unfolding Told
  track_pass-AreReports t d e e' es q =
      subst (Holds (Told t.track_id (V.get_state t.track_id e.state_manager)) Fine) q
        (Holds-track_pass t d e)
