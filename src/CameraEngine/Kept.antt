-- ===== src/CameraEngine/Kept.antt =====
-- The parts of finalize_identities that leave the states, the locks and the tracks alone.
use lum_model_face_recogniti.Base.{
  ℕ, Bool, true, false, Option, none, some, List, [], ◌∷◌, String, if◌then◌else◌,
}
use lum_model_face_recogniti.Exec.{
  Outcome, ok, raised, Exec, pure, ◌>>=◌, Holds, Ensures, Ensures-pure, Ensures-bind,
}
use lum_model_face_recogniti.GlobalTrack.{
  Outside, Arguments, Method, on_face_detected, on_face_not_visible, Value, known, local,
  update_global_track_identity, reassign_local_track,
}
use lum_model_face_recogniti.CameraEngine.Images.{ℤ, pos}
use lum_model_face_recogniti.CameraEngine.Vote.{get}
use lum_model_face_recogniti.CameraEngine.Finalize.{is_other}
use lum_model_face_recogniti.CameraEngine.Tracks.{
  publish_identity, reassign, adopt_global, find_global, global_id_if, reassigned,
}
use lum_model_face_recogniti.CameraEngine.Parts.{Vision, Engine, Track}
use lum_model_face_recogniti.CameraEngine.Recognition.{
  FaceData, name_at, reaches, about_track, tell, tell_face, matched, unmatched, judged,
  recognize_with, faceless, recognition_of, compute_recognition_result,
}

module _ {S A : Type 0} where
  pub Holds-all : (Q : S → Type 0) (r : Outcome A) (s : S) → Q s → Holds (λ a. Q) Q (r, s)
  Holds-all Q (ok a) s q = q
  Holds-all Q raised s q = q

-- A predicate on the tracks, the locks and the states of an engine.
abbrev pub Core : Vision → Type 1
Core V = V.PersonTracker → V.IdentityManager → V.PersonStateManager → Type 0

module _ {V : Vision} {G X : Type 0} where
  abbrev pub HoldsAt : Core V → Engine V G X → Type 0
  HoldsAt R e = R e.person_tracker e.identity_manager e.state_manager

module _ {V : Vision} {G X : Type 0} (O : Outside G) (R : Core V) where
  -- The action leaves `R` as it is, however it ends.
  abbrev pub Keeps : {A : Type 0} → Exec (Engine V G X) A → Type 0
  Keeps m = Ensures (HoldsAt R) m (λ a. HoldsAt R) (HoldsAt R)

  pub Keeps-tell : (method : Method) (a : Arguments) → Keeps (tell O method a)
  unfolding tell
  Keeps-tell method a = record { at = λ e p. Holds-all (HoldsAt R) _ _ p }

  Keeps-bind :
      {A B : Type 0} (m : Exec (Engine V G X) A) (f : A → Exec (Engine V G X) B)
      → Keeps m
      → ((a : A) → Keeps (f a))
      → Keeps (m >>= f)
  Keeps-bind m f h k = Ensures-bind m f h k

  Keeps-pure : {A : Type 0} (a : A) → Keeps (pure a)
  Keeps-pure a = Ensures-pure a (λ e p. p)

  Keeps-if :
      {A : Type 0} (b : Bool) (m n : Exec (Engine V G X) A)
      → Keeps m
      → Keeps n
      → Keeps (if b then m else n)
  Keeps-if true m n h k = h
  Keeps-if false m n h k = k

  Keeps-tell_face :
      (t : ℕ) (d : FaceData V.Embedding) (n : Option String) (b : Bool)
      → Keeps (tell_face O t d n b)
  Keeps-tell_face t d n b = record { at = λ e p. (Keeps-tell on_face_detected _).at e p }

  Keeps-matched :
      (t : ℕ) (d : FaceData V.Embedding) (v : V.Embedding) (k : ℤ) (o : Outcome String)
      → Keeps (matched O t d v k o)
  Keeps-matched t d v k raised = record { at = λ e p. p }
  Keeps-matched t d v k (ok name) =
      Keeps-bind (tell_face O t d (some name) true) (λ u. pure _)
        (Keeps-tell_face t d (some name) true) (λ u. Keeps-pure _)

  Keeps-unmatched :
      (t : ℕ) (d : FaceData V.Embedding) (v : V.Embedding) (k : ℤ) → Keeps (unmatched O t d v k)
  Keeps-unmatched t d v k =
      Keeps-bind (tell_face O t d none false) (λ u. pure _) (Keeps-tell_face t d none false)
        (λ u. Keeps-pure _)

  Keeps-judged :
      (names : List String) (k t : ℕ) (d : FaceData V.Embedding) (v : V.Embedding) (b : ℕ × ℤ)
      → Keeps (judged O names k t d v b)
  Keeps-judged names k t d v (i, s) =
      Keeps-if (reaches k s) (matched O t d v s (name_at i names)) (unmatched O t d v s)
        (Keeps-matched t d v s (name_at i names)) (Keeps-unmatched t d v s)

  Keeps-recognize_with :
      (names : List String) (embs : List V.Embedding) (k t : ℕ) (d : FaceData V.Embedding)
      (v : V.Embedding)
      → Keeps (recognize_with O names embs k t d v)
  Keeps-recognize_with names [] k t d v = Keeps-unmatched t d v (pos 0)
  Keeps-recognize_with names (x ∷ xs) k t d v = Keeps-judged names k t d v (V.best_match (x ∷ xs) v)

  Keeps-faceless : (t : ℕ) (b : Bool) → Keeps (faceless O t b)
  Keeps-faceless t b = record {
    at = λ e p.
        (Keeps-bind (tell O on_face_not_visible (about_track e.camera_id t)) (λ u. pure _)
            (Keeps-tell on_face_not_visible (about_track e.camera_id t)) (λ u. Keeps-pure _)).at
          e p;
  }

  Keeps-recognition_of :
      (t : ℕ) (d : FaceData V.Embedding) (b : Bool) (v : Option V.Embedding)
      → Keeps (recognition_of O t d b v)
  Keeps-recognition_of t d true (some v) = record {
    at = λ e p.
        (Keeps-recognize_with e.face_recognizer.db_names e.face_recognizer.db_embs e.match_threshold
            t d v).at
          e p;
  }
  Keeps-recognition_of t d true none = Keeps-faceless t true
  Keeps-recognition_of t d false v = Keeps-faceless t false

  pub Keeps-compute_recognition_result :
      (t : ℕ) (d : FaceData V.Embedding) → Keeps (compute_recognition_result O t d)
  unfolding compute_recognition_result
  Keeps-compute_recognition_result t d = Keeps-recognition_of t d d.face_detected d.embedding

  pub Keeps-get :
      {A : Type 0} (f : Engine V G X → Exec (Engine V G X) A)
      → ((e : Engine V G X) → Keeps (f e))
      → Keeps (get >>= f)
  Keeps-get f h = record { at = λ e p. (h e).at e p }

  Keeps-publish_identity :
      (t : ℕ) (n : String) (v : Option Value) → Keeps (publish_identity O t n v)
  Keeps-publish_identity t n (some (known (some i))) = record {
    at = λ e p. (Keeps-tell update_global_track_identity _).at e p;
  }
  Keeps-publish_identity t n (some (known none)) = record { at = λ e p. p }
  Keeps-publish_identity t n (some (local k)) = record { at = λ e p. p }
  Keeps-publish_identity t n none = record { at = λ e p. p }

  Keeps-reassign : (t g : ℕ) → Keeps (reassign O t g)
  Keeps-reassign t g = record { at = λ e p. (Keeps-tell reassign_local_track _).at e p }

  Keeps-adopt_global : (t : Track) (n : String) (g : Option ℕ) → Keeps (adopt_global O t n g)
  Keeps-adopt_global t n none =
      Keeps-bind (publish_identity O t.track_id n t.global_track_id) (λ u. pure t.global_track_id)
        (Keeps-publish_identity t.track_id n t.global_track_id) (λ u. Keeps-pure t.global_track_id)
  Keeps-adopt_global t n (some g) =
      Keeps-if (is_other g t.global_track_id)
        (reassign O t.track_id g >>= λ u. pure (some (known (some g)))) (pure t.global_track_id)
        (Keeps-bind (reassign O t.track_id g) (λ u. pure (some (known (some g))))
          (Keeps-reassign t.track_id g) (λ u. Keeps-pure (some (known (some g)))))
        (Keeps-pure t.global_track_id)

  Keeps-find_global : (t : ℕ) (n : String) → Keeps (find_global O t n)
  Keeps-find_global t n = record { at = λ e p. Holds-all (HoldsAt R) _ _ p }

  Keeps-global_id_if : (b : Bool) (t : Track) (n : String) → Keeps (global_id_if O b t n)
  Keeps-global_id_if false t n = Keeps-pure t.global_track_id
  Keeps-global_id_if true t n =
      Keeps-bind (find_global O t.track_id n) (adopt_global O t n) (Keeps-find_global t.track_id n)
        (Keeps-adopt_global t n)

  pub Keeps-reassigned : (t : Track) (n : String) → Keeps (reassigned O t n)
  unfolding reassigned
  Keeps-reassigned t n =
      Keeps-get (λ e. global_id_if O e.global_enabled t n)
        (λ e. Keeps-global_id_if e.global_enabled t n)
