-- ===== src/CameraEngine/Sound.antt =====
-- The states and the locks of the tracks of a camera engine, and the steps of finalize_identities that
-- change them. `Documented` is what the code relies on in lum_vision.
use lum_model_face_recogniti.Base.{
  ℕ, suc, ◌≡◌, ◌≤◌, ◌==◌, ◌⊎◌, Bool, true, false, Option, none, some, List, [], ◌∷◌, String,
}
use lum_model_face_recogniti.CameraEngine.Parts.{Vision, State, Update, Lock, Result}

abbrev pub Has : State → List State → Type 0
Has s [] = ⊥
Has s (x ∷ xs) = (x ≡ s) ⊎ Has s xs

module _ (V : Vision) where
  -- The identity manager tells the same of a track.
  pub record SameLock (votes : ℕ → V.IdentityManager → ℕ) (u : ℕ) (i j : V.IdentityManager)
      : Type 0 where
    pub same_votes : votes u i ≡ votes u j
    pub same_locked : V.is_identity_locked u i ≡ V.is_identity_locked u j
    pub same_lock : V.get_locked_identity u i ≡ V.get_locked_identity u j

  -- The state manager is a map by track id. The identity manager counts the results of a track
  -- since its last reset in `votes`, and locks no track by its first (identity_lock_frames is 5).
  pub record Documented : Type 0 where
    pub listed :
        (u : ℕ) (m : V.PersonStateManager) (s : State)
        → V.get_state u m ≡ some s
        → (s.track_id ≡ u) × Has s (V.get_all_states m)
    pub updated :
        (p : Update) (m : V.PersonStateManager)
        → (s : State) × (V.get_state p.track_id (V.update_person p m) ≡ some s)
          × (s.identity ≡ p.identity)
          × (s.identity_locked ≡ p.identity_locked)
    pub updated_other :
        (u : ℕ) (p : Update) (m : V.PersonStateManager)
        → (u == p.track_id) ≡ false
        → V.get_state u (V.update_person p m) ≡ V.get_state u m
    pub removed : (t : ℕ) (m : V.PersonStateManager) → V.get_state t (V.remove_person t m) ≡ none
    pub removed_other :
        (u t : ℕ) (m : V.PersonStateManager)
        → (u == t) ≡ false
        → V.get_state u (V.remove_person t m) ≡ V.get_state u m
    pub deleted :
        (u t : ℕ) (m : V.PersonTracker)
        → V.get_track_info u (V.del_active t m) ≡ true
        → V.get_track_info u m ≡ true
    pub votes : ℕ → V.IdentityManager → ℕ
    pub locked_late :
        (u : ℕ) (i : V.IdentityManager) → V.is_identity_locked u i ≡ true → 2 ≤ votes u i
    pub voted :
        (t : ℕ) (r : Result V.Embedding) (i : V.IdentityManager)
        → votes t (V.update_identity t r i) ≤ suc (votes t i)
    pub voted_other :
        (u t : ℕ) (r : Result V.Embedding) (i : V.IdentityManager)
        → (u == t) ≡ false
        → SameLock votes u (V.update_identity t r i) i
    pub reset : (t : ℕ) (i : V.IdentityManager) → votes t (V.reset_identity t i) ≡ 0
    pub reset_other :
        (u t : ℕ) (i : V.IdentityManager)
        → (u == t) ≡ false
        → SameLock votes u (V.reset_identity t i) i

  -- Track `u` is still tracked, and locked to the name.
  pub record IsLive (n : String) (u : ℕ) (tracker : V.PersonTracker) (m : V.PersonStateManager)
      : Type 0 where
    pub state : State
    pub found : V.get_state u m ≡ some state
    pub locked : state.identity_locked ≡ true
    pub named : state.identity ≡ some n
    pub tracked : V.get_track_info u tracker ≡ true

  abbrev pub exempt : ℕ → Option ℕ → Bool
  exempt u none = false
  exempt u (some t) = u == t

module _ {V : Vision} (D : Documented V) where
  -- No two tracked tracks are locked to one name, a locked state agrees with the identity manager,
  -- and a track without a state has no votes, but for one that is being looked at.
  pub record IsSound (x : Option ℕ) (tracker : V.PersonTracker) (i : V.IdentityManager)
      (m : V.PersonStateManager) : Type 0 where
    pub unique : (n : String) (u w : ℕ) → IsLive V n u tracker m → IsLive V n w tracker m → u ≡ w
    pub agrees :
        (u : ℕ) (s : State)
        → V.get_state u m ≡ some s
        → s.identity_locked ≡ true
        → (V.is_identity_locked u i ≡ true)
          × (l : Lock) × (V.get_locked_identity u i ≡ some l)
          × (s.identity ≡ some l.name)
    pub unvoted : (u : ℕ) → V.get_state u m ≡ none → exempt V u x ≡ false → D.votes u i ≡ 0
