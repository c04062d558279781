-- ===== src/CameraEngine/Steps.antt =====
-- How the states and the locks of the tracks change in one step of finalize_identities.
use lum_model_face_recogniti.Base.{
  ℕ, ◌≡◌, ◌==◌, true, false, Option, none, some, String, arith, refl, sym, ap, subst, ◌∙◌, inl, inr,
  Bool-cases, ==_iff,
}
use lum_model_face_recogniti.CameraEngine.Parts.{Vision, State, Update, Lock, Result}
use lum_model_face_recogniti.CameraEngine.Sound.{Documented, IsLive, exempt, IsSound}

pub some_none : {A B : Type 0} (o : Option A) (a : A) → o ≡ some a → o ≡ none → B
some_none o a p q = ground (arith, p, q)

pub some_injective : {A : Type 0} (a b : A) (o : Option A) → o ≡ some a → o ≡ some b → a ≡ b
some_injective a b o p q = ground (arith, p, q)

module _ {V : Vision} (D : Documented V) where
  -- What a step that leaves `u` as it is keeps of it.
  IsLive-transport :
      (n : String) (u : ℕ) (tracker tracker' : V.PersonTracker) (m m' : V.PersonStateManager)
      → V.get_state u m' ≡ V.get_state u m
      → (V.get_track_info u tracker' ≡ true → V.get_track_info u tracker ≡ true)
      → IsLive V n u tracker' m'
      → IsLive V n u tracker m
  IsLive-transport n u tracker tracker' m m' p t l = record {
    state = l.state;
    found = sym p ∙ l.found;
    locked = l.locked;
    named = l.named;
    tracked = t l.tracked;
  }

  -- The person of a track is removed and its lock is reset.
  pub IsSound-drop :
      (x : Option ℕ) (t : ℕ) (tracker tracker' : V.PersonTracker) (i : V.IdentityManager)
      (m : V.PersonStateManager)
      → ((u : ℕ) → (u == t) ≡ false → exempt V u x ≡ false)
      → ((u : ℕ) → V.get_track_info u tracker' ≡ true → V.get_track_info u tracker ≡ true)
      → IsSound D x tracker i m
      → IsSound D none tracker' (V.reset_identity t i) (V.remove_person t m)
  IsSound-drop x t tracker tracker' i m ex tracked h =
      let other : (u : ℕ) (s : State)
          → V.get_state u (V.remove_person t m) ≡ some s
          → (u == t) ≡ false =
        λ u s q. elim (Bool-cases (u == t)) [
          | inr b ↦ b
          | inl b ↦
              some_none (V.get_state t (V.remove_person t m)) s
                (ap (λ k. V.get_state k (V.remove_person t m)) (sym ((==_iff u t).0 b)) ∙ q)
                (D.removed t m)
        ] in
      let live : (n : String) (u : ℕ)
          → IsLive V n u tracker' (V.remove_person t m)
          → IsLive V n u tracker m =
        λ n u l.
          IsLive-transport n u tracker tracker' m (V.remove_person t m)
            (D.removed_other u t m (other u l.state l.found)) (tracked u) l in
      record {
        unique = λ n u w a b. h.unique n u w (live n u a) (live n w b);
        agrees = λ u s q l.
            let b = other u s q in
            let a = h.agrees u s (sym (D.removed_other u t m b) ∙ q) l in
            let same = D.reset_other u t i b in
            (same.same_locked ∙ a.0, a.1, same.same_lock ∙ a.2, a.3);
        unvoted = λ u q e. elim (Bool-cases (u == t)) [
          | inl b ↦ ap (λ k. D.votes k (V.reset_identity t i)) ((==_iff u t).0 b) ∙ D.reset t i
          | inr b ↦
              (D.reset_other u t i b).same_votes
              ∙ h.unvoted u (sym (D.removed_other u t m b) ∙ q) (ex u b)
        ];
      }

  -- The state of a track is written, with a lock where the identity manager has it and no other
  -- tracked track is locked to the name.
  pub IsSound-update_person :
      (p : Update) (tracker : V.PersonTracker) (i : V.IdentityManager) (m : V.PersonStateManager)
      → (p.identity_locked ≡ true
          → (V.is_identity_locked p.track_id i ≡ true)
            × (l : Lock) × (V.get_locked_identity p.track_id i ≡ some l)
            × (p.identity ≡ some l.name))
      → ((n : String) (u : ℕ)
          → p.identity_locked ≡ true
          → p.identity ≡ some n
          → V.get_track_info p.track_id tracker ≡ true
          → IsLive V n u tracker m
          → u ≡ p.track_id)
      → IsSound D (some p.track_id) tracker i m
      → IsSound D none tracker i (V.update_person p m)
  IsSound-update_person p tracker i m lock fresh h =
      let new = D.updated p m in
      let same : (u : ℕ) (s : State)
          → (u == p.track_id) ≡ true
          → V.get_state u (V.update_person p m) ≡ some s
          → new.0 ≡ s =
        λ u s b q.
          some_injective new.0 s (V.get_state p.track_id (V.update_person p m)) new.1
            (ap (λ k. V.get_state k (V.update_person p m)) (sym ((==_iff u p.track_id).0 b)) ∙ q) in
      let before : (n : String) (u : ℕ)
          → (u == p.track_id) ≡ false
          → IsLive V n u tracker (V.update_person p m)
          → IsLive V n u tracker m =
        λ n u b l.
          IsLive-transport n u tracker tracker m (V.update_person p m) (D.updated_other u p m b)
            (λ t. t) l in
      let joins : (n : String) (u w : ℕ)
          → (u == p.track_id) ≡ true
          → IsLive V n u tracker (V.update_person p m)
          → IsLive V n w tracker (V.update_person p m)
          → u ≡ w =
        λ n u w b a c. elim (Bool-cases (w == p.track_id)) [
          | inl d ↦ (==_iff u p.track_id).0 b ∙ sym ((==_iff w p.track_id).0 d)
          | inr d ↦
              let s = same u a.state b a.found in
              (==_iff u p.track_id).0 b
              ∙ sym (
                  fresh n w (sym new.3 ∙ ap (λ k. k.identity_locked) s ∙ a.locked)
                    (sym new.2 ∙ ap (λ k. k.identity) s ∙ a.named)
                    (ap (λ k. V.get_track_info k tracker) (sym ((==_iff u p.track_id).0 b))
                      ∙ a.tracked)
                    (before n w d c))
        ] in
      record {
        unique = λ n u w a b. elim (Bool-cases (u == p.track_id)) [
          | inl c ↦ joins n u w c a b
          | inr c ↦ elim (Bool-cases (w == p.track_id)) [
            | inl d ↦ sym (joins n w u d b a)
            | inr d ↦ h.unique n u w (before n u c a) (before n w d b)
          ]
        ];
        agrees = λ u s q l. elim (Bool-cases (u == p.track_id)) [
          | inl c ↦
              let e = same u s c q in
              let a = lock (sym new.3 ∙ ap (λ k. k.identity_locked) e ∙ l) in
              subst
                (λ k.
                  (V.is_identity_locked k i ≡ true)
                  × (l : Lock) × (V.get_locked_identity k i ≡ some l)
                  × (s.identity ≡ some l.name))
                (sym ((==_iff u p.track_id).0 c))
                (a.0, a.1, a.2, sym (ap (λ k. k.identity) e) ∙ new.2 ∙ a.3)
          | inr c ↦ h.agrees u s (sym (D.updated_other u p m c) ∙ q) l
        ];
        unvoted = λ u q e. elim (Bool-cases (u == p.track_id)) [
          | inl c ↦
              some_none (V.get_state p.track_id (V.update_person p m)) new.0 new.1 (
                ap (λ k. V.get_state k (V.update_person p m)) (sym ((==_iff u p.track_id).0 c)) ∙ q)
          | inr c ↦ h.unvoted u (sym (D.updated_other u p m c) ∙ q) c
        ];
      }

  -- A result is put to the vote for a track that is not locked.
  pub IsSound-update_identity :
      (t : ℕ) (r : Result V.Embedding) (tracker : V.PersonTracker) (i : V.IdentityManager)
      (m : V.PersonStateManager)
      → V.is_identity_locked t i ≡ false
      → IsSound D none tracker i m
      → IsSound D (some t) tracker (V.update_identity t r i) m
  IsSound-update_identity t r tracker i m unlocked h = record {
    unique = h.unique;
    agrees = λ u s q l.
        let a = h.agrees u s q l in
        elim (Bool-cases (u == t)) [
          | inl b ↦
              some_none (some a.1) a.1 refl (
                ground
                  (arith, a.0, unlocked, ap (λ k. V.is_identity_locked k i) ((==_iff u t).0 b)))
          | inr b ↦
              let same = D.voted_other u t r i b in
              (same.same_locked ∙ a.0, a.1, same.same_lock ∙ a.2, a.3)
        ];
    unvoted = λ u q e. (D.voted_other u t r i e).same_votes ∙ h.unvoted u q refl;
  }

  -- A track with a state needs no exemption.
  pub IsSound-seen :
      (t : ℕ) (s : State) (tracker : V.PersonTracker) (i : V.IdentityManager)
      (m : V.PersonStateManager)
      → V.get_state t m ≡ some s
      → IsSound D (some t) tracker i m
      → IsSound D none tracker i m
  IsSound-seen t s tracker i m p h = record {
    unique = h.unique;
    agrees = h.agrees;
    unvoted = λ u q e. elim (Bool-cases (u == t)) [
      | inl b ↦
          some_none (V.get_state t m) s p (ap (λ k. V.get_state k m) (sym ((==_iff u t).0 b)) ∙ q)
      | inr b ↦ h.unvoted u q b
    ];
  }

  pub IsSound-exempt :
      (t : ℕ) (tracker : V.PersonTracker) (i : V.IdentityManager) (m : V.PersonStateManager)
      → IsSound D none tracker i m
      → IsSound D (some t) tracker i m
  IsSound-exempt t tracker i m h = record {
    unique = h.unique;
    agrees = h.agrees;
    unvoted = λ u q e. h.unvoted u q refl;
  }
