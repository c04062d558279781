-- ===== src/CameraEngine/Searches.antt =====
-- What _find_track_with_identity does not find.
use lum_model_face_recogniti.Base.{
  ℕ, ◌≡◌, ◌==◌, ◌⊎◌, Bool, true, false, Option, none, some, List, [], ◌∷◌, if◌then◌else◌, String,
  arith, refl, sym, ap, ◌∙◌, inl, inr, ==_iff,
}
use lum_model_face_recogniti.ActionWorker.Ids.{str_eq_refl}
use lum_model_face_recogniti.CameraEngine.Parts.{Vision, State, is_match, find_in}
use lum_model_face_recogniti.CameraEngine.Sound.{Has, Documented, IsLive}
use lum_model_face_recogniti.CameraEngine.Steps.{some_none}

module _ {V : Vision} (D : Documented V) where
  search_on :
      (b c : Bool) (o : Option ℕ) (k : ℕ)
      → (if b then o else if c then some k else o) ≡ none
      → (o ≡ none) × ((b ≡ true) ⊎ (c ≡ false))
  search_on true c o k h = (h, inl refl)
  search_on false true o k h = some_none (some k) k refl h
  search_on false false o k h = (h, inr refl)

  is_match_all :
      (n : String) (tracker : V.PersonTracker) (s : State)
      → s.identity_locked ≡ true
      → s.identity ≡ some n
      → V.get_track_info s.track_id tracker ≡ true
      → is_match V n tracker s ≡ true
  is_match_all n tracker s l i g = rw (l, i, g, str_eq_refl n) refl

  -- A track that the search does not find.
  Has-find_in :
      (n : String) (t u : ℕ) (tracker : V.PersonTracker) (s : State) (ss : List State)
      → find_in V n t tracker ss ≡ none
      → Has s ss
      → s.track_id ≡ u
      → s.identity_locked ≡ true
      → s.identity ≡ some n
      → V.get_track_info u tracker ≡ true
      → u ≡ t
  Has-find_in n t u tracker s [] q k e l i g = elim k [ ]
  Has-find_in n t u tracker s (x ∷ xs) q (inr k) e l i g =
      Has-find_in n t u tracker s xs
        (search_on (x.track_id == t) (is_match V n tracker x) (find_in V n t tracker xs) x.track_id
          q).0
        k e l i g
  Has-find_in n t u tracker s (x ∷ xs) q (inl p) e l i g =
      elim (search_on (x.track_id == t) (is_match V n tracker x) (find_in V n t tracker xs)
        x.track_id q).1 [
          | inl b ↦ sym e ∙ ap (λ k. k.track_id) (sym p) ∙ (==_iff x.track_id t).0 b
          | inr c ↦ some_none (some true) true refl (
              ground (
                arith,
                c,
                ap (is_match V n tracker) p,
                is_match_all n tracker s l i (ap (λ k. V.get_track_info k tracker) e ∙ g),
              ))
        ]

  -- Where the search finds no other track, none is locked to the name.
  pub IsLive-find_in :
      (n : String) (t u : ℕ) (tracker : V.PersonTracker) (m : V.PersonStateManager)
      → find_in V n t tracker (V.get_all_states m) ≡ none
      → IsLive V n u tracker m
      → u ≡ t
  IsLive-find_in n t u tracker m q l =
      let k = D.listed u m l.state l.found in
      Has-find_in n t u tracker l.state (V.get_all_states m) q k.1 k.0 l.locked l.named l.tracked
