-- ===== src/Tests/Vision.antt =====
-- A small stand-in for lum_vision: states and tracks are lists, votes are counted, two results lock.
use lum_model_face_recogniti.Base.{
  ℕ, suc, ◌≡◌, ◌≤◌, ◌==◌, ◌||◌, Bool, true, false, Option, none, some, List, [], ◌∷◌, leb,
  if◌then◌else◌, String, arith, refl, ap, sym, ◌∙◌, inl, inr, Bool-cases, ==_iff, leb→le,
}
use lum_model_face_recogniti.CameraEngine.Images.{pos}
use lum_model_face_recogniti.CameraEngine.Parts.{Vision, State, Update}
use lum_model_face_recogniti.CameraEngine.Steps.{some_none, some_injective}
use lum_model_face_recogniti.CameraEngine.Sound.{Has, SameLock, Documented, IsSound}

abbrev pub get_state : ℕ → List State → Option State
get_state u [] = none
get_state u (s ∷ m) = if s.track_id == u then some s else get_state u m

abbrev remove_person : ℕ → List State → List State
remove_person t [] = []
remove_person t (s ∷ m) = let rest = remove_person t m in if s.track_id == t then rest else s ∷ rest

abbrev state_of : Update → State
state_of p = record {
  track_id = p.track_id;
  identity = p.identity;
  identity_locked = p.identity_locked;
  first_seen = 100;
}

abbrev update_person : Update → List State → List State
update_person p m = state_of p ∷ remove_person p.track_id m

abbrev has : ℕ → List ℕ → Bool
has u [] = false
has u (x ∷ xs) = x == u || has u xs

abbrev del_active : ℕ → List ℕ → List ℕ
del_active t [] = []
del_active t (x ∷ xs) = let rest = del_active t xs in if x == t then rest else x ∷ rest

-- The results of a track and the last name.
abbrev Votes : Type 0
Votes = ℕ → ℕ × Option String

abbrev set_votes : ℕ → ℕ × Option String → Votes → Votes
set_votes t x i u = if u == t then x else i u

abbrev name_or : Option String → String
name_or none = ""
name_or (some n) = n

abbrev pub vision : Vision
vision = record {
  Embedding = ℕ;
  PersonTracker = List ℕ;
  PersonTrackManager = Unit {0};
  IdentityManager = Votes;
  IDSwitchCorrector = Unit {0};
  PersonStateManager = List State;
  best_match = λ db v. (v, pos 900);
  crop_person_roi = λ frame b. (none, (0, 0));
  laplacian_var = λ i. 0;
  get_track_info = has;
  del_active = del_active;
  get_track_data = λ t m. none;
  set_track_data = λ t d m. m;
  get_crops = λ t m. none;
  set_crops = λ t h m. m;
  remove_track = λ t m. m;
  is_identity_locked = λ t i. leb 2 (i t).0;
  get_locked_identity = λ t i. some (record { name = name_or (i t).1; confidence = 900 });
  update_identity = λ t r i. set_votes t (suc (i t).0, r.name) i;
  get_voting_status = λ t i. some ((i t).1, 400);
  reset_identity = λ t i. set_votes t (0, none) i;
  add_embedding = λ t v n c. c;
  check_identity_consistency = λ t v n c. c;
  reset_embeddings = λ t c. c;
  should_run_correction = λ c. (false, c);
  find_duplicate_tracks = λ c. ([], c);
  get_state = get_state;
  get_all_states = λ m. m;
  update_person = update_person;
  remove_person = remove_person;
}

apart : (x t u : ℕ) → (x == t) ≡ true → (u == t) ≡ false → (x == u) ≡ false
apart x t u b q = ground arith

listed_on :
    (u : ℕ) (x s : State) (m : List State) (b : Bool)
    → (x.track_id == u) ≡ b
    → (get_state u m ≡ some s → (s.track_id ≡ u) × Has s m)
    → (if b then some x else get_state u m) ≡ some s
    → (s.track_id ≡ u) × Has s (x ∷ m)
listed_on u x s m true b k h =
    let e = some_injective x s (some x) refl h in
    (ap (λ k. k.track_id) (sym e) ∙ (==_iff x.track_id u).0 b, inl e)
listed_on u x s m false b k h = let r = k h in (r.0, inr r.1)

listed : (u : ℕ) (m : List State) (s : State) → get_state u m ≡ some s → (s.track_id ≡ u) × Has s m
listed u [] s q = some_none (some s) s refl (sym q)
listed u (x ∷ m) s q = listed_on u x s m (x.track_id == u) refl (listed u m s) q

removed : (t : ℕ) (m : List State) → get_state t (remove_person t m) ≡ none
removed t [] = refl
removed t (x ∷ m) = elim (Bool-cases (x.track_id == t)) [
  | inl b ↦ rw b (removed t m)
  | inr b ↦ rw b (rw b (removed t m))
]

removed_other :
    (u t : ℕ) (m : List State) → (u == t) ≡ false → get_state u (remove_person t m) ≡ get_state u m
removed_other u t [] q = refl
removed_other u t (x ∷ m) q = elim (Bool-cases (x.track_id == t)) [
  | inl b ↦ rw (b, apart x.track_id t u b q) (removed_other u t m q)
  | inr b ↦ rw b (ap (λ o. if x.track_id == u then some x else o) (removed_other u t m q))
]

deleted_on :
    (u t x : ℕ) (xs : List ℕ) (b : Bool)
    → (has u (del_active t xs) ≡ true → has u xs ≡ true)
    → has u (if b then del_active t xs else x ∷ del_active t xs) ≡ true
    → (x == u || has u xs) ≡ true
deleted_on u t x xs true d k = ground (arith, d k)
deleted_on u t x xs false d k = ground (arith, d, k)

deleted : (u t : ℕ) (xs : List ℕ) → has u (del_active t xs) ≡ true → has u xs ≡ true
deleted u t [] h = h
deleted u t (x ∷ xs) h = deleted_on u t x xs (x == t) (deleted u t xs) h

set_votes_same : (t : ℕ) (x : ℕ × Option String) (i : Votes) → set_votes t x i t ≡ x
set_votes_same t x i = rw ((==_iff t t).1 refl) refl

set_votes_other :
    (u t : ℕ) (x : ℕ × Option String) (i : Votes) → (u == t) ≡ false → set_votes t x i u ≡ i u
set_votes_other u t x i q = rw q refl

kept :
    (u t : ℕ) (x : ℕ × Option String) (i : Votes)
    → (u == t) ≡ false
    → SameLock vision (λ u i. (i u).0) u (set_votes t x i) i
kept u t x i q =
    let p = set_votes_other u t x i q in
    record {
      same_votes = ap (λ k. k.0) p;
      same_locked = ap (λ k. leb 2 k.0) p;
      same_lock = ap (λ k. some (record { name = name_or k.1; confidence = 900 })) p;
    }

updated_other :
    (u : ℕ) (p : Update) (m : List State)
    → (u == p.track_id) ≡ false
    → get_state u (update_person p m) ≡ get_state u m
updated_other u p m q =
    rw (apart p.track_id p.track_id u ((==_iff p.track_id p.track_id).1 refl) q)
      (removed_other u p.track_id m q)

ap_le : {n : ℕ} {x : Option String} {k : ℕ × Option String} → k ≡ (n, x) → k.0 ≤ n
ap_le {n} p = omega (arith, ap (λ k. k.0) p)

pub documented : Documented vision
documented = record {
  listed = listed;
  updated = λ p m. (
    state_of p,
    ap (λ b. if b then some (state_of p) else get_state p.track_id (remove_person p.track_id m))
        ((==_iff p.track_id p.track_id).1 refl),
    refl,
    refl,
  );
  updated_other = λ u p m q. updated_other u p m q;
  removed = removed;
  removed_other = removed_other;
  deleted = deleted;
  votes = λ u i. (i u).0;
  locked_late = λ u i h. leb→le 2 (i u).0 h;
  voted = λ t r i. ap_le (set_votes_same t (suc (i t).0, r.name) i);
  voted_other = λ u t r i q. kept u t (suc (i t).0, r.name) i q;
  reset = λ t i. ap (λ k. k.0) (set_votes_same t (0, none) i);
  reset_other = λ u t i q. kept u t (0, none) i q;
}

-- An engine that has seen no one.
pub empty-IsSound : (tracker : List ℕ) → IsSound documented none tracker (λ u. (0, none)) []
unfolding documented
empty-IsSound tracker = record {
  unique = λ n u w a b. some_none (some a.state) a.state refl (sym a.found);
  agrees = λ u s q l. some_none (some s) s refl (sym q);
  unvoted = λ u q e. refl;
}
