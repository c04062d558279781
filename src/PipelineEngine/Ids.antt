-- ===== src/PipelineEngine/Ids.antt =====
-- The ids of the cameras, and what an update in place makes of them.
use lum_model_face_recogniti.Base.{
  ℕ, ◌≡◌, ◌||◌, Bool, true, false, Option, none, some, List, [], ◌∷◌, arith, refl, sym, ap, ◌∙◌,
  inl, inr, Bool-cases, ==_iff,
}
use lum_model_face_recogniti.Exec.{Outcome, ok}
use lum_model_face_recogniti.PipelineEngine.{
  CameraConfig, same_id, has_id, cons_id, camera_ids, update_first, update_all,
}

pub same_id-eq : (a b : Option ℕ) → same_id a b ≡ true → a ≡ b
same_id-eq none none q = refl
same_id-eq (some a) (some b) q = ap some ((==_iff a b).0 q)
same_id-eq none (some b) q = ground (arith, q)
same_id-eq (some a) none q = ground (arith, q)

-- The ids in order.
abbrev pub ids : List CameraConfig → List (Option ℕ)
ids [] = []
ids (c ∷ cs) = c.camera_id ∷ ids cs

pub ids-update_first :
    (c : CameraConfig) (cs : List CameraConfig) → ids (update_first c cs) ≡ ids cs
ids-update_first c [] = refl
ids-update_first c (d ∷ cs) = elim (Bool-cases (same_id d.camera_id c.camera_id)) [
  | inl q ↦ rw q (ap (λ k. k ∷ ids cs) (sym (same_id-eq d.camera_id c.camera_id q)))
  | inr q ↦ rw q (ap (λ l. d.camera_id ∷ l) (ids-update_first c cs))
]

ids-update_all : (news cs : List CameraConfig) → ids (update_all news cs) ≡ ids cs
unfolding update_all
ids-update_all [] cs = refl
ids-update_all (c ∷ news) cs = ids-update_all news (update_first c cs) ∙ ids-update_first c cs

-- The ids decide what _camera_ids answers.
unfoldable pub has_in : Option ℕ → List (Option ℕ) → Bool
has_in k [] = false
has_in k (x ∷ xs) = same_id x k || has_in k xs

ids_of : List (Option ℕ) → Outcome (List ℕ)
ids_of [] = ok []
ids_of (x ∷ xs) = cons_id x (has_in x xs) (ids_of xs)

pub has_id-ids : (k : Option ℕ) (cs : List CameraConfig) → has_id k cs ≡ has_in k (ids cs)
unfolding has_in
has_id-ids k [] = refl
has_id-ids k (c ∷ cs) = ap (λ b. same_id c.camera_id k || b) (has_id-ids k cs)

camera_ids-ids : (cs : List CameraConfig) → camera_ids cs ≡ ids_of (ids cs)
unfolding camera_ids ids_of
camera_ids-ids [] = refl
camera_ids-ids (c ∷ cs) =
    ap (λ b. cons_id c.camera_id b (camera_ids cs)) (has_id-ids c.camera_id cs)
    ∙ ap (cons_id c.camera_id (has_in c.camera_id (ids cs))) (camera_ids-ids cs)

pub camera_ids-update_all :
    (news cs : List CameraConfig) → camera_ids (update_all news cs) ≡ camera_ids cs
camera_ids-update_all news cs =
    camera_ids-ids (update_all news cs)
    ∙ ap ids_of (ids-update_all news cs)
    ∙ sym (camera_ids-ids cs)
