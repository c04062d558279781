-- ===== src/PipelineEngine/Settings.antt =====
-- The settings of the cameras after a reload.
use lum_model_face_recogniti.Base.{
  ℕ, ◌≡◌, ◌&&◌, ◌||◌, not, Bool, true, false, Option, none, some, List, [], ◌∷◌, if◌then◌else◌,
  String, arith, refl, sym, ap, ap₂, subst, ◌∙◌, inl, inr, both, Bool-cases,
}
use lum_model_face_recogniti.Exec.{Outcome, ok, raised}
use lum_model_face_recogniti.Attendance.{find}
use lum_model_face_recogniti.DecodeWorker.Held.{find-synced}
use lum_model_face_recogniti.CameraEngine.Steps.{some_none}
use lum_model_face_recogniti.PipelineEngine.{
  CameraConfig, same_id, has_id, is_within, same_ids, cons_id, camera_ids, Outside, Engine,
  update_first, update_all, forget_removed, notified, commit, replaced, loaded,
  reload_camera_configs,
}
use lum_model_face_recogniti.PipelineEngine.Ids.{same_id-eq, ids-update_first, has_in, has_id-ids}

-- What a camera is configured with under a key.
abbrev pub setting : Option ℕ → String → List CameraConfig → Option String
setting k n [] = none
setting k n (c ∷ cs) = if same_id c.camera_id k then find n c.settings else setting k n cs

setting-absent :
    (k : Option ℕ) (n : String) (cs : List CameraConfig)
    → has_id k cs ≡ false
    → setting k n cs ≡ none
setting-absent k n [] q = refl
setting-absent k n (c ∷ cs) q =
    let b : same_id c.camera_id k ≡ false = ground (arith, q) in
    rw b (setting-absent k n cs (ground (arith, q)))

not_both : (x y k : Option ℕ) → same_id x y ≡ false → (same_id y k && same_id x k) ≡ false
not_both x y k q = elim (Bool-cases (same_id y k)) [
  | inr b ↦ ground (arith, b)
  | inl b ↦ ground (arith, b, q, ap (same_id x) (same_id-eq y k b))
]

swapped :
    (a b : Bool) (x y z : Option String)
    → (a && b) ≡ false
    → (if b then y else if a then x else z) ≡ (if a then x else if b then y else z)
swapped true true x y z e = ground (arith, e)
swapped true false x y z e = refl
swapped false b x y z e = refl

passed_over :
    (a b : Bool) (x y z : Option String)
    → b ≡ a
    → (if a then x else z) ≡ (if a then x else if b then y else z)
passed_over true b x y z e = refl
passed_over false true x y z e = ground (arith, e)
passed_over false false x y z e = refl

setting-update_first :
    (k : Option ℕ) (n : String) (c : CameraConfig) (cs : List CameraConfig)
    → has_id c.camera_id cs ≡ true
    → setting k n (update_first c cs)
      ≡ (if same_id c.camera_id k then find n c.settings else setting k n cs)
setting-update_first k n c [] h = ground (arith, h)
setting-update_first k n c (d ∷ cs) h = elim (Bool-cases (same_id d.camera_id c.camera_id)) [
  | inl q ↦ rw q (
      ap (λ o. if same_id c.camera_id k then o else setting k n cs)
        (find-synced n c.settings d.settings)
      ∙ passed_over (same_id c.camera_id k) (same_id d.camera_id k) (find n c.settings)
          (find n d.settings) (setting k n cs)
          (ap (λ x. same_id x k) (same_id-eq d.camera_id c.camera_id q)))
  | inr q ↦ rw q (
      ap (λ o. if same_id d.camera_id k then find n d.settings else o)
        (setting-update_first k n c cs (ground (arith, h, q)))
      ∙ swapped (same_id c.camera_id k) (same_id d.camera_id k) (find n c.settings)
          (find n d.settings) (setting k n cs) (not_both d.camera_id c.camera_id k q))
]

-- The cameras have ids, each its own.
abbrev pub all_own : List CameraConfig → Bool
all_own [] = true
all_own (c ∷ cs) = not (same_id c.camera_id none) && (not (has_id c.camera_id cs) && all_own cs)

is_within-update_first :
    (ds : List CameraConfig) (c : CameraConfig) (cs : List CameraConfig)
    → is_within ds (update_first c cs) ≡ is_within ds cs
is_within-update_first [] c cs = refl
is_within-update_first (d ∷ ds) c cs =
    ap₂ (λ a b. a && b)
      (has_id-ids d.camera_id (update_first c cs)
        ∙ ap (has_in d.camera_id) (ids-update_first c cs)
        ∙ sym (has_id-ids d.camera_id cs))
      (is_within-update_first ds c cs)

unique :
    (x k : Option ℕ) (cs : List CameraConfig)
    → has_id x cs ≡ false
    → (same_id x k && has_id k cs) ≡ false
unique x k cs q = elim (Bool-cases (same_id x k)) [
  | inr b ↦ ground (arith, b)
  | inl b ↦ ground (arith, b, q, ap (λ z. has_id z cs) (same_id-eq x k b))
]

chosen :
    (a b : Bool) (x y z : Option String)
    → (a && b) ≡ false
    → (if b then y else if a then x else z) ≡ (if a || b then (if a then x else y) else z)
chosen true true x y z e = ground (arith, e)
chosen true false x y z e = refl
chosen false true x y z e = refl
chosen false false x y z e = refl

has_id-is_within :
    (k : Option ℕ) (cs ds : List CameraConfig)
    → is_within cs ds ≡ true
    → has_id k ds ≡ false
    → has_id k cs ≡ false
has_id-is_within k [] ds w q = refl
has_id-is_within k (c ∷ cs) ds w q =
    let v = both (has_id c.camera_id ds) (is_within cs ds) w in
    let r = has_id-is_within k cs ds v.1 q in
    elim (Bool-cases (same_id c.camera_id k)) [
      | inr b ↦ ground (arith, b, r)
      | inl b ↦ ground (arith, v.0, q, ap (λ z. has_id z ds) (same_id-eq c.camera_id k b))
    ]

setting-update_all :
    (k : Option ℕ) (n : String) (news cs : List CameraConfig)
    → is_within news cs ≡ true
    → all_own news ≡ true
    → setting k n (update_all news cs)
      ≡ (if has_id k news then setting k n news else setting k n cs)
unfolding update_all
setting-update_all k n [] cs w o = refl
setting-update_all k n (c ∷ news) cs w o =
    let v = both (has_id c.camera_id cs) (is_within news cs) w in
    let rest =
      setting-update_all k n news (update_first c cs) (is_within-update_first news c cs ∙ v.1)
        (ground (arith, o)) in
    rest
    ∙ ap (λ x. if has_id k news then setting k n news else x) (setting-update_first k n c cs v.0)
    ∙ chosen (same_id c.camera_id k) (has_id k news) (find n c.settings) (setting k n news)
        (setting k n cs) (unique c.camera_id k news (ground (arith, o)))

setting-same_ids :
    (k : Option ℕ) (n : String) (news cs : List CameraConfig)
    → same_ids cs news ≡ true
    → all_own news ≡ true
    → setting k n (update_all news cs) ≡ setting k n news
setting-same_ids k n news cs s o = elim (Bool-cases (has_id k news)) [
  | inl q ↦
      setting-update_all k n news cs (both (is_within cs news) (is_within news cs) s).1 o
      ∙ ap (λ b. if b then setting k n news else setting k n cs) q
  | inr q ↦
      setting-update_all k n news cs (both (is_within cs news) (is_within news cs) s).1 o
      ∙ ap (λ b. if b then setting k n news else setting k n cs) q
      ∙ setting-absent k n cs
          (has_id-is_within k cs news (both (is_within cs news) (is_within news cs) s).0 q)
      ∙ sym (setting-absent k n news q)
]

abbrev pub is_ok : {A : Type 0} → Outcome A → Bool
is_ok raised = false
is_ok (ok a) = true

is_ok-cons_id :
    (x : Option ℕ) (b : Bool) (o : Outcome (List ℕ))
    → is_ok (cons_id x b o) ≡ (not (same_id x none) && (not b && is_ok o))
is_ok-cons_id none b o = refl
is_ok-cons_id (some k) true o = refl
is_ok-cons_id (some k) false raised = refl
is_ok-cons_id (some k) false (ok ks) = refl

is_ok-camera_ids : (cs : List CameraConfig) → is_ok (camera_ids cs) ≡ all_own cs
unfolding camera_ids
is_ok-camera_ids [] = refl
is_ok-camera_ids (c ∷ cs) =
    is_ok-cons_id c.camera_id (has_id c.camera_id cs) (camera_ids cs)
    ∙ ap (λ b. not (same_id c.camera_id none) && (not (has_id c.camera_id cs) && b))
        (is_ok-camera_ids cs)

-- A set that a reload takes: an empty one only where that is allowed.
abbrev pub is_accepted : Bool → List CameraConfig → Bool
is_accepted allow_empty [] = allow_empty
is_accepted allow_empty (c ∷ cs) = true

module _ {E : Type 0} (O : Outside E) where
  -- What `Told` says of the cameras and of the answer.
  Told : Option ℕ → String → List CameraConfig → Bool × Engine E → Type 0
  Told k n news r = (setting k n r.1.camera_configs ≡ setting k n news) × (r.0 ≡ true)

  Told-notified :
      (k : Option ℕ) (n : String) (news : List CameraConfig) (e : Engine E)
      → setting k n e.camera_configs ≡ setting k n news
      → Told k n news (notified O e)
  unfolding Told
  Told-notified k n news e q = (q, refl)

  shown-same :
      (b : Bool) (ks : List ℕ) (fs : List ℕ) (k : Option ℕ) (n : String) (news : List CameraConfig)
      (e : Engine E)
      → setting k n e.camera_configs ≡ setting k n news
      → Told k n news (notified O (if b then record e { dashboard = ks; frame_state = fs } else e))
  shown-same true ks fs k n news e q =
      Told-notified k n news (record e { dashboard = ks; frame_state = fs }) q
  shown-same false ks fs k n news e q = Told-notified k n news e q

  Told-commit :
      (k : Option ℕ) (n : String) (news : List CameraConfig) (o : Outcome (List ℕ)) (e : Engine E)
      → is_ok o ≡ true
      → Told k n news (commit O news o e)
  Told-commit k n news raised e q = some_none (some true) true refl (ground (arith, q))
  Told-commit k n news (ok ks) e q =
      shown-same e.metrics_enabled ks (forget_removed e.camera_configs news e.frame_state) k n news
        (record e { camera_configs = news }) refl

  Told-replaced :
      (k : Option ℕ) (n : String) (news : List CameraConfig) (e : Engine E)
      → is_ok (camera_ids news) ≡ true
      → Told k n news (replaced O news e)
  Told-replaced k n news e q = elim (Bool-cases (same_ids e.camera_configs news)) [
    | inl s ↦ rw s (
        Told-notified k n news (record e { camera_configs = update_all news e.camera_configs })
          (setting-same_ids k n news e.camera_configs s (sym (is_ok-camera_ids news) ∙ q)))
    | inr s ↦ rw s (Told-commit k n news (camera_ids news) e q)
  ]

  Told-loaded :
      (k : Option ℕ) (n : String) (allow_empty : Bool) (news : List CameraConfig) (e : Engine E)
      → is_ok (camera_ids news) ≡ true
      → is_accepted allow_empty news ≡ true
      → Told k n news (loaded O allow_empty (ok news) e)
  Told-loaded k n true [] e q a = Told-replaced k n [] e q
  Told-loaded k n false [] e q a = some_none (some true) true refl (ground (arith, a))
  Told-loaded k n allow_empty (c ∷ cs) e q a = Told-replaced k n (c ∷ cs) e q

  -- Where the database answers with cameras that have ids, each its own, and a set without cameras is
  -- allowed if there is none, after the reload every camera has exactly the settings of the new
  -- configuration under every key, and the answer is True, whatever becomes of the publication.
  pub setting-reload_camera_configs :
      (k : Option ℕ) (n : String) (allow_empty : Bool) (news : List CameraConfig) (x : E)
      (e : Engine E)
      → O.load_cameras_from_db e.outside ≡ (ok news, x)
      → is_ok (camera_ids news) ≡ true
      → is_accepted allow_empty news ≡ true
      → let r = reload_camera_configs O allow_empty e in
        (setting k n r.1.camera_configs ≡ setting k n news) × (r.0 ≡ true)
  unfolding reload_camera_configs Told
  setting-reload_camera_configs k n allow_empty news x e h q a =
      subst (λ o. Told k n news (loaded O allow_empty o.0 (record e { outside = o.1 }))) (sym h)
        (Told-loaded k n allow_empty news (record e { outside = x }) q a)
