-- ===== src/PipelineEngine/Shown.antt =====
-- The cameras that the dashboard shows after a reload.
use lum_model_face_recogniti.Base.{
  ℕ, ◌≡◌, Bool, true, false, List, [], ◌∷◌, if◌then◌else◌, refl, sym, subst, ◌∙◌, inl, inr,
  Bool-cases,
}
use lum_model_face_recogniti.Exec.{Outcome, ok, raised}
use lum_model_face_recogniti.PipelineEngine.{
  CameraConfig, same_ids, camera_ids, Outside, Engine, update_all, forget_removed, notified, shown,
  commit, replaced, loaded, reload_camera_configs,
}
use lum_model_face_recogniti.PipelineEngine.Ids.{camera_ids-update_all}

-- The cameras have ids, each its own, and with metrics the dashboard shows them in order.
abbrev pub IsShown : Bool → List ℕ → List CameraConfig → Type 0
IsShown true dashboard cs = camera_ids cs ≡ ok dashboard
IsShown false dashboard cs = (ks : List ℕ) × (camera_ids cs ≡ ok ks)

module _ {E : Type 0} (O : Outside E) where
  IsAt : Engine E → Type 0
  IsAt e = IsShown e.metrics_enabled e.dashboard e.camera_configs

  IsAt-notified : (e : Engine E) → IsAt e → IsAt (notified O e).1
  unfolding IsAt
  IsAt-notified e h = h

  IsShown-ids :
      (b : Bool) (dashboard : List ℕ) (cs ds : List CameraConfig)
      → camera_ids ds ≡ camera_ids cs
      → IsShown b dashboard cs
      → IsShown b dashboard ds
  IsShown-ids true dashboard cs ds q h = q ∙ h
  IsShown-ids false dashboard cs ds q h = (h.0, q ∙ h.1)

  IsAt-shown :
      (b : Bool) (ks fs : List ℕ) (e : Engine E)
      → e.metrics_enabled ≡ b
      → camera_ids e.camera_configs ≡ ok ks
      → IsAt (if b then record e { dashboard = ks; frame_state = fs } else e)
  unfolding IsAt
  IsAt-shown true ks fs e p q = subst (λ m. IsShown m ks e.camera_configs) (sym p) q
  IsAt-shown false ks fs e p q = subst (λ m. IsShown m e.dashboard e.camera_configs) (sym p) (ks, q)

  IsAt-commit :
      (news : List CameraConfig) (o : Outcome (List ℕ)) (e : Engine E)
      → camera_ids news ≡ o
      → IsAt e
      → IsAt (commit O news o e).1
  IsAt-commit news raised e q h = h
  IsAt-commit news (ok ks) e q h =
      let n : Engine E = record e { camera_configs = news } in
      let fs = forget_removed e.camera_configs news e.frame_state in
      IsAt-notified (shown O ks e.camera_configs news n)
        (IsAt-shown e.metrics_enabled ks fs n refl q)

  IsAt-replaced : (news : List CameraConfig) (e : Engine E) → IsAt e → IsAt (replaced O news e).1
  unfolding IsAt
  IsAt-replaced news e h = elim (Bool-cases (same_ids e.camera_configs news)) [
    | inl s ↦ rw s (
        IsAt-notified (record e { camera_configs = update_all news e.camera_configs })
          (IsShown-ids e.metrics_enabled e.dashboard e.camera_configs
            (update_all news e.camera_configs) (camera_ids-update_all news e.camera_configs) h))
    | inr s ↦ rw s (IsAt-commit news (camera_ids news) e refl h)
  ]

  IsAt-loaded :
      (allow_empty : Bool) (o : Outcome (List CameraConfig)) (e : Engine E)
      → IsAt e
      → IsAt (loaded O allow_empty o e).1
  IsAt-loaded allow_empty raised e h = h
  IsAt-loaded true (ok []) e h = IsAt-replaced [] e h
  IsAt-loaded false (ok []) e h = h
  IsAt-loaded allow_empty (ok (c ∷ cs)) e h = IsAt-replaced (c ∷ cs) e h

  -- However a reload ends, the cameras have ids afterwards, each its own, and with metrics the dashboard
  -- shows them in order, where this held before: whatever the database answers.
  pub reload_camera_configs-IsShown :
      (allow_empty : Bool) (e : Engine E)
      → IsShown e.metrics_enabled e.dashboard e.camera_configs
      → let e' = (reload_camera_configs O allow_empty e).1 in
        IsShown e'.metrics_enabled e'.dashboard e'.camera_configs
  unfolding reload_camera_configs IsAt
  reload_camera_configs-IsShown allow_empty e h =
      IsAt-loaded allow_empty (O.load_cameras_from_db e.outside).0
        (record e { outside = (O.load_cameras_from_db e.outside).1 }) h
