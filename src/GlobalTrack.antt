-- ===== src/GlobalTrack.antt =====
-- src/workers/global_track_client.py: calls of the register of global tracks in another process, which
-- fall back to ids that are local to this one.
pub mod Adapter
pub mod InFlight
pub mod Json
use lum_model_face_recogniti.Base.{
  ℕ, suc, ◌==◌, ◌||◌, Bool, true, false, Option, none, some, List, if◌then◌else◌, String,
}
use lum_model_face_recogniti.Exec.{Outcome, ok, raised, Exec, pure, ◌>>=◌, ◌>>◌, try}
use lum_model_face_recogniti.FrameStore.Slot.{Array}
use lum_model_face_recogniti.FrameStore.Roi.{RoiHandle, product}

-- The methods of the register; the first two are blocking.
pub data Method : Type 0 where
  assign_global_id find_global_track_by_identity : Method
  on_face_detected on_face_not_visible update_global_track_identity : Method
  reassign_local_track on_track_created on_track_update on_track_removed : Method

abbrev pub is_blocking : Method → Bool
is_blocking assign_global_id = true
is_blocking find_global_track_by_identity = true
is_blocking _ = false

-- An answer of the register, or the negative number below zero by `n`.
pub data Value : Type 0 where
  known : (id : Option ℕ) → Value
  local : (n : ℕ) → Value

pub record MethodCallResult : Type 0 where
  pub value : Value
  pub ok : Bool

-- The arguments that the adapter gives. Confidences are in thousandths; `face_embedding` is dropped
-- before anything is sent.
pub record Arguments : Type 0 where
  pub camera_id : ℕ
  pub local_track_id : ℕ
  pub person_crop : Option Array
  pub detection_confidence : ℕ
  pub frame_num : ℕ
  pub identity : Option String
  pub identity_locked : Bool
  pub global_id : ℕ

-- What is sent: the crop as a handle.
pub record Payload : Type 0 where
  pub arguments : Arguments
  pub handle : Option RoiHandle

-- Celery, the slots of the crops and the hook of failures; each call may raise.
pub record Outside (E : Type 0) : Type 0 where
  pub write_crop : ℕ → Array → Exec E RoiHandle
  pub apply_async : Method → Payload → ℕ → Exec E ℕ
  pub get : ℕ → ℕ → Exec E (Option ℕ)
  pub forget : ℕ → Exec E (Unit {0})
  pub on_fallback : Exec E (Unit {0})

-- Times are milliseconds; `next_id` is how far below zero the next local id is.
pub record Client : Type 0 where
  pub expires_ms : ℕ
  pub timeout_ms : ℕ
  pub removed_expires_ms : ℕ
  pub next_id : ℕ

abbrev pub new_client : ℕ → ℕ → ℕ → Client
new_client expires timeout removed = record {
  expires_ms = expires;
  timeout_ms = timeout;
  removed_expires_ms = removed;
  next_id = 1;
}

abbrev pub expires_of : Client → Method → ℕ
expires_of c on_track_removed = c.removed_expires_ms
expires_of c _ = c.expires_ms

abbrev pub without_crop : Arguments → Arguments
without_crop a = record a { person_crop = none }

module _ {E : Type 0} (O : Outside E) where
  -- `_to_handle`
  unfoldable pub to_handle : ℕ → Option Array → Exec E (Option RoiHandle)
  to_handle camera_id none = pure none
  to_handle camera_id (some crop) =
      if product crop.shape == 0
      then pure none
      else (do handle ← O.write_crop camera_id crop; pure (some handle))

  abbrev pub payload_of : Method → Arguments → Exec E Payload
  payload_of assign_global_id a = do
    handle ← to_handle a.camera_id a.person_crop
    pure (record { arguments = without_crop a; handle = handle })
  payload_of _ a = pure (record { arguments = a; handle = none })

  -- The `finally`: what `forget` raises is passed over.
  abbrev pub forgotten : Option ℕ → E → E
  forgotten none e = e
  forgotten (some ticket) e = (O.forget ticket e).1

  abbrev pub Called : Type 0
  Called = Outcome MethodCallResult × (Client × E)

  -- After the hook of failures, which may raise.
  abbrev pub fallen_back : Option ℕ → Client → Outcome (Unit {0}) × E → Called
  fallen_back ticket c (raised, e) = (raised, (c, forgotten ticket e))
  fallen_back ticket c (ok u, e) = (
    ok (record { value = local c.next_id; ok = false }),
    (record c { next_id = suc c.next_id }, forgotten ticket e),
  )

  unfoldable pub answered : Option ℕ → Client → Outcome (Option ℕ) × E → Called
  answered ticket c (ok v, e) =
      (ok (record { value = known v; ok = true }), (c, forgotten ticket e))
  answered ticket c (raised, e) = fallen_back ticket c (O.on_fallback e)

  abbrev pub awaited : Client → Outcome ℕ × E → Called
  awaited c (ok ticket, e) = answered (some ticket) c (O.get ticket c.timeout_ms e)
  awaited c (raised, e) = answered none c (raised, e)

  abbrev pub applied : Method → Client → Outcome Payload × E → Called
  applied method c (ok payload, e) = awaited c (O.apply_async method payload c.expires_ms e)
  applied method c (raised, e) = answered none c (raised, e)

  unfoldable pub call : Method → Arguments → Exec (Client × E) MethodCallResult
  unfolding to_handle answered
  call method a (c, e) =
      if is_blocking method then applied method c (payload_of method a e) else (raised, (c, e))

  -- What is raised once the method is accepted is only logged.
  unfoldable pub call_one_way : Method → Arguments → Exec (Client × E) (Unit {0})
  call_one_way method a (c, e) =
      let payload : Payload = record { arguments = a; handle = none } in
      if is_blocking method
      then (raised, (c, e))
      else (ok tt, (c, (O.apply_async method payload (expires_of c method) e).1))
