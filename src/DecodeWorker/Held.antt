-- ===== src/DecodeWorker/Held.antt =====
-- What a decode worker holds: its capacity, its configurations and its renewals.
use lum_model_face_recogniti.Base.{
  ℕ, suc, ◌≤◌, ◌==◌, ◌≡◌, ◌&&◌, ◌||◌, not, Bool, true, false, none, some, List, [], ◌∷◌,
  if◌then◌else◌, String, str_eq, eq_iff, length, arith, refl, ap, ◌∙◌, subst, inl, inr, Bool-cases,
  ==_iff,
}
use lum_model_face_recogniti.Attendance.{find, put, is_some}
use lum_model_face_recogniti.CameraWorker.Sets.{mem}
use lum_model_face_recogniti.DecodeWorker.{
  Config, Owned, DecodeLeases, Machinery, DecodeWorker, update, keep_keys_of, synced, config_of,
  own, forget, start_camera, start_marked, stop_camera_locally, claim_cameras, renew_held,
}

find-put :
    (k n v : String) (m : Config) → find n (put k v m) ≡ (if str_eq k n then some v else find n m)
find-put k n v [] = ground arith
find-put k n v ((j, u) ∷ m) = ground (arith, find-put k n v m, eq_iff j k, eq_iff k n, eq_iff j n)

find-update :
    (n : String) (new old : Config)
    → find n (update new old) ≡ (if is_some (find n new) then find n new else find n old)
find-update n [] old = refl
find-update n ((k, v) ∷ new) old =
    ground (arith, find-update n new old, find-put k n v (update new old))

find-keep_keys_of :
    (new : Config) (n : String) (m : Config)
    → find n (keep_keys_of new m) ≡ (if is_some (find n new) then find n m else none)
find-keep_keys_of new n [] = ground arith
find-keep_keys_of new n ((k, v) ∷ m) = elim (Bool-cases (str_eq k n)) [
  | inl q ↦ rw ((eq_iff k n).0 q) (ground (arith, find-keep_keys_of new n m, eq_iff n n))
  | inr q ↦ ground (arith, find-keep_keys_of new n m)
]

-- A configuration that was brought up to date has exactly the keys and values of the new one.
pub find-synced : (n : String) (new old : Config) → find n (synced new old) ≡ find n new
unfolding synced
find-synced n new old =
    ground (arith, find-keep_keys_of new n (update new old), find-update n new old)

length-own-le : (c : ℕ) (v : Config) (m : Owned) → length (own c v m) ≤ suc (length m)
length-own-le c v [] = omega arith
length-own-le c v ((d, u) ∷ m) = ground (arith, length-own-le c v m)

module _ {E : Type 0} (L : DecodeLeases E) (M : Machinery E) where
  length-start_marked :
      (c : ℕ) (config : Config) (w : DecodeWorker) (e : E)
      → let r = (start_marked L M c config (w, e)).1.0 in
        (r.capacity ≡ w.capacity) × (length r.owned ≤ suc (length w.owned))
  unfolding start_marked start_camera
  length-start_marked c config w e = ground (arith, length-own-le c config w.owned)

  -- The claims of a pass never lead past the capacity, whichever of them are granted or raise.
  pub claim_cameras-le-capacity :
      (cameras : Owned) (held : ℕ) (w : DecodeWorker) (e : E)
      → length w.owned ≤ held
      → held ≤ w.capacity
      → length (claim_cameras L M cameras held (w, e)).1.0.owned ≤ w.capacity
  unfolding claim_cameras
  claim_cameras-le-capacity [] held w e h k = omega arith
  claim_cameras-le-capacity ((c, config) ∷ more) held w e h k =
      let e' = (L.claim c e).1 in
      let s = (start_marked L M c config (w, e')).1 in
      ground (
        arith,
        length-start_marked c config w e',
        claim_cameras-le-capacity more held w e h k,
        claim_cameras-le-capacity more held w e' h k,
        claim_cameras-le-capacity more (suc held) s.0 s.1,
      )

  config_of-forget :
      (a c : ℕ) (m : Owned)
      → is_some (config_of a (forget c m)) ≡ (is_some (config_of a m) && not (c == a))
  config_of-forget a c [] = refl
  config_of-forget a c ((d, u) ∷ m) = ground (arith, config_of-forget a c m)

  owned-stop_camera_locally :
      (a c : ℕ) (w : DecodeWorker) (e : E)
      → let r = (stop_camera_locally L M c (w, e)).0 in
        (is_some (config_of a r.owned) ≡ (is_some (config_of a w.owned) && not (c == a)))
        × (r.running ≡ w.running)
  unfolding stop_camera_locally
  owned-stop_camera_locally a c w e = (config_of-forget a c w.owned, refl)

  owned-renew_held :
      (answer : ℕ → Bool)
      → ((c : ℕ) (e : E) → (L.renew c e).0 ≡ answer c)
      → (cs : List ℕ) (a : ℕ) (w : DecodeWorker) (e : E) → w.running ≡ true
      → is_some (config_of a (renew_held L M cs (w, e)).0.owned)
        ≡ (is_some (config_of a w.owned) && (answer a || not (mem a cs)))
  unfolding renew_held
  owned-renew_held answer answers [] a w e h = ground arith
  owned-renew_held answer answers (c ∷ cs) a w e h =
      let e' = (L.renew c e).1 in
      let s = stop_camera_locally L M c (w, e') in
      ground (
        arith,
        answers c e,
        owned-stop_camera_locally a c w e',
        owned-renew_held answer answers cs a w e' h,
        owned-renew_held answer answers cs a s.0 s.1,
      )

  renew_held_step :
      (answer : ℕ → Bool) (c : ℕ) (cs : List ℕ) (w : DecodeWorker) (e : E)
      → w.running ≡ true
      → (L.renew c e).0 ≡ answer c
      → let e' = (L.renew c e).1 in
        renew_held L M (c ∷ cs) (w, e) ≡ (
          if answer c
          then renew_held L M cs (w, e')
          else renew_held L M cs (stop_camera_locally L M c (w, e')))
  unfolding renew_held
  renew_held_step answer c cs w e h q =
      let kept = renew_held L M cs (w, (L.renew c e).1) in
      let lost = renew_held L M cs (stop_camera_locally L M c (w, (L.renew c e).1)) in
      ap (λ b. if b then (if (L.renew c e).0 then kept else lost) else (w, e)) h
      ∙ ap (λ b. if b then kept else lost) q

  -- `stopped` says whether the producer and the stream of a camera were ever stopped: `M.stop` stops those
  -- of its camera, and a renewal stops none.
  module _ (stopped : ℕ → E → Bool)
      (stops : (a c : ℕ) (e : E) → stopped a (M.stop c e) ≡ (stopped a e || a == c))
      (renews : (a c : ℕ) (e : E) → stopped a (L.renew c e).1 ≡ stopped a e) where
    stopped-chosen :
        (b : Bool) (a : ℕ) (r s : DecodeWorker × E)
        → stopped a (if b then r else s).1 ≡ stopped a (if b then r.1 else s.1)
    stopped-chosen true a r s = refl
    stopped-chosen false a r s = refl

    stopped-stop_camera_locally :
        (a c : ℕ) (w : DecodeWorker) (e : E)
        → stopped a (stop_camera_locally L M c (w, e)).1
          ≡ (stopped a e || is_some (config_of a w.owned) && a == c)
    unfolding stop_camera_locally
    stopped-stop_camera_locally a c w e = elim (Bool-cases (a == c)) [
      | inl q ↦
          subst
            (λ k.
              stopped a (if is_some (config_of k w.owned) then M.stop k e else e)
              ≡ (stopped a e || is_some (config_of a w.owned) && a == k))
            ((==_iff a c).0 q) (ground (arith, stops a a e))
      | inr q ↦ ground (arith, stops a c e, q)
    ]

    stopped_first :
        (answer : ℕ → Bool) (c : ℕ) (cs : List ℕ) (a : ℕ) (kept lost : E) (s h h' : Bool)
        → stopped a kept ≡ (s || h && (mem a cs && not (answer a)))
        → stopped a lost ≡ ((s || h && a == c) || h' && (mem a cs && not (answer a)))
        → h' ≡ (h && not (c == a))
        → stopped a (if answer c then kept else lost)
          ≡ (s || h && (mem a (c ∷ cs) && not (answer a)))
    stopped_first answer c cs a kept lost s h h' k l g = elim (Bool-cases (a == c)) [
      | inl q ↦
          let same = ap answer ((==_iff a c).0 q) in
          elim (Bool-cases (answer c)) [
            | inl b ↦ ground (arith, k, b, same)
            | inr b ↦ ground (arith, l, g, b, same, q)
          ]
      | inr q ↦ elim (Bool-cases (answer c)) [
        | inl b ↦ ground (arith, k, b, q)
        | inr b ↦ ground (arith, l, g, b, q)
      ]
    ]

    stopped-renew_held :
        (answer : ℕ → Bool)
        → ((c : ℕ) (e : E) → (L.renew c e).0 ≡ answer c)
        → (cs : List ℕ) (a : ℕ) (w : DecodeWorker) (e : E) → w.running ≡ true
        → stopped a (renew_held L M cs (w, e)).1
          ≡ (stopped a e || is_some (config_of a w.owned) && (mem a cs && not (answer a)))
    unfolding renew_held
    stopped-renew_held answer answers [] a w e h = ground arith
    stopped-renew_held answer answers (c ∷ cs) a w e h =
        let e' = (L.renew c e).1 in
        let s = stop_camera_locally L M c (w, e') in
        let gone = owned-stop_camera_locally a c w e' in
        let first = stopped-stop_camera_locally a c w e' in
        let kept = renew_held L M cs (w, e') in
        let lost = renew_held L M cs s in
        let rest = stopped-renew_held answer answers cs a s.0 s.1 (gone.1 ∙ h) in
        ap (λ r. stopped a r.1) (renew_held_step answer c cs w e h (answers c e))
        ∙ stopped-chosen (answer c) a kept lost
        ∙ stopped_first answer c cs a kept.1 lost.1 (stopped a e) (is_some (config_of a w.owned))
            (is_some (config_of a s.0.owned))
            (stopped-renew_held answer answers cs a w e' h
              ∙ ap (λ b. b || is_some (config_of a w.owned) && (mem a cs && not (answer a)))
                  (renews a c e))
            (rest
              ∙ ap (λ b. b || is_some (config_of a s.0.owned) && (mem a cs && not (answer a)))
                  (first ∙ ap (λ b. b || is_some (config_of a w.owned) && a == c) (renews a c e)))
            gone.0

    -- A renewal pass of a running worker over the cameras `cs`, where the answer for a camera is the same
    -- throughout: of the cameras it goes over it forgets exactly those whose renewal was not granted,
    -- also where the lease server could not be reached, and those among them that it held are exactly
    -- the ones whose producer and stream it stops.
    pub renew_held-owned :
        (answer : ℕ → Bool)
        → ((c : ℕ) (e : E) → (L.renew c e).0 ≡ answer c)
        → (cs : List ℕ) (a : ℕ) (w : DecodeWorker) (e : E) → w.running ≡ true
        → let r = renew_held L M cs (w, e) in
          (is_some (config_of a r.0.owned)
            ≡ (is_some (config_of a w.owned) && (answer a || not (mem a cs))))
          × (stopped a r.1
              ≡ (stopped a e || is_some (config_of a w.owned) && (mem a cs && not (answer a))))
    renew_held-owned answer answers cs a w e h =
        (owned-renew_held answer answers cs a w e h, stopped-renew_held answer answers cs a w e h)
