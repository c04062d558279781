-- ===== src/CameraWorker/Renewal.antt =====
-- A renewal pass: which cameras it drops, and when it ends the process.
use lum_model_face_recogniti.Base.{
  ℕ, suc, ◌≡◌, Bool, true, false, Option, none, some, List, [], ◌∷◌, leb, if◌then◌else◌, ◌&&◌, ◌||◌,
  not, ◌==◌, arith, refl,
}
use lum_model_face_recogniti.CameraWorker.Sets.{mem, discard}
use lum_model_face_recogniti.CameraWorker.{
  Leases, Registry, Worker, release, renew_max_transient_fails,
}
use lum_model_face_recogniti.CameraWorker.Pass.{renew_each, renew_once, is_empty, count_fails}

abbrev pub is_lost : Option Bool → Bool
is_lost (some false) = true
is_lost _ = false

abbrev pub is_unanswered : Option Bool → Bool
is_unanswered none = true
is_unanswered (some b) = false

abbrev pub any : (ℕ → Bool) → List ℕ → Bool
any p [] = false
any p (x ∷ xs) = p x || any p xs

mem-discard : (a c : ℕ) (xs : List ℕ) → mem a (discard c xs) ≡ (mem a xs && not (a == c))
mem-discard a c [] = refl
mem-discard a c (x ∷ xs) = ground (arith, mem-discard a c xs)

is_empty-mem : (a : ℕ) (xs : List ℕ) → is_empty xs ≡ true → mem a xs ≡ false
is_empty-mem a [] h = refl
is_empty-mem a (x ∷ xs) h = cc

is_empty-any : (p : ℕ → Bool) (xs : List ℕ) → is_empty xs ≡ true → any p xs ≡ false
is_empty-any p [] h = refl
is_empty-any p (x ∷ xs) h = cc

held-count_fails :
    {E : Type 0} (L : Leases E) (G : Registry E) (b : Bool) (w : Worker)
    → (count_fails L G b w).held ≡ w.held
held-count_fails L G false w = refl
held-count_fails L G true w = refl

-- The server answers each camera's renewal by `answer`, throughout the pass.
module _ {E : Type 0} (L : Leases E) (G : Registry E) (answer : ℕ → Option Bool)
    (answers : (c : ℕ) (e : E) → (L.renew_status c e).0 ≡ answer c) where
  renew_each_lem :
      (cs : List ℕ) (a : ℕ) (w : Worker) (e : E)
      → let r = renew_each L G cs (w, e) in
        (r.0 ≡ any (λ c. is_unanswered (answer c)) cs)
        × (mem a r.1.0.held ≡ (mem a w.held && not (mem a cs && is_lost (answer a))))
        × (r.1.0.transient_renew_fails ≡ w.transient_renew_fails)
        × (r.1.0.exited ≡ w.exited)
  unfolding renew_each release
  renew_each_lem [] a w e = (refl, ground arith, refl, refl)
  renew_each_lem (c ∷ cs) a w e =
      let e' = (L.renew_status c e).1 in
      let r = release L G c (w, e') in
      ground (
        arith,
        answers c e,
        renew_each_lem cs a w e',
        renew_each_lem cs a r.0 r.1,
        mem-discard a c w.held,
      )

  -- After a renewal pass the worker holds exactly the cameras that it held and whose lease is not lost:
  -- a camera that was not answered for is kept. The server answers each camera the same way throughout.
  pub renew_once-held :
      (w : Worker) (e : E) (a : ℕ)
      → mem a (renew_once L G (w, e)).0.held ≡ (mem a w.held && not (is_lost (answer a)))
  unfolding renew_once
  renew_once-held w e a = ground (
    arith,
    renew_each_lem w.held a w e,
    held-count_fails L G (renew_each L G w.held (w, e)).0 (renew_each L G w.held (w, e)).1.0,
    is_empty-mem a w.held,
  )

  -- A renewal pass that leaves some held camera unanswered counts one failed pass, however many cameras
  -- that were, and any other pass starts the count again; the process ends exactly when the count
  -- reaches two. The server answers each camera the same way throughout the pass.
  pub renew_once-exit :
      (w : Worker) (e : E)
      → w.exited ≡ false
      → let missed = any (λ c. is_unanswered (answer c)) w.held in
        let w' = (renew_once L G (w, e)).0 in
        (w'.exited ≡ (missed && leb renew_max_transient_fails (suc w.transient_renew_fails)))
        × (w'.transient_renew_fails ≡ (if missed then suc w.transient_renew_fails else 0))
  unfolding renew_once
  renew_once-exit w e h =
      ground
        (arith, renew_each_lem w.held 0 w e, is_empty-any (λ c. is_unanswered (answer c)) w.held)
