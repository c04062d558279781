-- ===== src/GlobalTrack/InFlight.antt =====
-- Which tracks have a request in flight.
use lum_model_face_recogniti.Base.{
  ℕ, zero, suc, ◌≡◌, ◌≤◌, ◌&&◌, ◌||◌, not, Bool, true, false, Option, none, some, List, [], ◌∷◌,
  ◌++◌, length, arith, ◌⊎◌, refl, ap, sym, subst, ◌∙◌, inl, inr, Bool-cases, Option-cases, ==_iff,
}
use lum_model_face_recogniti.GlobalTrack.{Outside, Client, Arguments}
use lum_model_face_recogniti.GlobalTrack.Adapter.{
  Key, key_eq, has_key, discard, Job, Manager, key_of, new_manager, assign, begin_next_job,
  begin_assign, run_job, run_assign, finish_assign, forget_track, find_by_identity, notify, Turn,
  assign_turn, begin_turn, finish_turn, forget_turn, find_turn, notify_turn, step, steps, work_off,
}

abbrev pub distinct : List Key → Bool
distinct [] = true
distinct (k ∷ ks) = not (has_key k ks) && distinct ks

abbrev pub keys_of : List Job → List Key
keys_of [] = []
keys_of (j ∷ js) = j.key ∷ keys_of js

-- The keys of the requests that are not done: the running one's, and those of the queue.
abbrev pub pending : Option Job → List Job → List Key
pending none js = keys_of js
pending (some j) js = j.key ∷ keys_of js

key_eq_refl : (k : Key) → key_eq k k ≡ true
key_eq_refl k =
    ground (arith, ==_iff k.camera_id k.camera_id, ==_iff k.local_track_id k.local_track_id)

key_eq_sym : (a b : Key) → key_eq a b ≡ key_eq b a
key_eq_sym a b = ground arith

keys_of-append : (js ks : List Job) → keys_of (js ++ ks) ≡ keys_of js ++ keys_of ks
keys_of-append [] ks = refl
keys_of-append (j ∷ js) ks = ap (λ l. j.key ∷ l) (keys_of-append js ks)

pending-append :
    (o : Option Job) (js : List Job) (j : Job)
    → pending o (js ++ (j ∷ [])) ≡ pending o js ++ (j.key ∷ [])
pending-append none js j = keys_of-append js (j ∷ [])
pending-append (some i) js j = ap (λ l. i.key ∷ l) (keys_of-append js (j ∷ []))

has_key-append :
    (k x : Key) (ks : List Key) → has_key x (ks ++ (k ∷ [])) ≡ (has_key x ks || key_eq k x)
has_key-append k x [] = ground arith
has_key-append k x (y ∷ ks) = ground (arith, has_key-append k x ks)

distinct-append :
    (k : Key) (ks : List Key)
    → has_key k ks ≡ false
    → distinct ks ≡ true
    → distinct (ks ++ (k ∷ [])) ≡ true
distinct-append k [] h d = refl
distinct-append k (x ∷ ks) h d =
    ground (arith, has_key-append k x ks, key_eq_sym k x, distinct-append k ks)

-- One request for each key in flight.
record IsTracked {E : Type 0} (m : Manager E) : Type 0 where
  exact : m.in_flight ≡ pending m.running m.queue
  once : distinct m.in_flight ≡ true

module _ {E : Type 0} (O : Outside E) where
  IsTracked-assign : (a : Arguments) (m : Manager E) → IsTracked m → IsTracked (assign O a m).1
  unfolding assign
  IsTracked-assign a m t = elim (Bool-cases (has_key (key_of a) m.in_flight)) [
    | inl q ↦ rw q t
    | inr q ↦
        let job : Job = record { key = key_of a; arguments = a } in
        rw q record {
          exact =
              ap (λ l. l ++ (key_of a ∷ [])) t.exact ∙ sym (pending-append m.running m.queue job);
          once = distinct-append (key_of a) m.in_flight q t.once;
        }
  ]

  List-cases : (js : List Job) → (js ≡ []) ⊎ ((j : Job) × (ks : List Job) × (js ≡ j ∷ ks))
  List-cases [] = inl refl
  List-cases (j ∷ js) = inr (j, js, refl)

  begin_busy : (m : Manager E) (j : Job) → m.running ≡ some j → begin_assign O m ≡ m
  unfolding begin_assign
  begin_busy m j q = ap (λ o. begin_next_job O o m.queue m) q

  begin_idle : (m : Manager E) → m.running ≡ none → m.queue ≡ [] → begin_assign O m ≡ m
  unfolding begin_assign
  begin_idle m q g =
      ap (λ o. begin_next_job O o m.queue m) q ∙ ap (λ js. begin_next_job O none js m) g

  begin_next :
      (m : Manager E) (j : Job) (js : List Job)
      → m.running ≡ none
      → m.queue ≡ j ∷ js
      → begin_assign O m ≡ record m { running = some j; queue = js }
  unfolding begin_assign
  begin_next m j js q g =
      ap (λ o. begin_next_job O o m.queue m) q ∙ ap (λ ks. begin_next_job O none ks m) g

  IsTracked-begin : (m : Manager E) → IsTracked m → IsTracked (begin_assign O m)
  IsTracked-begin m t = elim (Option-cases m.running) [
    | inr (j, q) ↦ subst IsTracked (sym (begin_busy m j q)) t
    | inl q ↦ elim (List-cases m.queue) [
      | inl g ↦ subst IsTracked (sym (begin_idle m q g)) t
      | inr (j, js, g) ↦
          subst IsTracked (sym (begin_next m j js q g))
            record { exact = t.exact ∙ ap (λ o. pending o m.queue) q ∙ ap keys_of g; once = t.once }
    ]
  ]

  finish_busy :
      (m : Manager E) (j : Job) → m.running ≡ some j → finish_assign O m ≡ run_assign O j m
  unfolding finish_assign
  finish_busy m j q = ap (λ o. run_job O o m) q

  finish_idle : (m : Manager E) → m.running ≡ none → finish_assign O m ≡ m
  unfolding finish_assign
  finish_idle m q = ap (λ o. run_job O o m) q

  discard_head : (k : Key) (ks : List Key) → discard k (k ∷ ks) ≡ ks
  discard_head k ks = rw (key_eq_refl k) refl

  -- The end of the running job, whatever came of its call.
  finish_lem :
      (j : Job) (m : Manager E)
      → m.running ≡ some j
      → IsTracked m
      → (run_assign O j m).in_flight ≡ keys_of m.queue
  finish_lem j m q t =
      ap (λ l. discard j.key l) (t.exact ∙ ap (λ o. pending o m.queue) q)
      ∙ discard_head j.key (keys_of m.queue)

  IsTracked-finish : (m : Manager E) → IsTracked m → IsTracked (finish_assign O m)
  IsTracked-finish m t = elim (Option-cases m.running) [
    | inl q ↦ subst IsTracked (sym (finish_idle m q)) t
    | inr (j, q) ↦
        let d : distinct (j.key ∷ keys_of m.queue) ≡ true =
          ap distinct (sym (t.exact ∙ ap (λ o. pending o m.queue) q)) ∙ t.once in
        subst IsTracked (sym (finish_busy m j q)) record {
          exact = finish_lem j m q t;
          once = ap distinct (finish_lem j m q t) ∙ ground (arith, d);
        }
  ]

  IsTracked-step : (t : Turn O) (m : Manager E) → IsTracked m → IsTracked (step O t m)
  unfolding step forget_track find_by_identity notify
  IsTracked-step (assign_turn a) m h = IsTracked-assign a m h
  IsTracked-step begin_turn m h = IsTracked-begin m h
  IsTracked-step finish_turn m h = IsTracked-finish m h
  IsTracked-step (forget_turn k) m h = record { exact = h.exact; once = h.once }
  IsTracked-step (find_turn a) m h = record { exact = h.exact; once = h.once }
  IsTracked-step (notify_turn method a) m h = record { exact = h.exact; once = h.once }

  IsTracked-steps : (ts : List (Turn O)) (m : Manager E) → IsTracked m → IsTracked (steps O ts m)
  unfolding steps
  IsTracked-steps [] m h = h
  IsTracked-steps (t ∷ ts) m h = IsTracked-steps ts (step O t m) (IsTracked-step t m h)

  -- The running job takes one key off.
  finish-le :
      (m : Manager E) (j : Job) (n : ℕ)
      → m.running ≡ some j
      → IsTracked m
      → length m.in_flight ≤ suc n
      → length (finish_assign O m).in_flight ≤ n
  finish-le m j n q t le =
      let e = t.exact ∙ ap (λ o. pending o m.queue) q in
      let f = ap (λ (k : Manager E). k.in_flight) (finish_busy m j q) ∙ finish_lem j m q t in
      omega (arith, le, ap length e, ap length f)

  work_lem :
      (m : Manager E) (n : ℕ)
      → IsTracked m
      → length m.in_flight ≤ suc n
      → length (finish_assign O (begin_assign O m)).in_flight ≤ n
  work_lem m n t le =
      let Small = λ (k : Manager E). length (finish_assign O k).in_flight ≤ n in
      elim (Option-cases m.running) [
        | inr (j, q) ↦ subst Small (sym (begin_busy m j q)) (finish-le m j n q t le)
        | inl q ↦ elim (List-cases m.queue) [
          | inl g ↦
              let e = t.exact ∙ ap (λ o. pending o m.queue) q ∙ ap keys_of g in
              subst Small (sym (begin_idle m q g)) (
                subst (λ (k : Manager E). length k.in_flight ≤ n) (sym (finish_idle m q))
                  (omega (arith, ap length e)))
          | inr (j, js, g) ↦
              let begun = begin_next m j js q g in
              let k : Manager E = record m { running = some j; queue = js } in
              subst Small (sym begun)
                (finish-le k j n refl (subst IsTracked begun (IsTracked-begin m t)) le)
        ]
      ]

  length-nil : (ks : List Key) → length ks ≤ 0 → ks ≡ []
  length-nil [] h = refl
  length-nil (k ∷ ks) h = absurd (omega (arith, h))

  work_off-nil :
      (n : ℕ) (m : Manager E)
      → IsTracked m
      → length m.in_flight ≤ n
      → (work_off O n m).in_flight ≡ []
  unfolding work_off
  work_off-nil zero m t le = length-nil m.in_flight le
  work_off-nil (suc n) m t le =
      work_off-nil n (finish_assign O (begin_assign O m))
        (IsTracked-finish (begin_assign O m) (IsTracked-begin m t)) (work_lem m n t le)

  -- Whatever is asked for, notified and forgotten while the thread of the pool works, and however its
  -- calls end, the keys in flight are at any time those of the requests that are running or queued,
  -- each once; and when the thread has run as many jobs no key is left in flight, so that no track's
  -- id is frozen.
  pub steps-work_off :
      (ts : List (Turn O)) (c : Client) (e : E)
      → let m = steps O ts (new_manager O c e) in
        (m.in_flight ≡ pending m.running m.queue)
        × (distinct m.in_flight ≡ true)
        × ((work_off O (length m.in_flight) m).in_flight ≡ [])
  steps-work_off ts c e =
      let m = steps O ts (new_manager O c e) in
      let t = IsTracked-steps ts (new_manager O c e) (record { exact = refl; once = refl }) in
      (t.exact, t.once, work_off-nil (length m.in_flight) m t (omega arith))
