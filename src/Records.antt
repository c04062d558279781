-- ===== src/Records.antt =====
-- src/infrastructure/storage/detection_repository.py: the guard that decides whether an observation is
-- a transition between IN and OUT. Calls of `record_attendance` from many processes run interleaved,
-- one SQL statement at a time, against one database.
pub mod Server
pub mod Linear
use lum_model_face_recogniti.Base.{
  ℕ, ◌==◌, ◌≡◌, ◌≢◌, not, Bool, true, false, Option, none, some, List, [], ◌∷◌, ◌++◌, if◌then◌else◌,
  String, str_eq,
}

-- A row of `attendance_records`, without the ids that the server gives it.
pub record Row : Type 0 where
  pub user_id : ℕ
  pub camera_id : Option ℕ
  pub branch_id : Option ℕ
  pub timestamp : ℕ
  pub status : String
  pub proof_image_url : Option String

abbrev pub head : List String → Option String
head [] = none
head (x ∷ xs) = some x

-- PostgreSQL under READ COMMITTED, as far as the statements use it. `records s u` has the statuses of
-- the committed rows of user `u`, the highest id first; `holder s u` is the transaction that has the
-- row of `users` locked. Rows of the tables `users` and `cameras` do not change meanwhile.
pub record Database (S : Type 0) : Type 0 where
  pub known : ℕ → Bool
  pub camera_branch : ℕ → Option ℕ
  pub user_branch : ℕ → Option ℕ
  pub records : S → ℕ → List String
  pub holder : S → ℕ → Option ℕ
  -- SELECT … FOR UPDATE; none as long as it waits.
  pub lock : ℕ → ℕ → S → Option S
  -- INSERT … RETURNING id, and COMMIT; none where no row came back, and the transaction is undone.
  pub insert : ℕ → Row → S → Option ℕ × S
  pub rollback : ℕ → S → S
  pub lock_free : (i u : ℕ) (s s' : S) → known u ≡ true → lock i u s ≡ some s' → holder s u ≡ none
  pub lock_held :
      (i u : ℕ) (s s' : S) → known u ≡ true → lock i u s ≡ some s' → holder s' u ≡ some i
  pub lock_other : (i u v : ℕ) (s s' : S) → lock i u s ≡ some s' → v ≢ u → holder s' v ≡ holder s v
  pub lock_records : (i u v : ℕ) (s s' : S) → lock i u s ≡ some s' → records s' v ≡ records s v
  pub rollback_records : (i v : ℕ) (s : S) → records (rollback i s) v ≡ records s v
  pub rollback_other :
      (i j v : ℕ) (s : S) → holder s v ≡ some j → j ≢ i → holder (rollback i s) v ≡ some j
  pub insert_row :
      (i k : ℕ) (r : Row) (s : S)
      → holder s r.user_id ≡ some i
      → (insert i r s).0 ≡ some k
      → records (insert i r s).1 r.user_id ≡ r.status ∷ records s r.user_id
  pub insert_undone :
      (i v : ℕ) (r : Row) (s : S)
      → (insert i r s).0 ≡ none
      → records (insert i r s).1 v ≡ records s v
  pub insert_other :
      (i v : ℕ) (r : Row) (s : S) → v ≢ r.user_id → records (insert i r s).1 v ≡ records s v
  pub insert_holder :
      (i j v : ℕ) (r : Row) (s : S)
      → holder s v ≡ some j
      → j ≢ i
      → holder (insert i r s).1 v ≡ some j
  pub insert_id : (i k : ℕ) (r : Row) (s : S) → (insert i r s).0 ≡ some k → k ≢ 0

-- The arguments of one call.
pub record Call : Type 0 where
  pub user_id : ℕ
  pub camera_id : Option ℕ
  pub timestamp : ℕ
  pub status : String
  pub proof_image_url : Option String

-- Where a call stands: before each of its statements, and at its end with the id or a raise.
pub data Phase : Type 0 where
  waiting : Phase
  locked : Phase
  checked : (prior : Option String) → Phase
  finished : (record_id : ℕ) → Phase
  failed : Phase

-- What a call that ended made known.
pub data Answer : Type 0 where
  recorded suppressed undone : Answer

pub record Event : Type 0 where
  pub user_id : ℕ
  pub status : String
  pub answer : Answer

abbrev pub is_status : String → Option String → Bool
is_status x none = false
is_status x (some y) = str_eq y x

-- `lower` is Python's `str.lower`.
module _ {S : Type 0} (D : Database S) (lower : String → String) where
  abbrev pub user_branch_of : Option ℕ → Option ℕ
  user_branch_of none = none
  user_branch_of (some u) = D.user_branch u

  -- `_derive_branch_id`
  abbrev pub derive_branch_id : Option ℕ → Option ℕ → Option ℕ
  derive_branch_id none user_id = user_branch_of user_id
  derive_branch_id (some c) user_id = elim (D.camera_branch c) [
    | none ↦ user_branch_of user_id
    | some b ↦ some b
  ]

  abbrev pub row_of : Call → Row
  row_of c = record {
    user_id = c.user_id;
    camera_id = c.camera_id;
    branch_id = derive_branch_id c.camera_id (some c.user_id);
    timestamp = c.timestamp;
    status = lower c.status;
    proof_image_url = c.proof_image_url;
  }

  abbrev pub event_of : Call → Answer → Event
  event_of c a = record { user_id = c.user_id; status = lower c.status; answer = a }

  -- The next statement of `record_attendance`, in the transaction `i`.
  unfoldable pub record_step : ℕ → Call → Phase → S → List Event × (Phase × S)
  record_step i c waiting s = elim (D.lock i c.user_id s) [
    | none ↦ ([], (waiting, s))
    | some s' ↦ ([], (locked, s'))
  ]
  record_step i c locked s = ([], (checked (head (D.records s c.user_id)), s))
  record_step i c (checked prior) s =
      let (id, s') = D.insert i (row_of c) s in
      if is_status (lower c.status) prior
      then (event_of c suppressed ∷ [], (finished 0, D.rollback i s))
      else elim id [
        | none ↦ (event_of c undone ∷ [], (failed, s'))
        | some k ↦ (event_of c recorded ∷ [], (finished k, s'))
      ]
  record_step i c (finished k) s = ([], (finished k, s))
  record_step i c failed s = ([], (failed, s))

  -- The calls in progress, each in a transaction of its own, and the database.
  pub record System : Type 0 where
    pub db : S
    pub phase : ℕ → Phase

  unfoldable pub turn : (ℕ → Call) → ℕ → System → List Event × System
  turn calls i y =
      let (events, (p, s)) = record_step i (calls i) (y.phase i) y.db in
      (events, record { db = s; phase = λ j. if j == i then p else y.phase j })

  -- `schedule` says whose turn it is.
  abbrev pub run : (ℕ → Call) → List ℕ → System → List Event × System
  run calls [] y = ([], y)
  run calls (i ∷ schedule) y =
      let (events, y') = turn calls i y in
      let (more, y'') = run calls schedule y' in (events ++ more, y'')

  -- At the start no call has sent a statement.
  abbrev pub idle : S → System
  idle s = record { db = s; phase = λ i. waiting }
