-- ===== src/Records/Server.antt =====
-- A database that keeps each user's statuses and the locks on the users' rows: an instance of
-- `Database`, which shows that the laws can hold, and runs the examples.
use lum_model_face_recogniti.Base.{
  ℕ, suc, ◌==◌, ◌≡◌, ◌≢◌, Bool, true, false, Option, none, some, List, [], ◌∷◌, if◌then◌else◌,
  String, arith, refl, Option-cases, inl, inr,
}
use lum_model_face_recogniti.Records.{Row, Database}

pub record Store : Type 0 where
  pub rows : ℕ → List String
  pub locks : ℕ → Option ℕ
  pub next : ℕ

abbrev is_mine : ℕ → Option ℕ → Bool
is_mine i none = false
is_mine i (some j) = j == i

-- The end of a transaction gives its locks back.
abbrev unlock : ℕ → Store → Store
unlock i s = record s { locks = λ u. if is_mine i (s.locks u) then none else s.locks u }

abbrev granted : ℕ → ℕ → Store → Store
granted i u s = record s { locks = λ v. if v == u then some i else s.locks v }

abbrev take_lock : ℕ → ℕ → Store → Option Store
take_lock i u s = elim (s.locks u) [ none ↦ some (granted i u s) | some j ↦ none ]

abbrev add_row : ℕ → Row → Store → Option ℕ × Store
add_row i r s = (
  some (suc s.next),
  unlock i (record s {
    rows = λ v. if v == r.user_id then r.status ∷ s.rows v else s.rows v;
    next = suc s.next;
  }),
)

some_inj {ℓ} : {A : Type ℓ} → (a b : A) → some a ≡ some b → a ≡ b
some_inj a b e = cc

pub take_lock_lem :
    (i u : ℕ) (s s' : Store) → take_lock i u s ≡ some s' → (s.locks u ≡ none) × (granted i u s ≡ s')
take_lock_lem i u s s' e = elim (Option-cases (s.locks u)) [
  | inl h ↦ (h, some_inj (granted i u s) s' (rw (h, take_lock) at e))
  | inr (j, h) ↦ ground arith
]

pub take_lock_held : (i u : ℕ) (s s' : Store) → take_lock i u s ≡ some s' → s'.locks u ≡ some i
take_lock_held i u s s' e = rw (← (take_lock_lem i u s s' e).1) (ground (arith))

pub take_lock_other :
    (i u v : ℕ) (s s' : Store) → take_lock i u s ≡ some s' → v ≢ u → s'.locks v ≡ s.locks v
take_lock_other i u v s s' e ne = rw (← (take_lock_lem i u s s' e).1) (ground (arith))

pub take_lock_rows : (i u v : ℕ) (s s' : Store) → take_lock i u s ≡ some s' → s'.rows v ≡ s.rows v
take_lock_rows i u v s s' e = rw (← (take_lock_lem i u s s' e).1) refl

pub unlock_other :
    (i j v : ℕ) (s : Store) → s.locks v ≡ some j → j ≢ i → (unlock i s).locks v ≡ some j
unlock_other i j v s h ne = ground arith

pub add_row_own :
    (i : ℕ) (r : Row) (s : Store) → (add_row i r s).1.rows r.user_id ≡ r.status ∷ s.rows r.user_id
add_row_own i r s = ground arith

pub add_row_other :
    (i v : ℕ) (r : Row) (s : Store) → v ≢ r.user_id → (add_row i r s).1.rows v ≡ s.rows v
add_row_other i v r s ne = ground arith

pub add_row_lands : (i : ℕ) (r : Row) (s : Store) → (add_row i r s).0 ≢ none
add_row_lands i r s e = cc

pub add_row_id : (i k : ℕ) (r : Row) (s : Store) → (add_row i r s).0 ≡ some k → k ≢ 0
add_row_id i k r s e z = ground arith

abbrev pub store : Database Store
store = record {
  known = λ u. true;
  camera_branch = λ c. none;
  user_branch = λ u. some 1;
  records = λ s. s.rows;
  holder = λ s. s.locks;
  lock = take_lock;
  insert = add_row;
  rollback = unlock;
  lock_free = λ i u s s' k e. (take_lock_lem i u s s' e).0;
  lock_held = λ i u s s' k e. take_lock_held i u s s' e;
  lock_other = take_lock_other;
  lock_records = take_lock_rows;
  rollback_records = λ i v s. refl;
  rollback_other = unlock_other;
  insert_row = λ i k r s h e. add_row_own i r s;
  insert_undone = λ i v r s e. absurd (add_row_lands i r s e);
  insert_other = add_row_other;
  insert_holder = λ i j v r s. unlock_other i j v s;
  insert_id = add_row_id;
}

abbrev pub empty : Store
empty = record { rows = λ u. []; locks = λ u. none; next = 0 }
