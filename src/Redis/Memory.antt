-- ===== src/Redis/Memory.antt =====
-- A server that keeps each key's value and its deadline: an instance of `Redis`, which shows that
-- the laws can hold, and runs the examples.
use lum_model_face_recogniti.Base.{
  ℕ, ◌+◌, ◌*◌, ◌≤◌, ◌<◌, String, ◌≡◌, ◌≢◌, ◌↔◌, Bool, true, false, Option, none, some, arith, ltb,
  if◌then◌else◌, refl,
}
use lum_model_face_recogniti.Redis.{Redis}

abbrev pub Memory : Type 0 → Type 0
Memory K = K → Option (String × ℕ)

abbrev pub empty : {K : Type 0} → Memory K
empty k = none

module _ {K : Type 0} (beq : K → K → Bool) (beq_iff : (a b : K) → (beq a b ≡ true) ↔ (a ≡ b)) where
  abbrev read : ℕ → Option (String × ℕ) → Option String
  read t none = none
  read t (some (v, d)) = if ltb t d then some v else none

  abbrev get : Memory K → ℕ → K → Option String
  get s t k = read t (s k)

  abbrev put : K → Option (String × ℕ) → Memory K → Memory K
  put k e s j = if beq j k then e else s j

  abbrev set_nx_ex : K → String → ℕ → ℕ → Memory K → Bool × Memory K
  set_nx_ex k v ttl now s = elim (get s now k) [
    | none ↦ (true, put k (some (v, now + ttl * 1000)) s)
    | some _ ↦ (false, s)
  ]

  abbrev expire : K → ℕ → ℕ → Memory K → Bool × Memory K
  expire k ttl now s = elim (get s now k) [
    | none ↦ (false, s)
    | some v ↦ (true, put k (some (v, now + ttl * 1000)) s)
  ]

  abbrev del : K → ℕ → Memory K → Bool × Memory K
  del k now s = elim (get s now k) [ none ↦ (false, put k none s) | some v ↦ (true, put k none s) ]

  abbrev exists : K → ℕ → Memory K → Bool × Memory K
  exists k now s = elim (get s now k) [ none ↦ (false, s) | some _ ↦ (true, s) ]

  pub set_taken_lem :
      (k : K) (v : String) (ttl now : ℕ) (s : Memory K) (u : String)
      → get s now k ≡ some u
      → set_nx_ex k v ttl now s ≡ (false, s)
  set_taken_lem k v ttl now s u e = ground (arith)

  pub set_free_lem :
      (k : K) (v : String) (ttl now : ℕ) (s : Memory K)
      → get s now k ≡ none
      → (set_nx_ex k v ttl now s).0 ≡ true
  set_free_lem k v ttl now s e = ground (arith)

  pub set_live_lem :
      (k : K) (v : String) (ttl now t : ℕ) (s : Memory K)
      → get s now k ≡ none
      → now ≤ t
      → t < now + ttl * 1000
      → get (set_nx_ex k v ttl now s).1 t k ≡ some v
  set_live_lem k v ttl now t s e le lt = ground (arith, (beq_iff k k).1 refl)

  pub set_dead_lem :
      (k : K) (v : String) (ttl now t : ℕ) (s : Memory K)
      → get s now k ≡ none
      → now + ttl * 1000 ≤ t
      → get (set_nx_ex k v ttl now s).1 t k ≡ none
  set_dead_lem k v ttl now t s e le = ground (arith, (beq_iff k k).1 refl)

  pub set_other_lem :
      (k j : K) (v : String) (ttl now t : ℕ) (s : Memory K)
      → j ≢ k
      → now ≤ t
      → get (set_nx_ex k v ttl now s).1 t j ≡ get s t j
  set_other_lem k j v ttl now t s ne le = ground (arith, beq_iff j k)

  pub expire_live_lem :
      (k : K) (ttl now t : ℕ) (s : Memory K) (u : String)
      → get s now k ≡ some u
      → now ≤ t
      → t < now + ttl * 1000
      → get (expire k ttl now s).1 t k ≡ some u
  expire_live_lem k ttl now t s u e le lt = ground (arith, (beq_iff k k).1 refl)

  pub expire_reply_lem :
      (k : K) (ttl now : ℕ) (s : Memory K) (u : String)
      → get s now k ≡ some u
      → (expire k ttl now s).0 ≡ true
  expire_reply_lem k ttl now s u e = ground (arith)

  pub expire_other_lem :
      (k j : K) (ttl now t : ℕ) (s : Memory K)
      → j ≢ k
      → now ≤ t
      → get (expire k ttl now s).1 t j ≡ get s t j
  expire_other_lem k j ttl now t s ne le = ground (arith, beq_iff j k)

  pub del_gone_lem : (k : K) (now t : ℕ) (s : Memory K) → now ≤ t → get (del k now s).1 t k ≡ none
  del_gone_lem k now t s le = ground (arith, (beq_iff k k).1 refl)

  pub del_other_lem :
      (k j : K) (now t : ℕ) (s : Memory K) → j ≢ k → now ≤ t → get (del k now s).1 t j ≡ get s t j
  del_other_lem k j now t s ne le = ground (arith, beq_iff j k)

  abbrev pub memory : Redis K (Memory K)
  memory = record {
    get = get;
    set_nx_ex = set_nx_ex;
    expire = expire;
    del = del;
    exists = exists;
    set_taken = set_taken_lem;
    set_free = set_free_lem;
    set_live = set_live_lem;
    set_dead = set_dead_lem;
    set_other = set_other_lem;
    expire_live = expire_live_lem;
    expire_reply = expire_reply_lem;
    expire_other = expire_other_lem;
    del_gone = del_gone_lem;
    del_other = del_other_lem;
    exists_lem = λ k now s. refl;
  }
