-- ===== src/Redis.antt =====
-- What messaging/redis_client.py hands to its callers: a connection to a Redis server. The server
-- is not part of the repository, so it is a parameter; the laws are the documented behaviour of
-- GET, SET NX EX, EXPIRE, DEL and EXISTS.
pub mod Memory
use lum_model_face_recogniti.Base.{
  ℕ, ◌+◌, ◌*◌, ◌≤◌, ◌<◌, String, ◌≡◌, ◌≢◌, Bool, true, false, Option, none, some, List, [], ◌∷◌,
}
use lum_model_face_recogniti.Exec.{Outcome, ok, raised}

-- `get s t k` is what GET k answers at time t (in milliseconds) if nothing else happens to `s`.
-- The lifetimes are in whole seconds, as EX takes them.
pub record Redis (K S : Type 0) : Type 0 where
  pub get : S → ℕ → K → Option String
  pub set_nx_ex : K → String → ℕ → ℕ → S → Bool × S
  pub expire : K → ℕ → ℕ → S → Bool × S
  pub del : K → ℕ → S → Bool × S
  pub exists : K → ℕ → S → Bool × S
  pub set_taken :
      (k : K) (v : String) (ttl now : ℕ) (s : S) (u : String)
      → get s now k ≡ some u
      → set_nx_ex k v ttl now s ≡ (false, s)
  pub set_free :
      (k : K) (v : String) (ttl now : ℕ) (s : S)
      → get s now k ≡ none
      → (set_nx_ex k v ttl now s).0 ≡ true
  pub set_live :
      (k : K) (v : String) (ttl now t : ℕ) (s : S)
      → get s now k ≡ none
      → now ≤ t
      → t < now + ttl * 1000
      → get (set_nx_ex k v ttl now s).1 t k ≡ some v
  pub set_dead :
      (k : K) (v : String) (ttl now t : ℕ) (s : S)
      → get s now k ≡ none
      → now + ttl * 1000 ≤ t
      → get (set_nx_ex k v ttl now s).1 t k ≡ none
  pub set_other :
      (k j : K) (v : String) (ttl now t : ℕ) (s : S)
      → j ≢ k
      → now ≤ t
      → get (set_nx_ex k v ttl now s).1 t j ≡ get s t j
  pub expire_live :
      (k : K) (ttl now t : ℕ) (s : S) (u : String)
      → get s now k ≡ some u
      → now ≤ t
      → t < now + ttl * 1000
      → get (expire k ttl now s).1 t k ≡ some u
  pub expire_reply :
      (k : K) (ttl now : ℕ) (s : S) (u : String)
      → get s now k ≡ some u
      → (expire k ttl now s).0 ≡ true
  pub expire_other :
      (k j : K) (ttl now t : ℕ) (s : S)
      → j ≢ k
      → now ≤ t
      → get (expire k ttl now s).1 t j ≡ get s t j
  pub del_gone : (k : K) (now t : ℕ) (s : S) → now ≤ t → get (del k now s).1 t k ≡ none
  pub del_other :
      (k j : K) (now t : ℕ) (s : S) → j ≢ k → now ≤ t → get (del k now s).1 t j ≡ get s t j
  pub exists_lem :
      (k : K) (now : ℕ) (s : S)
      → exists k now s ≡ elim (get s now k) [ none ↦ (false, s) | some _ ↦ (true, s) ]

-- What becomes of one call: it is answered, it never arrives, or it is carried out and the answer
-- is lost. A call that Redis refuses (NOSCRIPT) is one that never arrives.
pub data Link : Type 0 where
  up down reply_lost : Link

-- The server as one client sees it, and the fate of the calls that it is about to make. Calls
-- past the end of `links` are answered.
pub record World (S : Type 0) : Type 0 where
  pub server : S
  pub now : ℕ
  pub links : List Link

module _ {S A : Type 0} where
  deliver : (ℕ → S → A × S) → ℕ → S → List Link → Outcome A × World S
  deliver f now s [] =
      let (a, s') = f now s in (ok a, record { server = s'; now = now; links = [] })
  deliver f now s (up ∷ ls) =
      let (a, s') = f now s in (ok a, record { server = s'; now = now; links = ls })
  deliver f now s (down ∷ ls) = (raised, record { server = s; now = now; links = ls })
  deliver f now s (reply_lost ∷ ls) =
      let (a, s') = f now s in (raised, record { server = s'; now = now; links = ls })

  -- One round trip to the server.
  unfoldable pub call : (ℕ → S → A × S) → World S → Outcome A × World S
  unfolding deliver
  call f w = deliver f w.now w.server w.links

  -- A call leaves the server as it was, or as the command leaves it, and takes no time.
  pub call_cases :
      (P : Outcome A × World S → Type 0) (f : ℕ → S → A × S) (w : World S)
      → ((ls : List Link) → P (raised, record w { links = ls }))
      → ((ls : List Link) → P (raised, record w { server = (f w.now w.server).1; links = ls }))
      → ((ls : List Link)
          → P (ok (f w.now w.server).0, record w { server = (f w.now w.server).1; links = ls }))
      → P (call f w)
  unfolding call
  call_cases P f w unsent lost done = go w.links
    where
      go : (ls : List Link) → P (deliver f w.now w.server ls)
      go [] = done []
      go (up ∷ ls) = done ls
      go (down ∷ ls) = unsent ls
      go (reply_lost ∷ ls) = lost ls
