-- ===== src/Tests/Ownership.antt =====
-- Leases and throttles over the server of Redis/Memory.antt.
use Prim.Native.String.{String}
use lum_model_face_recogniti.Base.{
  ◌≡◌, ◌≢◌, refl, Bool, true, false, none, some, List, [], ◌∷◌, arith, str_eq, eq_iff, ◌==◌, ◌&&◌,
  ◌↔◌, ap, All, if◌then◌else◌,
}
use mathlib.Core.Bool.{false≢true}
use lum_model_face_recogniti.Exec.{ok}
use lum_model_face_recogniti.Redis.{Redis, down, reply_lost, call}
use lum_model_face_recogniti.Redis.Memory.{Memory, memory, empty}
use lum_model_face_recogniti.Lease
use lum_model_face_recogniti.Lease.{Lease, Key, Process}
use lum_model_face_recogniti.Lease.Exclusive.{Turn, Rivals, grants, run, claims, renews, releases}
use lum_model_face_recogniti.Lease.Fleet.{
  answering, claim_exclusive, claim_renewable, claimed, claim_answered, holds, renew_status_told,
  renew_status_extends,
}
use lum_model_face_recogniti.Throttle
use lum_model_face_recogniti.Throttle.Once

key_eq : Key → Key → Bool
key_eq a b = a.camera_id == b.camera_id && str_eq a.prefix b.prefix

key_eq_iff : (a b : Key) → (key_eq a b ≡ true) ↔ (a ≡ b)
unfolding key_eq
key_eq_iff a b = (
  λ h. ground (arith, eq_iff a.prefix b.prefix),
  λ e. ground (
    arith,
    eq_iff a.prefix b.prefix,
    ap (λ (k : Key). k.prefix) e,
    ap (λ (k : Key). k.camera_id) e,
  ),
)

abbrev server : Redis Key (Memory Key)
server = memory key_eq key_eq_iff

abbrev worker_a : Lease
unfolding Lease.init
worker_a = Lease.init 30 "a" "track:cam:lease:" true

-- worker_b resolves its client itself
abbrev worker_b : Lease
unfolding Lease.init
worker_b = Lease.init 30 "b" "track:cam:lease:" false

abbrev start : Process (Memory Key)
start = answering worker_a empty 1000

a_claims : (Lease.claim server 7 start).0 ≡ ok true
unfolding Lease.claim Lease.init call key_eq
a_claims = refl

-- A claim that arrived and whose answer was lost is not taken for a success.
claim_reply_lost :
    (Lease.claim server 7 (record {
      lease = worker_a;
      world = record { server = empty; now = 0; links = reply_lost ∷ [] };
    })).0
    ≡ ok false
unfolding Lease.claim Lease.init call key_eq
claim_reply_lost = refl

abbrev rivals : List Turn
rivals =
    record { lease = worker_b; at = 2000; links = []; request = claims 7 }
    ∷ record { lease = worker_b; at = 20000; links = down ∷ reply_lost ∷ []; request = releases 7 }
    ∷ record { lease = worker_b; at = 30000; links = []; request = renews 7 }
    ∷ []

a≢b : ◌≢◌ {A = String} "a" "b"
a≢b e = false≢true ((eq_iff "a" "b").1 e)

b≢a : ◌≢◌ {A = String} "b" "a"
b≢a e = false≢true ((eq_iff "b" "a").1 e)

rivals-Rivals : Rivals "a" 31000 1000 rivals
unfolding Lease.init
rivals-Rivals = (
  b≢a,
  omega arith,
  omega arith,
  (b≢a, omega arith, omega arith, (b≢a, omega arith, omega arith, tt)),
)

claim_exclusive_example :
    All (λ k. k ≢ Lease.key worker_a 7) (grants server (claimed server 7 start) rivals)
unfolding worker_a
claim_exclusive_example = claim_exclusive server 7 start a_claims rivals rivals-Rivals

claim_renewable_example :
    (Lease.renew server 7 (answering worker_a (run server (claimed server 7 start) rivals) 30500)).0
    ≡ ok true
unfolding worker_a
claim_renewable_example =
    claim_renewable server 7 start a_claims rivals worker_a 30500 rivals-Rivals refl refl
      (omega arith) (omega arith)

claim_answered_example :
    ((Lease.claim server 7 start).0 ≡ ok true)
    × ((Lease.claim server 7 start).1.lease.degraded ≡ false)
unfolding key_eq
claim_answered_example = claim_answered server 7 worker_a empty 1000

-- worker_b holds camera 7 until 61 s.
abbrev b_holds : Memory Key
b_holds k = if key_eq k (Lease.key worker_b 7) then some ("b", 61000) else none

renew_status_told_example : false ≡ holds server 7 (answering worker_a b_holds 40000)
unfolding Lease.renew_status Lease.init call key_eq
renew_status_told_example =
    renew_status_told server 7 (answering worker_a b_holds 40000) (omega arith) false refl

renew_status_extends_example :
    server.get
      (Lease.renew_status server 7 (answering worker_b b_holds 40000)).1.world.server
      69999
      (Lease.key worker_b 7)
    ≡ some "b"
unfolding Lease.renew_status Lease.init call key_eq
renew_status_extends_example =
    renew_status_extends server 7 (answering worker_b b_holds 40000) (omega arith) 69999 refl
      (omega arith) (omega arith)

abbrev persons : Redis String (Memory String)
persons = memory str_eq eq_iff

abbrev quick : Throttle.Process (Memory String)
unfolding Throttle.init
quick = record {
  throttle = Throttle.init 10 true;
  world = record { server = empty; now = 0; links = [] };
}

abbrev askers : List Once.Turn
unfolding Throttle.init
askers =
    record {
      throttle = Throttle.init 10 false;
      at = 400;
      links = [];
      request = Once.reserves "ann";
    }
    ∷ record {
      throttle = Throttle.init 10 false;
      at = 500;
      links = [];
      request = Once.cancels "bob";
    }
    ∷ []

bob≢ann : ◌≢◌ {A = String} "bob" "ann"
bob≢ann e = false≢true ((eq_iff "bob" "ann").1 e)

reserve_once_example :
    All
      (λ j. j ≢ "ann")
      (Once.grants persons (Throttle.reserve persons "ann" quick).1.world.server askers)
unfolding Throttle.reserve Throttle.init quick askers call
reserve_once_example =
    Once.reserve_once persons "ann" quick askers refl
      (tt, omega arith, omega arith, (bob≢ann, omega arith, omega arith, tt))
