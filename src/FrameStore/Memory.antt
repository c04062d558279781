-- ===== src/FrameStore/Memory.antt =====
-- The shared memory of the host: /dev/shm maps names to blocks, and a block lives on for who has it
-- mapped after its name is gone. A block starts with the header that the writer stamps.
use Prim.Native.String.{String}
use lum_model_face_recogniti.Base.{
  ℕ, ◌+◌, ◌==◌, ◌&&◌, ◌≡◌, ◌↔◌, Bool, Option, none, some, List, [], ◌++◌, if◌then◌else◌, str_eq,
  eq_iff, arith, ap, length, take, drop, true,
}

-- `<prefix>_<camera_id>`; the prefix of a batch of crops names its purpose too.
pub record RingName : Type 0 where
  pub prefix : String
  pub camera_id : ℕ

-- `<ring name>_<segment>`
pub record Name : Type 0 where
  pub ring : RingName
  pub segment : ℕ

abbrev pub ring_eq : RingName → RingName → Bool
ring_eq a b = a.camera_id == b.camera_id && str_eq a.prefix b.prefix

abbrev pub name_eq : Name → Name → Bool
name_eq a b = a.segment == b.segment && ring_eq a.ring b.ring

pub name_eq_iff : (a b : Name) → (name_eq a b ≡ true) ↔ (a ≡ b)
name_eq_iff a b = (
  (λ h. ground (arith, eq_iff a.ring.prefix b.ring.prefix)),
  λ e. ground (
    arith,
    eq_iff a.ring.prefix b.ring.prefix,
    ap (λ (n : Name). n.ring.prefix) e,
    ap (λ (n : Name). n.ring.camera_id) e,
    ap (λ (n : Name). n.segment) e,
  ),
)

-- The payload is what stands behind the header; its bytes are numbers.
pub record Block : Type 0 where
  pub size : ℕ
  pub instance_id : ℕ
  pub seq : ℕ
  pub payload : List ℕ

-- `struct.Struct("<Qq").size`
abbrev pub header_size : ℕ
header_size = 16

abbrev pub blank : ℕ → Block
blank size = record { size = size; instance_id = 0; seq = 0; payload = [] }

pub record Shm : Type 0 where
  pub names : Name → Option ℕ
  pub blocks : ℕ → Block
  pub next : ℕ

abbrev pub link : Name → Option ℕ → Shm → Shm
link n b s = record s { names = λ m. if name_eq m n then b else s.names m }

-- A missing name (`FileNotFoundError`) is passed over.
abbrev pub unlink : Name → Shm → Shm
unlink n s = link n none s

abbrev pub modify : ℕ → (Block → Block) → Shm → Shm
modify b f s = record s { blocks = λ i. if i == b then f (s.blocks i) else s.blocks i }

-- A new block, zeroed, under the name.
abbrev pub create : Name → ℕ → Shm → Shm
create n size s = record {
  names = λ m. if name_eq m n then some s.next else s.names m;
  blocks = λ i. if i == s.next then blank size else s.blocks i;
  next = s.next + 1;
}

-- `SharedMemory(name, create=True, size)`; on `FileExistsError` the stale block is unlinked first.
abbrev pub create_or_reclaim : Name → ℕ → Shm → Shm
create_or_reclaim n size s = elim (s.names n) [
  | none ↦ create n size s
  | some stale ↦ create n size (unlink n s)
]

-- `view[:] = data` at a byte offset into the payload.
abbrev pub splice : ℕ → List ℕ → List ℕ → List ℕ
splice offset bytes payload = take offset payload ++ (bytes ++ drop (offset + length bytes) payload)
