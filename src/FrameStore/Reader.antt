-- ===== src/FrameStore/Reader.antt =====
-- The reader's side: a process maps segments by name, keeps its mappings, and copies frames out.
use lum_model_face_recogniti.Base.{
  ℕ, ◌+◌, ◌==◌, ◌&&◌, ◌||◌, not, Bool, Option, none, some, List, take, leb, ltb, if◌then◌else◌,
}
use lum_model_face_recogniti.FrameStore.Memory.{RingName, Name, Block, Shm, header_size, name_eq}
use lum_model_face_recogniti.FrameStore.Slot.{bytes_of, FrameHandle, Slot, lookup}

-- `_ATTACHED` and `_LOCAL_SLOTS` of one process.
pub record Reader : Type 0 where
  pub attached : Name → Option ℕ
  pub local_slots : RingName → Option Slot

abbrev pub remember : Name → Option ℕ → Reader → Reader
remember n b r = record r { attached = λ m. if name_eq m n then b else r.attached m }

-- `_attach_fresh`, and the entry that `_attach_segment` makes for it.
unfoldable pub attach_fresh : Name → Shm → Reader → Option ℕ × Reader
attach_fresh n s r = elim (s.names n) [
  | none ↦ (none, r)
  | some b ↦ (some b, remember n (some b) r)
]

-- A cached mapping that is too small is dropped.
unfoldable pub attach_segment : Name → ℕ → Shm → Reader → Option ℕ × Reader
unfolding attach_fresh
attach_segment n needed s r = elim (r.attached n) [
  | none ↦ attach_fresh n s r
  | some b ↦
      if ltb (s.blocks b).size needed then attach_fresh n s (remember n none r) else (some b, r)
]

abbrev pub header_matches : Block → ℕ → ℕ → Bool
header_matches k instance_id seq = k.instance_id == instance_id && k.seq == seq

unfoldable pub mapping_is_stale : Block → ℕ → ℕ → Bool
mapping_is_stale k instance_id seq = not (k.instance_id == instance_id) || ltb k.seq seq

-- What a test of the attached block passes on: the block, if it is large enough and stamped.
abbrev pub usable : Shm → ℕ → ℕ → ℕ → Option ℕ → Option ℕ
usable s needed instance_id seq none = none
usable s needed instance_id seq (some b) =
    if leb needed (s.blocks b).size && header_matches (s.blocks b) instance_id seq
    then some b
    else none

-- The path of a reader in another process, up to the copy.
unfoldable pub locate_mapped : Name → ℕ → ℕ → ℕ → Shm → Reader → Option ℕ × Reader
unfolding attach_segment mapping_is_stale
locate_mapped n needed instance_id seq s r =
    let (found, r') = attach_segment n needed s r in
    elim found [
      | none ↦ (none, r')
      | some b ↦
          if ltb (s.blocks b).size needed
          then (none, r')
          else if header_matches (s.blocks b) instance_id seq
          then (some b, r')
          else if mapping_is_stale (s.blocks b) instance_id seq
          then (let (again, r'') = attach_segment n needed s (remember n none r') in
              (usable s needed instance_id seq again, r''))
          else (none, r')
    ]

-- The path of a reader in the writer's own process, up to the copy.
unfoldable pub locate_local : Slot → ℕ → ℕ → ℕ → ℕ → Shm → Option ℕ
locate_local slot segment needed instance_id seq s =
    usable s needed instance_id seq (lookup segment slot.shms)

unfoldable pub locate : Name → ℕ → ℕ → ℕ → Shm → Reader → Option ℕ × Reader
unfolding locate_mapped locate_local
locate n needed instance_id seq s r = elim (r.local_slots n.ring) [
  | none ↦ locate_mapped n needed instance_id seq s r
  | some slot ↦ (locate_local slot n.segment needed instance_id seq s, r)
]

abbrev pub handle_name : RingName → FrameHandle → Name
handle_name base h = record { ring = base; segment = h.segment }

-- The copy is made from what the memory holds at `during`, and the header is read again at `after`.
abbrev pub copy_out : FrameHandle → Option ℕ → Shm → Shm → Option (List ℕ)
copy_out h none during after = none
copy_out h (some b) during after =
    if header_matches (after.blocks b) h.instance_id h.seq
    then some (take (bytes_of h.shape) (during.blocks b).payload)
    else none

-- `_attach_and_read_ring`. The memory may change while it runs: the segment is found and its header
-- checked at `before`, the pixels are copied at `during`, the header is checked again at `after`.
unfoldable pub read_racing :
    FrameHandle → RingName → Shm → Shm → Shm → Reader → Option (List ℕ) × Reader
unfolding locate
read_racing h base before during after r =
    let (b, r') =
      locate (handle_name base h) (header_size + bytes_of h.shape) h.instance_id h.seq before r in
    (copy_out h b during after, r')

-- A read during which nobody writes.
abbrev pub read_ring : FrameHandle → RingName → Shm → Reader → Option (List ℕ) × Reader
read_ring h base s r = read_racing h base s s s r

abbrev pub slot_name : ℕ → RingName
slot_name camera_id = record { prefix = "camframe"; camera_id = camera_id }

abbrev pub raw_slot_name : ℕ → RingName
raw_slot_name camera_id = record { prefix = "camraw"; camera_id = camera_id }

abbrev pub attach_and_read : FrameHandle → Shm → Reader → Option (List ℕ) × Reader
attach_and_read h = read_ring h (slot_name h.camera_id)

abbrev pub attach_and_read_raw : FrameHandle → Shm → Reader → Option (List ℕ) × Reader
attach_and_read_raw h = read_ring h (raw_slot_name h.camera_id)
