-- ===== src/FrameStore/Segments.antt =====
-- What a writer keeps true of its segments: each one that it has mapped is the one that its name
-- leads to, and no two names lead to one block.
use lum_model_face_recogniti.Base.{
  ℕ, suc, ◌+◌, ◌≤◌, ◌<◌, ◌%◌, ◌==◌, ◌≡◌, true, false, some, [], ◌∷◌, leb, if◌then◌else◌, arith,
  refl, ap, ◌∙◌, inl, inr, Bool-cases, Option-cases, leb→le, ◌⊎◌,
}
use lum_model_face_recogniti.FrameStore.Memory.{
  RingName, Name, Block, Shm, blank, header_size, name_eq, name_eq_iff, unlink, create_or_reclaim,
}
use lum_model_face_recogniti.FrameStore.Slot.{
  Shape, Writer, Mapped, bytes_of, lookup, put, segment_name, release, reshape, same_shape,
  unlink_all, allocate, ensure_sized, ensure_segment, prepare,
}

pub record IsShm (s : Shm) : Type 0 where
  pub bound : (n : Name) (b : ℕ) → s.names n ≡ some b → b < s.next
  pub apart : (n m : Name) (b : ℕ) → s.names n ≡ some b → s.names m ≡ some b → n ≡ m

pub record IsValid (w : Writer) : Type 0 where
  pub memory : IsShm w.shm
  pub mapped :
      (k b : ℕ) → lookup k w.slot.shms ≡ some b → w.shm.names (segment_name w.slot k) ≡ some b

pub reclaim-names :
    (n m : Name) (size : ℕ) (s : Shm)
    → (create_or_reclaim n size s).names m ≡ (if name_eq m n then some s.next else s.names m)
reclaim-names n m size s = ground arith

pub reclaim-blocks :
    (n : Name) (size i : ℕ) (s : Shm)
    → (create_or_reclaim n size s).blocks i ≡ (if i == s.next then blank size else s.blocks i)
reclaim-blocks n size i s = ground arith

pub reclaim-next : (n : Name) (size : ℕ) (s : Shm) → (create_or_reclaim n size s).next ≡ s.next + 1
reclaim-next n size s = ground arith

pub lookup-put :
    (k j b : ℕ) (m : Mapped) → lookup j (put k b m) ≡ (if k == j then some b else lookup j m)
lookup-put k j b [] = refl
lookup-put k j b ((i, c) ∷ m) = ground (arith, lookup-put k j b m)

unlink-IsShm : (n : Name) (s : Shm) → IsShm s → IsShm (unlink n s)
unlink-IsShm n s v = record {
  bound = λ m b h. ground (arith, v.bound m b);
  apart = λ m k b h g. ground (arith, v.apart m k b);
}

reclaim-IsShm : (n : Name) (size : ℕ) (s : Shm) → IsShm s → IsShm (create_or_reclaim n size s)
reclaim-IsShm n size s v = record {
  bound = λ m b h. ground (arith, v.bound m b, reclaim-names n m size s, reclaim-next n size s);
  apart = λ m k b h g. ground (
    arith,
    v.apart m k b,
    v.bound m b,
    v.bound k b,
    reclaim-names n m size s,
    reclaim-names n k size s,
    name_eq_iff m n,
    name_eq_iff k n,
  );
}

unlink_all-IsShm : (base : RingName) (m : Mapped) (s : Shm) → IsShm s → IsShm (unlink_all base m s)
unlink_all-IsShm base [] s v = v
unlink_all-IsShm base ((k, b) ∷ m) s v = unlink_all-IsShm base m _ (unlink-IsShm _ s v)

pub release-IsValid : (w : Writer) → IsValid w → IsValid (release w)
release-IsValid w v = record {
  memory = unlink_all-IsShm w.slot.base w.slot.shms w.shm v.memory;
  mapped = λ k b h. cc;
}

reshape-IsValid : (shape : Shape) (w : Writer) → IsValid w → IsValid (reshape shape w)
unfolding reshape
reshape-IsValid shape w v = elim (Bool-cases (same_shape w.slot.shape shape)) [
  | inl e ↦ rw e v
  | inr e ↦ rw e (record { memory = (release-IsValid w v).memory; mapped = λ k b h. cc })
]

module _ (segment nbytes : ℕ) (w : Writer) where
  allocate-IsValid :
      IsShm w.shm
      → ((k b : ℕ)
          → (segment == k) ≡ false
          → lookup k w.slot.shms ≡ some b
          → w.shm.names (segment_name w.slot k) ≡ some b)
      → IsValid (allocate segment nbytes w).1
  unfolding allocate
  allocate-IsValid m others = record {
    memory = reclaim-IsShm (segment_name w.slot segment) nbytes w.shm m;
    mapped = λ k b h. ground (
      arith,
      others k b,
      lookup-put segment k w.shm.next w.slot.shms,
      reclaim-names (segment_name w.slot segment) (segment_name w.slot k) nbytes w.shm,
      name_eq_iff (segment_name w.slot k) (segment_name w.slot segment),
      name_eq_iff (segment_name w.slot k) (segment_name w.slot k),
    );
  }

  allocate-IsReady :
      let r = allocate segment nbytes w in
      (lookup segment r.1.slot.shms ≡ some r.0) × (nbytes ≤ (r.1.shm.blocks r.0).size)
  unfolding allocate
  allocate-IsReady = ground (
    arith,
    lookup-put segment segment w.shm.next w.slot.shms,
    reclaim-blocks (segment_name w.slot segment) nbytes w.shm.next w.shm,
  )

-- Block `b` is the mapped segment, and large enough.
abbrev pub IsReady : ℕ → ℕ → ℕ × Writer → Type 0
IsReady segment nbytes r =
    (lookup segment r.1.slot.shms ≡ some r.0) × (nbytes ≤ (r.1.shm.blocks r.0).size)

module _ (segment nbytes : ℕ) (w : Writer) (v : IsValid w) where
  abbrev unlinked : Writer
  unlinked = record w { shm = unlink (segment_name w.slot segment) w.shm }

  unlinked_others :
      (k b : ℕ)
      → (segment == k) ≡ false
      → lookup k w.slot.shms ≡ some b
      → unlinked.shm.names (segment_name w.slot k) ≡ some b
  unlinked_others k b ne h = ground (
    arith,
    v.mapped k b h,
    ap (λ (n : Name). n.segment),
    name_eq_iff (segment_name w.slot k) (segment_name w.slot segment),
  )

  pub ensure_sized_lem :
      let r = ensure_sized segment nbytes w in IsValid r.1 × IsReady segment nbytes r
  unfolding ensure_sized
  ensure_sized_lem = elim (Option-cases (lookup segment w.slot.shms)) [
    | inl e ↦
        rw (e, ensure_sized)
          (
            allocate-IsValid segment nbytes w v.memory (λ k b _. v.mapped k b),
            allocate-IsReady segment nbytes w,
          )
    | inr (b, e) ↦ elim (Bool-cases (leb nbytes (w.shm.blocks b).size)) [
      | inl q ↦ rw (e, ensure_sized) (rw q (v, (e, leb→le _ _ q)))
      | inr q ↦
          rw (e, ensure_sized)
            (rw q (
              allocate-IsValid segment nbytes unlinked (unlink-IsShm _ w.shm v.memory)
                  unlinked_others,
              allocate-IsReady segment nbytes unlinked,
            ))
    ]
  ]

  -- The other segments stay as they are.
  ensure_sized_other :
      (k b : ℕ)
      → (segment == k) ≡ false
      → lookup k w.slot.shms ≡ some b
      → let r = (ensure_sized segment nbytes w).1 in
        (lookup k r.slot.shms ≡ some b) × (r.shm.blocks b ≡ w.shm.blocks b)
  unfolding ensure_sized
  ensure_sized_other k b ne h = ground (
    arith,
    v.memory.bound (segment_name w.slot k) b (v.mapped k b h),
    lookup-put segment k w.shm.next w.slot.shms,
    reclaim-blocks (segment_name w.slot segment) nbytes b w.shm,
    reclaim-blocks (segment_name w.slot segment) nbytes b unlinked.shm,
  )

-- What belongs to the writer and not to its segments.
pub record Alike (w w' : Writer) : Type 0 where
  pub instance_id : w'.instance_id ≡ w.instance_id
  pub camera_id : w'.slot.camera_id ≡ w.slot.camera_id
  pub base : w'.slot.base ≡ w.slot.base
  pub ring_size : w'.slot.ring_size ≡ w.slot.ring_size
  pub seq : w'.slot.seq ≡ w.slot.seq

pub ensure_sized-Alike :
    (segment nbytes : ℕ) (w : Writer) → Alike w (ensure_sized segment nbytes w).1
unfolding ensure_sized
ensure_sized-Alike segment nbytes w = ground arith

reshape-Alike : (shape : Shape) (w : Writer) → Alike w (reshape shape w)
unfolding reshape
reshape-Alike shape w = ground arith

shape-ensure_sized :
    (segment nbytes : ℕ) (w : Writer) → (ensure_sized segment nbytes w).1.slot.shape ≡ w.slot.shape
unfolding ensure_sized
shape-ensure_sized segment nbytes w = ground arith

shape-reshape : (shape : Shape) (w : Writer) → (reshape shape w).slot.shape ≡ some shape
unfolding reshape
shape-reshape shape w = ground arith

-- The writer at the start of `write`, with its new sequence number.
abbrev pub advanced : Writer → Writer
advanced w = record w { slot = record w.slot { seq = suc w.slot.seq } }

abbrev pub next_segment : Writer → ℕ
next_segment w = suc w.slot.seq % w.slot.ring_size

module _ (shape : Shape) (w : Writer) (v : IsValid w) where
  advanced-IsValid : IsValid (advanced w)
  advanced-IsValid = record { memory = v.memory; mapped = v.mapped }

  abbrev ready : Writer
  ready = reshape shape (advanced w)

  ready-IsValid : IsValid ready
  ready-IsValid = reshape-IsValid shape (advanced w) advanced-IsValid

  pub prepare_lem :
      let r = prepare shape w in
      IsValid r.1 × IsReady (next_segment w) (header_size + bytes_of shape) r
  unfolding prepare ensure_segment
  prepare_lem = ensure_sized_lem (next_segment w) (header_size + bytes_of shape) ready ready-IsValid

  pub prepare-Alike : Alike (advanced w) (prepare shape w).1
  unfolding prepare ensure_segment
  prepare-Alike =
      cc_alike (reshape-Alike shape (advanced w))
        (ensure_sized-Alike (next_segment w) (header_size + bytes_of shape) ready)
    where
      cc_alike : {a b c : Writer} → Alike a b → Alike b c → Alike a c
      cc_alike x y = ground arith

  pub shape-prepare : (prepare shape w).1.slot.shape ≡ some shape
  unfolding prepare ensure_segment
  shape-prepare =
      shape-ensure_sized (next_segment w) (header_size + bytes_of shape) ready
      ∙ shape-reshape shape (advanced w)

  -- With an unchanged shape, the other segments stay as they are.
  pub prepare_other :
      (k b : ℕ)
      → w.slot.shape ≡ some shape
      → (next_segment w == k) ≡ false
      → lookup k w.slot.shms ≡ some b
      → let r = (prepare shape w).1 in
        (lookup k r.slot.shms ≡ some b) × (r.shm.blocks b ≡ w.shm.blocks b)
  unfolding prepare ensure_segment reshape
  prepare_other k b same ne h =
      let e : same_shape (advanced w).slot.shape shape ≡ true = ground arith in
      rw e (
        ensure_sized_other (next_segment w) (header_size + bytes_of shape) (advanced w)
          advanced-IsValid k b ne h)

pub unlink_all-blocks :
    (base : RingName) (m : Mapped) (s : Shm) → (unlink_all base m s).blocks ≡ s.blocks
unlink_all-blocks base [] s = refl
unlink_all-blocks base ((k, b) ∷ m) s = unlink_all-blocks base m _

blocks-reshape : (shape : Shape) (w : Writer) → (reshape shape w).shm.blocks ≡ w.shm.blocks
unfolding reshape
blocks-reshape shape w = elim (Bool-cases (same_shape w.slot.shape shape)) [
  | inl e ↦ rw e refl
  | inr e ↦ rw e (unlink_all-blocks w.slot.base w.slot.shms w.shm)
]

-- Making a segment ready leaves each block as it is, or blanks it.
abbrev pub Kept : Block → Block → Type 0
Kept old new = (new ≡ old) ⊎ ((new.instance_id ≡ 0) × (new.seq ≡ 0))

pub ensure_sized-Kept :
    (segment nbytes i : ℕ) (w : Writer)
    → Kept (w.shm.blocks i) ((ensure_sized segment nbytes w).1.shm.blocks i)
unfolding ensure_sized
ensure_sized-Kept segment nbytes i w = ground (
  arith,
  reclaim-blocks (segment_name w.slot segment) nbytes i w.shm,
  reclaim-blocks (segment_name w.slot segment) nbytes i
      (unlink (segment_name w.slot segment) w.shm),
)

pub prepare-Kept :
    (shape : Shape) (w : Writer) (i : ℕ) → Kept (w.shm.blocks i) ((prepare shape w).1.shm.blocks i)
unfolding prepare ensure_segment
prepare-Kept shape w i = rw (ap (λ f. f i) (blocks-reshape shape (advanced w))) at (
    ensure_sized-Kept (next_segment w) (header_size + bytes_of shape) i
      (reshape shape (advanced w)))
