-- ===== src/FrameStore/Fresh.antt =====
-- A frame that was just written reaches every reader, whatever mappings the reader has cached.
use lum_model_face_recogniti.Base.{
  ℕ, suc, ◌+◌, ◌≤◌, ◌<◌, ◌==◌, ◌≡◌, false, Option, none, some, List, arith, refl, ap, sym, ◌∙◌, inl,
  inr, Bool-cases, Option-cases, subst, length, take, take-append, ==_iff,
}
use lum_model_face_recogniti.FrameStore.Memory.{
  RingName, Name, Block, Shm, header_size, splice, name_eq_iff,
}
use lum_model_face_recogniti.FrameStore.Slot.{
  Shape, Slot, Writer, FrameHandle, bytes_of, lookup, prepare, copy_pixels, stamp, write_shaped,
}
use lum_model_face_recogniti.FrameStore.Segments.{
  IsValid, Alike, advanced, next_segment, prepare_lem, prepare-Alike, shape-prepare, prepare-Kept,
  Kept,
}
use lum_model_face_recogniti.FrameStore.Reader.{
  Reader, locate_mapped, locate_local, locate, read_racing, read_ring, copy_out, handle_name,
}

-- No block that has this process's instance id is stamped ahead of the slot's count. (`_INSTANCE_ID` is
-- random, so blocks of other processes have another one.) It holds of a process with one slot, from its
-- first write on. It does not hold once the same process makes its slot anew, as `_restart_camera` does,
-- since the count starts at 0 once more, nor of a slot beside another ring of its process.
abbrev pub Behind : Writer → Type 0
Behind w =
    (i : ℕ) → (w.shm.blocks i).instance_id ≡ w.instance_id → (w.shm.blocks i).seq ≤ w.slot.seq

-- The generation `h` is in block `b`, under its name.
pub record Stored (h : FrameHandle) (bytes : List ℕ) (b : ℕ) (w : Writer) : Type 0 where
  pub mapped : lookup h.segment w.slot.shms ≡ some b
  pub room : header_size + bytes_of h.shape ≤ (w.shm.blocks b).size
  pub instance_id : (w.shm.blocks b).instance_id ≡ h.instance_id
  pub seq : (w.shm.blocks b).seq ≡ h.seq
  pub pixels : take (bytes_of h.shape) (w.shm.blocks b).payload ≡ bytes
  pub shape : w.slot.shape ≡ some h.shape

pub take-splice :
    (bytes payload : List ℕ) (n : ℕ) → length bytes ≡ n → take n (splice 0 bytes payload) ≡ bytes
take-splice bytes payload n e = rw (← e) (take-append bytes _)

-- The copy and the stamp change one block.
abbrev pub finish : ℕ → List ℕ → Writer → Writer
finish b bytes w = stamp b (copy_pixels b bytes w)

finish_self :
    (b : ℕ) (bytes : List ℕ) (w : Writer)
    → (finish b bytes w).shm.blocks b ≡ record {
      size = (w.shm.blocks b).size;
      instance_id = w.instance_id;
      seq = w.slot.seq;
      payload = splice 0 bytes (w.shm.blocks b).payload;
    }
finish_self b bytes w = rw ((==_iff b b).1 refl)

pub finish_other :
    (b i : ℕ) (bytes : List ℕ) (w : Writer)
    → (i == b) ≡ false
    → (finish b bytes w).shm.blocks i ≡ w.shm.blocks i
finish_other b i bytes w e = rw e

finish-IsValid : (b : ℕ) (bytes : List ℕ) (w : Writer) → IsValid w → IsValid (finish b bytes w)
finish-IsValid b bytes w v = record {
  memory = record { bound = v.memory.bound; apart = v.memory.apart };
  mapped = v.mapped;
}

pub Kept-Behind :
    (w : Writer) (old new : Block)
    → Kept old new
    → (old.instance_id ≡ w.instance_id → old.seq ≤ w.slot.seq)
    → new.instance_id ≡ w.instance_id
    → new.seq ≤ w.slot.seq
Kept-Behind w old new (inl e) h g = rw e (h (ap (λ (k : Block). k.instance_id) (sym e) ∙ g))
Kept-Behind w old new (inr z) h g = omega (arith, z.1)

module _ (shape : Shape) (bytes : List ℕ) (w : Writer) (v : IsValid w) where
  abbrev pub block : ℕ
  block = (prepare shape w).0

  abbrev pub prepared : Writer
  prepared = (prepare shape w).1

  pub write_shaped-IsValid : IsValid (write_shaped shape bytes w).1
  unfolding write_shaped
  write_shaped-IsValid = finish-IsValid block bytes prepared (prepare_lem shape w v).0

  -- Every block but the one just written is behind the new generation.
  pub others-Behind :
      Behind w
      → (i : ℕ) → (i == block) ≡ false
      → ((write_shaped shape bytes w).1.shm.blocks i).instance_id ≡ w.instance_id
      → ((write_shaped shape bytes w).1.shm.blocks i).seq ≤ w.slot.seq
  unfolding write_shaped
  others-Behind before i q =
      rw (finish_other block i bytes prepared q)
        (Kept-Behind w (w.shm.blocks i) (prepared.shm.blocks i) (prepare-Kept shape w i) (before i))

  pub write_shaped-Alike : Alike (advanced w) (write_shaped shape bytes w).1
  unfolding write_shaped
  write_shaped-Alike =
      let a = prepare-Alike shape w v in
      record {
        instance_id = a.instance_id;
        camera_id = a.camera_id;
        base = a.base;
        ring_size = a.ring_size;
        seq = a.seq;
      }

  pub write_shaped-Stored :
      length bytes ≡ bytes_of shape
      → let r = write_shaped shape bytes w in Stored r.0 bytes block r.1
  unfolding write_shaped
  write_shaped-Stored fits =
      let p = prepare_lem shape w v in
      let a = prepare-Alike shape w v in
      let self = finish_self block bytes prepared in
      record {
        mapped = rw (a.seq, a.ring_size) p.1.0;
        room = rw self p.1.1;
        instance_id = rw self refl;
        seq = rw self refl;
        pixels =
            rw self (take-splice bytes (prepared.shm.blocks block).payload (bytes_of shape) fits);
        shape = shape-prepare shape w v;
      }

  pub handle-write_shaped :
      let r = write_shaped shape bytes w in
      (r.0.seq ≡ r.1.slot.seq)
      × (r.0.instance_id ≡ w.instance_id)
      × (r.0.shape ≡ shape)
      × (r.0.segment ≡ next_segment w)
      × (r.0.seq ≡ suc w.slot.seq)
  unfolding write_shaped
  handle-write_shaped =
      let a = prepare-Alike shape w v in
      (refl, a.instance_id, refl, rw (a.seq, a.ring_size) refl, a.seq)

  pub write_shaped-Behind :
      length bytes ≡ bytes_of shape → Behind w → Behind (write_shaped shape bytes w).1
  write_shaped-Behind fits before i e = elim (Bool-cases (i == block)) [
    | inl q ↦
        rw ((==_iff i block).0 q)
          (omega (arith, (write_shaped-Stored fits).seq, handle-write_shaped.0))
    | inr q ↦ omega (
      arith,
      others-Behind before i q (e ∙ write_shaped-Alike.instance_id),
      write_shaped-Alike.seq,
    )
  ]

-- Where a block of the right generation stands under its name, a reader whose cached mapping is that
-- block, or a block of another process or of an older generation, finds it.
module _ (n : Name) (b needed instance_id seq : ℕ) (s : Shm) (r : Reader)
    (named : s.names n ≡ some b) (room : needed ≤ (s.blocks b).size)
    (same_id : (s.blocks b).instance_id ≡ instance_id) (same_seq : (s.blocks b).seq ≡ seq)
    (outdated : (c : ℕ)
      → r.attached n ≡ some c
      → (c == b) ≡ false
      → (s.blocks c).instance_id ≡ instance_id
      → (s.blocks c).seq < seq) where
  pub locate_mapped_fresh : (locate_mapped n needed instance_id seq s r).0 ≡ some b
  unfolding locate_mapped
  locate_mapped_fresh = elim (Option-cases (r.attached n)) [
    | inl e ↦ ground (arith, (name_eq_iff n n).1 refl)
    | inr (c, e) ↦ elim (Bool-cases (c == b)) [
      | inl q ↦ ground (arith, (name_eq_iff n n).1 refl)
      | inr q ↦ ground (arith, (name_eq_iff n n).1 refl, outdated c e q)
    ]
  ]

pub locate-remote :
    (n : Name) (needed instance_id seq : ℕ) (s : Shm) (r : Reader)
    → r.local_slots n.ring ≡ none
    → (locate n needed instance_id seq s r).0 ≡ (locate_mapped n needed instance_id seq s r).0
unfolding locate
locate-remote n needed instance_id seq s r e = ground arith

locate-local :
    (n : Name) (needed instance_id seq : ℕ) (s : Shm) (r : Reader) (slot : Slot)
    → r.local_slots n.ring ≡ some slot
    → (locate n needed instance_id seq s r).0 ≡ locate_local slot n.segment needed instance_id seq s
unfolding locate
locate-local n needed instance_id seq s r slot e = ground arith

pub read_racing-eq-copy_out :
    (h : FrameHandle) (base : RingName) (before during after : Shm) (r : Reader) (o : Option ℕ)
    → (locate (handle_name base h) (header_size + bytes_of h.shape) h.instance_id h.seq before r).0
      ≡ o
    → (read_racing h base before during after r).0 ≡ copy_out h o during after
unfolding read_racing
read_racing-eq-copy_out h base before during after r o e = ap (λ x. copy_out h x during after) e

module _ (base : RingName) (h : FrameHandle) (bytes : List ℕ) (b : ℕ) (w : Writer) (r : Reader)
    (v : IsValid w) (st : Stored h bytes b w) (here : w.slot.base ≡ base) where
  copy_stored : copy_out h (some b) w.shm w.shm ≡ some bytes
  copy_stored =
      rw ((==_iff (w.shm.blocks b).instance_id h.instance_id).1 st.instance_id)
        (rw ((==_iff (w.shm.blocks b).seq h.seq).1 st.seq) (ap some st.pixels))

  -- A stored generation is read by a process that has cached it, or something outdated, or nothing.
  pub read_stored :
      r.local_slots base ≡ none
      → ((c : ℕ)
          → r.attached (handle_name base h) ≡ some c
          → (c == b) ≡ false
          → (w.shm.blocks c).instance_id ≡ h.instance_id
          → (w.shm.blocks c).seq < h.seq)
      → (read_ring h base w.shm r).0 ≡ some bytes
  read_stored remote outdated =
      let named : w.shm.names (handle_name base h) ≡ some b =
        subst (λ x. w.shm.names (record { ring = x; segment = h.segment }) ≡ some b) here
          (v.mapped h.segment b st.mapped) in
      let needed : ℕ = header_size + bytes_of h.shape in
      read_racing-eq-copy_out h base w.shm w.shm w.shm r (some b) (
        locate-remote (handle_name base h) needed h.instance_id h.seq w.shm r remote
        ∙ locate_mapped_fresh (handle_name base h) b needed h.instance_id h.seq w.shm r named
            st.room st.instance_id st.seq outdated)
      ∙ copy_stored

  -- The writer's own process reads through the slot's mapping.
  pub read_stored_local :
      r.local_slots base ≡ some w.slot → (read_ring h base w.shm r).0 ≡ some bytes
  unfolding locate_local
  read_stored_local local =
      let needed : ℕ = header_size + bytes_of h.shape in
      read_racing-eq-copy_out h base w.shm w.shm w.shm r (some b) (
        locate-local (handle_name base h) needed h.instance_id h.seq w.shm r w.slot local
        ∙ ground (arith, st.mapped, st.room, st.instance_id, st.seq))
      ∙ copy_stored

-- What was just written is read back by any other process, with any mapping in its cache, as long as
-- nobody has written since, where no block that has the writer's instance id is stamped ahead of the
-- slot's count: the slot is the only one that its process ever made.
pub write-read :
    (shape : Shape) (bytes : List ℕ) (w : Writer) (r : Reader)
    → IsValid w
    → Behind w
    → length bytes ≡ bytes_of shape
    → r.local_slots w.slot.base ≡ none
    → let done = write_shaped shape bytes w in
      (read_ring done.0 w.slot.base done.1.shm r).0 ≡ some bytes
write-read shape bytes w r v before fits remote =
    let h = handle-write_shaped shape bytes w v in
    read_stored w.slot.base _ bytes (block shape bytes w v) _ r
      (write_shaped-IsValid shape bytes w v) (write_shaped-Stored shape bytes w v fits)
      (write_shaped-Alike shape bytes w v).base remote
      λ c _ q e. omega (arith, others-Behind shape bytes w v before c q (e ∙ h.1), h.4)
