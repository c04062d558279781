-- ===== src/FrameStore/Provenance.antt =====
-- No wrong pixels: over a history of one ring, of writes, new slots and removals, a read that nobody's
-- write overlaps returns what was written under its handle, or nothing.
use lum_model_face_recogniti.Base.{
  ℕ, ◌+◌, ◌<◌, ◌==◌, ◌&&◌, ◌≡◌, true, false, Option, none, some, List, [], ◌∷◌, arith, refl, ap,
  sym, ◌∙◌, inl, inr, Bool-cases, Option-cases, subst, ◌⊎◌, length, take, ==_iff, if◌then◌else◌,
}
use lum_model_face_recogniti.FrameStore.Memory.{RingName, Name, Block, Shm, header_size}
use lum_model_face_recogniti.FrameStore.Slot.{
  Shape, Writer, FrameHandle, bytes_of, new_slot, prepare, write_shaped, close,
}
use lum_model_face_recogniti.FrameStore.Segments.{
  IsValid, prepare-Kept, Kept, release-IsValid, unlink_all-blocks,
}
use lum_model_face_recogniti.FrameStore.Reader.{
  Reader, read_ring, handle_name, locate, header_matches, copy_out,
}
use lum_model_face_recogniti.FrameStore.Fresh.{
  Behind, finish_other, block, others-Behind, handle-write_shaped, write_shaped-Stored,
  write_shaped-IsValid, write_shaped-Behind, read_racing-eq-copy_out,
}

-- A block is only found if its header is that of the handle, whatever the reader has cached.
locate_sound :
    (n : Name) (needed instance_id seq b : ℕ) (s : Shm) (r : Reader)
    → (locate n needed instance_id seq s r).0 ≡ some b
    → header_matches (s.blocks b) instance_id seq ≡ true
unfolding locate
locate_sound n needed instance_id seq b s r h = ground arith

-- What was last stamped under each pair of instance id and sequence number.
abbrev pub Log : Type 0
Log = ℕ → ℕ → Option (List ℕ)

abbrev pub enter : ℕ → ℕ → List ℕ → Log → Log
enter instance_id seq bytes log i q = if i == instance_id && q == seq then some bytes else log i q

pub record Site : Type 0 where
  pub writer : Writer
  pub log : Log

-- A restart makes an empty slot of the ring, with the memory as the last one left it: in a new process
-- under another instance id, or in the same one under the same id, as `_restart_camera` does, where the
-- sequence numbers start at 0 once more.
pub data Action : Type 0 where
  writes : Shape → List ℕ → Action
  restarts : ℕ → ℕ → Action
  closes : Action

abbrev pub restart : ℕ → ℕ → Writer → Writer
restart instance_id ring_size w = record {
  instance_id = instance_id;
  slot = new_slot w.slot.camera_id w.slot.base.prefix ring_size;
  shm = w.shm;
}

unfoldable pub step : Site → Action → Site
unfolding close
step s (writes shape bytes) =
    let (h, w) = write_shaped shape bytes s.writer in
    record { writer = w; log = enter h.instance_id h.seq bytes s.log }
step s (restarts instance_id ring_size) = record s {
  writer = restart instance_id ring_size s.writer;
}
step s closes = record s { writer = close s.writer }

unfoldable pub run : Site → List Action → Site
run s [] = s
run s (a ∷ as_) = run (step s a) as_

-- A frame has as many bytes as its shape says. A slot is made under an instance id under which no block
-- of the ring was stamped: that of a new process, drawn at random, or that of the same process if it has
-- written no frame yet. That a process which has written frames makes the slot anew is not allowed here:
-- it stamps the same pairs of instance id and sequence number again.
abbrev pub Allowed : Site → Action → Type 0
Allowed s (writes shape bytes) = length bytes ≡ bytes_of shape
Allowed s (restarts instance_id ring_size) =
    (i : ℕ) → (s.writer.shm.blocks i).instance_id ≡ instance_id → (s.writer.shm.blocks i).seq ≡ 0
Allowed s closes = Unit

abbrev pub AllAllowed : Site → List Action → Type 0
AllAllowed s [] = Unit
AllAllowed s (a ∷ as_) = Allowed s a × AllAllowed (step s a) as_

-- A block that was stamped holds what the log says.
abbrev pub Recorded : Log → Block → Type 0
Recorded log k =
    (k.seq ≡ 0)
    ⊎ ((f : List ℕ) × (log k.instance_id k.seq ≡ some f) × (take (length f) k.payload ≡ f))

pub record IsSound (s : Site) : Type 0 where
  pub valid : IsValid s.writer
  pub behind : Behind s.writer
  pub recorded : (i : ℕ) → Recorded s.log (s.writer.shm.blocks i)

-- An entry under a newer stamp does not change what is recorded of a block.
Recorded-enter :
    (log : Log) (instance_id seq : ℕ) (bytes : List ℕ) (k : Block)
    → (k.instance_id ≡ instance_id → k.seq < seq)
    → Recorded log k
    → Recorded (enter instance_id seq bytes log) k
Recorded-enter log instance_id seq bytes k older (inl z) = inl z
Recorded-enter log instance_id seq bytes k older (inr (f, e, t)) =
    inr (f, ground (arith, e, older), t)

Recorded-Kept : (log : Log) (old new : Block) → Kept old new → Recorded log old → Recorded log new
Recorded-Kept log old new (inl e) h = subst (Recorded log) (sym e) h
Recorded-Kept log old new (inr z) h = inl z.1

module _ (s : Site) (shape : Shape) (bytes : List ℕ) (v : IsSound s) where
  abbrev written : FrameHandle × Writer
  written = write_shaped shape bytes s.writer

  abbrev target : ℕ
  target = block shape bytes s.writer v.valid

  abbrev entered : Log
  entered = enter written.0.instance_id written.0.seq bytes s.log

  Kept-block :
      (i : ℕ) → (i == target) ≡ false → Kept (s.writer.shm.blocks i) (written.1.shm.blocks i)
  unfolding write_shaped
  Kept-block i q =
      rw (finish_other target i bytes (prepare shape s.writer).1 q) (prepare-Kept shape s.writer i)

  Recorded-other : (i : ℕ) → (i == target) ≡ false → Recorded entered (written.1.shm.blocks i)
  Recorded-other i q =
      let h = handle-write_shaped shape bytes s.writer v.valid in
      Recorded-enter s.log written.0.instance_id written.0.seq bytes (written.1.shm.blocks i)
        (λ e. omega (arith, others-Behind shape bytes s.writer v.valid v.behind i q (e ∙ h.1), h.4))
        (Recorded-Kept s.log (s.writer.shm.blocks i) (written.1.shm.blocks i) (Kept-block i q)
          (v.recorded i))

  Recorded-self : length bytes ≡ bytes_of shape → Recorded entered (written.1.shm.blocks target)
  Recorded-self fits =
      let st = write_shaped-Stored shape bytes s.writer v.valid fits in
      let h = handle-write_shaped shape bytes s.writer v.valid in
      inr (
        bytes,
        rw (st.instance_id, st.seq)
            (rw ((==_iff written.0.instance_id written.0.instance_id).1 refl)
              (rw ((==_iff written.0.seq written.0.seq).1 refl))),
        subst (λ n. take n (written.1.shm.blocks target).payload ≡ bytes)
            (ap bytes_of h.2 ∙ sym fits) st.pixels,
      )

  write-IsSound : length bytes ≡ bytes_of shape → IsSound (step s (writes shape bytes))
  unfolding step
  write-IsSound fits = record {
    valid = write_shaped-IsValid shape bytes s.writer v.valid;
    behind = write_shaped-Behind shape bytes s.writer v.valid fits v.behind;
    recorded = λ i. elim (Bool-cases (i == target)) [
      | inl q ↦ rw ((==_iff i target).0 q) (Recorded-self fits)
      | inr q ↦ Recorded-other i q
    ];
  }

step-IsSound : (s : Site) (a : Action) → IsSound s → Allowed s a → IsSound (step s a)
unfolding step
step-IsSound s (writes shape bytes) v fits = write-IsSound s shape bytes v fits
step-IsSound s (restarts instance_id ring_size) v fresh = record {
  valid = record { memory = v.valid.memory; mapped = λ k b h. cc };
  behind = λ i e. omega (arith, fresh i e);
  recorded = v.recorded;
}
step-IsSound s closes v h =
    let same = unlink_all-blocks s.writer.slot.base s.writer.slot.shms s.writer.shm in
    record {
      valid = release-IsValid s.writer v.valid;
      behind = rw same v.behind;
      recorded = rw same v.recorded;
    }

run-IsSound : (s : Site) (as_ : List Action) → IsSound s → AllAllowed s as_ → IsSound (run s as_)
unfolding run
run-IsSound s [] v h = v
run-IsSound s (a ∷ as_) v h = run-IsSound (step s a) as_ (step-IsSound s a v h.0) h.1

-- The bytes of one block, read under a handle that matches its header.
Recorded-read :
    (log : Log) (k : Block) (h : FrameHandle) (f : List ℕ)
    → Recorded log k
    → 0 < h.seq
    → k.instance_id ≡ h.instance_id
    → k.seq ≡ h.seq
    → log h.instance_id h.seq ≡ some f
    → length f ≡ bytes_of h.shape
    → take (bytes_of h.shape) k.payload ≡ f
Recorded-read log k h f (inl z) pos i q e fits = absurd (omega arith)
Recorded-read log k h f (inr (g, l, t)) pos i q e fits =
    let same : g ≡ f = cc in subst (λ n. take n k.payload ≡ f) (ap length same ∙ fits) (t ∙ same)

-- The history is one of the only ring of its process, and no slot of it is made under an instance id
-- under which frames were stamped already. After any such history from a sound start, any reader,
-- whatever it has cached, that gets pixels for a handle of a write gets the bytes that were last
-- written under that handle's instance id and sequence number.
pub read-run :
    (s : Site) (as_ : List Action) (h : FrameHandle) (base : RingName) (r : Reader) (f x : List ℕ)
    → IsSound s
    → AllAllowed s as_
    → 0 < h.seq
    → (run s as_).log h.instance_id h.seq ≡ some f
    → length f ≡ bytes_of h.shape
    → (read_ring h base (run s as_).writer.shm r).0 ≡ some x
    → x ≡ f
read-run s as_ h base r f x v ok_ pos e fits got =
    elim (Option-cases (locate (handle_name base h) needed h.instance_id h.seq shm r).0) [
      | inl q ↦ cc (read_racing-eq-copy_out h base shm shm shm r none q)
      | inr (b, q) ↦
          let m = locate_sound (handle_name base h) needed h.instance_id h.seq b shm r q in
          let c = read_racing-eq-copy_out h base shm shm shm r (some b) q in
          let p = copied b m in
          let t =
            Recorded-read (run s as_).log (shm.blocks b) h f ((run-IsSound s as_ v ok_).recorded b)
              pos (matches_id b m) (matches_seq b m) e fits in
          some-injective' (sym got ∙ c ∙ p) ∙ t
    ]
  where
    needed : ℕ
    needed = header_size + bytes_of h.shape

    shm : Shm
    shm = (run s as_).writer.shm

    copied :
        (b : ℕ)
        → header_matches (shm.blocks b) h.instance_id h.seq ≡ true
        → copy_out h (some b) shm shm ≡ some (take (bytes_of h.shape) (shm.blocks b).payload)
    copied b m = rw m

    matches_id :
        (b : ℕ)
        → header_matches (shm.blocks b) h.instance_id h.seq ≡ true
        → (shm.blocks b).instance_id ≡ h.instance_id
    matches_id b m = ground arith

    matches_seq :
        (b : ℕ)
        → header_matches (shm.blocks b) h.instance_id h.seq ≡ true
        → (shm.blocks b).seq ≡ h.seq
    matches_seq b m = ground arith

    some-injective' : {a c : List ℕ} → some a ≡ some c → a ≡ c
    some-injective' h = cc
