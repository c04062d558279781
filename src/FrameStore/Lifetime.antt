-- ===== src/FrameStore/Lifetime.antt =====
-- A generation lives for a turn of the ring: it can be read until the writer comes round to its
-- segment again, and from then on the read says that it is gone.
use mathlib.Core.Bool.{false≢true}
use lum_model_face_recogniti.Base.{
  ℕ, suc, ◌+◌, ◌<◌, ◌%◌, ◌==◌, ◌≡◌, ◌≢◌, false, none, some, List, [], ◌∷◌, arith, refl, ap, ap₂,
  sym, ◌∙◌, inl, inr, Bool-cases, subst, ◌⊎◌, length, ==_iff,
}
use lum_model_face_recogniti.FrameStore.Memory.{Name}
use lum_model_face_recogniti.FrameStore.Slot.{
  Shape, Writer, FrameHandle, bytes_of, prepare, write_shaped,
}
use lum_model_face_recogniti.FrameStore.Segments.{
  IsValid, next_segment, prepare_lem, prepare_other, shape-prepare,
}
use lum_model_face_recogniti.FrameStore.Reader.{Reader, read_ring, handle_name}
use lum_model_face_recogniti.FrameStore.Fresh.{
  Stored, finish_other, block, read_stored, write_shaped-IsValid, write_shaped-Stored,
  write_shaped-Alike, handle-write_shaped,
}

mod_ne : (n i r : ℕ) → 0 < i → i < r → (n + i) % r ≢ n % r
mod_ne n i r lo hi e = grind arith

-- The writes of one camera whose frames keep their shape.
unfoldable pub write_all : Shape → List (List ℕ) → Writer → Writer
write_all shape [] w = w
write_all shape (f ∷ fs) w = write_all shape fs (write_shaped shape f w).1

module _ (h : FrameHandle) (bytes frame : List ℕ) (b : ℕ) (w : Writer) (v : IsValid w)
    (st : Stored h bytes b w) (elsewhere : (next_segment w == h.segment) ≡ false) where
  -- Writing to another segment leaves the generation where it is.
  Stored-write_shaped : Stored h bytes b (write_shaped h.shape frame w).1
  unfolding write_shaped
  Stored-write_shaped =
      let o = prepare_other h.shape w v h.segment b st.shape elsewhere st.mapped in
      let k = finish_other (prepare h.shape w).0 b frame (prepare h.shape w).1 apart ∙ o.1 in
      record {
        mapped = o.0;
        room = rw k st.room;
        instance_id = rw k st.instance_id;
        seq = rw k st.seq;
        pixels = rw k st.pixels;
        shape = shape-prepare h.shape w v;
      }
    where
      apart : (b == (prepare h.shape w).0) ≡ false
      apart = elim (Bool-cases (b == (prepare h.shape w).0)) [
        | inl q ↦
            let p = prepare_lem h.shape w v in
            let o = prepare_other h.shape w v h.segment b st.shape elsewhere st.mapped in
            let same =
              p.0.memory.apart _ _ b (p.0.mapped h.segment b o.0)
                (p.0.mapped (next_segment w) b (p.1.0 ∙ ap some (sym ((==_iff b _).0 q)))) in
            absurd (
              false≢true (
                sym elsewhere
                ∙ (==_iff (next_segment w) h.segment).1 (sym (ap (λ (n : Name). n.segment) same))))
        | inr q ↦ q
      ]

module _ (h : FrameHandle) (bytes : List ℕ) (b : ℕ) where
  -- `j` writes after the generation was stored, with room in the ring for those to come.
  Stored-write_all :
      (fs : List (List ℕ)) (j : ℕ) (w : Writer)
      → IsValid w
      → Stored h bytes b w
      → w.slot.seq ≡ h.seq + j
      → h.segment ≡ h.seq % w.slot.ring_size
      → length fs + j < w.slot.ring_size
      → let w' = write_all h.shape fs w in
        IsValid w' × Stored h bytes b w' × (w'.slot.base ≡ w.slot.base)
  unfolding write_all
  Stored-write_all [] j w v st at seg room = (v, st, refl)
  Stored-write_all (f ∷ fs) j w v st at seg room =
      let a = write_shaped-Alike h.shape f w v in
      let away : (next_segment w == h.segment) ≡ false = elsewhere in
      let (v', st', e) =
        Stored-write_all fs (suc j) (write_shaped h.shape f w).1
          (write_shaped-IsValid h.shape f w v) (Stored-write_shaped h bytes f b w v st away)
          (omega (arith, a.seq)) (rw a.ring_size seg) (rw a.ring_size (omega arith)) in
      (v', st', e ∙ a.base)
    where
      elsewhere : (next_segment w == h.segment) ≡ false
      elsewhere = elim (Bool-cases (next_segment w == h.segment)) [
        | inl q ↦ absurd (
            mod_ne h.seq (suc j) w.slot.ring_size (omega arith) (omega arith) (
              ap (λ x. x % w.slot.ring_size) (omega arith)
              ∙ (==_iff (next_segment w) h.segment).0 q
              ∙ seg))
        | inr q ↦ q
      ]

-- A frame can still be read after any number of further frames that is smaller than the ring, where all
-- of them have its shape, by another process that has not mapped the frame's segment, or has the block
-- mapped that the frame was written to. (A frame of another shape removes every segment before.)
pub write-read_later :
    (shape : Shape) (bytes : List ℕ) (fs : List (List ℕ)) (w : Writer) (r : Reader)
    → IsValid w
    → length bytes ≡ bytes_of shape
    → length fs < w.slot.ring_size
    → r.local_slots w.slot.base ≡ none
    → let done = write_shaped shape bytes w in
      (r.attached (handle_name w.slot.base done.0) ≡ none)
        ⊎ (r.attached (handle_name w.slot.base done.0)
            ≡ done.1.shm.names (handle_name w.slot.base done.0))
      → (read_ring done.0 w.slot.base (write_all shape fs done.1).shm r).0 ≡ some bytes
write-read_later shape bytes fs w r v fits room remote cached =
    let done = write_shaped shape bytes w in
    let h = handle-write_shaped shape bytes w v in
    let a = write_shaped-Alike shape bytes w v in
    let v' = write_shaped-IsValid shape bytes w v in
    let st = write_shaped-Stored shape bytes w v fits in
    let b : ℕ = block shape bytes w v in
    let (later, kept, base) =
      Stored-write_all done.0 bytes b fs 0 done.1 v' st (omega (arith, h.0))
        (h.3 ∙ sym (ap₂ (λ x y. x % y) h.4 a.ring_size)) (rw a.ring_size (omega arith)) in
    let named : done.1.shm.names (handle_name w.slot.base done.0) ≡ some b =
      subst (λ x. done.1.shm.names (record { ring = x; segment = done.0.segment }) ≡ some b) a.base
        (v'.mapped done.0.segment b st.mapped) in
    subst (λ s. (read_ring done.0 w.slot.base (write_all s fs done.1).shm r).0 ≡ some bytes) h.2
      (read_stored w.slot.base done.0 bytes b (write_all done.0.shape fs done.1) r later kept
        (base ∙ a.base) remote (λ c e q _. absurd (only c b named e q cached)))
  where
    only :
        (c b : ℕ)
        → (write_shaped shape bytes w).1.shm.names
            (handle_name w.slot.base (write_shaped shape bytes w).0)
          ≡ some b
        → r.attached (handle_name w.slot.base (write_shaped shape bytes w).0) ≡ some c
        → (c == b) ≡ false
        → (r.attached (handle_name w.slot.base (write_shaped shape bytes w).0) ≡ none)
          ⊎ (r.attached (handle_name w.slot.base (write_shaped shape bytes w).0)
              ≡ (write_shaped shape bytes w).1.shm.names
                  (handle_name w.slot.base (write_shaped shape bytes w).0))
        → ⊥
    only c b named e q (inl f) = cc
    only c b named e q (inr f) = false≢true (sym q ∙ (==_iff c b).1 (cc))
