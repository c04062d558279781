-- ===== src/FrameStore/Recycled.antt =====
-- What a reader gets when the writer comes round to the segment of its handle: nothing once the new
-- generation is stamped, and the pixels of the new one in between.
use lum_model_face_recogniti.Base.{
  ℕ, ◌+◌, ◌≤◌, ◌<◌, ◌≡◌, true, none, some, List, le→leb, arith, refl, ◌∙◌, ==_iff,
}
use lum_model_face_recogniti.FrameStore.Memory.{Name, Shm, header_size, name_eq_iff}
use lum_model_face_recogniti.FrameStore.Slot.{
  Writer, FrameHandle, bytes_of, prepare, reshape, same_shape, ensure_sized, ensure_segment,
  write_shaped, copy_pixels,
}
use lum_model_face_recogniti.FrameStore.Segments.{IsValid, advanced, next_segment}
use lum_model_face_recogniti.FrameStore.Reader.{Reader, read_ring, handle_name, locate_mapped}
use lum_model_face_recogniti.FrameStore.Fresh.{
  Stored, locate-remote, read_racing-eq-copy_out, finish,
}

-- A newer generation of the same process in the segment: the read gives up.
locate_mapped_gone :
    (n : Name) (b needed instance_id seq : ℕ) (s : Shm) (r : Reader)
    → s.names n ≡ some b
    → r.attached n ≡ none
    → (s.blocks b).instance_id ≡ instance_id
    → seq < (s.blocks b).seq
    → (locate_mapped n needed instance_id seq s r).0 ≡ none
unfolding locate_mapped
locate_mapped_gone n b needed instance_id seq s r named unmapped same newer =
    ground (arith, (name_eq_iff n n).1 refl)

module _ (h : FrameHandle) (bytes frame : List ℕ) (b : ℕ) (w : Writer) (st : Stored h bytes b w)
    (round : next_segment w ≡ h.segment) where
  -- The segment is mapped and large enough, so it is used again as it is.
  prepare_again : prepare h.shape w ≡ (b, advanced w)
  unfolding prepare ensure_segment ensure_sized reshape
  prepare_again =
      let e : same_shape (advanced w).slot.shape h.shape ≡ true = ground (arith, st.shape) in
      rw e (rw (round) (rw (st.mapped, ensure_sized) (rw (le→leb _ _ st.room) refl)))

  -- The memory between the copy of the new pixels and the new stamp.
  abbrev pub unstamped : Writer
  unstamped = let (c, w') = prepare h.shape w in copy_pixels c frame w'

  module _ (r : Reader) (v : IsValid w) (remote : r.local_slots w.slot.base ≡ none)
      (unmapped : r.attached (handle_name w.slot.base h) ≡ none) where
    -- Once a new generation of the same shape is stamped in the segment, by the slot that wrote the
    -- earlier one, the handle of the earlier one reads nothing, for a process that has not mapped the
    -- segment and has no slot of the ring.
    pub read-write_shaped :
        (w.instance_id ≡ h.instance_id)
        → h.seq ≤ w.slot.seq
        → (read_ring h w.slot.base (write_shaped h.shape frame w).1.shm r).0 ≡ none
    unfolding write_shaped
    read-write_shaped same_id older =
        read_racing-eq-copy_out h w.slot.base after after after r none (
          locate-remote (handle_name w.slot.base h) _ h.instance_id h.seq after r remote
          ∙ rw prepare_again gone)
      where
        after : Shm
        after = (finish (prepare h.shape w).0 frame (prepare h.shape w).1).shm

        again : Shm
        again = (finish b frame (advanced w)).shm

        gone :
            (locate_mapped
              (handle_name w.slot.base h)
              (header_size + bytes_of h.shape)
              h.instance_id
              h.seq
              again
              r).0
            ≡ none
        gone =
            locate_mapped_gone (handle_name w.slot.base h) b _ h.instance_id h.seq again r
              (v.mapped h.segment b st.mapped) unmapped (rw ((==_iff b b).1 refl) same_id)
              (rw ((==_iff b b).1 refl) (omega (arith, older)))
