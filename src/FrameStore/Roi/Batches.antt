-- ===== src/FrameStore/Roi/Batches.antt =====
-- A batch of crops that was just written reaches every reader in another process.
use lum_model_face_recogniti.Base.{
  ℕ, suc, ◌+◌, ◌%◌, ◌≤◌, ◌<◌, ◌&&◌, ◌==◌, ◌≡◌, ◌++◌, true, false, if◌then◌else◌, Option, none, some,
  List, [], ◌∷◌, String, max, arith, refl, ap, sym, ◌∙◌, subst, All, length, ==_iff, Bool-cases,
  inl, inr,
}
use lum_model_face_recogniti.Exec.{ok, raised}
use lum_model_face_recogniti.FrameStore.Memory.{RingName, Block, Name, Shm, header_size}
use lum_model_face_recogniti.FrameStore.Slot.{Writer, ensure_sized, stamp}
use lum_model_face_recogniti.FrameStore.Reader.{Reader, locate, header_matches}
use lum_model_face_recogniti.FrameStore.Segments.{
  IsValid, IsReady, Alike, advanced, ensure_sized_lem, ensure_sized-Alike, ensure_sized-Kept,
}
use lum_model_face_recogniti.FrameStore.Fresh.{
  Behind, Kept-Behind, locate_mapped_fresh, locate-remote,
}
use lum_model_face_recogniti.FrameStore.Roi.{
  RoiHandle, RoiBatchHandle, roi_ring_size, total_bytes, pack, zip, set_payload, prepare_batch,
  write_batch, batch_handle, ensure_roi_segment, read_batch, copy_batch, seal, crops_at, last_byte,
}
use lum_model_face_recogniti.FrameStore.Roi.Packing.{
  Crop, IsFull, arrays, tracks, tracked, places, joined, behind, pack-joined, crops_at-joined,
  last_byte-places,
}

length-arrays : (cs : List Crop) → (length (arrays cs) == length (tracks cs)) ≡ true
length-arrays [] = refl
length-arrays (c ∷ cs) = ground (arith, length-arrays cs)

pub read_batch-located :
    (h : RoiBatchHandle) (base : RingName) (s : Shm) (r : Reader) (x : RoiHandle)
    (xs : List RoiHandle)
    → h.rois ≡ x ∷ xs
    → (read_batch h base s s s r).0
      ≡ copy_batch h
          (locate
            (record { ring = base; segment = h.segment })
            (header_size + last_byte h.rois)
            h.instance_id
            h.seq
            s
            r).0
          s
          s
unfolding read_batch
read_batch-located h base s r x xs e = rw e refl

module _ (purpose : String) (cs : List Crop) (w : Writer) (v : IsValid w) where
  abbrev segment : ℕ
  segment = suc w.slot.seq % roi_ring_size

  abbrev nbytes : ℕ
  nbytes = max (header_size + total_bytes (arrays cs)) header_size

  abbrev made : ℕ × Writer
  made = ensure_sized segment nbytes (advanced w)

  abbrev payload : List ℕ
  payload = (made.1.shm.blocks made.0).payload

  abbrev done : Writer
  done = stamp made.0 (set_payload made.0 (joined cs ++ behind cs payload) made.1)

  abbrev handle : RoiBatchHandle
  handle = batch_handle purpose (places 0 cs) done

  written : All IsFull cs → write_batch purpose (arrays cs) (tracks cs) w ≡ (ok handle, done)
  unfolding write_batch prepare_batch ensure_roi_segment
  written full =
      let packed = pack 0 (zip (arrays cs) (tracks cs)) payload in
      ap (λ t. if t then seal purpose made.0 made.1 packed else (raised, w)) (length-arrays cs)
      ∙ ap (seal purpose made.0 made.1) (pack-joined cs 0 [] payload full refl)

  sized : IsValid made.1 × IsReady segment nbytes made
  sized =
      ensure_sized_lem segment nbytes (advanced w) (record { memory = v.memory; mapped = v.mapped })

  alike : Alike (advanced w) made.1
  alike = ensure_sized-Alike segment nbytes (advanced w)

  named : done.shm.names (record { ring = w.slot.base; segment = handle.segment }) ≡ some made.0
  named =
      subst (λ n. done.shm.names n ≡ some made.0)
        (ap (λ b. record { ring = b; segment = segment }) alike.base
          ∙ ap (λ k. record { ring = w.slot.base; segment = k % roi_ring_size }) (sym alike.seq))
        (sized.0.mapped segment made.0 sized.1.0)

  stamped : done.shm.blocks made.0 ≡ record {
    size = (made.1.shm.blocks made.0).size;
    instance_id = made.1.instance_id;
    seq = made.1.slot.seq;
    payload = joined cs ++ behind cs payload;
  }
  stamped = rw ((==_iff made.0 made.0).1 refl) refl

  room : header_size + last_byte (places 0 cs) ≤ (done.shm.blocks made.0).size
  room = rw stamped (omega (arith, last_byte-places cs 0, sized.1.1))

  others :
      Behind w
      → (i : ℕ) → (i == made.0) ≡ false
      → (done.shm.blocks i).instance_id ≡ handle.instance_id
      → (done.shm.blocks i).seq < handle.seq
  others before i q = rw q (λ e. omega (
    arith,
    Kept-Behind w (w.shm.blocks i) (made.1.shm.blocks i)
        (ensure_sized-Kept segment nbytes i (advanced w)) (before i) (e ∙ alike.instance_id),
    alike.seq,
  ))

  done-IsValid : IsValid done
  done-IsValid = record {
    memory = record { bound = sized.0.memory.bound; apart = sized.0.memory.apart };
    mapped = sized.0.mapped;
  }

  done-Behind : Behind w → Behind done
  done-Behind before i e = elim (Bool-cases (i == made.0)) [
    | inl q ↦ rw ((==_iff i made.0).0 q) (omega (arith, ap (λ (k : Block). k.seq) stamped))
    | inr q ↦ omega (arith, others before i q e)
  ]

  copied : All IsFull cs → copy_batch handle (some made.0) done.shm done.shm ≡ some (tracked cs)
  copied full =
      let body : Block → Option (List (ℕ × List ℕ)) = λ k.
        if header_matches k handle.instance_id handle.seq
        then some (crops_at k.payload handle.rois)
        else none in
      ap body stamped
      ∙ ap (λ t. if t then some (crops_at (joined cs ++ behind cs payload) (places 0 cs)) else none)
          matches
      ∙ ap some (crops_at-joined cs 0 [] (behind cs payload) full refl)
    where
      matches :
          (made.1.instance_id == made.1.instance_id && made.1.slot.seq == made.1.slot.seq) ≡ true
      matches = ground (arith)

  located :
      (r : Reader)
      → Behind w
      → r.local_slots w.slot.base ≡ none
      → (locate
          (record { ring = w.slot.base; segment = handle.segment })
          (header_size + last_byte (places 0 cs))
          handle.instance_id
          handle.seq
          done.shm
          r).0
        ≡ some made.0
  located r before remote =
      let n : Name = record { ring = w.slot.base; segment = handle.segment } in
      let needed : ℕ = header_size + last_byte (places 0 cs) in
      locate-remote n needed handle.instance_id handle.seq done.shm r remote
      ∙ locate_mapped_fresh n made.0 needed handle.instance_id handle.seq done.shm r named room
          (ap (λ (k : Block). k.instance_id) stamped) (ap (λ (k : Block). k.seq) stamped)
          (λ c _ q e. others before c q e)

  read_written :
      (r : Reader) (x : RoiHandle) (xs : List RoiHandle)
      → Behind w
      → All IsFull cs
      → r.local_slots w.slot.base ≡ none
      → places 0 cs ≡ x ∷ xs
      → (read_batch handle w.slot.base done.shm done.shm done.shm r).0 ≡ some (tracked cs)
  read_written r x xs before full remote e =
      read_batch-located handle w.slot.base done.shm r x xs e
      ∙ ap (λ b. copy_batch handle b done.shm done.shm) (located r before remote)
      ∙ copied full

-- A batch of crops that are as long as their shapes say is written, and read back by any other process
-- as the same crops with the same tracks in the same order, with any mapping in its cache, as long as
-- nobody has written since, where no block that has the writer's instance id is stamped ahead of the
-- slot's count: the slot is the only one that its process ever made. This holds afterwards as well, for
-- the next batch. The batch may be empty.
pub read-write_batch :
    (purpose : String) (cs : List Crop) (w : Writer) (r : Reader)
    → IsValid w
    → Behind w
    → All IsFull cs
    → r.local_slots w.slot.base ≡ none
    → (h : RoiBatchHandle) × (w' : Writer) × (write_batch purpose (arrays cs) (tracks cs) w
        ≡ (ok h, w'))
      × ((read_batch h w.slot.base w'.shm w'.shm w'.shm r).0 ≡ some (tracked cs))
      × (IsValid w' × Behind w')
unfolding read_batch
read-write_batch purpose [] w r v before full remote = (
  handle purpose [] w v,
  done purpose [] w v,
  written purpose [] w v full,
  refl,
  (done-IsValid purpose [] w v, done-Behind purpose [] w v before),
)
read-write_batch purpose (c ∷ cs) w r v before full remote = (
  handle purpose (c ∷ cs) w v,
  done purpose (c ∷ cs) w v,
  written purpose (c ∷ cs) w v full,
  read_written purpose (c ∷ cs) w v r _ _ before full remote refl,
  (done-IsValid purpose (c ∷ cs) w v, done-Behind purpose (c ∷ cs) w v before),
)
