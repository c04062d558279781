-- ===== src/FaceTasks/Routing.antt =====
-- From the crops that a camera worker writes to the results that it gets back.
use lum_model_face_recogniti.Base.{
  ℕ, suc, ◌==◌, ◌≡◌, ◌⊎◌, Bool, true, false, Option, none, some, List, [], ◌∷◌, map, length,
  if◌then◌else◌, arith, refl, ap, sym, ◌∙◌, inl, inr, Bool-cases, ==_iff, All, String,
}
use lum_model_face_recogniti.Exec.{ok}
use lum_model_face_recogniti.FrameStore.Memory.{RingName, Shm}
use lum_model_face_recogniti.FrameStore.Slot.{Writer}
use lum_model_face_recogniti.FrameStore.Segments.{IsValid}
use lum_model_face_recogniti.FrameStore.Reader.{Reader}
use lum_model_face_recogniti.FrameStore.Fresh.{Behind}
use lum_model_face_recogniti.FrameStore.Roi.{
  RoiHandle, RoiBatchHandle, write_batch, read_batch, copy_batch, crops_at,
}
use lum_model_face_recogniti.FrameStore.Roi.Packing.{Crop, IsFull, arrays, tracks, tracked}
use lum_model_face_recogniti.FrameStore.Roi.Batches.{read_batch-located, read-write_batch}
use lum_model_face_recogniti.FaceTasks.{
  Roi, Models, rois_of, embed_batch, pair_up, embeddings_by_track,
}
use lum_model_face_recogniti.FaceTasks.Aligned.{Steady, embed_one, embed_rois_lem}

abbrev tracks_of : List (ℕ × Roi) → List ℕ
tracks_of [] = []
tracks_of ((t, roi) ∷ packed) = t ∷ tracks_of packed

abbrev track_ids : List RoiHandle → List ℕ
track_ids [] = []
track_ids (r ∷ rs) = r.track_id ∷ track_ids rs

tracks_of-crops_at :
    (payload : List ℕ) (rs : List RoiHandle) → tracks_of (crops_at payload rs) ≡ track_ids rs
tracks_of-crops_at payload [] = refl
tracks_of-crops_at payload (r ∷ rs) = ap (λ l. r.track_id ∷ l) (tracks_of-crops_at payload rs)

tracks_of-tracked : (cs : List Crop) → tracks_of (tracked cs) ≡ tracks cs
tracks_of-tracked [] = refl
tracks_of-tracked (c ∷ cs) = ap (λ l. c.track_id ∷ l) (tracks_of-tracked cs)

some_inj {ℓ} : {A : Type ℓ} → (a b : A) → some a ≡ some b → a ≡ b
some_inj a b e = cc

if_some {ℓ} : {A : Type ℓ} → (c : Bool) (y x : A) → (if c then some y else none) ≡ some x → y ≡ x
if_some true y x e = cc
if_some false y x e = cc

copy_batch-tracks :
    (h : RoiBatchHandle) (b : Option ℕ) (s : Shm) (xs : List (ℕ × Roi))
    → copy_batch h b s s ≡ some xs
    → tracks_of xs ≡ track_ids h.rois
copy_batch-tracks h none s xs e = cc
copy_batch-tracks h (some b) s xs e =
    ap tracks_of (sym (if_some _ _ xs e)) ∙ tracks_of-crops_at (s.blocks b).payload h.rois

List-cases :
    (rs : List RoiHandle) → (rs ≡ []) ⊎ ((r : RoiHandle) × (qs : List RoiHandle) × (rs ≡ r ∷ qs))
List-cases [] = inl refl
List-cases (r ∷ rs) = inr (r, rs, refl)

read_batch-tracks :
    (h : RoiBatchHandle) (base : RingName) (s : Shm) (r : Reader) (xs : List (ℕ × Roi))
    → (read_batch h base s s s r).0 ≡ some xs
    → tracks_of xs ≡ track_ids h.rois
unfolding read_batch
read_batch-tracks h base s r xs e = elim (List-cases h.rois) [
  | inl q ↦ ap tracks_of (sym (some_inj [] xs (rw q at e))) ∙ ap track_ids (sym q)
  | inr (x, rs, q) ↦ copy_batch-tracks h _ s xs (sym (read_batch-located h base s r x rs q) ∙ e)
]

length-track_ids : (rs : List RoiHandle) → length (track_ids rs) ≡ length rs
length-track_ids [] = refl
length-track_ids (r ∷ rs) = ap suc (length-track_ids rs)

module _ {A : Type 0} (one : Roi → A) where
  -- Each track with the result of its own crop.
  abbrev pub each_own : List Crop → List (ℕ × A)
  each_own [] = []
  each_own (c ∷ cs) = (c.track_id, one c.bytes) ∷ each_own cs

  pair_up_lem :
      (rs : List RoiHandle) (cs : List Crop)
      → tracks cs ≡ track_ids rs
      → pair_up rs (map one (rois_of (tracked cs))) ≡ each_own cs
  pair_up_lem [] [] e = refl
  pair_up_lem [] (c ∷ cs) e = cc
  pair_up_lem (r ∷ rs) [] e = cc
  pair_up_lem (r ∷ rs) (c ∷ cs) e =
      let same : r.track_id ≡ c.track_id = cc in
      let rest : tracks cs ≡ track_ids rs = cc in
      ap (λ t. (t, one c.bytes) ∷ pair_up rs (map one (rois_of (tracked cs)))) same
      ∙ ap (λ l. (c.track_id, one c.bytes) ∷ l) (pair_up_lem rs cs rest)

  results_length : (cs : List Crop) → length (map one (rois_of (tracked cs))) ≡ length (tracks cs)
  results_length [] = refl
  results_length (c ∷ cs) = ap suc (results_length cs)

  no_results : (cs : List Crop) → length (tracks cs) ≡ 0 → [] ≡ map one (rois_of (tracked cs))
  no_results [] e = refl
  no_results (c ∷ cs) e = absurd (omega (arith, e))

  embeddings_by_track_lem :
      (h : RoiBatchHandle) (cs : List Crop)
      → tracks cs ≡ track_ids h.rois
      → embeddings_by_track (map one (rois_of (tracked cs))) h ≡ each_own cs
  unfolding embeddings_by_track
  embeddings_by_track_lem h cs e =
      let size : (length (map one (rois_of (tracked cs))) == length h.rois) ≡ true =
        (==_iff _ _).1 (results_length cs ∙ ap length e ∙ length-track_ids h.rois) in
      rw size (pair_up_lem h.rois cs e)

module _ {E C F V D : Type 0} {M : Models E C F V D} (S : Steady M) where
  embed_batch_lem :
      (h : RoiBatchHandle) (cs : List Crop) (e : E)
      → tracks cs ≡ track_ids h.rois
      → (embed_batch M h (some (tracked cs)) e).0 ≡ map (embed_one S) (rois_of (tracked cs))
  unfolding embed_batch
  embed_batch_lem h cs e q = elim (Bool-cases (length h.rois == 0)) [
    | inl z ↦
        let none_there : length (tracks cs) ≡ 0 =
          ap length q ∙ length-track_ids h.rois ∙ (==_iff _ _).0 z in
        rw z (no_results (embed_one S) cs none_there)
    | inr z ↦ rw z (embed_rois_lem S (rois_of (tracked cs)) e)
  ]

  -- Crops that are as long as their shapes say are written, read by the face worker, looked through,
  -- embedded one by one, and scattered to their places: the client gives each track what the models
  -- make of its own crop, alone, whatever the other crops are and whichever of them the models raise
  -- on. This is where the models answer each image on its own; where `describe` raises for none of the
  -- embedded faces (one such raise blanks the whole batch); where the reader has no slot of the ring,
  -- and nobody writes the batch anew; and where no block that has the writer's instance id is stamped
  -- ahead of the slot's count, as with the only slot that a process ever made.
  pub embeddings_by_track-embed_batch :
      (purpose : String) (cs : List Crop) (w : Writer) (r : Reader) (e : E)
      → IsValid w
      → Behind w
      → All IsFull cs
      → r.local_slots w.slot.base ≡ none
      → (h : RoiBatchHandle) × (w' : Writer) × (write_batch purpose (arrays cs) (tracks cs) w
          ≡ (ok h, w'))
        × (let packed = (read_batch h w.slot.base w'.shm w'.shm w'.shm r).0 in
            embeddings_by_track (embed_batch M h packed e).0 h ≡ each_own (embed_one S) cs)
  embeddings_by_track-embed_batch purpose cs w r e v before full remote =
      let (h, w', written, packed, kept) = read-write_batch purpose cs w r v before full remote in
      let ids : tracks cs ≡ track_ids h.rois =
        sym (tracks_of-tracked cs) ∙ read_batch-tracks h w.slot.base w'.shm r (tracked cs) packed in
      (
        h,
        w',
        written,
        ap (λ p. embeddings_by_track (embed_batch M h p e).0 h) packed
            ∙ ap (λ l. embeddings_by_track l h) (embed_batch_lem h cs e ids)
            ∙ embeddings_by_track_lem (embed_one S) h cs ids,
      )
