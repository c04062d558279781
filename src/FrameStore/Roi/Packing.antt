-- ===== src/FrameStore/Roi/Packing.antt =====
-- Crops that are packed one behind the other are found again at their offsets.
use lum_model_face_recogniti.Base.{
  ℕ, append_assoc, suc, ◌+◌, ◌*◌, ◌≤◌, ◌≡◌, ◌++◌, List, [], ◌∷◌, arith, refl, ap, sym, ◌∙◌, length,
  length-append, take, drop, take-append, drop-append, All, subst,
}
use lum_model_face_recogniti.Exec.{ok}
use lum_model_face_recogniti.FrameStore.Memory.{splice}
use lum_model_face_recogniti.FrameStore.Slot.{Shape, Array, bytes_of}
use lum_model_face_recogniti.FrameStore.Roi.{
  RoiHandle, product, total_bytes, zip, cons_ok, pack, last_byte, crops_at,
}

-- A crop and its track, as the caller means them.
pub record Crop : Type 0 where
  pub track_id : ℕ
  pub shape : Shape
  pub bytes : List ℕ

abbrev pub IsFull : Crop → Type 0
IsFull c = length c.bytes ≡ bytes_of c.shape

abbrev pub array_of : Crop → Array
array_of c = record {
  shape = c.shape.height ∷ c.shape.width ∷ c.shape.channels ∷ [];
  bytes = c.bytes;
}

abbrev pub arrays : List Crop → List Array
arrays [] = []
arrays (c ∷ cs) = array_of c ∷ arrays cs

abbrev pub tracks : List Crop → List ℕ
tracks [] = []
tracks (c ∷ cs) = c.track_id ∷ tracks cs

-- What a reader is to get.
abbrev pub tracked : List Crop → List (ℕ × List ℕ)
tracked [] = []
tracked (c ∷ cs) = (c.track_id, c.bytes) ∷ tracked cs

abbrev pub places : ℕ → List Crop → List RoiHandle
places offset [] = []
places offset (c ∷ cs) =
    record { track_id = c.track_id; offset = offset; shape = c.shape }
    ∷ places (offset + bytes_of c.shape) cs

abbrev pub joined : List Crop → List ℕ
joined [] = []
joined (c ∷ cs) = c.bytes ++ joined cs

product-crop : (s : Shape) → product (s.height ∷ s.width ∷ s.channels ∷ []) ≡ bytes_of s
product-crop s = ap (λ h. h * s.width * s.channels) (omega arith)

drop-add : (n : ℕ) (pre post : List ℕ) → drop (length pre + n) (pre ++ post) ≡ drop n post
drop-add n [] post = ap (λ k. drop k post) (omega arith)
drop-add n (x ∷ pre) post =
    let e : suc (length pre) + n ≡ suc (length pre + n) = omega arith in
    ap (λ k. drop k (x ∷ (pre ++ post))) e ∙ drop-add n pre post

regroup : (xs ys zs ws : List ℕ) → (xs ++ ys) ++ (zs ++ ws) ≡ xs ++ ((ys ++ zs) ++ ws)
regroup xs ys zs ws =
    append_assoc xs ys (zs ++ ws) ∙ ap (λ l. xs ++ l) (sym (append_assoc ys zs ws))

splice_behind :
    (pre bytes post : List ℕ)
    → splice (length pre) bytes (pre ++ post) ≡ (pre ++ bytes) ++ drop (length bytes) post
splice_behind pre bytes post =
    ap (λ l. l ++ (bytes ++ drop (length pre + length bytes) (pre ++ post))) (take-append pre post)
    ∙ ap (λ l. pre ++ (bytes ++ l)) (drop-add (length bytes) pre post)
    ∙ sym (append_assoc pre bytes (drop (length bytes) post))

-- What stands behind the crops after they were packed.
abbrev pub behind : List Crop → List ℕ → List ℕ
behind [] post = post
behind (c ∷ cs) post = behind cs (drop (length c.bytes) post)

pub pack-joined :
    (cs : List Crop) (offset : ℕ) (pre post : List ℕ)
    → All IsFull cs
    → length pre ≡ offset
    → pack offset (zip (arrays cs) (tracks cs)) (pre ++ post)
      ≡ (ok (places offset cs), pre ++ (joined cs ++ behind cs post))
pack-joined [] offset pre post full e = refl
pack-joined (c ∷ cs) offset pre post (f, full) e =
    let rest =
      pack-joined cs (offset + bytes_of c.shape) (pre ++ c.bytes) (drop (length c.bytes) post) full
        (omega (arith, length-append pre c.bytes, f, e)) in
    let here : splice offset c.bytes (pre ++ post)
        ≡ (pre ++ c.bytes) ++ drop (length c.bytes) post =
      subst (λ o. splice o c.bytes (pre ++ post) ≡ (pre ++ c.bytes) ++ drop (length c.bytes) post) e
        (splice_behind pre c.bytes post) in
    let ids = zip (arrays cs) (tracks cs) in
    let handle : RoiHandle = record { track_id = c.track_id; offset = offset; shape = c.shape } in
    let r =
      ap (λ k. pack (offset + k) ids (splice offset c.bytes (pre ++ post))) (product-crop c.shape)
      ∙ ap (pack (offset + bytes_of c.shape) ids) here
      ∙ rest in
    ap (λ x. (cons_ok handle x.0, x.1)) r
    ∙ ap (λ l. (ok (places offset (c ∷ cs)), l))
        (regroup pre c.bytes (joined cs) (behind cs (drop (length c.bytes) post)))

pub crops_at-joined :
    (cs : List Crop) (offset : ℕ) (pre post : List ℕ)
    → All IsFull cs
    → length pre ≡ offset
    → crops_at (pre ++ (joined cs ++ post)) (places offset cs) ≡ tracked cs
crops_at-joined [] offset pre post full e = refl
crops_at-joined (c ∷ cs) offset pre post (f, full) e =
    let all : List ℕ = pre ++ ((c.bytes ++ joined cs) ++ post) in
    let here : drop offset all ≡ (c.bytes ++ joined cs) ++ post =
      subst (λ o. drop o all ≡ (c.bytes ++ joined cs) ++ post) e
        (drop-append pre ((c.bytes ++ joined cs) ++ post)) in
    let first : take (bytes_of c.shape) (drop offset all) ≡ c.bytes =
      ap (take (bytes_of c.shape)) (here ∙ append_assoc c.bytes (joined cs) post)
      ∙ subst (λ n. take n (c.bytes ++ (joined cs ++ post)) ≡ c.bytes) f
          (take-append c.bytes (joined cs ++ post)) in
    let others =
      crops_at-joined cs (offset + bytes_of c.shape) (pre ++ c.bytes) post full
        (omega (arith, length-append pre c.bytes, f, e)) in
    ap (λ b. (c.track_id, b) ∷ crops_at all (places (offset + bytes_of c.shape) cs)) first
    ∙ ap (λ l. (c.track_id, c.bytes) ∷ crops_at l (places (offset + bytes_of c.shape) cs))
        (sym (regroup pre c.bytes (joined cs) post))
    ∙ ap (λ l. (c.track_id, c.bytes) ∷ l) others

pub last_byte-places :
    (cs : List Crop) (offset : ℕ) → last_byte (places offset cs) ≤ offset + total_bytes (arrays cs)
last_byte-places [] offset = omega arith
last_byte-places (c ∷ cs) offset =
    omega (arith, last_byte-places cs (offset + bytes_of c.shape), product-crop c.shape)
