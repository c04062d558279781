-- ===== src/FaceTasks/Aligned.antt =====
-- The places of the results of a batch of crops.
use lum_model_face_recogniti.Base.{
  ℕ, suc, append_nil, append_assoc, ◌≡◌, Option, none, some, List, [], ◌∷◌, ◌++◌, map, length,
  length-append, arith, refl, ap, sym, ◌∙◌, subst,
}
use lum_model_face_recogniti.Exec.{Outcome, ok}
use lum_model_face_recogniti.FaceTasks.{
  Roi, Face, FaceResult, blank, detected, Models, set_at, get_at, blank_results, or_blank, Entry,
  usable, detect_one, add_entry, detect_all, first_of, embed_all, write_at, describe_at, placed,
  and_then, scatter, embed_rois,
}

-- The models answer each image on its own, whatever they were asked before, and what is read off a face
-- that was embedded can be read.
pub record Steady {E C F V D : Type 0} (M : Models E C F V D) : Type 0 where
  pub faces : Roi → Outcome (List (Face C F))
  pub vectors : C → Outcome (List V)
  pub description : Roi → Face C F → V → D
  pub detect_lem : (roi : Roi) (e : E) → (M.detect_and_align roi e).0 ≡ faces roi
  pub embed_lem : (c : C) (e : E) → (M.embed_batch c e).0 ≡ vectors c
  pub describe_lem :
      (roi : Roi) (f : Face C F) (v : V) → M.describe roi f v ≡ ok (description roi f v)

module _ {E C F V D : Type 0} {M : Models E C F V D} (S : Steady M) where
  abbrev pub result_with : Roi → Face C F → Option V → FaceResult D
  result_with roi f none = blank
  result_with roi f (some v) = detected (S.description roi f v)

  abbrev pub result_for : Roi → Option (Face C F × C) → FaceResult D
  result_for roi none = blank
  result_for roi (some (f, c)) = result_with roi f (first_of M (S.vectors c))

  abbrev pub face_of : Roi → Option (Face C F × C)
  face_of [] = none
  face_of (x ∷ roi) = usable M (S.faces (x ∷ roi))

  -- The specification: the result of one ROI, without the others.
  abbrev pub embed_one : Roi → FaceResult D
  embed_one roi = result_for roi (face_of roi)

  -- The entries of the ROIs from the place `i` on.
  abbrev entries_from : ℕ → List Roi → List (Entry M)
  entries_from i [] = []
  entries_from i (roi ∷ rois) = add_entry M i (face_of roi) (entries_from (suc i) rois)

  abbrev vectors_of : List (Entry M) → List (Option V)
  vectors_of [] = []
  vectors_of ((i, (f, c)) ∷ es) = first_of M (S.vectors c) ∷ vectors_of es

  detect_one_lem : (roi : Roi) (e : E) → (detect_one M roi e).0 ≡ face_of roi
  detect_one_lem [] e = refl
  detect_one_lem (x ∷ roi) e = ap (usable M) (S.detect_lem (x ∷ roi) e)

  detect_all_lem :
      (i : ℕ) (rois : List Roi) (e : E) → (detect_all M i rois e).0 ≡ entries_from i rois
  unfolding detect_all
  detect_all_lem i [] e = refl
  detect_all_lem i (roi ∷ rois) e =
      ap (λ f. add_entry M i f (detect_all M (suc i) rois (detect_one M roi e).1).0)
        (detect_one_lem roi e)
      ∙ ap (add_entry M i (face_of roi)) (detect_all_lem (suc i) rois (detect_one M roi e).1)

  embed_all_lem : (es : List (Entry M)) (e : E) → (embed_all M es e).0 ≡ vectors_of es
  unfolding embed_all
  embed_all_lem [] e = refl
  embed_all_lem ((i, (f, c)) ∷ es) e =
      ap (λ v. first_of M v ∷ (embed_all M es (M.embed_batch c e).1).0) (S.embed_lem c e)
      ∙ ap (λ l. first_of M (S.vectors c) ∷ l) (embed_all_lem es (M.embed_batch c e).1)

  get_at-length :
      (before : List Roi) (roi : Roi) (rest : List Roi)
      → get_at (length before) (before ++ (roi ∷ rest)) ≡ some roi
  get_at-length [] roi rest = refl
  get_at-length (x ∷ before) roi rest = get_at-length before roi rest

  set_at-length :
      (before : List Roi) (a b : FaceResult D) (rest : List (FaceResult D))
      → set_at (length before) a (map embed_one before ++ (b ∷ rest))
        ≡ map embed_one before ++ (a ∷ rest)
  set_at-length [] a b rest = refl
  set_at-length (x ∷ before) a b rest = ap (λ l. embed_one x ∷ l) (set_at-length before a b rest)

  map-append : (xs ys : List Roi) → map embed_one (xs ++ ys) ≡ map embed_one xs ++ map embed_one ys
  map-append [] ys = refl
  map-append (x ∷ xs) ys = ap (λ l. embed_one x ∷ l) (map-append xs ys)

  -- The places before `n` are filled.
  abbrev Scatters : List Roi → ℕ → List Roi → List (FaceResult D) → Type 0
  Scatters rs n all results =
      scatter M all (entries_from n rs) (vectors_of (entries_from n rs)) results
      ≡ ok (map embed_one all)

  Scatters-next :
      (before : List Roi) (roi : Roi) (rs : List Roi)
      → Scatters rs
          (length (before ++ (roi ∷ [])))
          ((before ++ (roi ∷ [])) ++ rs)
          (map embed_one (before ++ (roi ∷ [])) ++ blank_results (length rs))
      → Scatters rs
          (suc (length before))
          (before ++ (roi ∷ rs))
          (map embed_one before ++ (embed_one roi ∷ blank_results (length rs)))
  Scatters-next before roi rs h =
      let blanks : List (FaceResult D) = blank_results (length rs) in
      let size : length (before ++ (roi ∷ [])) ≡ suc (length before) =
        omega (arith, length-append before (roi ∷ [])) in
      let whole = append_assoc before (roi ∷ []) rs in
      let done =
        ap (λ l. l ++ blanks) (map-append before (roi ∷ []))
        ∙ append_assoc (map embed_one before) (embed_one roi ∷ []) blanks in
      subst (λ l. Scatters rs (suc (length before)) (before ++ (roi ∷ rs)) l) done
        (subst
          (λ all.
            Scatters rs (suc (length before)) all (map embed_one (before ++ (roi ∷ [])) ++ blanks))
          whole
          (subst
            (λ n.
              Scatters rs n ((before ++ (roi ∷ [])) ++ rs)
                (map embed_one (before ++ (roi ∷ [])) ++ blanks))
            size h))

  -- One entry writes the result of its ROI.
  placed_lem :
      (before : List Roi) (roi : Roi) (rs : List Roi) (f : Face C F) (c : C) (o : Option V)
      (rest : List (FaceResult D))
      → placed M
          (before ++ (roi ∷ rs))
          (length before, (f, c))
          o
          (map embed_one before ++ (blank ∷ rest))
        ≡ ok (map embed_one before ++ (result_with roi f o ∷ rest))
  placed_lem before roi rs f c none rest = refl
  placed_lem before roi rs f c (some v) rest =
      let n = length before in
      let results = map embed_one before ++ (blank ∷ rest) in
      ap (λ r. describe_at M n r f v results) (get_at-length before roi rs)
      ∙ ap (λ d. write_at M n d results) (S.describe_lem roi f v)
      ∙ ap ok (set_at-length before (detected (S.description roi f v)) blank rest)

  scatter_one :
      (before : List Roi) (roi : Roi) (rs : List Roi) (o : Option (Face C F × C))
      → let es = entries_from (suc (length before)) rs in
        let blanks = blank_results (length rs) in
        let es' = add_entry M (length before) o es in
        scatter M
          (before ++ (roi ∷ rs))
          es'
          (vectors_of es')
          (map embed_one before ++ (blank ∷ blanks))
        ≡ scatter M
            (before ++ (roi ∷ rs))
            es
            (vectors_of es)
            (map embed_one before ++ (result_for roi o ∷ blanks))
  unfolding scatter
  scatter_one before roi rs none = refl
  scatter_one before roi rs (some (f, c)) =
      let es = entries_from (suc (length before)) rs in
      ap (λ p. and_then M p (scatter M (before ++ (roi ∷ rs)) es (vectors_of es)))
        (placed_lem before roi rs f c (first_of M (S.vectors c)) (blank_results (length rs)))

  scatter_lem :
      (before rs : List Roi)
      → Scatters rs
          (length before)
          (before ++ rs)
          (map embed_one before ++ blank_results (length rs))
  unfolding scatter
  scatter_lem before [] =
      ap ok (append_nil (map embed_one before) ∙ ap (map embed_one) (sym (append_nil before)))
  scatter_lem before (roi ∷ rs) =
      scatter_one before roi rs (face_of roi)
      ∙ Scatters-next before roi rs (scatter_lem (before ++ (roi ∷ [])) rs)

  pub embed_rois_lem : (rois : List Roi) (e : E) → (embed_rois M rois e).0 ≡ map embed_one rois
  unfolding embed_rois
  embed_rois_lem rois e =
      let n = length rois in
      let d = detect_all M 0 rois e in
      ap (λ es. or_blank n (scatter M rois es (embed_all M d.0 d.1).0 (blank_results n)))
        (detect_all_lem 0 rois e)
      ∙ ap (λ vs. or_blank n (scatter M rois (entries_from 0 rois) vs (blank_results n)))
          (embed_all_lem d.0 d.1 ∙ ap vectors_of (detect_all_lem 0 rois e))
      ∙ ap (or_blank n) (scatter_lem [] rois)
