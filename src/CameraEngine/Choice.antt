-- ===== src/CameraEngine/Choice.antt =====
-- src/pipeline/camera_engine.py: which of the crops of a track stands for it in an event
-- (_get_best_person_image, _read_crop_image, _pick_best_signals, _unrecognized_card_image).
use lum_model_face_recogniti.Base.{
  ℕ, suc, ◌+◌, ◌-◌, ◌*◌, ◌==◌, ◌&&◌, not, Bool, true, Option, none, some, [], ◌∷◌, ltb, leb,
  if◌then◌else◌,
}
use lum_model_face_recogniti.CameraEngine.Images.{
  ℤ, pos, negsuc, Image, above_zero, height_of, width_of, cut_rows, slice, CropData, History,
}

-- `n - k`
abbrev pub minus : ℤ → ℕ → ℤ
minus (pos n) k = if ltb n k then negsuc (k - suc n) else pos (n - k)
minus (negsuc n) k = negsuc (n + k)

-- The end of a slice, which Python counts from the end of the list where it is negative.
abbrev pub end_of : ℕ → ℤ → ℕ
end_of len (pos n) = n
end_of len (negsuc n) = len - suc n

-- `_read_crop_image`: the box is cut out of the person's crop.
unfoldable pub read_crop_image : CropData → Image
read_crop_image d = elim d.person [
  | none ↦ d.face
  | some p ↦ elim d.bbox [
    | none ↦ d.face
    | some b ↦
        let (ox, oy) = d.offset in
        cut_rows (above_zero (minus b.x1 ox)) (end_of (width_of p) (minus b.x2 ox))
          (slice (above_zero (minus b.y1 oy)) (end_of (height_of p) (minus b.y2 oy)) p)
  ]
]

-- The variance of the Laplacian is compared to 100, and the score of a crop is 1000 times
-- `m * m` times the source's.
abbrev pub blur_threshold : ℕ
blur_threshold = 100

module _ (laplacian_var : Image → ℕ) where
  abbrev pub is_sharp_and_large : ℕ → Image → Bool
  is_sharp_and_large m face =
      not (height_of face * width_of face == 0)
      && (leb m (height_of face)
          && (leb m (width_of face) && leb blur_threshold (laplacian_var face)))

  abbrev pub score : ℕ → Image → ℕ
  score m face = 600 * (height_of face * width_of face) + 4 * (laplacian_var face * (m * m))

  abbrev pub better : ℕ → Option CropData → CropData → Option CropData
  better m none d = if is_sharp_and_large m d.face then some d else none
  better m (some best) d =
      if is_sharp_and_large m d.face && ltb (score m best.face) (score m d.face)
      then some d
      else some best

  abbrev pub best_crop : ℕ → Option CropData → History → Option CropData
  best_crop m best [] = best
  best_crop m best ((k, d) ∷ h) = best_crop m (better m best d) h

  -- The crop of the largest frame number.
  abbrev pub newest : ℕ × CropData → History → CropData
  newest (k, d) [] = d
  newest (k, d) ((x, e) ∷ h) = if ltb k x then newest (x, e) h else newest (k, d) h

  abbrev pub best_or_newest : ℕ → History → Option CropData
  best_or_newest m [] = none
  best_or_newest m ((k, d) ∷ h) = elim (best_crop m none ((k, d) ∷ h)) [
    | some best ↦ some best
    | none ↦ some (newest (k, d) h)
  ]

  -- `_get_best_person_image`
  unfoldable pub best_person_image : ℕ → History → Option Image
  unfolding read_crop_image
  best_person_image m h = elim (best_or_newest m h) [
    | none ↦ none
    | some d ↦ some (read_crop_image d)
  ]

-- Frontality and pitch of a crop that has both.
abbrev pub orientation : CropData → Option (ℕ × ℕ)
orientation d = elim d.frontality [
  | none ↦ none
  | some fr ↦ elim d.pitch [ none ↦ none | some pi ↦ some (fr, pi) ]
]

-- What the event of a person who was not recognised reports.
pub record Signals : Type 0 where
  pub frontality : ℕ
  pub det_score : ℕ
  pub pitch : ℕ
  pub crop : Option CropData

abbrev pub no_signals : Signals
no_signals = record { frontality = 0; det_score = 0; pitch = 0; crop = none }

-- The best so far and its score, which is below every score where there is none.
abbrev pub Best : Type 0
Best = Option (ℕ × Signals)

abbrev pub beats : ℕ → Best → Bool
beats s none = true
beats s (some (t, x)) = ltb t s

abbrev pub signals_of : CropData → ℕ → ℕ → Signals
signals_of d fr pi = record { frontality = fr; det_score = d.det_score; pitch = pi; crop = some d }

-- One crop of the loop: `best_pass` and `best_any`.
abbrev pub pick_oriented : ℕ → ℕ → CropData → ℕ × ℕ → Best × Best → Best × Best
pick_oriented fr_min pi_min d (fr, pi) (pass, any) =
    let found : Best = some (fr * pi, signals_of d fr pi) in
    let next_any = if beats (fr * pi) any then found else any in
    if leb fr_min fr && (leb pi_min pi && beats (fr * pi) pass)
    then (found, next_any)
    else (pass, next_any)

abbrev pub pick_one : ℕ → ℕ → CropData → Best × Best → Best × Best
pick_one fr_min pi_min d best = elim (orientation d) [
  | none ↦ best
  | some o ↦ pick_oriented fr_min pi_min d o best
]

abbrev pub pick_all : ℕ → ℕ → History → Best × Best → Best × Best
pick_all fr_min pi_min [] best = best
pick_all fr_min pi_min ((k, d) ∷ h) best = pick_all fr_min pi_min h (pick_one fr_min pi_min d best)

abbrev pub signals_or : Best → Best → Signals
signals_or (some (s, x)) any = x
signals_or none (some (s, x)) = x
signals_or none none = no_signals

-- `_pick_best_signals`
unfoldable pub pick_best_signals : ℕ → ℕ → History → Signals
pick_best_signals fr_min pi_min h =
    let (pass, any) = pick_all fr_min pi_min h (none, none) in signals_or pass any

-- `_unrecognized_card_image`, where it is not empty.
unfoldable pub unrecognized_card_image : Option CropData → Option Image
unrecognized_card_image none = none
unrecognized_card_image (some d) = elim d.person [
  | none ↦ none
  | some roi ↦ if height_of roi * width_of roi == 0 then none else some roi
]
