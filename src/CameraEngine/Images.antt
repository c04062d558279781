-- ===== src/CameraEngine/Images.antt =====
-- src/pipeline/camera_engine.py: boxes, the parts of a frame that they cut out (_clip_bbox,
-- _person_crop, _read_crop_image), and the crops that are kept of a track.
use lum_model_face_recogniti.Base.{
  ℕ, ◌-◌, ◌==◌, ◌&&◌, Option, none, some, List, [], ◌∷◌, length, take, drop, ltb, leb,
  if◌then◌else◌,
}

pub data ℤ : Type 0 where
  pos : (n : ℕ) → ℤ
  negsuc : (n : ℕ) → ℤ

-- Rows of pixels.
abbrev pub Image : Type 0
Image = List (List ℕ)

-- The coordinates after `int`.
pub record Box : Type 0 where
  pub x1 : ℤ
  pub y1 : ℤ
  pub x2 : ℤ
  pub y2 : ℤ

-- `max(0, n)` and `min(w, n)`
abbrev pub above_zero : ℤ → ℕ
above_zero (pos n) = n
above_zero (negsuc n) = 0

abbrev pub at_most : ℕ → ℤ → ℤ
at_most w (pos n) = if ltb n w then pos n else pos w
at_most w (negsuc n) = negsuc n

abbrev pub height_of : Image → ℕ
height_of rows = length rows

abbrev pub width_of : Image → ℕ
width_of [] = 0
width_of (row ∷ rows) = length row

-- A box that was clipped to the frame.
pub record Clipped : Type 0 where
  pub left : ℕ
  pub top : ℕ
  pub right : ℤ
  pub bottom : ℤ

unfoldable pub clip_bbox : Image → Box → Clipped
clip_bbox frame b = record {
  left = above_zero b.x1;
  top = above_zero b.y1;
  right = at_most (width_of frame) b.x2;
  bottom = at_most (height_of frame) b.y2;
}

module _ {A : Type 0} where
  -- `xs[lo:hi]`, where neither is negative.
  abbrev pub slice : ℕ → ℕ → List A → List A
  slice lo hi xs = take (hi - lo) (drop lo xs)

abbrev pub cut_rows : ℕ → ℕ → Image → Image
cut_rows lo hi [] = []
cut_rows lo hi (row ∷ rows) = slice lo hi row ∷ cut_rows lo hi rows

-- `image[top:bottom, left:right]`
abbrev pub cut : ℕ → ℕ → ℕ → ℕ → Image → Image
cut left top right bottom image = cut_rows left right (slice top bottom image)

abbrev pub cut_unless_empty : ℕ → ℕ → ℤ → ℤ → Image → Option Image
cut_unless_empty left top (pos right) (pos bottom) frame =
    if ltb left right && ltb top bottom then some (cut left top right bottom frame) else none
cut_unless_empty left top _ _ frame = none

-- `frame[y1:y2, x1:x2]` where the clipped box is not empty.
unfoldable pub image_of : Image → Option Box → Option Image
unfolding clip_bbox
image_of frame none = none
image_of frame (some b) =
    let c = clip_bbox frame b in cut_unless_empty c.left c.top c.right c.bottom frame

-- What is kept of a frame with a face. Scores are in thousandths.
pub record CropData : Type 0 where
  pub face : Image
  pub bbox : Option Box
  pub person : Option Image
  pub offset : ℕ × ℕ
  pub landmarks : Option (List ℕ)
  pub det_score : ℕ
  pub frontality : Option ℕ
  pub pitch : Option ℕ

-- By frame number.
abbrev pub History : Type 0
History = List (ℕ × CropData)

abbrev pub put : ℕ → CropData → History → History
put k d [] = (k, d) ∷ []
put k d ((x, old) ∷ h) = if x == k then (x, d) ∷ h else (x, old) ∷ put k d h

-- `del history[k]`
abbrev pub del : ℕ → History → History
del k [] = []
del k ((x, d) ∷ h) = let rest = del k h in if x == k then rest else (x, d) ∷ rest

-- `update`
abbrev pub put_all : History → History → History
put_all [] h = h
put_all ((k, d) ∷ new) h = put_all new (put k d h)

abbrev pub keys : History → List ℕ
keys [] = []
keys ((k, d) ∷ h) = k ∷ keys h

-- `sorted`
abbrev pub insert : ℕ → List ℕ → List ℕ
insert k [] = k ∷ []
insert k (x ∷ xs) = if leb k x then k ∷ x ∷ xs else x ∷ insert k xs

abbrev pub sorted : List ℕ → List ℕ
sorted [] = []
sorted (x ∷ xs) = insert x (sorted xs)

abbrev pub del_all : List ℕ → History → History
del_all [] h = h
del_all (k ∷ ks) h = del_all ks (del k h)

abbrev pub max_crop_frames : ℕ
max_crop_frames = 30

unfoldable pub trim : History → History
trim h =
    if ltb max_crop_frames (length h)
    then del_all (take (length h - max_crop_frames) (sorted (keys h))) h
    else h

-- A frame with a face joins the history.
unfoldable pub remember : ℕ → CropData → History → History
unfolding trim
remember frame_num d h = trim (put frame_num d h)
