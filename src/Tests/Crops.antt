-- ===== src/Tests/Crops.antt =====
-- Histories of crops: one that a merge has made too long, and one with three orientations.
use lum_model_face_recogniti.Base.{
  ℕ, zero, suc, ◌≡◌, ◌≤◌, true, Option, none, some, [], ◌∷◌, length, refl,
}
use lum_model_face_recogniti.CameraEngine.Images.{CropData, History, keys, remember}
use lum_model_face_recogniti.CameraEngine.Choice.{pick_best_signals}
use lum_model_face_recogniti.CameraEngine.Signals.{IsBest, pick_best_signals-IsBest}
use lum_model_face_recogniti.CameraEngine.Sorting.{distinct}
use lum_model_face_recogniti.CameraEngine.Bounded.{find, remember-le}

abbrev crop : Option ℕ → Option ℕ → CropData
crop fr pi = record {
  face = [];
  bbox = none;
  person = none;
  offset = (0, 0);
  landmarks = none;
  det_score = 0;
  frontality = fr;
  pitch = pi;
}

-- The frames below `n`, the newest first.
abbrev frames : ℕ → History
frames zero = []
frames (suc n) = (n, crop none none) ∷ frames n

-- The second crop has the largest product, and fails the first threshold; the third is chosen.
abbrev oriented : History
oriented =
    (1, crop (some 700) (some 450))
    ∷ (2, crop (some 500) (some 900))
    ∷ (3, crop (some 650) (some 600))
    ∷ (4, crop (some 900) none)
    ∷ []

pick_best_signals_test :
    let s = pick_best_signals 600 400 oriented in (s.frontality ≡ 650) × (s.pitch ≡ 600)
unfolding pick_best_signals
pick_best_signals_test = (refl, refl)

pick_best_signals-IsBest_example : IsBest 600 400 (pick_best_signals 600 400 oriented) oriented
pick_best_signals-IsBest_example = pick_best_signals-IsBest 600 400 oriented

remember_test : length (remember 40 (crop none none) (frames 40)) ≡ 30
unfolding remember
remember_test = refl

remember-le_example :
    let h = remember 40 (crop (some 700) none) (frames 40) in
    (length h ≤ 30) × (distinct (keys h) ≡ true) × (find 40 h ≡ some (crop (some 700) none))
remember-le_example = remember-le 40 (crop (some 700) none) (frames 40) refl refl
