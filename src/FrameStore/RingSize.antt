-- ===== src/FrameStore/RingSize.antt =====
-- How many segments a ring needs: `tracked_ring_size` and `raw_ring_size`, with times in
-- milliseconds and the frame rate in whole frames a second.
use native.Mathlib.Nat.{div-add-mod'}
use lum_model_face_recogniti.Base.{
  ℕ, ◌+◌, ◌-◌, ◌*◌, ◌/◌, ◌≤◌, ◌<◌, ◌==◌, ◌≡◌, max, arith, if◌then◌else◌,
}
use lum_model_face_recogniti.Exec.{Outcome, ok, raised}

-- `math.ceil(a / b)`
abbrev pub ceil_div : ℕ → ℕ → ℕ
ceil_div a b = (a + b - 1) / b

abbrev pub tracked_ring_min : ℕ
tracked_ring_min = 3

abbrev pub tracked_ring_margin_ms : ℕ
tracked_ring_margin_ms = 500

abbrev pub tracked_fps_ceiling : ℕ
tracked_fps_ceiling = 20

-- `needed / write_interval` is `needed * fps_ceiling / (1000 * interval)`, with the times in
-- milliseconds.
unfoldable pub tracked_ring_size : ℕ → ℕ → ℕ → ℕ → Outcome ℕ
tracked_ring_size detection_interval task_expires_ms fps_ceiling margin_ms =
    if fps_ceiling == 0
    then raised
    else ok (
        max tracked_ring_min (
          ceil_div ((task_expires_ms + margin_ms) * fps_ceiling) (1000 * max detection_interval 1)))

abbrev pub raw_frame_max_age_ms : ℕ
raw_frame_max_age_ms = 5000

abbrev pub raw_ring_margin_ms : ℕ
raw_ring_margin_ms = 3000

abbrev pub raw_ring_min : ℕ
raw_ring_min = 2

unfoldable pub raw_ring_size : ℕ → ℕ
raw_ring_size health_interval_ms =
    max raw_ring_min
      (ceil_div (raw_frame_max_age_ms + raw_ring_margin_ms) (max health_interval_ms 1))

ceil_div_covers : (a b : ℕ) → 0 < b → a ≤ ceil_div a b * b
ceil_div_covers a b h = grind (arith, div-add-mod' (a + b - 1) b)

max_covers : (a lo n d : ℕ) → a ≤ n * d → a ≤ max lo n * d
max_covers a lo n d h = grind arith

ceil_div_least : (a b n : ℕ) → 0 < b → a ≤ n * b → ceil_div a b ≤ n
ceil_div_least a b n h le = grind (arith, div-add-mod' (a + b - 1) b)

-- A turn of the ring lasts at least as long as the task's expiry and the margin: `size` writes, one
-- every `interval / fps` seconds, take `size * 1000 * interval / fps` milliseconds.
pub tracked_ring_size_covers :
    (interval expires fps margin size : ℕ)
    → tracked_ring_size interval expires fps margin ≡ ok size
    → (expires + margin) * fps ≤ size * (1000 * max interval 1)
unfolding tracked_ring_size
tracked_ring_size_covers interval expires fps margin size h =
    let c =
      max_covers ((expires + margin) * fps) tracked_ring_min _ (1000 * max interval 1)
        (ceil_div_covers ((expires + margin) * fps) (1000 * max interval 1) (omega arith)) in
    ground (arith, c)

-- The ring is no larger than that: the least such size that is at least the minimum.
pub tracked_ring_size_least :
    (interval expires fps margin size n : ℕ)
    → tracked_ring_size interval expires fps margin ≡ ok size
    → tracked_ring_min ≤ n
    → (expires + margin) * fps ≤ n * (1000 * max interval 1)
    → size ≤ n
unfolding tracked_ring_size
tracked_ring_size_least interval expires fps margin size n h lo covers =
    let c =
      ceil_div_least ((expires + margin) * fps) (1000 * max interval 1) n (omega arith) covers in
    ground (arith, c)

-- A turn of the raw ring, a frame for each health tick, outlasts the age limit and the margin.
pub raw_ring_size_covers :
    (interval : ℕ)
    → raw_frame_max_age_ms + raw_ring_margin_ms ≤ raw_ring_size interval * max interval 1
unfolding raw_ring_size
raw_ring_size_covers interval =
    max_covers _ _ _ _ (ceil_div_covers _ (max interval 1) (omega arith))
