-- ===== src/FramePump/Rate.antt =====
-- How many of the frames of a stream are announced.
use native.Mathlib.Nat.{div-add-mod'}
use lum_model_face_recogniti.Base.{
  ℕ, suc, ◌+◌, ◌*◌, ◌/◌, ◌%◌, ◌≤◌, ◌<◌, ◌==◌, ◌≡◌, ◌≢◌, Bool, true, false, Option, none, some, List,
  [], ◌∷◌, length, length-append, arith, refl, inl, inr, Bool-cases, Option-cases, String, ==_iff,
}
use lum_model_face_recogniti.Exec.{Outcome, ok, raised}
use lum_model_face_recogniti.FrameStore.Slot.{Array, FrameHandle, Writer, write}
use lum_model_face_recogniti.StreamHandler.{
  Handler, Mode, reading, grabbing, attempting, opening, ended, mark_frame_received, publish,
  attempt, update_step, stop, read, numbered, read_with_seq,
}
use lum_model_face_recogniti.FramePump.{
  Roi, Producer, Polled, new_producer, Camera, Turn, update, poll, stop_stream, apply_roi,
  requested, hand_off, detect, counted, produce_one_frame, sent, step, steps,
}

div_suc_le : (n d : ℕ) → 0 < d → n / d ≤ suc n / d
div_suc_le n d h = grind (arith, div-add-mod' n d, div-add-mod' (suc n) d)

div_suc_lt : (n d : ℕ) → 0 < d → suc n % d ≡ 0 → n / d < suc n / d
div_suc_lt n d h e = grind (arith, div-add-mod' n d, div-add-mod' (suc n) d)

div_mul_le : (n d : ℕ) → n / d * d ≤ n
div_mul_le n d = omega (arith, div-add-mod' n d)

update_step-le :
    (now : ℕ) (given : Option Array) (m : Mode) (h : Handler)
    → h.frame_seq ≤ (update_step now given (m, h)).1.frame_seq
unfolding update_step publish attempt mark_frame_received
update_step-le now given ended h = omega arith
update_step-le now given attempting h = ground arith
update_step-le now none opening h = omega arith
update_step-le now (some f) opening h = omega arith
update_step-le now given (reading k) h = ground arith
update_step-le now none (grabbing k) h = ground arith
update_step-le now (some f) (grabbing k) h = omega arith

stop-frame_seq : (exits : Bool) (h : Handler) → (stop exits h).frame_seq ≡ h.frame_seq
unfolding stop
stop-frame_seq exits h = ground arith

read-frame_seq :
    (now : ℕ) (given : Option Array) (h : Handler) → (read now given h).1.frame_seq ≡ h.frame_seq
unfolding read mark_frame_received stop
read-frame_seq now none h = ground arith
read-frame_seq now (some f) h = ground arith

-- The number that is returned is the handler's.
numbered_lem :
    (v : Bool) (r : (Bool × Option Array) × Handler)
    → ((numbered v r).0.1.1 ≡ (numbered v r).1.frame_seq)
      × (r.1.frame_seq ≤ (numbered v r).1.frame_seq)
numbered_lem false r = (refl, omega arith)
numbered_lem true ((true, f), h) = (refl, omega arith)
numbered_lem true ((false, f), h) = (refl, omega arith)

-- What the producer has counted, where the stream has published `seq` frames.
record Paced (d seq : ℕ) (p : Producer) : Type 0 where
  interval : p.detection_interval ≡ d
  emitted : p.frames_emitted ≤ p.frame_num / d
  counted_le : p.frame_num ≤ p.last_frame_seq
  seen : p.last_frame_seq ≤ seq

Paced-later : (d s t : ℕ) (p : Producer) → s ≤ t → Paced d s p → Paced d t p
Paced-later d s t p le h = record {
  interval = h.interval;
  emitted = h.emitted;
  counted_le = h.counted_le;
  seen = omega (arith, le, h.seen);
}

-- A poll keeps the counts, and sends no more than it counts.
abbrev Paces : ℕ → ℕ → Producer → Polled → Type 0
Paces d seq p r = Paced d seq r.1.0 × (p.frames_emitted + length (sent r.0) ≤ r.1.0.frames_emitted)

module _ (crop : Roi → Array → Array) (camera_queue_name : ℕ → String) (d : ℕ)
    (positive : 0 < d) where
  Paces-still :
      (seq : ℕ) (p : Producer) (w : Writer) → Paced d seq p → Paces d seq p (ok none, (p, w))
  Paces-still seq p w h = (h, omega arith)

  Paces-requested :
      (now seq : ℕ) (p q : Producer) (o : Outcome FrameHandle × Writer)
      → Paced d seq q
      → p.frames_emitted + 1 ≤ q.frames_emitted
      → Paces d seq p (requested crop camera_queue_name now q o)
  Paces-requested now seq p q (ok handle, w) h le = (h, le)
  Paces-requested now seq p q (raised, w) h le = (h, omega (arith, le))

  Paces-detect :
      (now seq : ℕ) (o : Option Array) (p : Producer) (w : Writer)
      → Paced d seq p
      → seq ≢ p.last_frame_seq
      → let q = counted seq p in Paces d seq p (detect crop camera_queue_name now o q w)
  unfolding detect hand_off
  Paces-detect now seq o p w h ne =
      let n = p.frame_num in
      let seen : Paced d seq (counted seq p) = record {
        interval = h.interval;
        emitted = omega (arith, h.emitted, div_suc_le n d positive);
        counted_le = omega (arith, h.counted_le, h.seen, ne);
        seen = omega arith;
      } in
      elim (Option-cases o) [
        | inl q ↦ rw q (seen, omega arith)
        | inr (f, q) ↦ elim (Bool-cases (suc n % p.detection_interval == 0)) [
          | inr g ↦ rw (q, g) (seen, omega arith)
          | inl g ↦
              let divides : suc n % d ≡ 0 = rw (← h.interval) ((==_iff _ 0).0 g) in
              rw (q, g)
                (Paces-requested now seq p _ (write f w)
                  (record {
                    interval = h.interval;
                    emitted = omega (arith, h.emitted, div_suc_lt n d positive divides);
                    counted_le = seen.counted_le;
                    seen = omega arith;
                  })
                  (omega arith))
        ]
      ]

  Paces-produce :
      (roi : Option Roi) (now : ℕ) (r : Bool × (Option Array × ℕ)) (p : Producer) (w : Writer)
      → Paced d r.1.1 p
      → Paces d r.1.1 p (produce_one_frame crop camera_queue_name roi now r p w)
  unfolding produce_one_frame
  Paces-produce roi now (false, (f, seq)) p w h = Paces-still seq p w h
  Paces-produce roi now (true, (none, seq)) p w h = Paces-still seq p w h
  Paces-produce roi now (true, (some f, seq)) p w h = elim (Bool-cases (seq == p.last_frame_seq)) [
    | inl q ↦ rw q (Paces-still seq p w h)
    | inr q ↦ rw q (
        Paces-detect now seq (apply_roi crop camera_queue_name roi f) p w h
          (ground (arith, ==_iff seq p.last_frame_seq)))
  ]

  Paces-step :
      (t : Turn) (c : Camera)
      → Paced d c.handler.frame_seq c.producer
      → let r = step crop camera_queue_name t c in
        Paced d r.1.handler.frame_seq r.1.producer
        × (c.producer.frames_emitted + length r.0 ≤ r.1.producer.frames_emitted)
  unfolding step read_with_seq
  Paces-step (update now given) c h = (
    Paced-later d c.handler.frame_seq _ c.producer (update_step-le now given c.mode c.handler) h,
    omega arith,
  )
  Paces-step (stop_stream exits) c h = (rw (stop-frame_seq exits c.handler) h, omega arith)
  Paces-step (poll now roi given) c h =
      let v = c.handler.is_video in
      let r = read now given c.handler in
      let same = numbered_lem v r in
      let le : c.handler.frame_seq ≤ (numbered v r).0.1.1 =
        omega (arith, same.0, same.1, read-frame_seq now given c.handler) in
      let k =
        Paces-produce roi now (numbered v r).0 c.producer c.writer
          (Paced-later d c.handler.frame_seq _ c.producer le h) in
      (rw (← same.0) k.0, k.1)

  Paces-steps :
      (ts : List (Turn)) (c : Camera)
      → Paced d c.handler.frame_seq c.producer
      → let r = steps crop camera_queue_name ts c in
        Paced d r.1.handler.frame_seq r.1.producer
        × (c.producer.frames_emitted + length r.0 ≤ r.1.producer.frames_emitted)
  unfolding steps
  Paces-steps [] c h = (h, omega arith)
  Paces-steps (t ∷ ts) c h =
      let s = step crop camera_queue_name t c in
      let first = Paces-step t c h in
      let rest = Paces-steps ts s.1 first.0 in
      (
        rest.0,
        omega (arith, first.1, rest.1, length-append s.0 (steps crop camera_queue_name ts s.1).0),
      )

  -- However the producer's polls, the frames of the stream and its failures take turns, and whatever is
  -- cropped: of the frames that the stream has published, at most one in `d` is announced, from the
  -- start on.
  pub length-steps-le :
      (ts : List Turn) (c : Camera) (camera_id : ℕ)
      → c.producer ≡ new_producer camera_id d
      → let r = steps crop camera_queue_name ts c in length r.0 * d ≤ r.1.handler.frame_seq
  length-steps-le ts c camera_id start =
      let fresh : Paced d c.handler.frame_seq c.producer = rw start record {
        interval = omega (arith, positive);
        emitted = omega arith;
        counted_le = omega arith;
        seen = omega arith;
      } in
      let r = steps crop camera_queue_name ts c in
      let k = Paces-steps ts c fresh in
      let n = r.1.producer.frame_num in
      grind (arith, k.1, k.0.emitted, k.0.counted_le, k.0.seen, div-add-mod' n d)
