-- ===== src/StreamHandler/Stopped.antt =====
-- How the thread that reads a stream ends.
use lum_model_face_recogniti.Base.{
  ℕ, suc, ◌≡◌, ◌≤◌, ◌⊎◌, ◌||◌, not, Bool, true, Option, none, some, List, [], ◌∷◌, if◌then◌else◌,
  refl, ap, ◌∙◌, sym, arith, inl, inr, subst, leb, Bool-cases,
}
use lum_model_face_recogniti.FrameStore.Slot.{Array}
use lum_model_face_recogniti.StreamHandler.{
  Handler, Mode, reading, grabbing, attempting, opening, ended, mark_frame_received, publish,
  update_step, stop, attempt, begin_reconnect,
}

-- Steps of the thread, each at its time and with what the source gives.
abbrev pub updates : List (ℕ × Option Array) → Mode × Handler → Mode × Handler
updates [] s = s
updates ((now, given) ∷ ts) s = updates ts (update_step now given s)

stop_lem :
    (exits : Bool) (h : Handler)
    → ((stop exits h).stopped ≡ true)
      × ((stop exits h).frame_seq ≡ h.frame_seq)
      × ((stop exits h).latest_frame ≡ h.latest_frame)
unfolding stop
stop_lem exits h = ground arith

updates-ended : (ts : List (ℕ × Option Array)) (h : Handler) → updates ts (ended, h) ≡ (ended, h)
unfolding update_step
updates-ended [] h = refl
updates-ended ((now, given) ∷ ts) h = updates-ended ts h

-- The thread has ended, and between `h` and its end it published `given` or nothing.
pub record IsOver (given : Option Array) (h : Handler) (s : Mode × Handler) : Type 0 where
  pub over : s.0 ≡ ended
  pub at_most_one : s.1.frame_seq ≤ suc h.frame_seq
  pub latest : (s.1.latest_frame ≡ h.latest_frame) ⊎ (s.1.latest_frame ≡ given)

IsOver-ended : (given : Option Array) (h : Handler) → IsOver given h (ended, h)
IsOver-ended given h = record { over = refl; at_most_one = omega arith; latest = inl refl }

-- At the head of a loop the thread ends.
update_step-reading :
    (now k : ℕ) (given : Option Array) (h : Handler)
    → h.stopped ≡ true
    → update_step now given (reading k, h) ≡ (ended, h)
unfolding update_step
update_step-reading now k given h q =
    ap
      (λ b.
        if b
        then (ended, h)
        else if not h.opened || not h.connected
        then (attempting, begin_reconnect h)
        else (grabbing k, h))
      q

update_step-attempting :
    (now : ℕ) (given : Option Array) (h : Handler)
    → h.stopped ≡ true
    → update_step now given (attempting, h) ≡ (ended, h)
unfolding update_step
update_step-attempting now given h q = ap (λ b. if b then (ended, h) else (opening, h)) q

module _ (now later : ℕ) (given next : Option Array) (h : Handler) (q : h.stopped ≡ true) where
  abbrev two : Mode → Mode × Handler
  two m = updates ((now, given) ∷ (later, next) ∷ []) (m, h)

  ends_at_once : (m : Mode) → update_step now given (m, h) ≡ (ended, h) → IsOver given h (two m)
  unfolding update_step
  ends_at_once m e =
      subst (λ s. IsOver given h (update_step later next s)) (sym e) (IsOver-ended given h)

  -- What the first step leads to is at the head of a loop.
  ends_next :
      (m : Mode) (k : ℕ) (h' : Handler)
      → update_step now given (m, h) ≡ (reading k, h')
      → h'.stopped ≡ true
      → h'.frame_seq ≤ suc h.frame_seq
      → (h'.latest_frame ≡ h.latest_frame) ⊎ (h'.latest_frame ≡ given)
      → IsOver given h (two m)
  ends_next m k h' e g le l =
      subst (IsOver given h)
        (sym (ap (update_step later next) e ∙ update_step-reading later k next h' g))
        (record { over = refl; at_most_one = le; latest = l })

module _ (now later : ℕ) (next : Option Array) (h : Handler) (q : h.stopped ≡ true) where
  IsOver-grabbing :
      (k : ℕ) (given : Option Array) → IsOver given h (two now later given next h q (grabbing k))
  unfolding update_step publish mark_frame_received
  IsOver-grabbing k (some f) =
      ends_next now later (some f) next h q (grabbing k) 0 (publish now f h) refl q (omega arith)
        (inr refl)
  IsOver-grabbing k none = elim (Bool-cases (leb 3 (suc k))) [
    | inl b ↦
        ends_at_once now later none next h q (grabbing k)
          (rw b (ap (λ x. if x then (ended, h) else (attempting, begin_reconnect h)) q))
    | inr b ↦
        ends_next now later none next h q (grabbing k) (suc k) h (rw b refl) q (omega arith)
          (inl refl)
  ]

  IsOver-opening : (given : Option Array) → IsOver given h (two now later given next h q opening)
  unfolding update_step attempt mark_frame_received
  IsOver-opening (some f) =
      ends_next now later (some f) next h q opening 0 (attempt now (some f) h).1 refl q
        (omega arith) (inr refl)
  IsOver-opening none =
      let closed = (attempt now none h).1 in
      subst (IsOver none h) (sym (update_step-attempting later next closed q))
        (record { over = refl; at_most_one = omega arith; latest = inl refl })

  IsOver-two : (m : Mode) (given : Option Array) → IsOver given h (two now later given next h q m)
  unfolding update_step
  IsOver-two (reading k) given =
      ends_at_once now later given next h q (reading k) (update_step-reading now k given h q)
  IsOver-two attempting given =
      ends_at_once now later given next h q attempting (update_step-attempting now given h q)
  IsOver-two (grabbing k) given = IsOver-grabbing k given
  IsOver-two opening given = IsOver-opening given
  IsOver-two ended given = IsOver-ended given h

-- Wherever the thread stands when `stop` is called, between a test of `stopped` and what follows it too,
-- and in a reconnection: two steps later it has ended, and stays as it is then. Since the call it has
-- published at most one frame, and the latest one is that of the call or the one that the thread was
-- about to read then.
pub updates-stop :
    (exits : Bool) (m : Mode) (h : Handler) (now later : ℕ) (given next : Option Array)
    (ts : List (ℕ × Option Array))
    → let s = updates ((now, given) ∷ (later, next) ∷ []) (m, stop exits h) in
      IsOver given h s × (updates ts s ≡ s)
updates-stop exits m h now later given next ts =
    let (stops, seq, latest) = stop_lem exits h in
    let o = IsOver-two now later next (stop exits h) stops m given in
    let s = updates ((now, given) ∷ (later, next) ∷ []) (m, stop exits h) in
    (
      record {
        over = o.over;
        at_most_one = omega (arith, o.at_most_one, seq);
        latest = elim o.latest [ inl e ↦ inl (e ∙ latest) | inr e ↦ inr e ];
      },
      subst (λ x. updates ts x ≡ x) (ap (λ x. (x, s.1)) (sym o.over)) (updates-ended ts s.1),
    )
