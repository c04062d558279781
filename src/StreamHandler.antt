-- ===== src/StreamHandler.antt =====
-- src/infrastructure/video/stream_handler.py: the latest frame of a camera, published by a thread that
-- reconnects, with a number that tells a new frame from one that was seen before.
pub mod Stopped
use lum_model_face_recogniti.Base.{
  ℕ, suc, ◌-◌, ◌&&◌, ◌||◌, not, Bool, true, false, Option, none, some, if◌then◌else◌, leb, ltb,
}
use lum_model_face_recogniti.FrameStore.Slot.{Array}

-- `opened` says whether `cap` is there. Times are milliseconds.
pub record Handler : Type 0 where
  pub is_video : Bool
  pub opened : Bool
  pub connected : Bool
  pub stopped : Bool
  pub reconnecting : Bool
  pub latest_ret : Bool
  pub latest_frame : Option Array
  pub ret : Bool
  pub frame : Option Array
  pub frame_seq : ℕ
  pub last_frame_at : Option ℕ

-- Where the thread of `update` stands: at the head of its loop, behind the tests there, at the head of the
-- loop of `_reconnect`, behind the test there, or at its end.
pub data Mode : Type 0 where
  reading : (consecutive_failures : ℕ) → Mode
  grabbing : (consecutive_failures : ℕ) → Mode
  attempting : Mode
  opening : Mode
  ended : Mode

-- `_mark_frame_received`
unfoldable pub mark_frame_received : ℕ → Handler → Handler
mark_frame_received now h = record h { last_frame_at = some now; reconnecting = false }

abbrev pub unconnected : Bool → Handler
unconnected is_video = record {
  is_video = is_video;
  opened = false;
  connected = false;
  stopped = false;
  reconnecting = false;
  latest_ret = false;
  latest_frame = none;
  ret = false;
  frame = none;
  frame_seq = 0;
  last_frame_at = none;
}

-- `__init__`, with what the first read of the source gave; none where it raises.
unfoldable pub init : Bool → ℕ → Option Array → Option Handler
unfolding mark_frame_received
init is_video now none = if is_video then none else some (unconnected is_video)
init is_video now (some f) = some (
    mark_frame_received now (record (unconnected is_video) {
      opened = true;
      connected = true;
      ret = true;
      frame = some f;
    }))

unfoldable pub publish : ℕ → Array → Handler → Handler
unfolding mark_frame_received
publish now f h =
    let marked = mark_frame_received now h in
    record marked { latest_ret = true; latest_frame = some f; frame_seq = suc h.frame_seq }

-- What `_reconnect` does before its loop.
abbrev pub begin_reconnect : Handler → Handler
begin_reconnect h = record h { connected = false; reconnecting = true; opened = false }

-- One attempt of `_reconnect`, with what the reopened source gives.
unfoldable pub attempt : ℕ → Option Array → Handler → Mode × Handler
unfolding mark_frame_received
attempt now none h = (attempting, record h { opened = false })
attempt now (some f) h = (
  reading 0,
  (let marked = mark_frame_received now h in
      record marked { opened = true; connected = true; latest_ret = true; latest_frame = some f }),
)

abbrev pub after_grab : ℕ → Option Array → ℕ → Handler → Mode × Handler
after_grab now (some f) failures h = (reading 0, publish now f h)
after_grab now none failures h =
    if leb 3 (suc failures)
    then (if h.stopped then (ended, h) else (attempting, begin_reconnect h))
    else (reading (suc failures), h)

-- One step of `update`, or of `_reconnect` within it, at the time `now`: the tests at the head of a loop
-- are one, and what follows them up to the next head is another, so that `stop` may come between
-- them. `given` is the frame that the source gives, if it gives one.
unfoldable pub update_step : ℕ → Option Array → Mode × Handler → Mode × Handler
unfolding publish attempt
update_step now given (ended, h) = (ended, h)
update_step now given (attempting, h) = if h.stopped then (ended, h) else (opening, h)
update_step now given (opening, h) = attempt now given h
update_step now given (reading failures, h) =
    if h.stopped
    then (ended, h)
    else if not h.opened || not h.connected
    then (attempting, begin_reconnect h)
    else (grabbing failures, h)
update_step now given (grabbing failures, h) = after_grab now given failures h

-- `stop`; `exits` says whether the thread ends within the time that it is waited for.
unfoldable pub stop : Bool → Handler → Handler
stop exits h =
    if h.stopped
    then h
    else if exits
    then record h { stopped = true; opened = false; connected = false }
    else record h { stopped = true }

-- `read` of a file, which has no thread; `given` is what the file gives.
abbrev pub read_file : ℕ → Option Array → Handler → (Bool × Option Array) × Handler
read_file now (some f) h = ((true, some f), mark_frame_received now h)
read_file now none h = ((false, none), stop true h)

unfoldable pub read : ℕ → Option Array → Handler → (Bool × Option Array) × Handler
unfolding mark_frame_received stop
read now given h =
    if h.is_video
    then (if not h.opened || not h.connected then ((false, none), h) else read_file now given h)
    else elim h.latest_frame [
      | none ↦ ((h.ret, h.frame), h)
      | some f ↦ ((h.latest_ret, some f), record h { ret = h.latest_ret; frame = some f })
    ]

abbrev pub numbered : Bool → (Bool × Option Array) × Handler → (Bool × (Option Array × ℕ)) × Handler
numbered is_video ((ret, frame), h) =
    if is_video && ret
    then ((ret, (frame, suc h.frame_seq)), record h { frame_seq = suc h.frame_seq })
    else ((ret, (frame, h.frame_seq)), h)

unfoldable pub read_with_seq : ℕ → Option Array → Handler → (Bool × (Option Array × ℕ)) × Handler
unfolding read
read_with_seq now given h = numbered h.is_video (read now given h)

pub data Health : Type 0 where
  stream_stopped streaming connecting no_recent_frames : Health

-- Whether a frame came less than `ms` before `now`, or, for the grace of a reconnection, not more.
abbrev pub is_within : ℕ → ℕ → Option ℕ → Bool
is_within now ms none = false
is_within now ms (some t) = ltb (now - t) ms

abbrev pub reconnect_grace_ms : ℕ
reconnect_grace_ms = 45000

-- `get_health`, its state and error in one.
unfoldable pub get_health : ℕ → ℕ → Handler → Health
get_health now stale_ms h =
    if h.stopped
    then stream_stopped
    else if is_within now stale_ms h.last_frame_at
    then streaming
    else if (h.reconnecting || (not h.connected && not h.is_video))
        && is_within now (suc reconnect_grace_ms) h.last_frame_at
    then connecting
    else no_recent_frames
