-- ===== src/Lib.antt =====
-- A model of the parts of a face recognition and person tracking service that decide who owns what,
-- and that move frames between processes.
--
-- Cameras are read by decode workers and tracked by camera workers. Who works on which camera is
-- settled by leases in Redis (src/pipeline/camera_lease.py), and who classifies which person by keys
-- that expire (src/workers/identity_throttle.py). Frames go from the process that decodes to those
-- that detect and track through shared memory, and only handles cross the broker
-- (src/workers/frame_store.py).
--
-- Exec: methods that mutate an object and may raise, with a program logic for them.
-- Redis: the server, a parameter with the documented laws of its commands; World is the server as
--   one client sees it, with the fate of each call: answered, lost, or carried out and not answered.
--   Redis/Memory is an instance.
-- Lease: CameraLeaseManager. Methods keep their names, `_client` and the like without the underscore.
--   Lease/Calls has a rule for each method, Lease/Exclusive what rivals can do, Lease/Outcomes what an
--   answer means, Lease/Fleet the theorems for a fleet.
-- Throttle: RedisIdentityThrottle, over the same server.
-- FrameStore: CameraFrameSlot and RawFrameSlot (FrameStore/Slot), the readers (FrameStore/Reader),
--   /dev/shm with its names, blocks and mappings (FrameStore/Memory), and the sizes of the rings.
--   FrameStore/Roi is RoiBatchSlot and attach_and_read_roi_batch, the batches of crops.
--   A write is three steps: prepare, copy, stamp; a read takes the memory as it is when the header is
--   checked, when the pixels are copied and when the header is checked again.
-- CameraWorker: src/camera_boot.py. One replica makes whole passes, over interfaces to the lease
--   manager and to Celery's consumers (CameraWorker/Pass: reconcile and renew_once).
-- DecodeWorker: src/decode_main.py, the reconcile and the renewal pass of a decode worker, over
--   interfaces to the lease manager and to the streams.
-- Attendance: src/infrastructure/attendance_state.py, the reports of people seen, over an interface to
--   cloud storage, Celery and the clock.
-- AsyncLogger: src/infrastructure/async_write_queue.py, the queues in front of Attendance, storage and
--   the event stream; the test of a worker and what follows it are steps of their own, for a stop in
--   between.
-- Records: record_attendance of src/infrastructure/storage/detection_repository.py, the guard that
--   keeps only transitions between IN and OUT. Each SQL statement is a step (record_step), and calls
--   in many transactions take turns over one database, a parameter with the laws of its row locks
--   (Records); Records/Server is an instance.
-- StreamConsumer: src/messaging/stream_consumer.py, over interfaces to Redis, Celery and the camera
--   handler, each of which may raise. StreamConsumer/Commands is the specification.
-- StreamHandler: src/infrastructure/video/stream_handler.py. The tests at the head of the loops of
--   update and _reconnect, and what follows them, are steps (update_step), given what the capture gives;
--   stop and the readers take turns with them.
-- FramePump: src/pipeline/frame_pump.py, over the stream handler and the frame store. FramePump/Rate
--   counts what is announced, FramePump/Delivery follows a frame to its reader.
-- GlobalTrack: src/workers/global_track_client.py, over interfaces to Celery and to the crops' slots.
--   GlobalTrack/Json is _json_safe. GlobalTrack/Adapter is src/workers/global_track_adapter.py: the frame path and the thread that
--   waits for the answers take turns between the sections that the lock guards.
-- YoloTasks: src/workers/yolo_tasks.py, the batches of frames between the frame pumps and the camera
--   workers. YoloTasks/Handling specifies what becomes of each request.
-- ActionWorker: src/pipeline/action_worker.py, and the gate in front of it in
--   src/pipeline/camera_engine.py (check_and_queue). The camera threads and the workers take turns.
-- FaceTasks: src/workers/face_tasks.py and src/workers/face_client.py, the faces in a batch of crops.
--   FaceTasks/Aligned is about the places of the results, FaceTasks/Routing about the whole way from
--   the crops that are written to the tracks' results. What is read off an embedded face (lines 241-268
--   of face_tasks.py) is a parameter, `describe`, which may raise.
-- NameMap: the map from names to user ids in src/workers/camera_tasks.py (on_embedding_reload), which
--   is read while it is reloaded.
-- CameraEngine: src/pipeline/camera_engine.py. Images has boxes and crop histories, Choice the crops
--   that stand for a track (_get_best_person_image, _pick_best_signals), Parts the objects of
--   lum_vision as parameters and _merge_tracks, Recognition _compute_recognition_result, and Vote,
--   Finalize, Gone and Tracks finalize_identities, which passes its sightings on to ActionWorker and
--   to GlobalTrack. Sound states what a call keeps and what it relies on in lum_vision, Reported what
--   an event stands for. Scores and similarities are in thousandths, not negative but for similarities.
-- PipelineEngine: reload_camera_configs of src/pipeline/engine.py, with the publish of
--   src/messaging/redis_client.py. Ids, Settings and Shown are about the cameras after a reload.
--
-- Times are whole milliseconds, lifetimes of keys whole seconds. Sequence numbers and instance ids are
-- unbounded numbers: 2^63 writes are out of reach, and ids are only compared. Pixels are lists of
-- numbers. There is no recursion on fuel.
--
-- Not modelled: machine learning, drawing, HTTP and cloud storage, which the sources only call; SQL but
-- for the statements of the attendance guard; Celery's delivery; the logging. Nor are, so far, the
-- lifecycle of the engine of src/pipeline, update_tracking and emit_positions of its camera engine, the
-- publishers of src/messaging, the inference workers but for persons and faces, the tasks of the global
-- tracking, the calibration, the configuration and the metrics. A process has one slot of one ring here:
-- the theorems that need this say so (Behind in FrameStore/Fresh, Allowed in FrameStore/Provenance).
pub mod Base
pub mod Exec
pub mod Redis
pub mod Lease
pub mod Throttle
pub mod FrameStore
pub mod CameraEngine
pub mod CameraWorker
pub mod DecodeWorker
pub mod Attendance
pub mod StreamConsumer
pub mod StreamHandler
pub mod FramePump
pub mod GlobalTrack
pub mod YoloTasks
pub mod ActionWorker
pub mod FaceTasks
pub mod NameMap
pub mod PipelineEngine
pub mod Records
pub mod AsyncLogger
pub mod Tests
