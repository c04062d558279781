-- ===== src/CameraEngine.antt =====
-- src/pipeline/camera_engine.py: what one camera keeps of its tracks, and how a frame changes it. The
-- trackers and managers of the package lum_vision are parameters.
pub mod Images
pub mod Choice
pub mod Parts
pub mod Recognition
pub mod Vote
pub mod Finalize
pub mod Gone
pub mod Tracks
pub mod Sound
pub mod Steps
pub mod Searches
pub mod Kept
pub mod Voted
pub mod Written
pub mod Settled
pub mod Unique
pub mod Reported
pub mod Largest
pub mod Signals
pub mod Sorting
pub mod Bounded
