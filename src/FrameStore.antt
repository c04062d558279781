-- ===== src/FrameStore.antt =====
-- src/workers/frame_store.py: frames that cross the broker as handles, with the pixels in rings of
-- shared-memory segments.
pub mod Memory
pub mod Slot
pub mod Reader
pub mod Segments
pub mod Fresh
pub mod Lifetime
pub mod Recycled
pub mod Provenance
pub mod RingSize
pub mod Roi
