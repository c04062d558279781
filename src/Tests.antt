-- ===== src/Tests.antt =====
-- Runs of the model on concrete inputs, and the instances of the theorems.
mod Ownership
mod Payloads
mod Frames
mod Cameras
mod Reports
mod Batches
mod Streams
mod Attendances
mod Commands
mod Pump
mod Tracks
mod Detection
mod Actions
mod Faces
mod Names
mod Vision
mod Engines
mod Crops
mod Reloads
