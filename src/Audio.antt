-- ===== src/Audio.antt =====
-- crates/incomudon-audio/src/lib.rs: PCM frames, the bounded queues, and the capture assembler.
pub mod Pcm
pub mod PcmRoundTrip
pub mod Windows
pub mod Queue
pub mod QueueBounds
pub mod Playback
pub mod PlaybackBounds
pub mod Capture
pub mod CaptureRate
pub mod CaptureStreams
pub mod CaptureFrames
pub mod Samples
mod Tests
