-- ===== src/Match/Transcript.antt =====
-- src/arena/match/transcript.py: transcripts of matches, dumped, loaded, validated by replay, and
-- redacted for a viewer.
pub mod Payload
pub mod Dump
pub mod Load
pub mod Validate
pub mod Recorded
pub mod Trip
pub mod RoundTrip
pub mod Views
