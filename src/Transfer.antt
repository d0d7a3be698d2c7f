-- ===== src/Transfer.antt =====
-- internal/transfer/transfer.go: manifests and the bitmap of chunks, and the replay guard of
-- internal/auth/auth.go. BLAKE3 is a parameter: what it makes of the bytes written to a hasher.
pub mod Manifest
pub mod Chunks
pub mod Bitmap
pub mod Replay
mod Tests
