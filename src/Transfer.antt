-- ===== src/Transfer.antt =====
-- The two programs together, over a connection that keeps the order of the bytes.
pub mod Streams
pub mod Download
pub mod Upload
pub mod Serving
pub mod Tests
