-- ===== src/Rest.antt =====
-- The plain HTTP services (src/impls/rest): uploads, downloads and the description of the server.
pub mod Files
pub mod Services
pub mod Layout
pub mod RoundTrip
pub mod Streaming
pub mod CutOff
pub mod Served
