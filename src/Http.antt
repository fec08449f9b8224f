-- ===== src/Http.antt =====
-- pset4/http_server.hh and http_server.cc: the HTTP front end of the editor.
pub mod Text
pub mod Json
pub mod Registry
pub mod Request
pub mod Frames
pub mod Cache
pub mod Submit
pub mod Handlers
pub mod Stream
pub mod Server
