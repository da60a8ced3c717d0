-- ===== src/PubSub.antt =====
-- The subscribable log buffers of internal/pubsubbuffer: the buffer itself, its subscribers as
-- interleaved sessions, its HTTP handler, and the server that holds many buffers by id.
pub mod Buffer
pub mod Session
pub mod Contents
pub mod Server
mod Examples
pub mod Http
