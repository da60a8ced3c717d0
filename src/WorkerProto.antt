-- ===== src/WorkerProto.antt =====
-- The protocol between the worker and the process that runs it (internal/workerproto).
pub mod Communicator
pub mod Handshake
pub mod Termination
pub mod Logger
pub mod Parser
pub mod Stream
mod Examples
