-- ===== src/Hslib.antt =====
-- The C part of the runtime under src/hslib: FUSE's threads hand their requests to the threads of
-- the file system through a queue.
pub mod Opfuse
pub mod Opqueue
