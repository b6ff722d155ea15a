-- ===== src/Log.antt =====
-- The logging of mytinyhttpd/base.
pub mod FixedBuffer
pub mod LogStream
pub mod AsyncLogging
pub mod LogFile
