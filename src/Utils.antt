-- ===== src/Utils.antt =====
-- Dates and time zones of mytinyhttpd/utils.
pub mod Date
pub mod TimeZone
pub mod Transitions
pub mod ZoneFile
