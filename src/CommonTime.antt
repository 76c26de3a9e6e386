-- ===== src/CommonTime.antt =====
-- libs/common_time: the common time service.
pub mod Bytes
pub mod Packets
pub mod ClockOps
pub mod RttLog
pub mod Timeout
pub mod Server
pub mod Tests
