-- ===== src/Dump.antt =====
-- The packet dumpers: main_dump.c and its relatives. One thread reads packets into buffers and
-- queues them on a ring, the other takes them off and writes them to rotating capture files.
pub mod Types
pub mod Consumer
pub mod Producer
pub mod System
pub mod Startup
mod Tests
