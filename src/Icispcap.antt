-- ===== src/Icispcap.antt =====
-- The program of main.cc: PacketReader reads packets into the queue, PacketWriter writes them to
-- pcap files through a chunk of memory. The queue between them is a library of its own, so what it
-- delivers is an input.
pub mod Reader
pub mod Writer
pub mod Chunk
pub mod Runs
pub mod Readback
pub mod Startup
pub mod Command
pub mod System
pub mod Handover
mod Tests
