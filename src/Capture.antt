-- ===== src/Capture.antt =====
-- host/src/zwoproxy/capture.py: the analyzer's byte stream, its decoder and the pcap file.
pub mod Stream
pub mod Pcap
pub mod Session
pub mod Command
mod Tests
