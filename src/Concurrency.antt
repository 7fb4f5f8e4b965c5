-- ===== src/Concurrency.antt =====
-- Transactions: the timestamps that are being read.
pub mod Watermark
