-- ===== src/Storage.antt =====
-- bustub-master/src/storage/page/: the pages of the tables.
pub mod TablePage
