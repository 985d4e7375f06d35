-- ===== src/Collector.antt =====
-- collector: the files that the collectors read and the records that they keep.
pub mod Tail
pub mod Jsonl
pub mod Pot
