-- ===== src/Clients.antt =====
-- The programs that use the two devices: producer.c and consumer.c of rmiller-pa5/src, and
-- pa4/src/scull.c.
pub mod Arguments
pub mod Fifo
pub mod Merge
pub mod Quantum
mod Tests
