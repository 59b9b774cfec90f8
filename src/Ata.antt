-- ===== src/Ata.antt =====
-- kernel/drivers/ata.cpp and kernel/include/drivers/ata.h: the driver of the hard disk. The ports are
-- an interface (Ata/Drive) that the operations of the driver are written over. A loop that polls the
-- status runs on fuel, and `none` is a loop whose fuel is used up or an access outside a buffer.
pub mod Drive
pub mod Ports
pub mod Sector
pub mod Identify
pub mod Polls
pub mod Transfer
pub mod Spans
pub mod Absent
