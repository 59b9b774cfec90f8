-- ===== src/Ext2.antt =====
-- kernel/drivers/ext2.cpp and kernel/include/drivers/ext2.h: the file system on a storage device.
-- The device (kernel/include/kernel/storage.h) is an interface whose laws are in Ext2/Storage. A
-- buffer is a function of the index. The static block buffer is filled over a whole block before each
-- of its uses, so it is a local value here. `none` is a failed ASSERT or an access outside an array.
pub mod Storage
pub mod Bytes
pub mod Volume
pub mod Block
pub mod Super
pub mod Group
pub mod File
pub mod Layout
pub mod Objects
pub mod Made
pub mod Mounted
pub mod Slots
pub mod Filed
pub mod Available
pub mod Places
pub mod Created
pub mod First
