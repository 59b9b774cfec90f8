-- ===== src/Kmm.antt =====
-- kernel/kernel/kmm.cpp and kernel/include/kernel/kmm.h: the kernel's malloc and free. Fast chunks
-- come from a bin of fixed slots (Kmm/Fast), larger ones from a linked list of headers (Kmm/Big).
pub mod Fast
pub mod Big
pub mod Dispatch
