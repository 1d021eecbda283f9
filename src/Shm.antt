-- ===== src/Shm.antt =====
-- utils.c and utils.h: the shared memory that the parts of the program give out and attach to.
pub mod Mapping
pub mod Life
