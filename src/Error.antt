-- ===== src/Error.antt =====
-- include/binary_reader/error.h and src/public/error.cc: the kinds and levels of errors, the debug
-- information, and `ErrorInfo` with its constructors. The message table is in `Message`, the
-- printing in `Print`, the collection of errors in `Collection`.
pub mod Defs
pub mod Message
pub mod Print
pub mod Collection
pub mod Laws
