-- ===== src/Python.antt =====
-- What the scripts use of Python's own types and of its standard library.
pub mod Text
pub mod Bytes
pub mod Struct
pub mod Crc32
pub mod Utf16
pub mod Utf8
pub mod Dict
pub mod Path
pub mod Streams
pub mod Hash
pub mod Files
pub mod Json
