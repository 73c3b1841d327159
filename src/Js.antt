-- ===== src/Js.antt =====
-- What the sources use of JavaScript: exceptions, and typed arrays of bytes.
pub mod Exn
pub mod Bytes
