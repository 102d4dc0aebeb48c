-- ===== src/Bytes.antt =====
-- Byte buffers as lists of numbers: what the sources use of `encoding/binary`, of slices and of
-- `copy`. The capacity of a buffer is taken to be its length.
mod Words
mod Buffers
unfoldable pub use Words.*
unfoldable pub use Buffers.*
