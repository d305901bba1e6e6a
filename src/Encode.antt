-- ===== src/Encode.antt =====
-- deployables/backend/internal/encode: the backends behind the encoder. The checks on texts stand with
-- the handlers, in Http/Infer.
pub mod Batch
pub mod Layout
pub mod Onnx
pub mod Infer
pub mod Answers
pub mod Embedded
pub mod Open
pub mod Stub
