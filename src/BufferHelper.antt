-- ===== src/BufferHelper.antt =====
-- src/common/buffer/buffer_helper.cpp: numbers and strings in a buffer.
pub mod Varint
pub mod Fixed
