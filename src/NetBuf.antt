-- ===== src/NetBuf.antt =====
-- src/common/net_buf.c: the buffers that every layer passes packets in.
pub mod Simple
pub mod Codec
