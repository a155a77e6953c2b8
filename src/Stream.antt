-- ===== src/Stream.antt =====
-- What the two parsers of src/stream/sse_handler.cpp and src/adapter/anthropic_adapter.cpp share:
-- the loop that cuts a byte stream at blank lines, and the description of its cuts.
pub mod Blocks
pub mod Drain
