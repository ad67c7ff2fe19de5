-- ===== src/Renderutil.antt =====
-- renderutil: the formats of pictures, streams of glyphs, and the replies kept for each connection.
pub mod Formats
pub mod Glyphs
pub mod Cache
