-- ===== src/Codec.antt =====
-- internal/codec: the three encoders of values, with the parts of encoding/csv, encoding/json and fmt
-- that they call, over code points.
pub mod Format
pub mod Csv
pub mod Json
pub mod Encoders
