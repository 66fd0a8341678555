-- ===== src/Escpos.antt =====
-- backend/app/services/escpos_builder.py: the bytes of a receipt. The codecs of Python are the
-- parameter `encode`: a codepage and a text, with unknown characters replaced.
mod Bytes
mod Builder
pub mod Layout
mod Tests
unfoldable pub use Bytes.*
unfoldable pub use Builder.*
