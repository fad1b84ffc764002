-- ===== src/Darkreel.antt =====
-- The Darkreel client: the codec strings of src/darkreel/mp4-codecs.ts.
pub mod Mp4
pub mod Codecs
