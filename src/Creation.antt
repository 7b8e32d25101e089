-- ===== src/Creation.antt =====
-- Making a dictionary: src/skk/yaskkserv2_make_dictionary/dictionary_creator.rs.
pub mod Layout
pub mod Blocks
pub mod Written
pub mod IndexData
pub mod Groups
pub mod Pushed
pub mod Keys
mod Tests
