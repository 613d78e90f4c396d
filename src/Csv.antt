-- ===== src/Csv.antt =====
-- The CSV half of src/FormatConverter.cpp: rows written as text, and text read back as rows.
pub mod Types
pub mod Write
pub mod Line
pub mod Read
pub mod Fields
pub mod Ends
pub mod Documents
mod Tests
