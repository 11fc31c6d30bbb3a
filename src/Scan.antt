-- ===== src/Scan.antt =====
-- internal/scan: which entity types a request asks for, and the tests on a regular expression's match.
pub mod Filters
pub mod Validators
pub mod Luhn
pub mod Address
pub mod Dictionaries
pub mod Tokens
pub mod Ner
pub mod Layout
pub mod Extents
pub mod Detector
pub mod Sound
