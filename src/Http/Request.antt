-- ===== src/Http/Request.antt =====
-- Requests as data, what the binding reports of one, and the proof that the parser of
-- http11_parser.c with the callbacks of http11neko.c reports it.
pub mod Bytes
pub mod Data
pub mod Step
pub mod Field
pub mod Words
pub mod Line
pub mod Phases
pub mod Headers
pub mod Parse
