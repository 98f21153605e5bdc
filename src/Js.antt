-- ===== src/Js.antt =====
-- The JavaScript values that the client handles: text as UTF-16 code units, cells, and the
-- operations on numbers that the language supplies. Floating-point numbers are a parameter: a
-- type `N` with the operations of `JsNumber`.
pub mod Json
pub mod Text
pub mod TextSet
pub mod Bytes
pub mod Dict
pub mod Value
pub mod Order
pub mod Sorting
pub mod Blocks
pub mod Strings
pub mod Regex
pub mod Utf8
pub mod Windows
