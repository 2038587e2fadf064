-- ===== src/Python.antt =====
-- The parts of Python and of its standard library that the plugin's code runs on.
pub mod Text
pub mod Equality
pub mod Json
pub mod Set
pub mod Range
pub mod Dict
