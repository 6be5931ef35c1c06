-- ===== src/Python.antt =====
-- Python's objects as far as the program meets them.
pub mod Result
pub mod Float
pub mod Value
pub mod Text
