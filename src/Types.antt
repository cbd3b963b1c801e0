-- ===== src/Types.antt =====
-- pkg/surql/types: record ids, operators, and the texts of numbers and literals.
pub mod Decimal
pub mod RecordId
pub mod Quoting
pub mod Operators
