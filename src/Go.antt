-- ===== src/Go.antt =====
-- The functions of Go's strings, strconv, net and os packages that the program calls.
pub mod Fields
pub mod Decimal
pub mod Address
pub mod Files
