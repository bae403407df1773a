-- ===== src/EncodingCheck.antt =====
-- scripts/encoding_check.py: the diff of rtl/pkg/riscv_pkg.sv against tools/refmodel/encoding.py.
pub mod Literal
pub mod Package
pub mod Compare
pub mod Dicts
pub mod Prefixes
pub mod Unique
pub mod Agree
