-- ===== src/Register.antt =====
-- src/register.rs.
pub mod Watch
pub mod Dr7
pub mod Wcr
pub mod Intel
pub mod Float
pub mod Arm
pub mod Extended
pub mod Display
