-- ===== src/Examples.antt =====
-- Concrete inputs for the theorems, and the theorems at them.
pub mod Data
pub mod Books
pub mod Mirror
pub mod Trading
pub mod Tables
pub mod Sending
pub mod Board
pub mod Claims
pub mod Feeding
pub mod Racing
