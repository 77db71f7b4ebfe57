-- ===== src/Examples.antt =====
-- Concrete inputs on which the theorems about the code are applied, and runs of the code on them.
pub mod Lists
pub mod Arrays
pub mod Numbers
pub mod Machines
pub mod Names
pub mod Files
pub mod Generated
