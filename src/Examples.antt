-- ===== src/Examples.antt =====
-- Tests of the model on concrete input, and the theorems at such input.
pub mod Data
mod Fetching
mod Pieces
mod Calls
mod Names
mod Attributes
mod Values
mod Texts
mod Servers
mod Sources
mod Connections
mod Catalogues
mod Queries
mod Dialogs
