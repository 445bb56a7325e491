-- ===== src/Examples.antt =====
-- Runs of the code at concrete inputs.
mod Strings
mod Arrays
mod Tables
mod Calls
mod Objects
mod Texts
mod Containers
mod Machine
mod Startup
mod Blocks
mod Sinks
mod Graphs
mod Tenths
