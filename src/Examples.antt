-- ===== src/Examples.antt =====
-- The theorems at concrete graphs, tables and texts.
mod Graphs
mod Submits
mod Runs
mod Tables
mod Retries
mod Workers
mod Texts
mod Uploads
