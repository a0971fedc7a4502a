-- ===== src/Tests.antt =====
-- Runs of the model on concrete inputs, and each theorem at an input that meets its hypotheses.
mod Storage
mod Pages
mod Rows
mod Language
mod Tables
mod Trees
mod Definitions
mod Splits
