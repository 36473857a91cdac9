-- ===== src/Tests.antt =====
-- Inputs at which the theorems apply, and runs of the model.
mod Samples
mod Searching
mod Lists
mod Formats
mod Blocks
mod Views
mod Reorgs
mod Limits
mod Storing
mod Indexing
mod Decoding
