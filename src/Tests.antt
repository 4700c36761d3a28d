-- ===== src/Tests.antt =====
-- The theorems at concrete inputs, and runs of the code.
mod Boards
mod Games
mod Runs
mod Schedules
mod Seeds
mod Views
mod Starts
mod Stores
mod Calls
mod Batches
mod Clues
