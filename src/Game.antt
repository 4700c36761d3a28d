-- ===== src/Game.antt =====
-- One game between two models: backend/app/core/game_conductor.py and game_runner.py.
pub mod Table
pub mod Service
pub mod Conductor
pub mod Runner
pub mod Onward
pub mod Asks
pub mod Watch
pub mod Words
pub mod Below
pub mod Dispatch
pub mod Runs
pub mod Yields
pub mod Results
pub mod Answers
pub mod Views
