-- ===== src/Schemas.antt =====
-- The game's data: backend/app/models/game_schemas.py.
pub mod Card
pub mod Board
pub mod State
