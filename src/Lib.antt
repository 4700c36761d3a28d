-- ===== src/Lib.antt =====
-- Codenames Duet between two language models: the rules engine, its checks, the play of one game,
-- and the play of a batch of games.
--
-- The program lets two models play Codenames Duet on boards made to measure bias. A game has a
-- board of 25 words, each with a role for either seat; the seats take turns to give a clue and to
-- guess, a reserve of nine tokens bounds the turns, and two sudden-death phases follow when it is
-- spent. The engine holds the rules, an observer checks its state after each dispatch, a conductor
-- plays one turn with what a model answers, a recorder keeps what happened, and a runner drives the
-- game until it is over and stores it. A batch plays 192 games by a schedule: each pairing of four
-- models plays sixteen boards, each with the seats both ways. It counts what becomes of the games,
-- replays those lost to a provider once that answers again, and can be resumed. A client sends what
-- a game asks of a model, and tries again within a budget.
--
-- Files and code (paths from the repository's root):
--   Schemas/Card, Board, State   backend/app/models/game_schemas.py: cards, boards with their two
--                                validators, phases, clues, rankings, the game state
--   Validator                    backend/app/core/clue_validator.py: the visible words
--   Validator/Morphology .. Clues  the same file: the segmentations of MorphoLex, the comparison of
--                                words, and is_valid; Validator/Legal is about valid clues
--   Engine/Monad .. Clues        backend/app/core/engine.py: CodenamesDuetEngine. A method is an action
--                                on the record Engine (the state and the clue validator) that returns a
--                                value or an error; each raise is a constructor of EngineError, and what
--                                was changed before a raise stays changed
--   Invariants/Check, Guard      backend/app/core/invariants.py: check_invariants as the list of its
--                                problems, and InvariantGuard
--   Recorder                     backend/app/db/recorder.py: GameRecorder
--   Game/Table                   what the coroutines share (engine, recorder, guard) and what they raise
--   Game/Service                 backend/app/core/llm_service.py and the formats and proposals of
--                                backend/app/models/llm_schemas.py
--   Game/Conductor               backend/app/core/game_conductor.py
--   Game/Runner                  backend/app/core/game_runner.py: _dispatch_phase, the loop, the flushes
--                                and the result of run_single_game
--   Writer, Writer/Turns, Store  backend/app/db/writer.py: the tables, what a turn adds to them, and
--                                persist_game, delete_error_game and delete_run; the rows are those of
--                                backend/app/db/models.py
--   Writer/Grows .. Undone       what a game adds, and what its deletion leaves
--   Writer/Rows .. Parents       rows and their parents
--   Writer/Table .. Refines      the table of games as a store by id
--   Schedule, with children      backend/app/core/batch_schedule.py: build_schedule, and SeatSpec of
--                                backend/app/core/game_runner.py
--   Game/Views                   backend/app/core/llm_service.py: _clue_giver_board
--   Loader, Loader/Groups        backend/app/core/loader.py: _load_boards
--   Seeds, Seeds/Messages        backend/app/core/game_runner.py: the seeds of a game and its identity
--   Client, with children        backend/app/core/llm/client.py: generate_with_retries, read_answer,
--                                extract_json and error_for_status; backend/app/models/llm_errors.py
--   Batch                        backend/app/core/batch_runner.py: the kinds of errors and the reports
--   Batch/Wait, Loop, Outcome    the wait for a provider, the loop over the schedule, the batch report
--   Batch/Resume                 whether a run can be resumed: the batch, the models, the boards
--   Batch/Games .. Ends          one game, the count of the games, and the end of the loop
--   Batch/Completion             a batch whose games all complete
--   Batch/Totals .. Whole        the games of the pairings are those of the schedule
--   Gate, Gate/Mint              backend/app/core/game_runner.py: served_registry_snapshot and create_run;
--                                backend/app/core/provenance.py: build_model_registry_snapshot
--   Batch/Setup, Bank, Site, Run  run_batch: what stops it, _ingest_bank, the preconditions in their order,
--                                the run that is minted or resumed, the play and the report
--   Batch/DryRun, Assassin       the client of the dry run, and the card it guesses
--   Batch/Run/Starts .. Again    what a batch has met when it starts, its report, and its resumption
--   Shared                       Python's texts and integers, lists, and the names of the library
--   Invariants/Sound .. Start    the invariant IsSound of the engine, call by call, and its relation
--                                to check_invariants and to the validators of a board
--   Play                         any sequence of calls on the engine, and how far it can go
--   Game/Onward .. Results       the same for a whole game between models, and what a run reports
--   Game/Answers                 which answers of a model make a proposal
--   Tests                        a board, runs on it, and the theorems at concrete inputs
--
-- Conventions. A seat is one of two values, since the seats are 0 and 1 throughout; the role seen
-- by seat 0 is llm_perspective_role. A text is a list of code points, and lower and strip know
-- ASCII only, which is what board words and clues are made of. The reserve of tokens and the
-- pending words are integers, as the source can step below zero. A confidence is a dyadic number,
-- as a float is; the seconds of a wait are whole numbers where the source has floats. Cards have
-- ids that may repeat, and are looked up as the source does, the first one first.
--
-- Bounds. The loop of a game runs on the number of dispatches that the cap of 2000 still allows.
-- That is enough by the measure dispatches_left of Play/Left: two dispatches for each token in the
-- reserve and three for the sudden deaths, which is 21 at the start of a game. The retries of a
-- call run on max_retries + 1 rounds, and the wait for a provider on one round more than its
-- seconds, since each sleep takes one at least; the replays of a game are counted down, so nothing
-- else of the loop over a schedule needs fuel.
--
-- Parameters. The validity of a clue is an argument of the engine, which ClueValidator.is_valid
-- of Validator/Clues fills for a dictionary (WordNet, MorphoLex, and which characters are letters
-- or digits), itself an argument. The model behind its client (any answer or error for a state
-- and a seat) and the writer that stores a game (which may fail) are arguments of the definitions
-- that use them, and nothing is assumed of them. Nor is it of the games, the health checks, the
-- sleeps and the deletion of a row that a batch is given (Batch.Loop.Setting), of the database,
-- the migrations and the daemon that its preconditions ask (Batch.Site), the reading of a board
-- file, of the identity of a game and the hash of a seed, or of the JSON decoder and the search
-- for a fenced block in an answer.
--
-- Tables. The writer works on tables that are lists of rows, with one sequence for the ids of
-- all; a transaction that raises leaves them as they were, the primary key of a game refuses a
-- second one, its foreign keys want its board and its run, a deletion takes the rows whose parent
-- is gone (ON DELETE CASCADE), and an item forgets a reveal that is gone (ON DELETE SET NULL).
-- The other constraints of the tables (checks on values, uniqueness of positions) are left out.
-- What the daemon and the configuration say of the models is fixed while a batch is set up
-- (Gate.Serving).
--
-- Not modelled: the prompts and the HTTP clients, the migrations, what the provenance of a run
-- reads from git and the machine, what ingesting a board writes, the analysis of stored games, the
-- board generator, and the command lines. Files are not read: the bank of boards
-- and the segmentations of MorphoLex are arguments. Of the modelled files, the metadata that is
-- only stored (timings, call records, seeds, seat descriptions, a board's grid and audit) and the
-- logging are left out; the observer on_dispatch of a run changes nothing and is left out too.
pub mod Shared
pub mod Schemas
pub mod Validator
pub mod Engine
pub mod Recorder
pub mod Guard
pub mod Game
pub mod Invariants
pub mod Play
pub mod Loader
pub mod Schedule
pub mod Seeds
pub mod Client
pub mod Gate
pub mod Writer
pub mod Batch
mod Tests
