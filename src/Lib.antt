-- ===== src/Lib.antt =====
-- CivSim harness: a program that lets language models play a turn-based game through a console
-- connection to the game client, one observation, one decision and one action at a time, and keeps
-- a complete record of it. All paths below are relative to src/civsim_harness/ of the repository.
--
-- The program's parts and the files that model them:
-- * run/lifecycle.py keeps the lifecycle state of a run: Lifecycle.antt has the table of legal
--   transitions and `transition`, over the run record and validator of models/run.py (Models/Run).
--   Lifecycle/Graph has the documented diagram as an indexed relation.
-- * run/no_progress.py counts the steps of a turn that changed nothing: NoProgress.antt.
-- * run/stop.py decides how a run ends: Stop.antt.
-- * provider/chain.py asks the configured models for one decision, with retries and fallback:
--   Provider/Chain.antt over the data of provider/port.py (Provider/Port).
-- * nexus/codec.py frames the bytes of the game connection: Nexus/Codec.antt.
-- * capability/predicates.py and act/predicates.py are the language in which the catalogs state
--   when an action is available: Predicate/Symbols (the check of symbols), Predicate/Syntax (the
--   allow-list), Predicate/Values and Predicate/Eval (the evaluator) and Predicate/Bindings (what an
--   observation binds).
-- * capability/registry.py and parity/filter.py look declarations up: Act/Registry.
-- * act/dispatch.py, act/camera.py and act/verify.py authorize a requested action and verify what it
--   did: Act/Dispatch, Act/Camera (with the layering of the two in run/decision_loop.py) and
--   Act/Verify.
-- * provider/accounting.py records a completed call: Provider/Accounting.
-- * store/guard.py persists a turn before the game may advance: Store/Guard. store/port.py validates
--   the record of an attempt (Store/Record), and store/completeness.py derives whether the record of a
--   run is complete (Store/Completeness).
-- * resilience/detector.py reports a client that crashed, hangs or does not answer:
--   Resilience/Detector.
-- * resilience/recovery.py brings an interrupted run back to play from the save of its turn, or fails
--   it: Resilience/Recovery, over `transition` and `report_save_missing` of saves/addressing.py.
-- * saves/headroom.py estimates and checks the disk space of a run: Saves/Headroom.
--   saves/addressing.py finds the save point of a turn: Saves/Addressing.
-- * observe/host_gate.py decides by the evidence about a host whether a run may start and whether it
--   may show images: Observe/HostGate, with the tiers of host/detect.py.
-- * observe/assemble.py checks what the capabilities returned against their schemas and assembles an
--   observation: Observe/Schema and Observe/Assemble. observe/screen_identity.py reads which screen is
--   up (Observe/Screen), and observe/capture.py takes the one image of a step (Observe/Capture) over
--   the records of models/turn.py (Models/Turn).
-- * parity/forbidden.py scans a context before it leaves the harness: Parity/Forbidden.
-- * act/prompts.py routes a blocking prompt: Act/Prompts.
-- * agent/context.py writes the request and selects its images, agent/decisions.py reads the answer:
--   Agent/Context and Agent/Decisions, with the decision record of models/decision.py.
-- * run/decision_loop.py runs one attempt at a turn over all of these: Run/LoopState (what it is
--   given, the calls that it makes and its results), Run/FreshRead (`_observe` and the functions
--   around it), Run/Requests and Run/Step (the body of the loop, cut at its calls into `prepare`,
--   `ask`, `carry_out` and `conclude`) and Run/DecisionLoop. Run/Attempt has the abstract attempt; the
--   modules below Run/DecisionLoop prove what every call keeps (Rule), and from it the theorems.
--
-- * run/turn_cycle.py plays one turn: Turn/State (what it is given and what it does), Turn/Quicksave with
--   saves/save_point.py and saves/verify.py, Turn/Detection with the watch of run/detection.py,
--   Turn/Attempts (the loop over the attempts, cut at the outcome of each), Turn/Backstop (the end of
--   the turn by the harness) and Turn/Cycle (the record, the guard and the whole). Turn/Protocol has
--   the abstract turn as a relation on what is done; the modules below it prove that the code keeps to
--   it, and what follows from it.
-- * run/runner.py plays a run from turn to turn: Runner/State (its state and the recorded transitions),
--   Runner/Failures (what an exception does to the run), Runner/Play (the loop), Runner/Commands
--   (the operator's requests) and Runner/Rewind (`resume_from`, over two operations of
--   store/sqlite_adapter.py in Runner/Rewind/Table).
--
-- Conventions. An exception is a constructor of `Error` and a function that may raise returns a
-- `Result` (Errors.antt); messages and detail mappings are left out. Random identifiers are left out
-- or numbered, and a timestamp is an opaque number. A coroutine is the sequence of its awaits.
-- JSON values are Models/Value, with integers only. Optional values are `Option`.
--
-- Parameters. What a provider answers, the clock and the random source are functions of the number
-- of calls made so far (`Chain`), and so is what the monitors of the detector answer. The store's
-- write of a turn, the loader of saves and the host's free bytes are arguments; the writes that a
-- recovery makes succeed. Python's UTF-8 codec is the record `Utf8`, whose one hypothesis is
-- that decoding inverts encoding; Python's expression parser and `getattr` are the record `Python`,
-- with no hypothesis.
--
-- In the decision loop the game, the host, the provider and the clock answer by the whole list of
-- calls made so far, and identifiers of a step are its index. `json.loads`, `json.dumps`, `str`,
-- `str.strip`, `str.upper` and SHA-256 are parameters, with no hypothesis, and so is the fixed text of
-- the agent's role.
--
-- In a turn the game, the files and the store answer by the list of what was done before; each attempt
-- has its own context, built from that list, and the calls of its loop are one entry of the list. The
-- event loop is the parameter of a watch: how many of its passes begin before the attempt is done, and
-- how many calls the loop has made when it is cancelled. A run is driven alone, so the runner's lock is
-- not modelled: its parts that hold it are functions of the state, and the requests of the operator
-- during a turn are a parameter.
--
-- Fuel. The decision loop has no bound of its own while its steps change the state, so its fuel is the
-- number of rounds, and a run that is out of fuel keeps its steps. So it is with the attempts at a turn
-- and the turns of a run, whose loops have no bound either. The loop of `feed` runs on the
-- number of bytes in the buffer plus one: each round takes at least a header from the buffer or ends
-- the loop. The attempt loop of the chain recurses on the rounds left, which Python's `range` gives.
-- All else is structural.
--
-- Not modelled: the host adapters with one attempt at a frame, the socket client, the SQL store
-- but for parts of three of its operations, the loading of catalogs and configuration files, the
-- operator's commands and the web console, which are I/O or presentation; the gates that screen a
-- frame, the preparation of a run, and the removal, loading and branching of saves.
pub mod Prelude
pub mod Errors
pub mod Models
pub mod Lifecycle
pub mod NoProgress
pub mod Stop
pub mod Provider
pub mod Nexus
pub mod Predicate
pub mod Act
pub mod Resilience
pub mod Store
pub mod Saves
pub mod Observe
pub mod Parity
pub mod Agent
pub mod Run
pub mod Turn
pub mod Runner
