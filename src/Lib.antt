-- ===== src/Lib.antt =====
-- The core of MOST-SPRITE, the control and archive software of a spectropolarimeter: how it takes a
-- sequence of exposures, and what it lets be published.
--
-- A client asks for actions on a sequence (backend/src/most_sprite/api/routes.py). One control
-- process, which holds a lease (control/lease.py), takes the oldest queued sequence and runs it
-- (control/runner.py): it moves the instrument through its states (control/state_machine.py), sends
-- commands under a fencing token to the device agent (devices/simulator.py), and commits each frame
-- as an L0 file (acquisition/service.py). All of them share the authority database (db/models.py)
-- and its outbox of events (events/outbox.py). Products are published through a gate of the API,
-- which wants an approved calibration set (calibration/espadons.py); calibrations are chosen by
-- calibration/matcher.py, and the runs that make the products are kept by products/processing.py. A
-- scheduler (scheduler/service.py) reads the outbox and starts that work. Files of another
-- instrument, ESPaDOnS, come in by an inspection of a directory and an import (imports/service.py),
-- which asks the adapter
-- of the instrument (pipeline/instruments) to describe and to group them.
--
-- The files, each under backend/src/most_sprite:
--   Domain, Domain/Errors: domain/enums.py and errors.py.
--   Store: the tables of db/models.py as lists of rows, newest first, with the writes to one row by
--     its key; the payloads of the outbox events; the values of the settings that are read.
--   Devices/Contracts, Devices/Simulator: the messages of devices/contracts.py and the simulator:
--     execute, its guards and handlers, state and inject_fault. Simulator/Fencing follows it through
--     any sequence of commands and faults.
--   Api/Sequences: sequence_action and recover_instrument; Sequences/Retry has a
--     request that comes again; Sequences/Create: create_sequence, with
--     Control/Validation for control/validation.py; Sequences/Recover: instrument_recover.
--   Api/Archive, Api/Publication: the tables of products and calibrations; product_action,
--     approve_calibration_set, the records of api/idempotency.py and require_roles of
--     auth/dependencies.py. Publication/Later has a request that comes again.
--   Calibration/Matcher: match_calibration.
--   Processing, Processing/Claims: ensure_processing_run and the claim of process_run
--     (products/processing.py).
--   Scheduler: OutboxScheduler.run_once (scheduler/service.py) and emit_event, over an interface of
--     handlers; Scheduler/Runs fills the one that queues a run with ensure_processing_run. Turns has
--     the rounds of run_forever among other transactions; Waiting counts the events ahead of one, and
--     Grows shows that handlers only add to the outbox, on which Liveness and Refine stand.
--   Acquisition: commit_l0 and the guards of write_l0_atomic (acquisition/fits_contract.py);
--     Acquisition/Recovery: recover_unregistered_l0.
--   Instruments, Instruments/Espadons, Instruments/Grouping: pipeline/instruments/base.py and
--     espadons.py, as far as an inspection uses them: _role, _detector, inspect and group_science.
--     Grouping/Partition, Order and Groups are about the groups.
--   Imports: imports/service.py. Names: the part of pathlib that it uses; Paths: _resolve_source and
--     _candidate_files over a file system that is a parameter; Artifact: resolve_inspection_artifact;
--     Scan: _scan; Inspection: inspect_import_directory; Copy: _copy_verified and the loops that copy;
--     Register: the rows that an import adds; Commit: commit_import. State has the tables and the
--     actions as state passing, State/Respects the rules for relations along them.
--   Control/StateMachine, Control/Lease: the two small modules; StateMachine/Reach gives the pairs of
--     the table as a step relation.
--   Control/World: what the control process acts on (database, device, disk, clock), and its actions
--     as state passing with exceptions. session is session_scope of db/session.py: an atomic
--     transaction, rolled back by an exception; what the device and the disk have done stays. What
--     others do (requests, recoveries, faults, restarts of the device agent, the loss of the connection
--     to it, time) happens between two transactions and is given by a schedule, over which the theorems
--     are quantified. A command that finds no device agent raises, and so does a reading of its state,
--     also on 29 February when the state is stale.
--     World/Relates has the rules for relations between the database before and after an action,
--     World/Others the part of them that is about others.
--   Control/Runner: the methods of ControlRunner. Commands: _execute_command and
--     _complete_action_command; Transitions: _transition, _prepare_instrument, _mark_paused and
--     _mark_aborted; Exposures: _take_exposure and _wait_exposure; Sequences: _run_sequence and
--     _fail_sequence; Poll: run_once and _refresh_idle_snapshot. Runner/History is the interface
--     between this code and the relations that its histories follow, one field for each kind of write;
--     the Leads modules show that every method stays within it, and Requests and Trail fill it.
--
-- Numbers: identifiers, keys and texts that are only compared are native numbers; times are in
-- milliseconds; angles are integers in units of 1/10000 degree, which hold every angle of
-- configs/modulation/most-v1.yaml and the jitter of the simulator exactly. The code uses
-- floating-point degrees and seconds; rounding is not modelled.
--
-- Loops: those over repeats and sub-exposures count down the rounds that are left. The wait loop runs
-- on fuel, of which the duration in milliseconds is enough, because every round sleeps at least one
-- millisecond.
--
-- Parameters of the model: the file system, the headers that astropy reads, SHA-256, and the making
-- of an L0 file from the bytes of a raw file, in the imports; the handlers, the runs and the broker
-- that the scheduler calls; the digest of a command id (a seed of the simulator), the digest of a
-- publication request, the hashes of a processing run's inputs, the table of angles and the limits
-- of the settings.
--
-- Not modelled: images and FITS files, the numerical pipeline, the times of imported exposures, the
-- work and the end of processing runs, the transport to the device agent (also an answer of it that
-- is lost after it has acted), accounts and identity, audit records, texts of messages, and checksums.
-- Code.storage_unavailable stands for the codes STORAGE_FULL and STORAGE_LOW_WATERMARK.
pub mod Prelude
pub mod Domain
pub mod Devices
pub mod Store
pub mod Api
pub mod Acquisition
pub mod Calibration
pub mod Processing
pub mod Scheduler
pub mod Instruments
pub mod Imports
pub mod Control
