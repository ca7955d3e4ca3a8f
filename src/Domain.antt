-- ===== src/Domain.antt =====
-- backend/src/most_sprite/domain/enums.py and errors.py: the enumerations that every component
-- shares, and the error that they raise. An error carries its code, its HTTP status and whether a
-- retry may help; the message and the details are text for the reader and are left out.
pub mod Errors
use most_sprite.Prelude.{ℕ, zero, suc, ◌≡◌, refl, sym, ap, ◌∙◌, Bool, true, false, ◌==◌, ==_iff}

pub data DataMode : Type 0 where
  pol_q pol_u pol_v nonpol : DataMode

unfoldable pub is_polarimetric : DataMode → Bool
is_polarimetric DataMode.nonpol = false
is_polarimetric _ = true

pub data InstrumentState : Type 0 where
  offline initializing standby preparing ready exposing reading : InstrumentState
  calibrating maintenance safe_fault : InstrumentState

pub data SequenceStatus : Type 0 where
  draft validated queued running pausing paused aborting aborted succeeded failed : SequenceStatus

pub data ExposureStatus : Type 0 where
  pending exposing reading committed failed replaced : ExposureStatus

pub data CommandStatus : Type 0 where
  accepted executing succeeded rejected timed_out failed : CommandStatus

pub data ProcessingStatus : Type 0 where
  queued running waiting_calibration blocked succeeded failed : ProcessingStatus

pub data PublicationStatus : Type 0 where
  draft published withdrawn : PublicationStatus

pub data ProductLevel : Type 0 where
  quicklook l0 l1 l2 l3 : ProductLevel

pub data ConfigurationStatus : Type 0 where
  unverified approved retired : ConfigurationStatus

pub data QcFlag : Type 0 where
  pass warning fail simulation_only : QcFlag

pub data AlarmSeverity : Type 0 where
  info warning serious emergency : AlarmSeverity

pub data Role : Type 0 where
  observer instrument_engineer data_reducer administrator : Role

-- The place of each state in the enumeration stands for its string value, to compare by.
rank : InstrumentState → ℕ
rank InstrumentState.offline = 0
rank InstrumentState.initializing = 1
rank InstrumentState.standby = 2
rank InstrumentState.preparing = 3
rank InstrumentState.ready = 4
rank InstrumentState.exposing = 5
rank InstrumentState.reading = 6
rank InstrumentState.calibrating = 7
rank InstrumentState.maintenance = 8
rank InstrumentState.safe_fault = 9

-- `==` of two states.
unfoldable pub same_state : InstrumentState → InstrumentState → Bool
unfolding rank
same_state s t = rank s == rank t

of_rank : ℕ → InstrumentState
of_rank zero = InstrumentState.offline
of_rank (suc zero) = InstrumentState.initializing
of_rank (suc (suc zero)) = InstrumentState.standby
of_rank (suc (suc (suc zero))) = InstrumentState.preparing
of_rank (suc (suc (suc (suc zero)))) = InstrumentState.ready
of_rank (suc (suc (suc (suc (suc zero))))) = InstrumentState.exposing
of_rank (suc (suc (suc (suc (suc (suc zero)))))) = InstrumentState.reading
of_rank (suc (suc (suc (suc (suc (suc (suc zero))))))) = InstrumentState.calibrating
of_rank (suc (suc (suc (suc (suc (suc (suc (suc zero)))))))) = InstrumentState.maintenance
of_rank _ = InstrumentState.safe_fault

of_rank-rank : (s : InstrumentState) → of_rank (rank s) ≡ s
unfolding of_rank rank
of_rank-rank InstrumentState.offline = refl
of_rank-rank _ = refl

pub same_state→eq : (s t : InstrumentState) → same_state s t ≡ true → s ≡ t
unfolding same_state
same_state→eq s t h =
    sym (of_rank-rank s) ∙ ap of_rank ((==_iff (rank s) (rank t)).0 h) ∙ of_rank-rank t

pub same_state_refl : (s : InstrumentState) → same_state s s ≡ true
unfolding same_state
same_state_refl s = (==_iff (rank s) (rank s)).1 refl

-- `EventType`
pub data EventType : Type 0 where
  raw_file_committed sequence_state_changed device_state_changed : EventType
  processing_run_state_changed alarm_raised : EventType
  import_inspection_completed import_completed : EventType
  calibration_run_state_changed calibration_set_state_changed product_publication_changed :
      EventType

pub data ImportStatus : Type 0 where
  pending running succeeded failed : ImportStatus
