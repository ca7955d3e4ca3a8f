-- ===== src/Acquisition/Recovery.antt =====
-- `recover_unregistered_l0` of backend/src/most_sprite/acquisition/service.py: the files under raw/
-- that the database does not know are registered. Whether a file passes `validate_l0` is given with
-- it. A product is known by the raw file it was made of, in place of the digest of its bytes.
pub mod Grows
pub mod Known
use most_sprite.Prelude.{
  ℕ, suc, ◌+◌, ◌==◌, Bool, true, false, not, ◌&&◌, Option, none, some, List, [], ◌∷◌, find_if,
  if◌then◌else◌, min,
}
use most_sprite.Domain.{ExposureStatus}
use most_sprite.Domain.Errors.{Result, ok, ◌>>=◌, ◌>>◌, refuse_if, Code}
use most_sprite.Store.{
  Db, Sequence, Exposure, Command, RawFile, L0Product, OutboxEvent, get_exposure, update_exposure,
  update_sequence, emit,
}
use most_sprite.Acquisition.{restore_command}

-- A file with the fields of its header that are read.
pub record L0Header : Type 0 where
  pub is_valid : Bool
  pub exposure_id : ℕ
  pub raw_file_id : ℕ
  pub command_id : Option ℕ
  pub date_end : ℕ

unfoldable pub find_raw : ℕ → Db → Option RawFile
find_raw id db = find_if (λ r. r.id == id) db.raw_files

is_committed : ExposureStatus → Bool
is_committed ExposureStatus.committed = true
is_committed _ = false

some_row : {A : Type 0} → Option A → Bool
some_row none = false
some_row (some a) = true

add_raw : L0Header → Db → Db
unfolding update_exposure
add_raw f db =
    update_exposure f.exposure_id
      (λ x. record x {
        raw_file_id = some f.raw_file_id;
        status = ExposureStatus.committed;
        committed_at = some f.date_end;
      })
      (record db {
        raw_files = record { id = f.raw_file_id; exposure_id = f.exposure_id } ∷ db.raw_files;
      })

-- `if product is None:`
add_product : L0Header → Exposure → Option L0Product → Db → Db
add_product f e (some product) db = db
add_product f e none db = record db {
  products =
      record { sequence_id = e.sequence_id; exposure_id = e.id; raw_file_id = f.raw_file_id }
      ∷ db.products;
}

-- An exposure that was not committed counts.
count_exposure : Exposure → Db → Db
unfolding is_committed update_sequence
count_exposure e db =
    if is_committed e.status
    then db
    else update_sequence e.sequence_id
        (λ s. record s {
          completed_exposures = min s.expected_exposures (s.completed_exposures + 1);
        })
        db

pub recover_exposure : L0Header → Exposure → Db → Db
unfolding restore_command add_raw add_product count_exposure emit
recover_exposure f e db =
    let restored = restore_command f.command_id e.sequence_id e.id f.date_end db in
    let product = find_if (λ p. p.raw_file_id == f.raw_file_id) restored.products in
    emit (OutboxEvent.raw_file_committed e.sequence_id e.id f.raw_file_id)
      (count_exposure e (add_product f e product (add_raw f restored)))

-- The lines after the tests. An exposure has one raw file.
recover_found : L0Header → Option Exposure → Db → Result (ℕ × Db)
unfolding some_row recover_exposure
recover_found f none db = ok (0, db)
recover_found f (some e) db =
    refuse_if (some_row (find_if (λ r. r.exposure_id == e.id) db.raw_files)) Code.integrity_error
    >> ok (1, recover_exposure f e db)

recover_unknown : L0Header → Option RawFile → Db → Result (ℕ × Db)
unfolding recover_found get_exposure
recover_unknown f (some raw) db = ok (0, db)
recover_unknown f none db = recover_found f (get_exposure f.exposure_id db) db

-- One round of the loop, with what it adds to the count.
pub recover_file : L0Header → Db → Result (ℕ × Db)
unfolding recover_unknown find_raw
recover_file f db =
    if f.is_valid then recover_unknown f (find_raw f.raw_file_id db) db else ok (0, db)

pub recover_unregistered_l0 : List L0Header → Db → Result (ℕ × Db)
unfolding recover_file
recover_unregistered_l0 [] db = ok (0, db)
recover_unregistered_l0 (f ∷ fs) db = recover_file f db >>= λ first.
    recover_unregistered_l0 fs first.1 >>= λ rest. ok (first.0 + rest.0, rest.1)
