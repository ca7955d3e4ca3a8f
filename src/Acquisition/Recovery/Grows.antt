-- ===== src/Acquisition/Recovery/Grows.antt =====
-- What a recovery registers is added: no raw file is lost and no exposure made.
use most_sprite.Prelude.{
  ℕ, ◌==◌, ◌≡◌, refl, true, Bool-cases, inl, inr, Option, none, some, List, [], ◌∷◌, find_if,
  update_if, ==_iff,
}
use most_sprite.Store.{
  Db, Exposure, Command, RawFile, L0Product, get_exposure, update_exposure, update_sequence, emit,
}
use most_sprite.Acquisition.{restore_command, restored, recovered_command}
use most_sprite.Acquisition.Recovery.{
  L0Header, find_raw, add_raw, add_product, count_exposure, is_committed, recover_exposure,
}

-- No raw file is lost and no exposure made.
pub record Grows (db e : Db) : Type 0 where
  pub raw :
      (id : ℕ) (r : RawFile) → find_raw id db ≡ some r → (q : RawFile) × (find_raw id e ≡ some q)
  pub exposure : (id : ℕ) → get_exposure id db ≡ none → get_exposure id e ≡ none

pub Grows-same : (db : Db) → Grows db db
Grows-same db = record { raw = λ id r found. (r, found); exposure = λ id gone. gone }

pub Grows-then : (a b c : Db) → Grows a b → Grows b c → Grows a c
Grows-then a b c first second = record {
  raw = λ id r found. (let (q, there) = first.raw id r found in second.raw id q there);
  exposure = λ id gone. second.exposure id (first.exposure id gone);
}

find_if-update_if-none :
    (id k : ℕ) (f : Exposure → Exposure)
    → ((x : Exposure) → (f x).id ≡ x.id)
    → (es : List Exposure) → find_if (λ x. x.id == id) es ≡ none
    → find_if (λ x. x.id == id) (update_if (λ x. x.id == k) f es) ≡ none
unfolding find_if update_if
find_if-update_if-none id k f same [] gone = refl
find_if-update_if-none id k f same (e ∷ es) gone = elim (Bool-cases (e.id == id)) [
  | inl here ↦ let found = rw here at gone in absurd (cc)
  | inr other ↦
      let later = rw other at gone in
      let rest = find_if-update_if-none id k f same es later in
      elim (Bool-cases (e.id == k)) [
        | inl hit ↦ rw (hit, same e, other) rest
        | inr miss ↦ rw (miss, other) rest
      ]
]

Grows-update_exposure :
    (db : Db) (k : ℕ) (f : Exposure → Exposure)
    → ((x : Exposure) → (f x).id ≡ x.id)
    → Grows db (update_exposure k f db)
unfolding update_exposure find_raw get_exposure
Grows-update_exposure db k f same = record {
  raw = λ id r found. (r, found);
  exposure = λ id gone. find_if-update_if-none id k f same db.exposures gone;
}

-- Columns of other tables.
Grows-rows : (db e : Db) → e.raw_files ≡ db.raw_files → e.exposures ≡ db.exposures → Grows db e
unfolding find_raw get_exposure
Grows-rows db e raws exposures = record {
  raw = λ id r found. (r, rw raws found);
  exposure = λ id gone. rw exposures gone;
}

Grows-restored :
    (id seq exposure ended : ℕ) (o : Option Command) (db : Db)
    → Grows db (restored id seq exposure ended o db)
unfolding restored recovered_command update_exposure
Grows-restored id seq exposure ended (some c) db = Grows-same db
Grows-restored id seq exposure ended none db =
    let added = record db { commands = recovered_command id seq ended ∷ db.commands } in
    let assign : Exposure → Exposure = λ e. record e { command_id = some id } in
    Grows-then db added (update_exposure exposure assign added) (Grows-rows db added refl refl)
      (Grows-update_exposure added exposure assign (λ x. refl))

Grows-restore_command :
    (o : Option ℕ) (seq exposure ended : ℕ) (db : Db)
    → Grows db (restore_command o seq exposure ended db)
unfolding restore_command
Grows-restore_command none seq exposure ended db = Grows-same db
Grows-restore_command (some id) seq exposure ended db =
    Grows-restored id seq exposure ended (find_if (λ c. c.id == id) db.commands) db

Grows-add_product :
    (f : L0Header) (e : Exposure) (o : Option L0Product) (db : Db) → Grows db (add_product f e o db)
unfolding add_product
Grows-add_product f e (some p) db = Grows-same db
Grows-add_product f e none db = Grows-rows db _ refl refl

Grows-count_exposure : (e : Exposure) (db : Db) → Grows db (count_exposure e db)
unfolding count_exposure update_sequence
Grows-count_exposure e db = elim (Bool-cases (is_committed e.status)) [
  | inl committed ↦ rw committed (Grows-same db)
  | inr fresh ↦ rw fresh (Grows-rows db _ refl refl)
]

Grows-add_raw :
    (f : L0Header) (db : Db)
    → Grows db (add_raw f db) × ((r : RawFile) × (find_raw f.raw_file_id (add_raw f db) ≡ some r))
unfolding add_raw update_exposure find_raw get_exposure find_if
Grows-add_raw f db =
    let row : RawFile = record { id = f.raw_file_id; exposure_id = f.exposure_id } in
    let hit : (f.raw_file_id == f.raw_file_id) ≡ true =
      (==_iff f.raw_file_id f.raw_file_id).1 refl in
    (
      record {
        raw = λ id r found. elim (Bool-cases (f.raw_file_id == id)) [
          | inl here ↦ (row, rw here refl)
          | inr other ↦ (r, rw other found)
        ];
        exposure =
            λ id gone. find_if-update_if-none id f.exposure_id _ (λ x. refl) db.exposures gone;
      },
      (row, rw hit refl),
    )

-- The file of a recovered exposure is known.
pub recover_exposure-Grows :
    (f : L0Header) (e : Exposure) (db : Db)
    → Grows db (recover_exposure f e db)
      × ((r : RawFile) × (find_raw f.raw_file_id (recover_exposure f e db) ≡ some r))
unfolding recover_exposure emit
recover_exposure-Grows f e db =
    let a = restore_command f.command_id e.sequence_id e.id f.date_end db in
    let product = find_if (λ p. p.raw_file_id == f.raw_file_id) a.products in
    let b = add_raw f a in
    let c = add_product f e product b in
    let d = count_exposure e c in
    let (more, (r, there)) = Grows-add_raw f a in
    let last =
      Grows-then c d (recover_exposure f e db) (Grows-count_exposure e c)
        (Grows-rows d _ refl refl) in
    let rest = Grows-then b c (recover_exposure f e db) (Grows-add_product f e product b) last in
    (
      Grows-then db a _ (Grows-restore_command f.command_id e.sequence_id e.id f.date_end db)
          (Grows-then a b _ more rest),
      rest.raw f.raw_file_id r there,
    )
