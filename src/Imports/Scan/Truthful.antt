-- ===== src/Imports/Scan/Truthful.antt =====
-- The result of an inspection describes the files that it found.
use Prim.Native.String.{String}
use most_sprite.Prelude.{ℕ, if◌then◌else◌, List, [], ◌∷◌, length, true, ◌≡◌}
use most_sprite.Domain.Errors.{Result}
use most_sprite.Instruments.{InstrumentAdapter}
use most_sprite.Instruments.Espadons.{Header, espadons}
use most_sprite.Instruments.Grouping.{is_science}
use most_sprite.Imports.Names.{FilePath, join, name, is_fits}
use most_sprite.Imports.Paths.{FileSystem}
use most_sprite.Imports.Paths.Within.{IsBelow}
use most_sprite.Imports.Scan.{InventoryRecord}

-- The paths of the science frames in an inventory.
unfoldable pub science_paths : List InventoryRecord → List String
science_paths [] = []
science_paths (item ∷ items) =
    let rest = science_paths items in
    if is_science item.role then item.relative_path ∷ rest else rest

module _ (fs : FileSystem) (root : FilePath) (sha256 : List ℕ → String) where
  -- The record is of a FITS file below the root, to which its path leads, with the size and the digest
  -- of the bytes of the file.
  abbrev pub IsTruthful : InventoryRecord → Type 0
  IsTruthful item =
      (file : FilePath) × IsBelow root file
      × (fs.is_file file ≡ true)
      × (is_fits (name (join root item.relative_path)) ≡ true)
      × (fs.resolve_loosely (join root item.relative_path) ≡ file)
      × (item.size ≡ length (fs.contents file))
      × (item.sha256 ≡ sha256 (fs.contents file))

module _ (fs : FileSystem) (read_header : FilePath → Result Header) (sha256 : List ℕ → String) where
  abbrev pub adapter : InstrumentAdapter
  adapter = espadons read_header sha256 fs.contents
