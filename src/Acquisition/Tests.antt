-- ===== src/Acquisition/Tests.antt =====
-- An example for the commit: an exposure whose file is not there yet.
use most_sprite.Prelude.{◌≡◌, refl, false, true, none, [], ◌∷◌, find_if}
use most_sprite.Domain.{ExposureStatus}
use most_sprite.Domain.Errors.{ok}
use most_sprite.Devices.Simulator
use most_sprite.Store.{Settings, Exposure, get_exposure, most_v1}
use most_sprite.Api.Sequences.Tests.{start_db}
use most_sprite.Control.World.{
  World, pure, fail_retryable, gets, the, write, fresh_id, ◌>>=◌, continue,
}
use most_sprite.Acquisition.{
  commit_l0, create_file, write_l0, find_file, header_of, commit_new, return_or_commit,
}
use most_sprite.Acquisition.Commit.{IsRegistered, commit_l0_once}

abbrev limits : Settings
limits = record {
  seed = λ id. id;
  angles = most_v1;
  angle_tolerance = 500;
  stale_state_ms = 5000;
  minimum_free_bytes = 1000;
  simulated_ms = λ ms. ms;
}

abbrev reading_exposure : Exposure
reading_exposure = record {
  id = 5;
  sequence_id = 7;
  group_id = none;
  command_id = none;
  sub_index = 1;
  status = ExposureStatus.reading;
  fr1_commanded = none;
  fr1_measured = none;
  fr3_commanded = none;
  fr3_measured = none;
  raw_file_id = none;
  started_at = none;
  committed_at = none;
}

abbrev read_world : World
read_world = record {
  db = record start_db { exposures = reading_exposure ∷ [] };
  device = Simulator.new;
  files = [];
  free_bytes = 2000;
  is_reachable = true;
  now = 100;
  next_id = 40;
  last_idle_refresh = 0;
  schedule = [];
}

read_world-commit :
    commit_l0 limits false 90 5 read_world ≡ (ok 40, (commit_l0 limits false 90 5 read_world).1)
unfolding commit_l0 return_or_commit commit_new ◌>>=◌ continue gets the find_if get_exposure
    fresh_id write pure find_file header_of write_l0 create_file fail_retryable
read_world-commit = refl

-- A day later, with the file lost and the disk full.
abbrev later_world : World
later_world = record (commit_l0 limits false 90 5 read_world).1 {
  files = [];
  free_bytes = 0;
  now = 90000000;
}

commit_l0_once_example :
    IsRegistered 5 40 (commit_l0 limits false 90 5 read_world).1
    × (commit_l0 limits true 95 5 later_world ≡ (ok 40, later_world))
commit_l0_once_example =
    commit_l0_once limits false true 90 95 5 40 read_world
      (commit_l0 limits false 90 5 read_world).1 later_world read_world-commit refl refl
