-- ===== src/Manifest/Tests.antt =====
-- Runs of the manifest, with a checksum that adds up the bytes; every path is UTF-8.
use toroidal_db.Base.{◌≡◌, refl, arith, [], ◌∷◌, Bool, true, ok}
use toroidal_db.Base.Sample.{checksum, checksum_fits}
use toroidal_db.Base.Bytes.{Bytes, to_le}
use toroidal_db.Manifest.{
  Manifest, type_of, path_of, extra_of, is_live, live_insert, raise, entry_body, encode_entry,
  append_nosync, add_segment, open_manifest,
}
use toroidal_db.Manifest.Memory.{Synced, log_bytes, effects}
use toroidal_db.Manifest.Reopen.{Wrote, Wrote-open_manifest}

abbrev any_path : Bytes → Bool
any_path b = true

abbrev created : Manifest
created = record { file = []; live = []; max_flushed_sequence = 0; valid_len = 0 }

abbrev one_segment : Manifest
one_segment = record {
  file = 1 ∷ 0 ∷ 70 ∷ 77 ∷ 1 ∷ 1 ∷ 0 ∷ 115 ∷ 9 ∷ 0 ∷ 0 ∷ 0 ∷ 0 ∷ 0 ∷ 0 ∷ 0 ∷ 18 ∷ 1 ∷ 0 ∷ 0 ∷ [];
  live = (115 ∷ []) ∷ [];
  max_flushed_sequence = 9;
  valid_len = 0;
}

one_segment_lem : add_segment checksum any_path created (115 ∷ []) 9 ≡ ok one_segment
unfolding add_segment append_nosync encode_entry entry_body type_of path_of extra_of to_le
    live_insert is_live raise
one_segment_lem = refl

created-Synced : Synced checksum any_path created
unfolding log_bytes effects
created-Synced = record {
  entries = [];
  valid = tt;
  file_lem = refl;
  live_lem = refl;
  max_lem = refl;
}

Wrote-open_manifest_example :
    Synced checksum any_path one_segment
    × ((open_manifest checksum any_path one_segment.file).file ≡ one_segment.file)
    × ((open_manifest checksum any_path one_segment.file).live ≡ one_segment.live)
    × ((open_manifest checksum any_path one_segment.file).max_flushed_sequence
        ≡ one_segment.max_flushed_sequence)
Wrote-open_manifest_example =
    Wrote-open_manifest checksum any_path checksum_fits created one_segment created-Synced
      (Wrote.added (115 ∷ []) 9 (omega arith) one_segment_lem)
