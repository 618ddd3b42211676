-- ===== src/Tests/Receiving.antt =====
-- Batches that are received, crawls that are queued, and files that are uploaded.
use mathlib.Core.List.{Memᴰ}
use bbd_os.Prelude.{
  ◌≡◌, refl, none, some, ok, err, true, false, List, ◌++◌, map, arith, find, row, All, same_text,
  after,
}
use bbd_os.Database.{Observation, get_state}
use bbd_os.Ingestion.{stored, state_of, receive_batch, already_leased, observation_of}
use bbd_os.Ingestion.Replay.{receive_batch_again}
use bbd_os.Ingestion.Exclusive.{receive_batch_excludes, receive_batch_advances, leased}
use bbd_os.Ingestion.Records.{receive_batch_records, Distinct, Lists}
use bbd_os.Tests.Data.{hashes, db_notes, ids_at, payload_of, batch_one, run_one, db_one}

receive_batch_again_example :
    receive_batch hashes db_one (payload_of "one") (ids_at 2) 20 ≡ ok (batch_one, run_one, db_one)
unfolding receive_batch find row
receive_batch_again_example =
    receive_batch_again hashes db_notes (payload_of "one") (ids_at 1) (ids_at 2) 10 20 batch_one
      run_one db_one refl refl

receive_batch_excludes_example :
    receive_batch hashes db_one (payload_of "two") (ids_at 2) 20 ≡ err already_leased
unfolding receive_batch find row stored
receive_batch_excludes_example =
    receive_batch_excludes hashes db_notes (payload_of "one") (payload_of "two") (ids_at 1)
      (ids_at 2) 10 20 batch_one run_one db_one refl refl refl refl (omega arith)

receive_batch_advances_example :
    (same_text (state_of db_notes 1).cursor none ≡ true)
    × (after (state_of db_notes 1).lease_expires_at 10 ≡ false)
    × (get_state db_one 1 ≡ some (leased (payload_of "one") 1 10))
unfolding receive_batch find row
receive_batch_advances_example =
    receive_batch_advances hashes db_notes (payload_of "one") (ids_at 1) 10 batch_one run_one db_one
      refl refl

receive_batch_records_example :
    (new : List Observation) × (db_one.observations ≡ db_notes.observations ++ new)
    × Distinct new
    × All (λ x. Lists new (observation_of hashes 1 1 x)) (payload_of "one").records
    × All (λ o. Memᴰ o (map (observation_of hashes 1 1) (payload_of "one").records)) new
unfolding receive_batch find row
receive_batch_records_example =
    receive_batch_records hashes db_notes (payload_of "one") (ids_at 1) 10 batch_one run_one db_one
      refl refl
