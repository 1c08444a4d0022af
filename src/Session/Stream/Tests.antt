-- ===== src/Session/Stream/Tests.antt =====
-- A stream of two batches.
use babar.Prelude.{
  ℕ, ◌≡◌, refl, List, [], ◌∷◌, none, some, true, false, Result, ok, err, take, length, ◌+◌, ◌-◌,
  ◌*◌, ◌≤◌,
}
use babar.Error.{Error, config}
use babar.Codec.Interface.{Cell}
use babar.Session.Stream.{
  StreamConfig, execute_portal, close_portal, close_statement, commit_transaction, Batch, Reply,
  rows_loop, drive_stream,
}
use babar.Session.Stream.Rows.{
  until_error, all_items, executions, closings, rows_in, drive_stream_lem,
}

abbrev count_bytes : List Cell → Result Error ℕ
count_bytes (some (b ∷ bytes) ∷ columns) = ok b
count_bytes columns = err (config [])

abbrev temporary : StreamConfig ℕ
temporary = record {
  decoder = count_bytes;
  close_statement_on_finish = true;
  close_transaction_on_finish = true;
}

abbrev cell : ℕ → List Cell
cell b = some (b ∷ []) ∷ []

abbrev two_batches : List (Reply Batch)
two_batches =
    some (ok (record { rows = cell 1 ∷ cell 2 ∷ []; has_more = true }))
    ∷ some (ok (record { rows = cell 3 ∷ (none ∷ []) ∷ cell 5 ∷ []; has_more = false }))
    ∷ []

streamed : drive_stream temporary two_batches 99 ≡ record {
  items = ok 1 ∷ ok 2 ∷ ok 3 ∷ err (config []) ∷ [];
  commands =
      execute_portal ∷ execute_portal ∷ close_portal ∷ close_statement ∷ commit_transaction ∷ [];
}
unfolding drive_stream rows_loop
streamed = refl

-- The receiver goes away while the second batch is fetched.
prefetched : drive_stream temporary two_batches 6 ≡ record {
  items = ok 1 ∷ ok 2 ∷ [];
  commands =
      execute_portal ∷ execute_portal ∷ close_portal ∷ close_statement ∷ commit_transaction ∷ [];
}
unfolding drive_stream rows_loop
prefetched = refl

drive_stream_lem_example :
    let d = drive_stream temporary two_batches 6 in
    (n sends : ℕ) × (d.items ≡ take sends (until_error (all_items count_bytes two_batches)))
    × (6 ≤ 2 * sends + n + 1)
    × (rows_in (n - 1) two_batches ≤ length d.items)
    × (d.commands ≡ executions n (closings true true))
drive_stream_lem_example = drive_stream_lem temporary two_batches 6
