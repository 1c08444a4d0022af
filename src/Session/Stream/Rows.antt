-- ===== src/Session/Stream/Rows.antt =====
-- What a stream yields, and how it ends.
use babar.Prelude.{
  ℕ, zero, suc, ◌≡◌, refl, List, [], ◌∷◌, none, some, Bool, true, false, Result, ok, err, take,
  length, ◌+◌, ◌*◌, ◌≤◌, ◌-◌, arith, ◌∙◌, if◌then◌else◌, ap, Result-cases, inl, inr,
}
use babar.Error.{Error, closed, no_context}
use babar.Codec.Interface.{Cell}
use babar.Session.Stream.{
  StreamConfig, StreamCommand, execute_portal, close_portal, close_statement, commit_transaction,
  stops, send_error, Batch, Driven, Reply, cleanup_stream, rows_loop, drive_stream, after_batch,
}

-- The items up to the first error, with it.
abbrev pub until_error : {B : Type 0} → List (Result Error B) → List (Result Error B)
until_error [] = []
until_error (err e ∷ items) = err e ∷ []
until_error (ok v ∷ items) = ok v ∷ until_error items

module _ {B : Type 0} (decoder : List Cell → Result Error B) where
  abbrev pub decode_rows : List (List Cell) → List (Result Error B) → List (Result Error B)
  decode_rows [] later = later
  decode_rows (columns ∷ rows) later = decoder columns ∷ decode_rows rows later

  -- The rows of all batches up to the last, or up to the error that the driver answers.
  abbrev pub all_items : List (Reply Batch) → List (Result Error B)
  all_items [] = err (closed no_context) ∷ []
  all_items (none ∷ replies) = err (closed no_context) ∷ []
  all_items (some (err e) ∷ replies) = err e ∷ []
  all_items (some (ok batch) ∷ replies) =
      decode_rows batch.rows (if batch.has_more then all_items replies else [])

-- So many executions of the portal in front of the clean-up.
abbrev pub executions : ℕ → List StreamCommand → List StreamCommand
executions zero later = later
executions (suc n) later = execute_portal ∷ executions n later

-- The rows of the first so many batches.
abbrev pub rows_in : ℕ → List (Reply Batch) → ℕ
rows_in zero replies = 0
rows_in (suc n) (some (ok batch) ∷ replies) = length batch.rows + rows_in n replies
rows_in (suc n) replies = 0

-- The end of a stream's commands.
abbrev pub closings : (statement transaction : Bool) → List StreamCommand
closings false false = close_portal ∷ []
closings false true = close_portal ∷ commit_transaction ∷ []
closings true false = close_portal ∷ close_statement ∷ []
closings true true = close_portal ∷ close_statement ∷ commit_transaction ∷ []

take_zero : {A : Type 0} (xs : List A) → [] ≡ take 0 xs
take_zero [] = refl
take_zero (x ∷ xs) = refl

take_one :
    {B : Type 0} (takes : ℕ) (x : Error)
    → Path (List (Result Error B)) (err x ∷ []) (take (suc takes) (err x ∷ []))
take_one zero x = refl
take_one (suc takes) x = refl

take_nothing : {A : Type 0} (takes : ℕ) → Path (List A) [] (take takes [])
take_nothing zero = refl
take_nothing (suc takes) = refl

module _ {B : Type 0} (c : StreamConfig B) where
  cleanup_stream_lem :
      cleanup_stream c ≡ closings c.close_statement_on_finish c.close_transaction_on_finish
  cleanup_stream_lem = ground arith

  -- With `n` executions, of which all but the last are behind the `rows` in front and those of `replies`.
  abbrev rows_before : (rows n : ℕ) → List (Reply Batch) → ℕ
  rows_before rows zero replies = 0
  rows_before rows (suc n) replies = rows + rows_in n replies

  abbrev IsDriven :
      (looks rows : ℕ) → List (Reply Batch) → List (Result Error B) → Driven B → Type 0
  IsDriven looks rows replies items d =
      (n sends : ℕ) × (d.items ≡ take sends (until_error items))
      × (looks ≤ 2 * sends + n + 1)
      × (rows_before rows n replies ≤ length d.items)
      × (d.commands
          ≡ executions n (closings c.close_statement_on_finish c.close_transaction_on_finish))

  stopped-IsDriven :
      (looks rows : ℕ) (replies : List (Reply Batch)) (items : List (Result Error B))
      → looks ≤ 1
      → IsDriven looks rows replies items (stops c [])
  stopped-IsDriven looks rows replies items h =
      (0, 0, take_zero (until_error items), omega (arith, h), omega arith, cleanup_stream_lem)

  failed-IsDriven :
      (looks rows : ℕ) (replies : List (Reply Batch)) (later : List (Result Error B)) (e : Error)
      → IsDriven (suc looks) rows replies (err e ∷ later) (stops c (err e ∷ []))
  failed-IsDriven looks rows replies later e =
      (0, suc looks, take_one looks e, omega arith, omega arith, cleanup_stream_lem)

  send_error-IsDriven :
      (looks : ℕ) (replies : List (Reply Batch)) (e : Error)
      → IsDriven looks 0 replies (err e ∷ []) (send_error c e looks)
  send_error-IsDriven zero replies e = stopped-IsDriven zero 0 replies (err e ∷ []) (omega arith)
  send_error-IsDriven (suc looks) replies e = failed-IsDriven looks 0 replies [] e

  sent-IsDriven :
      (looks rows : ℕ) (replies : List (Reply Batch)) (items : List (Result Error B)) (row : B)
      (d : Driven B)
      → IsDriven looks rows replies items d
      → IsDriven
          (suc (suc looks))
          (suc rows)
          replies
          (ok row ∷ items)
          (record d { items = ok row ∷ d.items })
  sent-IsDriven looks rows replies items row d (zero, sends, e, l, m, f) =
      (0, suc sends, ap (λ z. ok row ∷ z) e, omega (arith, l), omega arith, f)
  sent-IsDriven looks rows replies items row d (suc n, sends, e, l, m, f) =
      (suc n, suc sends, ap (λ z. ok row ∷ z) e, omega (arith, l), omega (arith, m), f)

  rows_loop-IsDriven :
      (rows : List (List Cell)) (looks : ℕ) (replies : List (Reply Batch)) (next : ℕ → Driven B)
      (later : List (Result Error B))
      → ((left : ℕ) → IsDriven left 0 replies later (next left))
      → IsDriven looks
          (length rows)
          replies
          (decode_rows c.decoder rows later)
          (rows_loop c rows looks next)
  unfolding rows_loop
  rows_loop-IsDriven [] looks replies next later h = h looks
  rows_loop-IsDriven (columns ∷ rows) zero replies next later h =
      stopped-IsDriven zero (suc (length rows)) replies
        (decode_rows c.decoder (columns ∷ rows) later) (omega arith)
  rows_loop-IsDriven (columns ∷ rows) (suc zero) replies next later h =
      stopped-IsDriven (suc zero) (suc (length rows)) replies
        (decode_rows c.decoder (columns ∷ rows) later) (omega arith)
  rows_loop-IsDriven (columns ∷ rows) (suc (suc looks)) replies next later h =
      let rest = rows_loop-IsDriven rows looks replies next later h in
      elim (Result-cases (c.decoder columns)) [
        | inl (row, e) ↦
            rw (rows_loop, e)
              (sent-IsDriven looks (length rows) replies (decode_rows c.decoder rows later) row
                (rows_loop c rows looks next) rest)
        | inr (x, e) ↦
            rw (rows_loop, e)
              (failed-IsDriven (suc looks) (suc (length rows)) replies
                (decode_rows c.decoder rows later) x)
      ]

  after_batch-IsDriven :
      (more : Bool) (left : ℕ) (replies : List (Reply Batch)) (items : List (Result Error B))
      (d : Driven B)
      → IsDriven left 0 replies items d
      → IsDriven left 0 replies (if more then items else []) (after_batch c more d)
  after_batch-IsDriven true left replies items d h = h
  after_batch-IsDriven false left replies items d h =
      (0, left, take_nothing left, omega arith, omega arith, cleanup_stream_lem)

  executed-IsDriven :
      (looks : ℕ) (batch : Batch) (replies : List (Reply Batch)) (items : List (Result Error B))
      (d : Driven B)
      → IsDriven looks (length batch.rows) replies items d
      → IsDriven
          (suc looks)
          0
          (some (ok batch) ∷ replies)
          items
          (record d { commands = execute_portal ∷ d.commands })
  executed-IsDriven looks batch replies items d (zero, sends, e, l, m, f) =
      (1, sends, e, omega (arith, l), omega arith, ap (λ z. execute_portal ∷ z) f)
  executed-IsDriven looks batch replies items d (suc n, sends, e, l, m, f) =
      (suc (suc n), sends, e, omega (arith, l), omega (arith, m), ap (λ z. execute_portal ∷ z) f)

  -- An execution that brings no batch.
  fruitless-IsDriven :
      (looks : ℕ) (x : Error) (reply : Reply Batch) (replies : List (Reply Batch))
      → ((n : ℕ) → rows_in n (reply ∷ replies) ≡ 0)
      → IsDriven (suc looks) 0 (reply ∷ replies) (err x ∷ []) (record (send_error c x looks) {
        commands = execute_portal ∷ (send_error c x looks).commands;
      })
  fruitless-IsDriven looks x reply replies z =
      let (n, sends, e, l, m, f) = send_error-IsDriven looks replies x in
      (suc n, sends, e, omega (arith, l), omega (arith, z n), ap (λ y. execute_portal ∷ y) f)

  drive_stream-IsDriven :
      (replies : List (Reply Batch)) (looks : ℕ)
      → IsDriven looks 0 replies (all_items c.decoder replies) (drive_stream c replies looks)
  unfolding drive_stream
  drive_stream-IsDriven replies zero =
      stopped-IsDriven zero 0 replies (all_items c.decoder replies) (omega arith)
  drive_stream-IsDriven [] (suc zero) =
      stopped-IsDriven (suc zero) 0 [] (all_items c.decoder []) (omega arith)
  drive_stream-IsDriven [] (suc (suc looks)) =
      failed-IsDriven (suc looks) 0 [] [] (closed no_context)
  drive_stream-IsDriven (none ∷ replies) (suc looks) =
      fruitless-IsDriven looks (closed no_context) none replies
        (λ n. elim n as (λ k. rows_in k (none ∷ replies) ≡ 0) [ zero ↦ refl | suc k ↦ refl ])
  drive_stream-IsDriven (some (err x) ∷ replies) (suc looks) =
      fruitless-IsDriven looks x (some (err x)) replies (λ n.
        elim n as (λ k. rows_in k (some (err x) ∷ replies) ≡ 0) [ zero ↦ refl | suc k ↦ refl ])
  drive_stream-IsDriven (some (ok batch) ∷ replies) (suc looks) =
      let later = if batch.has_more then all_items c.decoder replies else [] in
      executed-IsDriven looks batch replies (decode_rows c.decoder batch.rows later) _ (
        rows_loop-IsDriven batch.rows looks replies _ later (λ left.
          after_batch-IsDriven batch.has_more left replies (all_items c.decoder replies)
            (drive_stream c replies left) (drive_stream-IsDriven replies left)))

  rows_before_lem :
      (n : ℕ) (replies : List (Reply Batch)) → rows_before 0 n replies ≡ rows_in (n - 1) replies
  rows_before_lem zero replies = refl
  rows_before_lem (suc n) replies =
      let e : n ≡ suc n - 1 = omega arith in
      let z : 0 + rows_in n replies ≡ rows_in n replies = omega arith in
      z ∙ ap (λ k. rows_in k replies) e

  -- A stream puts the rows of all batches, decoded and in order, into the receiver's channel, up to the first
  -- row that does not decode or the error that the driver answers, and up to a number of sends. Twice that
  -- number, with one for each execution of the portal and one more, makes up the looks at which the receiver
  -- is still there, so that it gets all of them if it stays. A batch is asked for only when all rows of the
  -- batches before it have been sent. However the stream ends, the portal is executed so many times and then
  -- closed once, and behind it the statement and the transaction are ended once, if they are the stream's.
  pub drive_stream_lem :
      (replies : List (Reply Batch)) (looks : ℕ)
      → let d = drive_stream c replies looks in
        (n sends : ℕ) × (d.items ≡ take sends (until_error (all_items c.decoder replies)))
        × (looks ≤ 2 * sends + n + 1)
        × (rows_in (n - 1) replies ≤ length d.items)
        × (d.commands
            ≡ executions n (closings c.close_statement_on_finish c.close_transaction_on_finish))
  drive_stream_lem replies looks =
      let (n, sends, e, l, m, f) = drive_stream-IsDriven replies looks in
      (n, sends, e, l, omega (arith, m, rows_before_lem n replies), f)
