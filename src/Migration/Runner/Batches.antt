-- ===== src/Migration/Runner/Batches.antt =====
-- One batch, and the actions that the runner is made of.
use babar.Prelude.{
  ℕ, zero, suc, ◌<◌, ◌≡◌, refl, ◌⊎◌, inl, inr, List, [], ◌∷◌, ◌++◌, append_assoc, Result, ok, err,
  Result-cases, length, take, arith, sym, ap, ◌∙◌, subst,
}
use babar.Rust.{ascii}
use babar.Migration.Errors.{Text}
use babar.Migration.Statements.{RunError, RawRows}
use babar.Migration.Runner.{
  Exec, and_then, from, simple_query, execute_sql, after_statement, batch_loop, transactional_batch,
}

module _ (server : List Text → Result RunError (List RawRows)) where
  -- The server accepts each of the statements, one behind the other.
  abbrev pub AcceptsAll : List Text → List Text → Type 0
  AcceptsAll sent statements =
      (n : ℕ)
      → n < length statements
      → (rows : List RawRows) × (server (sent ++ take (suc n) statements) ≡ ok rows)

  abbrev pub without_rows : Result RunError (List RawRows) → Result RunError (Unit {0})
  without_rows (ok rows) = ok tt
  without_rows (err e) = err e

  -- The batch was committed after all its statements, which the server accepted, with the result of the
  -- COMMIT; or rolled back behind the one that failed.
  abbrev pub IsEnded : List Text → List Text → List Text × Result RunError (Unit {0}) → Type 0
  IsEnded sent statements (sent', r) =
      ((sent' ≡ sent ++ (statements ++ (ascii "COMMIT" ∷ [])))
        × AcceptsAll sent statements
        × (r ≡ without_rows (server (sent ++ (statements ++ (ascii "COMMIT" ∷ []))))))
      ⊎ ((n : ℕ) × (e : RunError) × (n < length statements)
          × (server (sent ++ take (suc n) statements) ≡ err e)
          × (sent' ≡ sent ++ (take (suc n) statements ++ (ascii "ROLLBACK" ∷ [])))
          × (r ≡ err e))

  accepts_next :
      (sent : List Text) (s : Text) (statements : List Text) {rows : List RawRows}
      → server (sent ++ (s ∷ [])) ≡ ok rows
      → AcceptsAll (sent ++ (s ∷ [])) statements
      → AcceptsAll sent (s ∷ statements)
  accepts_next sent s statements {rows} e h zero l = (rows, e)
  accepts_next sent s statements e h (suc n) l =
      let (rows, f) = h n (omega (arith, l)) in
      (rows, ap server (sym (append_assoc sent (s ∷ []) (take (suc n) statements))) ∙ f)

  later-IsEnded :
      (sent : List Text) (s : Text) (statements : List Text) {rows : List RawRows}
      (out : List Text × Result RunError (Unit {0}))
      → server (sent ++ (s ∷ [])) ≡ ok rows
      → IsEnded (sent ++ (s ∷ [])) statements out
      → IsEnded sent (s ∷ statements) out
  later-IsEnded sent s statements (sent', r) a (inl (e, h, q)) =
      let z = append_assoc sent (s ∷ []) (statements ++ (ascii "COMMIT" ∷ [])) in
      inl (e ∙ z, accepts_next sent s statements a h, q ∙ ap (λ y. without_rows (server y)) z)
  later-IsEnded sent s statements (sent', r) a (inr (n, x, l, f, e, q)) = inr (
    suc n,
    x,
    omega arith,
    ap server (sym (append_assoc sent (s ∷ []) (take (suc n) statements))) ∙ f,
    e ∙ append_assoc sent (s ∷ []) (take (suc n) statements ++ (ascii "ROLLBACK" ∷ [])),
    q,
  )

  commit_lem :
      (sent : List Text) (r : Result RunError (List RawRows))
      → ((and_then (λ rows. from (ok tt)) (sent, r)).0 ≡ sent)
        × ((and_then (λ rows. from (ok tt)) (sent, r)).1 ≡ without_rows r)
  commit_lem sent (ok rows) = (refl, refl)
  commit_lem sent (err e) = (refl, refl)

  pub batch_loop-IsEnded :
      (statements sent : List Text) → IsEnded sent statements (batch_loop server statements sent)
  unfolding batch_loop
  batch_loop-IsEnded [] sent =
      let (a, b) =
        commit_lem (sent ++ (ascii "COMMIT" ∷ [])) (server (sent ++ (ascii "COMMIT" ∷ []))) in
      inl (a, λ n l. absurd (omega (arith, l)), b)
  batch_loop-IsEnded (s ∷ statements) sent = elim (Result-cases (server (sent ++ (s ∷ [])))) [
    | inl (rows, e) ↦
        subst
          (λ r.
            IsEnded sent (s ∷ statements)
              (after_statement server (batch_loop server statements) (sent ++ (s ∷ []), r)))
          (sym e)
          (later-IsEnded sent s statements (batch_loop server statements (sent ++ (s ∷ []))) e
            (batch_loop-IsEnded statements (sent ++ (s ∷ []))))
    | inr (x, e) ↦
        subst
          (λ r.
            IsEnded sent (s ∷ statements)
              (after_statement server (batch_loop server statements) (sent ++ (s ∷ []), r)))
          (sym e)
          (inr (0, x, omega arith, e, append_assoc sent (s ∷ []) (ascii "ROLLBACK" ∷ []), refl))
  ]

  -- An action that succeeds goes through its parts.
  pub and_then-eq-ok :
      {A B : Type 0} (k : A → Exec B) (out : List Text × Result RunError A) {b : B}
      → (and_then k out).1 ≡ ok b
      → (a : A) × (out.1 ≡ ok a) × ((k a out.0).1 ≡ ok b) × ((and_then k out).0 ≡ (k a out.0).0)
  and_then-eq-ok k (sent, ok a) h = (a, refl, h, refl)
  and_then-eq-ok k (sent, err e) h = cc

  pub ok_is_not_err :
      {A : Type 0} {a : A} {e : RunError} → Path (Result RunError A) (ok a) (err e) → ⊥
  ok_is_not_err h = cc

  pub transactional_batch_lem :
      (statements sent : List Text) {u : Unit {0}}
      → (transactional_batch server statements sent).1 ≡ ok u
      → (transactional_batch server statements sent).0
        ≡ sent ++ (ascii "BEGIN" ∷ statements ++ (ascii "COMMIT" ∷ []))
  unfolding transactional_batch
  transactional_batch_lem statements sent h =
      let (rows, e, q, t) =
        and_then-eq-ok (λ rows. batch_loop server statements)
          (simple_query server (ascii "BEGIN") sent) h in
      let begun = sent ++ (ascii "BEGIN" ∷ []) in
      elim (batch_loop-IsEnded statements begun) [
        | inl (z, a, f) ↦
            t ∙ z ∙ append_assoc sent (ascii "BEGIN" ∷ []) (statements ++ (ascii "COMMIT" ∷ []))
        | inr (n, x, l, g, z, f) ↦ absurd (ok_is_not_err (sym q ∙ f))
      ]

  pub query_lem :
      {A : Type 0} (f : List RawRows → Result RunError A) (sent : List Text)
      (r : Result RunError (List RawRows))
      → (and_then (λ rows. from (f rows)) (sent, r)).0 ≡ sent
  query_lem f sent (ok rows) = refl
  query_lem f sent (err e) = refl

  pub execute_sql_lem :
      (sql : Text) (sent : List Text) {rows : List RawRows}
      → server (sent ++ (sql ∷ [])) ≡ ok rows
      → execute_sql server sql sent ≡ (sent ++ (sql ∷ []), ok tt)
  execute_sql_lem sql sent h = ap (λ r. and_then (λ rows. from (ok tt)) (sent ++ (sql ∷ []), r)) h

  pub execute_sql-eq-ok :
      (sql : Text) (sent : List Text) {u : Unit {0}}
      → (execute_sql server sql sent).1 ≡ ok u
      → (rows : List RawRows) × (server (sent ++ (sql ∷ [])) ≡ ok rows)
  execute_sql-eq-ok sql sent h =
      let (rows, e, q, t) =
        and_then-eq-ok (λ rows. from (ok tt)) (simple_query server sql sent) h in
      (rows, e)

-- A batch that has begun either has all its statements accepted by the server, sends COMMIT behind them and
-- returns what the server answers to that; or, if the server refuses a statement, it sends nothing behind
-- that statement but ROLLBACK, and returns the server's error.
pub transactional_batch-IsEnded :
    (server : List Text → Result RunError (List RawRows)) (statements sent : List Text)
    {rows : List RawRows}
    → server (sent ++ (ascii "BEGIN" ∷ [])) ≡ ok rows
    → IsEnded server
        (sent ++ (ascii "BEGIN" ∷ []))
        statements
        (transactional_batch server statements sent)
unfolding transactional_batch
transactional_batch-IsEnded server statements sent h =
    let begun = sent ++ (ascii "BEGIN" ∷ []) in
    subst (IsEnded server begun statements)
      (sym (ap (λ r. and_then (λ rows. batch_loop server statements) (begun, r)) h))
      (batch_loop-IsEnded server statements begun)
