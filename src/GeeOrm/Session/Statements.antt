-- ===== src/GeeOrm/Session/Statements.antt =====
-- What the database is sent by the methods of a session, and how they leave the session.
use days_project.Common.{
  ℕ, ◌≡◌, refl, sym, ap, ◌∙◌, List, [], ◌∷◌, ◌++◌, Option, some, Bool, Text, Result, ok, err, codes,
  arith, eq_of_some, subst, ◌>>=◌, >>=-eq-some,
}
use days_project.GeeOrm.Clause
use days_project.GeeOrm.Clause.{Value, slice, nil, cons}
use days_project.GeeOrm.Schema.{Model, record_values}
use days_project.GeeOrm.Session.Queries.{IsQuiet}
use days_project.GeeOrm.Session.{
  Statement, Session, Hook, Rows, scan_rows, Database, submit, set_model, set_clause, insert_loop,
  reflect_value, exec, query_rows, query_row, run_clause, create_table, drop_table, has_table,
  insert, update_records, call_method, collect, select_rows, find, update_map, raw,
}

abbrev first : Session × List (List Value) × Option Text → Session
first r = r.0

-- `CreateTable`, `DropTable`, `HasTable`, `Find`, `Insert` and `Update`, with their arguments.
pub data Request : Type 0 where
  create drop_it ask look : Request
  add : List Model → Request
  change : List Value → Request

-- `t` is clear, nothing of a statement is left, and the database got one statement more than in `s`.
pub record SentOne (s t : Session) : Type 0 where
  pub sql : t.sql ≡ []
  pub vars : t.sql_vars ≡ []
  pub clause : t.clause ≡ Clause.empty
  pub statement : Statement
  pub sent : t.sent ≡ s.sent ++ statement ∷ []

submit-SentOne : (s s' : Session) (q : Statement) → s'.sent ≡ s.sent → SentOne s (submit s' q)
unfolding submit
submit-SentOne s s' q e = record {
  sql = refl;
  vars = refl;
  clause = refl;
  statement = q;
  sent = ap (λ l. l ++ q ∷ []) e;
}

set_model-sent : (s t : Session) (m : Model) → set_model s m ≡ some t → t.sent ≡ s.sent
unfolding set_model
set_model-sent s t m e = ground arith

set_clause-sent :
    (s t : Session) (name : Clause.ClauseType) (args : List Value)
    → set_clause s name args ≡ some t
    → t.sent ≡ s.sent
unfolding set_clause
set_clause-sent s t name args e = ground arith

insert_loop-sent :
    (records : List Model) (s t : Session) (rows : List Value)
    → insert_loop s records ≡ some (t, rows)
    → t.sent ≡ s.sent
unfolding insert_loop
insert_loop-sent [] s t rows e = ground arith
insert_loop-sent (m ∷ rest) s t rows e =
    let (s', modelled, e') = >>=-eq-some (set_model s m) _ e in
    let (table, known, e'') = >>=-eq-some s'.ref_table _ e' in
    let (s'', made, f) = >>=-eq-some (set_clause s' _ _) _ e'' in
    let (vs, read, f') = >>=-eq-some (record_values table m) _ f in
    let ((last, records), ran, f'') = >>=-eq-some (insert_loop s'' rest) _ f' in
    let same : last ≡ t = ground arith in
    ap (λ (x : Session). x.sent) (sym same)
    ∙ insert_loop-sent rest s'' last records ran
    ∙ set_clause-sent s' s'' _ _ made
    ∙ set_model-sent s s' m modelled

module _ (db : Database) (hook : Hook) (quiet : IsQuiet hook) where
  -- The session behind a method; `none` is a panic.
  unfoldable pub perform : Request → Session → Option Session
  perform create s = do (s', failed) ← create_table db s; some s'
  perform drop_it s = do (s', failed) ← drop_table db s; some s'
  perform ask s = do (s', found) ← has_table db s; some s'
  perform look s = do (s', found, failed) ← find db hook s; some s'
  perform (add records) s = do (s', n) ← insert db s records; some s'
  perform (change kv) s = do (s', n) ← update_records db s kv; some s'

  run_clause-SentOne :
      (s s' : Session) (orders : List Clause.ClauseType)
      → s'.sent ≡ s.sent
      → SentOne s (run_clause db s' orders).0
  unfolding run_clause exec raw
  run_clause-SentOne s s' orders e = submit-SentOne s _ _ e

  create_table-SentOne :
      (s t : Session) (failed : Option Text) → create_table db s ≡ some (t, failed) → SentOne s t
  unfolding create_table exec raw
  create_table-SentOne s t failed e =
      let (table, known, e') = >>=-eq-some s.ref_table _ e in
      subst (SentOne s) (ap (λ (p : Session × Option Text). p.0) (eq_of_some e'))
        (submit-SentOne s _ _ refl)

  drop_table-SentOne :
      (s t : Session) (failed : Option Text) → drop_table db s ≡ some (t, failed) → SentOne s t
  unfolding drop_table exec raw
  drop_table-SentOne s t failed e =
      let (table, known, e') = >>=-eq-some s.ref_table _ e in
      subst (SentOne s) (ap (λ (p : Session × Option Text). p.0) (eq_of_some e'))
        (submit-SentOne s _ _ refl)

  has_table-SentOne :
      (s t : Session) (found : Bool) → has_table db s ≡ some (t, found) → SentOne s t
  unfolding has_table query_row raw
  has_table-SentOne s t found e =
      let (table, known, e') = >>=-eq-some s.ref_table _ e in
      subst (SentOne s) (ap (λ (p : Session × Bool). p.0) (eq_of_some e'))
        (submit-SentOne s _ _ refl)

  scan_rows-session :
      (scans : List (Result (List Value))) (found : List (List Value)) (s : Session)
      (r : Session × List (List Value) × Option Text)
      → scan_rows db hook s scans found ≡ some r
      → r.0 ≡ s
  unfolding scan_rows call_method
  scan_rows-session [] found s r e = sym (ap first (eq_of_some e))
  scan_rows-session (err m ∷ rest) found s r e = sym (ap first (eq_of_some e))
  scan_rows-session (ok row ∷ rest) found s r e =
      let (hooked, ran, e') = >>=-eq-some (call_method db hook s (codes "AfterQuery") row) _ e in
      let (t, known, given) = >>=-eq-some s.ref_table _ ran in
      scan_rows-session rest (found ++ hooked.1 ∷ []) hooked.0 r e'
      ∙ sym (ap (λ (p : Session × List Value). p.0) (eq_of_some given))
      ∙ quiet (codes "AfterQuery") row s

  collect-session :
      (s : Session) (answer : Result Rows) (r : Session × List (List Value) × Option Text)
      → collect db hook s answer ≡ some r
      → r.0 ≡ s
  unfolding collect
  collect-session s (err m) r e = sym (ap first (eq_of_some e))
  collect-session s (ok rows) r e =
      let (scanned, ran, e') = >>=-eq-some (scan_rows db hook s rows.scans []) _ e in
      sym (ap first (eq_of_some e')) ∙ scan_rows-session rows.scans [] s scanned ran

  select_rows-SentOne :
      (s s' t : Session) (found : List (List Value)) (failed : Option Text)
      → s'.sent ≡ s.sent
      → select_rows db hook s' ≡ some (t, found, failed)
      → SentOne s t
  unfolding select_rows query_rows raw
  select_rows-SentOne s s' t found failed same e =
      let asked =
        Clause.build s'.clause
          (Clause.select ∷ Clause.where_by ∷ Clause.order_by ∷ Clause.limit ∷ []) in
      let answered = query_rows db (raw s' asked.0 asked.1) in
      subst (SentOne s) (sym (collect-session answered.0 answered.1 (t, found, failed) e))
        (submit-SentOne s (raw s' asked.0 asked.1) _ same)

  find-SentOne :
      (s t : Session) (found : List (List Value)) (failed : Option Text)
      → find db hook s ≡ some (t, found, failed)
      → SentOne s t
  unfolding find call_method
  find-SentOne s t found failed e =
      let (hooked, called, e') = >>=-eq-some (call_method db hook s _ _) _ e in
      let (known_table, there, given) = >>=-eq-some s.ref_table _ called in
      let unchanged : hooked.0 ≡ s =
        sym (ap (λ (p : Session × List Value). p.0) (eq_of_some given))
        ∙ quiet (codes "BeforeQuery") [] s in
      let (s', modelled, f) = >>=-eq-some (set_model hooked.0 reflect_value) _ e' in
      let (table, known, f') = >>=-eq-some s'.ref_table _ f in
      let (s'', made, g) = >>=-eq-some (set_clause s' _ _) _ f' in
      select_rows-SentOne s s'' t found failed
        (set_clause-sent s' s'' _ _ made
          ∙ set_model-sent hooked.0 s' reflect_value modelled
          ∙ ap (λ (x : Session). x.sent) unchanged)
        g

  insert-SentOne :
      (s t : Session) (records : List Model) (n : Result ℕ)
      → insert db s records ≡ some (t, n)
      → SentOne s t
  unfolding insert
  insert-SentOne s t records n e =
      let ((s', rows), ran, e') = >>=-eq-some (insert_loop s records) _ e in
      let (s'', made, f) = >>=-eq-some (set_clause s' _ _) _ e' in
      subst (SentOne s) (ap (λ (p : Session × Result ℕ). p.0) (eq_of_some f)) (
        run_clause-SentOne s s'' _
          (set_clause-sent s' s'' _ _ made ∙ insert_loop-sent records s s' rows ran))

  update_records-SentOne :
      (s t : Session) (kv : List Value) (n : Result ℕ)
      → update_records db s kv ≡ some (t, n)
      → SentOne s t
  unfolding update_records
  update_records-SentOne s t kv n e =
      let (m, read, e') = >>=-eq-some (update_map kv) _ e in
      let (table, known, f) = >>=-eq-some s.ref_table _ e' in
      let (s', made, f') = >>=-eq-some (set_clause s _ _) _ f in
      subst (SentOne s) (ap (λ (p : Session × Result ℕ). p.0) (eq_of_some f'))
        (run_clause-SentOne s s' _ (set_clause-sent s s' _ _ made))

  -- `CreateTable`, `DropTable`, `HasTable`, `Find`, `Insert` and `Update`, where they return, have sent
  -- one statement and left the session clear, whatever the database answered, if the hooks do nothing
  -- with the session: nothing of a statement gets into the next.
  pub perform-SentOne : (r : Request) (s t : Session) → perform r s ≡ some t → SentOne s t
  unfolding perform
  perform-SentOne create s t e =
      let ((s', failed), ran, same) = >>=-eq-some (create_table db s) _ e in
      subst (SentOne s) (eq_of_some same) (create_table-SentOne s s' failed ran)
  perform-SentOne drop_it s t e =
      let ((s', failed), ran, same) = >>=-eq-some (drop_table db s) _ e in
      subst (SentOne s) (eq_of_some same) (drop_table-SentOne s s' failed ran)
  perform-SentOne ask s t e =
      let ((s', found), ran, same) = >>=-eq-some (has_table db s) _ e in
      subst (SentOne s) (eq_of_some same) (has_table-SentOne s s' found ran)
  perform-SentOne look s t e =
      let ((s', found, failed), ran, same) = >>=-eq-some (find db hook s) _ e in
      subst (SentOne s) (eq_of_some same) (find-SentOne s s' found failed ran)
  perform-SentOne (add records) s t e =
      let ((s', n), ran, same) = >>=-eq-some (insert db s records) _ e in
      subst (SentOne s) (eq_of_some same) (insert-SentOne s s' records n ran)
  perform-SentOne (change kv) s t e =
      let ((s', n), ran, same) = >>=-eq-some (update_records db s kv) _ e in
      subst (SentOne s) (eq_of_some same) (update_records-SentOne s s' kv n ran)
