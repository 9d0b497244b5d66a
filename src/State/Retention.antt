-- ===== src/State/Retention.antt =====
-- The rows that a history keeps (daemon/internal/state/history.go).
use mathlib.Core.List.{map-append}
use envorca.Prelude.{
  ℕ, zero, suc, ◌+◌, ◌-◌, ◌≤◌, ◌<◌, ◌≡◌, refl, sym, ap, ◌∙◌, Option, none, some, List, [], ◌∷◌,
  ◌++◌, map, length, last_n, last_n-append_last, map-last_n, length-map, drop-nil, map-reverse, min,
  last_n-last_n, length-drop, drop, reverse, All, All-weaken, All-drop, arith, pos,
}
use envorca.Text.{Text}
use envorca.State.Sql.{
  Row, Table, insert_values, delete_not_in_latest, meaning, Database, rows_until,
}
use envorca.State.Ordered.{
  Ascending, latest, select_latest-reverse, filter_by-latest, All-append_last,
}
use envorca.State.History.{
  DiagnosticValues, RepairValues, keep_diagnostics, keep_repairs, record_diagnostic, record_repair,
  record_row, recent_rows, wrapped, then_prune, scan_rows,
}

-- Keys ascend, and none is above the last one that was given.
pub record IsOrdered {V : Type 0} (t : Table V) : Type 0 where
  pub ascending : Ascending t.rows
  pub bounded : All (λ r. r.id ≤ t.last_id) t.rows

module _ {V : Type 0} where
  Ascending-append :
      (xs : List (Row V)) (y : Row V)
      → Ascending xs
      → All (λ r. r.id < y.id) xs
      → Ascending (xs ++ y ∷ [])
  Ascending-append [] y h b = (tt, tt)
  Ascending-append (x ∷ xs) y (p, h) (q, b) =
      (All-append_last (λ s. x.id < s.id) xs y p q, Ascending-append xs y h b)

  Ascending-drop : (n : ℕ) (xs : List (Row V)) → Ascending xs → Ascending (drop n xs)
  Ascending-drop zero xs h = h
  Ascending-drop (suc n) [] h = h
  Ascending-drop (suc n) (x ∷ xs) (p, h) = Ascending-drop n xs h

  abbrev pub pruned : ℕ → Table V → Table V
  pruned k t = record t { rows = latest k t.rows }

  abbrev pub inserted : Text → V → Table V → Table V
  inserted now v t = record {
    rows = t.rows ++ record { id = t.last_id + 1; performed_at = now; values = v } ∷ [];
    last_id = t.last_id + 1;
  }

  inserted-IsOrdered :
      (now : Text) (v : V) (t : Table V) → IsOrdered t → IsOrdered (inserted now v t)
  inserted-IsOrdered now v t h = record {
    ascending =
        Ascending-append t.rows _ h.ascending
          (All-weaken _ _ t.rows (λ r b. omega arith) h.bounded);
    bounded =
        All-append_last _ t.rows _ (All-weaken _ _ t.rows (λ r b. omega arith) h.bounded)
          (omega arith);
  }

  pruned-IsOrdered : (k : ℕ) (t : Table V) → IsOrdered t → IsOrdered (pruned k t)
  pruned-IsOrdered k t h = record {
    ascending = Ascending-drop _ t.rows h.ascending;
    bounded = All-drop _ _ t.rows h.bounded;
  }

  meaning-delete :
      (now : Text) (k : ℕ) (t : Table V)
      → IsOrdered t
      → meaning now (delete_not_in_latest k) t ≡ pruned k t
  unfolding meaning
  meaning-delete now k t h = λ i. record t { rows = filter_by-latest k t h.ascending i }

module _ {V : Type 0} (database : Database V) where
  open database use {Db, table, clock, exec, query_latest, exec_done, exec_failed, query_done}

  -- What a record leaves: on success the latest `keep` rows of the table with the new row, and on an error
  -- the table as it was or with the new row.
  pub data Left (keep : ℕ) (v : V) (d d' : Db) : Option Text → Type 0 where
    kept : (table d' ≡ pruned keep (inserted (clock d) v (table d))) → Left keep v d d' none
    not_inserted : {e : Text} → (table d' ≡ table d) → Left keep v d d' (some e)
    not_pruned :
        {e : Text} → (table d' ≡ inserted (clock d) v (table d)) → Left keep v d d' (some e)

  meaning-insert :
      (now : Text) (v : V) (t : Table V) → meaning now (insert_values v) t ≡ inserted now v t
  unfolding meaning
  meaning-insert now v t = refl

  after_insert :
      (v : V) (d : Db) {d₁ : Db}
      → exec (insert_values v) d ≡ (none, d₁)
      → table d₁ ≡ inserted (clock d) v (table d)
  after_insert v d ran = exec_done (insert_values v) d ran ∙ meaning-insert (clock d) v (table d)

  after_prune :
      (keep : ℕ) (prune : Text) (v : V) (d d₁ : Db) (r : Option Text × Db)
      → IsOrdered (table d)
      → table d₁ ≡ inserted (clock d) v (table d)
      → exec (delete_not_in_latest keep) d₁ ≡ r
      → Left keep v d r.1 (wrapped prune r.0)
  after_prune keep prune v d d₁ (some e, d₂) h new ran = not_pruned (exec_failed _ d₁ ran ∙ new)
  after_prune keep prune v d d₁ (none, d₂) h new ran =
      let ordered : IsOrdered (table d₁) = rw new (inserted-IsOrdered (clock d) v (table d) h) in
      kept (
        exec_done _ d₁ ran
        ∙ meaning-delete (clock d₁) keep (table d₁) ordered
        ∙ ap (pruned keep) new)

  then_prune-Left :
      (keep : ℕ) (what prune : Text) (v : V) (d : Db) (r : Option Text × Db)
      → IsOrdered (table d)
      → exec (insert_values v) d ≡ r
      → Left keep v d
          (then_prune database keep what prune r).1
          (then_prune database keep what prune r).0
  then_prune-Left keep what prune v d (some e, d₁) h ran = not_inserted (exec_failed _ d ran)
  then_prune-Left keep what prune v d (none, d₁) h ran =
      after_prune keep prune v d d₁ (exec (delete_not_in_latest keep) d₁) h (after_insert v d ran)
        refl

  -- Recording a row in a table whose keys ascend leaves, on success, the latest `keep` rows of the table
  -- with the new row at its end; on an error it leaves the table as it was, or with the new row added.
  pub record_row-Left :
      (keep : ℕ) (what prune : Text) (v : V) (d : Db)
      → IsOrdered (table d)
      → Left keep v d
          (record_row database keep what prune v d).1
          (record_row database keep what prune v d).0
  unfolding record_row
  record_row-Left keep what prune v d h =
      then_prune-Left keep what prune v d (exec (insert_values v) d) h refl

  Left-IsOrdered :
      {keep : ℕ} {v : V} {d d' : Db} {o : Option Text}
      → Left keep v d d' o
      → IsOrdered (table d)
      → IsOrdered (table d')
  Left-IsOrdered {keep} {v} {d} (kept e) h =
      rw e (pruned-IsOrdered keep _ (inserted-IsOrdered (clock d) v (table d) h))
  Left-IsOrdered (not_inserted e) h = rw e h
  Left-IsOrdered {v = v} {d = d} (not_pruned e) h =
      rw e (inserted-IsOrdered (clock d) v (table d) h)

  -- A database on which rows were recorded, with the times and the values of all of them.
  pub data Recorded (keep : ℕ) (what prune : Text) : Db → List (Text × V) → Type 0 where
    opened : (d : Db) → table d ≡ record { rows = []; last_id = 0 } → Recorded keep what prune d []
    recorded :
        {d : Db} {log : List (Text × V)} (v : V) (d' : Db)
        → Recorded keep what prune d log
        → record_row database keep what prune v d ≡ (none, d')
        → Recorded keep what prune d' (log ++ (clock d, v) ∷ [])

  abbrev pub entry : Row V → Text × V
  entry r = (r.performed_at, r.values)

  -- What such a database holds.
  record Holds (keep : ℕ) (d : Db) (log : List (Text × V)) : Type 0 where
    ordered : IsOrdered (table d)
    entries : map entry (table d).rows ≡ last_n keep log

  kept-Holds :
      (keep : ℕ) (v : V) (d d' : Db) (log : List (Text × V))
      → Left keep v d d' none
      → Holds keep d log
      → Holds keep d' (log ++ (clock d, v) ∷ [])
  kept-Holds keep v d d' log (kept e) h = record {
    ordered = rw e (pruned-IsOrdered keep _ (inserted-IsOrdered (clock d) v (table d) h.ordered));
    entries =
        ap (λ t. map entry t.rows) e
        ∙ map-last_n entry keep (inserted (clock d) v (table d)).rows
        ∙ ap (last_n keep) (map-append entry (table d).rows _)
        ∙ ap (λ front. last_n keep (front ++ (clock d, v) ∷ [])) h.entries
        ∙ last_n-append_last keep log (clock d, v);
  }

  Recorded-Holds :
      {keep : ℕ} {what prune : Text} {d : Db} {log : List (Text × V)}
      → Recorded keep what prune d log
      → Holds keep d log
  Recorded-Holds {keep} (opened d e) = record {
    ordered = rw e (record { ascending = tt; bounded = tt });
    entries = rw e (sym (drop-nil (0 - keep)));
  }
  Recorded-Holds {keep} {what} {prune} (recorded {d = d} {log = log} v d' r ran) =
      let h = Recorded-Holds r in
      kept-Holds keep v d d' log (rw ran at (record_row-Left keep what prune v d h.ordered)) h

  recent_rows-pos :
      (read : Text) (limit : ℕ) (d : Db)
      → 0 < limit
      → recent_rows database read (pos limit) d ≡ scan_rows database read (query_latest limit d)
  unfolding recent_rows
  recent_rows-pos read zero d h = absurd (omega arith)
  recent_rows-pos read (suc n) d h = refl

  -- After any number of successful records into an empty table: the table holds at most `keep` rows, and
  -- a successful query for `limit` rows, at least one, returns the last ones recorded, newest first, with
  -- their times: as many as the smaller of `limit` and `keep`.
  pub recent_rows-Recorded :
      {keep : ℕ} {what prune : Text} {d : Db} {log : List (Text × V)} (read : Text) (limit : ℕ)
      {rs : List (Row V)}
      → Recorded keep what prune d log
      → 0 < limit
      → query_latest limit d ≡ rows_until rs none
      → (length (table d).rows ≤ keep)
        × (recent_rows database read (pos limit) d ≡ (rs, none))
        × (map entry rs ≡ reverse (last_n (min limit keep) log))
  recent_rows-Recorded {keep} {d = d} {log = log} read limit r pos_limit found =
      let h = Recorded-Holds r in
      let rows = (table d).rows in
      (
        omega (
          arith,
          ap length h.entries,
          length-map entry rows,
          length-drop (length log - keep) log,
        ),
        recent_rows-pos read limit d pos_limit ∙ ap (scan_rows database read) found,
        ap (map entry)
              (query_done limit d found ∙ select_latest-reverse limit (table d) h.ordered.ascending)
            ∙ map-reverse entry (latest limit rows)
            ∙ ap reverse (
                map-last_n entry limit rows
                ∙ ap (last_n limit) h.entries
                ∙ last_n-last_n limit keep log),
      )

pub record_diagnostic-Left :
    (database : Database DiagnosticValues) (overall_status payload : Text) (d : database.Db)
    → IsOrdered (database.table d)
    → Left database keep_diagnostics
        (record { overall_status = overall_status; payload = payload })
        d
        (record_diagnostic database overall_status payload d).1
        (record_diagnostic database overall_status payload d).0
unfolding record_diagnostic
record_diagnostic-Left database overall_status payload d h =
    record_row-Left database keep_diagnostics _ _ _ d h

pub record_repair-Left :
    (database : Database RepairValues) (v : RepairValues) (d : database.Db)
    → IsOrdered (database.table d)
    → Left database keep_repairs v d (record_repair database v d).1 (record_repair database v d).0
unfolding record_repair
record_repair-Left database v d h = record_row-Left database keep_repairs _ _ v d h
