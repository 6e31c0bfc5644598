-- ===== src/Database/Interleaving.antt =====
-- `insert_fragment` of backend/src/database.cpp when other threads use the connection between its
-- step and `sqlite3_changes`.
use frag.Prelude.{◌≡◌, refl, ap, ◌∙◌, sym, Bool, true, false, inl, inr, [], ◌∷◌, ◌++◌, ltb}
use frag.Text.{codes}
use frag.Fragment.{Fragment}
use frag.Database.Sqlite.{Sqlite}
use frag.Database.Operations.{Result, ok, throw, check, insert_sql, insert_fragment, bind_fragment}
use frag.Database.Table.{has_id, insert_row, stored}
use frag.Database.Behaviour.{IsReliable, SqliteLaws}
use frag.Database.Refines.{check-ok, check_done}

module _ (sqlite : Sqlite) where
  open sqlite use {Conn, prepare, step, changes}

  -- `insert_fragment`, with what others do to the connection behind the step.
  unfoldable pub insert_interrupted : (Conn → Conn) → Fragment → Conn → Result Bool × Conn
  unfolding check insert_sql bind_fragment
  insert_interrupted others f db =
      let (rc, stmt) = prepare insert_sql db in
      elim (check rc (codes "prepare insert")) [
        | throw msg ↦ (throw msg, db)
        | ok _ ↦
            let (rc', _, db') = step (bind_fragment sqlite f stmt) db in
            elim (check rc' (codes "step insert")) [
              | throw msg ↦ (throw msg, db')
              | ok _ ↦ (ok (ltb 0 (changes (others db'))), others db')
            ]
      ]

  insert_interrupted-alone :
      (f : Fragment) (db : Conn) → insert_interrupted (λ c. c) f db ≡ insert_fragment sqlite f db
  unfolding insert_interrupted insert_fragment
  insert_interrupted-alone f db = refl

module _ (sqlite : Sqlite) (laws : SqliteLaws sqlite) (reliable : IsReliable sqlite) where
  open sqlite use {Conn, Stmt, prepare, step, changes}
  open laws use {rows, prepare_code, insert_step}

  -- An insert that nothing fails ends with its own count of changes.
  inserts_alone :
      (g : Fragment) (c : Conn)
      → has_id (stored g).id (rows c) ≡ false
      → (changes (insert_fragment sqlite g c).1 ≡ 1)
        × (rows (insert_fragment sqlite g c).1 ≡ rows c ++ (stored g ∷ []))
  unfolding insert_fragment bind_fragment stored insert_row
  inserts_alone g c new = elim (prepare_code insert_sql c) [
    | inr bad ↦ absurd (reliable.prepares _ _ bad)
    | inl good ↦
        let e = check-ok _ (codes "prepare insert") good in
        elim (insert_step (stored g) c good) [
          | inr (failed, _) ↦ absurd (reliable.steps _ _ failed)
          | inl (done, after, n) ↦
              let e' = check_done _ (codes "step insert") done in
              rw (e, insert_fragment, e') (n ∙ rw new refl, after ∙ rw new refl)
        ]
  ]

  -- A duplicate that nothing fails leaves the rows as they are, and then the others go on.
  interrupted :
      (others : Conn → Conn) (f : Fragment) (c : Conn)
      → has_id (stored f).id (rows c) ≡ true
      → (d : Conn) × (insert_interrupted sqlite others f c
          ≡ (ok (ltb 0 (changes (others d))), others d))
        × (rows d ≡ rows c)
        × (changes d ≡ 0)
  unfolding insert_interrupted bind_fragment stored insert_row
  interrupted others f c known = elim (prepare_code insert_sql c) [
    | inr bad ↦ absurd (reliable.prepares _ _ bad)
    | inl good ↦
        let e = check-ok _ (codes "prepare insert") good in
        elim (insert_step (stored f) c good) [
          | inr (failed, _) ↦ absurd (reliable.steps _ _ failed)
          | inl (done, after, n) ↦
              let e' = check_done _ (codes "step insert") done in
              (_, rw (e, insert_interrupted, e') refl, after ∙ rw known refl, n ∙ rw known refl)
        ]
  ]

  -- Over every SQLite that behaves as documented and does not fail: an insert of a known id reports
  -- it as known, but if an insert of a new id by another thread comes between its step and
  -- sqlite3_changes, it reports the id as new, while the table gains only the other's row.
  pub interrupted_duplicate :
      (f g : Fragment) (c : Conn)
      → has_id (stored f).id (rows c) ≡ true
      → has_id (stored g).id (rows c) ≡ false
      → ((insert_fragment sqlite f c).0 ≡ ok false)
        × ((insert_interrupted sqlite (λ d. (insert_fragment sqlite g d).1) f c).0 ≡ ok true)
        × (rows (insert_interrupted sqlite (λ d. (insert_fragment sqlite g d).1) f c).1
            ≡ rows c ++ (stored g ∷ []))
  interrupted_duplicate f g c known new =
      let (d, alone, _, none_changed) = interrupted (λ d. d) f c known in
      let (d', between, same, _) = interrupted (λ d. (insert_fragment sqlite g d).1) f c known in
      let (one_changed, after) = inserts_alone g d' (rw same new) in
      (
        ap (λ r. r.0) (sym (insert_interrupted-alone sqlite f c) ∙ alone) ∙ rw none_changed refl,
        ap (λ r. r.0) between ∙ rw one_changed refl,
        ap (λ r. rows r.1) between ∙ after ∙ ap (λ l. l ++ (stored g ∷ [])) same,
      )
