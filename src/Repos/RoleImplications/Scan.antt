-- ===== src/Repos/RoleImplications/Scan.antt =====
-- What `FindRoleImplications`, repos/RoleImplicationRepository.go, can return.
use holvit_backend.Prelude.{ℕ, List, [], ◌∷◌, ◌≡◌, refl, ap}
use holvit_backend.Go.{Outcome, done, panicked, bind-done, ◌>>=◌, lift, Go}
use holvit_backend.Sqlb.Syntax.{SelectQuery}
use holvit_backend.Sqlb.Query.{SqlQuery}
use holvit_backend.Repos.Database.{
  Value, null, uuid, text, int, bool, time, uuids, texts, string_slice, bytes, Database, Row, begin,
  run_query, build_of_select,
}
use holvit_backend.Repos.Rows.{scan_rows, find_rows}
use holvit_backend.Repos.RoleImplications.{
  RoleImplication, scan_role_implication, role_implications_query, find_role_implications,
}

Panics : {A : Type 0} → Outcome A → Type 0
Panics (done a) = ⊥
Panics (panicked e) = Unit

scan-Panics : (row : List Value) → Panics (scan_role_implication row).0
unfolding Panics scan_role_implication
scan-Panics [] = tt
scan-Panics (null ∷ row) = tt
scan-Panics (uuid id ∷ row) = tt
scan-Panics (text s ∷ row) = tt
scan-Panics (int n ∷ row) = tt
scan-Panics (bool b ∷ row) = tt
scan-Panics (time t ∷ row) = tt
scan-Panics (uuids l ∷ row) = tt
scan-Panics (texts l ∷ row) = tt
scan-Panics (string_slice l ∷ row) = tt
scan-Panics (bytes s ∷ row) = tt

-- Where each row panics, the loop gives results for no rows only.
scan_rows-empty :
    {A : Type 0} (scan : Row A) (rows : List (List Value)) (l : List A)
    → ((row : List Value) → Panics (scan row).0)
    → scan_rows scan rows ≡ done l
    → l ≡ []
unfolding scan_rows Panics
scan_rows-empty scan [] l h e = cc
scan_rows-empty {A} scan (row ∷ rows) l h e = first (scan row).0 (h row) e
  where
    first :
        (o : Outcome A)
        → Panics o
        → elim o [
          | panicked x ↦ panicked x
          | done a ↦ elim (scan_rows scan rows) [
            | panicked x ↦ panicked x
            | done rest ↦ done (a ∷ rest)
          ]
        ]
          ≡ done l
        → l ≡ []
    first (done a) p e = absurd p
    first (panicked x) p e = cc

-- What `find_rows` returns are the results of the loop over some rows.
find_rows-scan :
    {W A : Type 0} (db : Database W) (query : Outcome (SelectQuery Value)) (scan : Row A) (w w' : W)
    (l : List A)
    → find_rows db query scan w ≡ (done l, w')
    → (rows : List (List Value)) × (scan_rows scan rows ≡ done l)
unfolding find_rows
find_rows-scan {W} {A} db query scan w w' l e =
    let (u, (_, e1)) =
      bind-done (begin db) (λ u. lift (build_of_select db query) >>= rows_of) w w' l e in
    let (sql, (_, e2)) =
      bind-done (lift (build_of_select db query)) rows_of (begin db w).1 w' l e1 in
    let (rows, (_, e3)) = bind-done (run_query db sql) last (begin db w).1 w' l e2 in
    (rows, ap (λ (p : Outcome (List A) × W). p.0) e3)
  where
    last : List (List Value) → Go W (List A)
    last rows = lift (scan_rows scan rows)

    rows_of : SqlQuery Value → Go W (List A)
    rows_of sql = run_query db sql >>= last

-- A call that returns nothing, or panics.
abbrev pub NoneOrPanic : {A : Type 0} → Outcome (List A) → Type 0
NoneOrPanic (done l) = l ≡ []
NoneOrPanic (panicked e) = Unit

-- Every call of `FindRoleImplications` returns no implication, or panics, whatever the database
-- answers.
pub find_role_implications-empty :
    {W : Type 0} (db : Database W) (realm_id : ℕ) (w : W)
    → NoneOrPanic (find_role_implications db realm_id w).0
unfolding find_role_implications
find_role_implications-empty {W} db realm_id w =
    by_outcome (find_role_implications db realm_id w).0 refl
  where
    by_outcome :
        (o : Outcome (List RoleImplication))
        → (find_role_implications db realm_id w).0 ≡ o
        → NoneOrPanic o
    by_outcome (panicked e) h = tt
    by_outcome (done l) h =
        let (rows, scanned) =
          find_rows-scan db (role_implications_query realm_id) scan_role_implication w
            (find_role_implications db realm_id w).1 l
            (ap
              (λ (o : Outcome (List RoleImplication)).
                (o, (find_role_implications db realm_id w).1))
              h) in
        scan_rows-empty scan_role_implication rows l scan-Panics scanned
