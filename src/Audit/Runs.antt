-- ===== src/Audit/Runs.antt =====
-- Every sequence of sealed entries and checkpoints, for apps/core/audit_chain.py.
use multilingual_task_api.Prelude.{
  ℕ, suc, ◌+◌, ◌≡◌, refl, ap, subst, ◌∙◌, Bool, true, false, not, ◌&&◌, Bool-cases, inl, inr,
  Option, some, none, List, [], ◌∷◌, ◌++◌, append-nil, arith, length, ◌==◌, if◌then◌else◌, ok,
  Outcome, length-append, ◌>>=◌,
}
use multilingual_task_api.PyText.{Text, text_eq}
use multilingual_task_api.PyText.Hex.{text_eq_iff}
use multilingual_task_api.Audit.{
  Encoding, AuditLog, NewEntry, Table, genesis_audit_hash, in_scope, seal_and_insert_audit_log,
}
use multilingual_task_api.Audit.Chain.{filter-append, seal-IsSealed}
use multilingual_task_api.Audit.Signatures.{Cryptography, Settings, Kms}
use multilingual_task_api.Audit.Checkpoints.{AuditChainCheckpoint, Report}
use multilingual_task_api.Audit.Verification.{verify_organization_audit_chain}
use multilingual_task_api.Audit.Anchored.{AreAnchored}
use multilingual_task_api.Audit.Anchors.{
  Archive, Draw, Database, latest_of, is_covered, new_checkpoint, insert_new,
  create_organization_audit_checkpoint,
}
use multilingual_task_api.Audit.Created.{
  resolved, Agree, append-AreAnchored, snoc-AreAnchored, latest-AreAnchored, new-Holds, bare-new,
}
use multilingual_task_api.Audit.Intact.{rows_of, anchors_of, IsIntact, IsClean, verify-IsIntact}

-- A step of the history of a database.
pub data Step : Type 0 where
  seal : ℕ → NewEntry → Step
  anchor : Bool → Draw → Text → Step

abbrev pub empty : Database
empty = record { audit_logs = []; checkpoints = []; outbox = [] }

abbrev pub is_for : Text → Option Text → Bool
is_for org none = false
is_for org (some o) = text_eq o org

-- The entries that are sealed for an organization.
abbrev pub sealed_for : Text → List Step → ℕ
sealed_for org [] = 0
sealed_for org (seal now e ∷ steps) =
    if is_for org e.organization then suc (sealed_for org steps) else sealed_for org steps
sealed_for org (anchor force d o ∷ steps) = sealed_for org steps

in_scope-is_for : (org : Text) (e : AuditLog) → in_scope (some org) e ≡ is_for org e.organization
unfolding in_scope
in_scope-is_for org e = ground arith

module _ (x : Encoding) (c : Cryptography) (s : Settings) (k : Kms) (w : Archive) where
  abbrev pub run_step : Step → Database → Outcome Database
  run_step (seal now e) db =
      ok (record db { audit_logs = (seal_and_insert_audit_log x now e db.audit_logs).1 })
  run_step (anchor force d org) db = do
    done ← create_organization_audit_checkpoint x c s k w force d org db
    ok done.2

  -- A step that raises ends the run.
  abbrev pub run_steps : List Step → Database → Outcome Database
  run_steps [] db = ok db
  run_steps (step ∷ steps) db = do next ← run_step step db; run_steps steps next

  pub anchors-insert_new :
      (d : Draw) (org o : Text) (r : Report) (l : Option AuditChainCheckpoint) (db : Database)
      → let row = new_checkpoint x c s k w d org r l in
        anchors_of o (insert_new x c s k w d org row db).checkpoints
        ≡ anchors_of o db.checkpoints ++ (if text_eq org o then row ∷ [] else [])
  unfolding insert_new
  anchors-insert_new d org o r l db =
      let row = new_checkpoint x c s k w d org r l in
      let mine : row.organization ≡ org =
        ap (λ (q : AuditChainCheckpoint). q.organization) (bare-new x c s k w d org r l) in
      filter-append (λ (q : AuditChainCheckpoint). text_eq q.organization o) db.checkpoints
        (row ∷ [])
      ∙ ap (λ (b : Text). anchors_of o db.checkpoints ++ (if text_eq b o then row ∷ [] else []))
          mine

  pub logs-insert_new :
      (d : Draw) (org : Text) (row : AuditChainCheckpoint) (db : Database)
      → (insert_new x c s k w d org row db).audit_logs ≡ db.audit_logs
  unfolding insert_new
  logs-insert_new d org row db = refl

  pub insert_new-IsIntact :
      (d : Draw) (org : Text) (r : Report) (db : Database)
      → Agree x c s k w
      → IsIntact x c s k w db
      → IsClean x (rows_of org db.audit_logs) r
      → IsIntact x c s k w (
          insert_new x c s k w d org
            (new_checkpoint x c s k w d org r (latest_of org db.checkpoints))
            db)
  unfolding latest_of
  insert_new-IsIntact d org r db agree h clean =
      let cs = anchors_of org db.checkpoints in
      let rows = rows_of org db.audit_logs in
      let row = new_checkpoint x c s k w d org r (latest_of org db.checkpoints) in
      let key = resolved x c s k w in
      let (next, link) = latest-AreAnchored x c s key rows cs (h.1 org) in
      let grown : AreAnchored x c s key 0 genesis_audit_hash rows (cs ++ row ∷ []) =
        snoc-AreAnchored x c s key 0 genesis_audit_hash rows cs row (h.1 org) (
          new-Holds x c s k w d org r (latest_of org db.checkpoints) rows (length cs + 0) _ agree
            clean.length_ clean.head clean.root (next ∙ omega arith) link) in
      (
        rw (logs-insert_new d org row db) h.0,
        λ o.
            rw
              (
                logs-insert_new d org row db,
                anchors-insert_new d org o r (latest_of org db.checkpoints) db,
              )
              (elim (Bool-cases (text_eq org o)) [
                | inl same ↦ rw same (
                    subst
                      (λ (p : Text).
                        AreAnchored x c s key 0 genesis_audit_hash (rows_of p db.audit_logs)
                          (anchors_of p db.checkpoints ++ row ∷ []))
                      ((text_eq_iff org o).0 same) grown)
                | inr other ↦ rw (other, append-nil) (h.1 o)
              ]),
      )

  -- A checkpoint is never refused on such a database, and leaves it so.
  pub create-IsIntact :
      (force : Bool) (d : Draw) (org : Text) (db : Database)
      → Agree x c s k w
      → IsIntact x c s k w db
      → (done : Option AuditChainCheckpoint × Bool × Database)
        × (create_organization_audit_checkpoint x c s k w force d org db ≡ ok done)
        × IsIntact x c s k w done.2
        × (done.2.audit_logs ≡ db.audit_logs)
  unfolding create_organization_audit_checkpoint
  create-IsIntact force d org db agree h =
      let (r, ran, clean) = verify-IsIntact x c s k w org db h in
      let l = latest_of org db.checkpoints in
      let row = new_checkpoint x c s k w d org r l in
      elim (Bool-cases (r.verified_entries == 0 && not force)) [
        | inl nothing ↦ ((none, false, db), rw (ran, clean.valid, nothing), h, refl)
        | inr some_rows ↦ elim (Bool-cases (not force && is_covered r l)) [
          | inl covered ↦ ((l, false, db), rw (ran, clean.valid, some_rows, covered), h, refl)
          | inr fresh ↦ (
            (some row, true, insert_new x c s k w d org row db),
            rw (ran, clean.valid, some_rows, fresh),
            insert_new-IsIntact d org r db agree h clean,
            logs-insert_new d org row db,
          )
        ]
      ]

  rows-seal :
      (now : ℕ) (e : NewEntry) (t : Table) (org : Text)
      → rows_of org (seal_and_insert_audit_log x now e t).1
        ≡ rows_of org t
          ++ (if is_for org e.organization
              then (seal_and_insert_audit_log x now e t).0 ∷ []
              else [])
  unfolding seal_and_insert_audit_log
  rows-seal now e t org =
      filter-append (in_scope (some org)) t ((seal_and_insert_audit_log x now e t).0 ∷ [])
      ∙ ap
          (λ (b : Bool).
            rows_of org t ++ (if b then (seal_and_insert_audit_log x now e t).0 ∷ [] else []))
          (in_scope-is_for org (seal_and_insert_audit_log x now e t).0)

  seal-IsIntact :
      (now : ℕ) (e : NewEntry) (db : Database)
      → IsIntact x c s k w db
      → IsIntact x c s k w
          (record db { audit_logs = (seal_and_insert_audit_log x now e db.audit_logs).1 })
  seal-IsIntact now e db h = (
    seal-IsSealed x now e db.audit_logs h.0,
    λ org. rw (rows-seal now e db.audit_logs org) (
        append-AreAnchored x c s (resolved x c s k w) 0 genesis_audit_hash
          (rows_of org db.audit_logs) _ (anchors_of org db.checkpoints) (h.1 org)),
  )

  length-rows-seal :
      (now : ℕ) (e : NewEntry) (t : Table) (org : Text)
      → length (rows_of org (seal_and_insert_audit_log x now e t).1)
        ≡ length (rows_of org t) + (if is_for org e.organization then 1 else 0)
  length-rows-seal now e t org =
      let more =
        length-append (rows_of org t) (
          if is_for org e.organization then (seal_and_insert_audit_log x now e t).0 ∷ [] else []) in
      rw (rows-seal now e t org, more) (ground arith)

  pub run-IsIntact :
      (steps : List Step) (db : Database)
      → Agree x c s k w
      → IsIntact x c s k w db
      → (after : Database) × (run_steps steps db ≡ ok after)
        × IsIntact x c s k w after
        × ((org : Text)
            → length (rows_of org after.audit_logs)
              ≡ length (rows_of org db.audit_logs) + sealed_for org steps)
  run-IsIntact [] db agree h = (db, refl, h, λ org. omega arith)
  run-IsIntact (seal now e ∷ steps) db agree h =
      let next : Database = record db {
        audit_logs = (seal_and_insert_audit_log x now e db.audit_logs).1;
      } in
      let (after, ran, kept, count) = run-IsIntact steps next agree (seal-IsIntact now e db h) in
      (after, ran, kept, λ org. ground (arith, count org, length-rows-seal now e db.audit_logs org))
  run-IsIntact (anchor force d o ∷ steps) db agree h =
      let (done, made, intact, same) = create-IsIntact force d o db agree h in
      let (after, ran, kept, count) = run-IsIntact steps done.2 agree intact in
      (after, rw made ran, kept, λ org. rw (← same) (count org))

  -- However entries are sealed and checkpoints asked for, one after the other from an empty database and for
  -- any organizations, no step raises, and at the end every organization's chain is verified as
  -- valid, over as many entries as were sealed for it. The key that the settings resolve accepts
  -- the asymmetric signatures that they make, if they make any; signing and archiving may fail.
  pub history_verifies :
      (steps : List Step) (org : Text)
      → Agree x c s k w
      → (db : Database) × (r : Report) × (run_steps steps empty ≡ ok db)
        × (verify_organization_audit_chain x c s k org db.audit_logs db.checkpoints ≡ ok r)
        × (r.valid ≡ true)
        × (r.verified_entries ≡ sealed_for org steps)
  history_verifies steps org agree =
      let (db, ran, intact, count) = run-IsIntact steps empty agree (λ o. tt, λ o. tt) in
      let (r, verified, clean) = verify-IsIntact x c s k w org db intact in
      (db, r, ran, verified, clean.valid, clean.verified ∙ count org ∙ omega arith)
