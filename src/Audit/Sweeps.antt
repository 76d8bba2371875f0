-- ===== src/Audit/Sweeps.antt =====
-- `anchor_pending_audit_checkpoints` of apps/core/audit_chain.py, over databases that nobody tampered
-- with, and over one with a digest that is no hex text.
use multilingual_task_api.Prelude.{
  ℕ, suc, ◌+◌, ◌≤◌, ◌≡◌, refl, sym, ap, subst, ◌∙◌, Bool, true, false, Bool-cases, inl, inr, Option,
  some, none, List, [], ◌∷◌, ◌++◌, append-nil, arith, length, if◌then◌else◌, ◌==◌, ==_iff, ge→ltb,
  All, ok,
}
use multilingual_task_api.PyText.{Text, text_eq}
use multilingual_task_api.PyText.Hex.{text_eq_iff, text_eq_refl}
use multilingual_task_api.Audit.{Encoding, AuditLog, genesis_audit_hash}
use multilingual_task_api.Audit.Signatures.{Cryptography, Settings, Kms}
use multilingual_task_api.Audit.Checkpoints.{AuditChainCheckpoint, Report, latest}
use multilingual_task_api.Audit.Anchored.{AreAnchored}
use multilingual_task_api.Audit.Anchors.{
  Archive, Draw, Database, Sweep, latest_of, is_covered, new_checkpoint, insert_new, count_created,
  create_organization_audit_checkpoint, sweep,
}
use multilingual_task_api.Audit.Created.{Agree, resolved, bare-new, latest-AreAnchored}
use multilingual_task_api.Audit.Intact.{rows_of, anchors_of, IsIntact, IsClean, verify-IsIntact}
use multilingual_task_api.Audit.Runs.{anchors-insert_new, logs-insert_new, insert_new-IsIntact}

-- The latest checkpoint of an organization covers all its rows.
abbrev pub Covers : Text → Database → Type 0
Covers org db =
    (q : AuditChainCheckpoint) × (latest_of org db.checkpoints ≡ some q)
    × (q.covered_up_to_seq ≡ length (rows_of org db.audit_logs))

is_covered-eq :
    (r : Report) (l : Option AuditChainCheckpoint)
    → is_covered r l ≡ true
    → (q : AuditChainCheckpoint) × (l ≡ some q) × (q.covered_up_to_seq ≡ r.head_chain_seq)
unfolding is_covered
is_covered-eq r none h = cc
is_covered-eq r (some q) h = (q, refl, ground arith)

latest-snoc :
    (cs : List AuditChainCheckpoint) (row : AuditChainCheckpoint)
    → All (λ (q : AuditChainCheckpoint). q.checkpoint_seq ≤ row.checkpoint_seq) cs
    → latest (cs ++ row ∷ []) ≡ some row
unfolding latest
latest-snoc [] row h = refl
latest-snoc (c ∷ cs) row h =
    rw (latest, latest-snoc cs row h.1, ge→ltb row.checkpoint_seq c.checkpoint_seq h.0)

corrupted_same : (created : Bool) (n : Sweep) → (count_created created n).corrupted ≡ n.corrupted
unfolding count_created
corrupted_same true n = refl
corrupted_same false n = refl

counted_once :
    (created : Bool) (n : Sweep)
    → (count_created created n).anchored + (count_created created n).skipped
      ≡ n.anchored + n.skipped + 1
unfolding count_created
counted_once true n = omega arith
counted_once false n = omega arith

module _ (x : Encoding) (c : Cryptography) (s : Settings) (k : Kms) (w : Archive) where
  seqs_below :
      (n : ℕ) (prev : Text) (t : List AuditLog) (cs : List AuditChainCheckpoint) (m : ℕ)
      → AreAnchored x c s (resolved x c s k w) n prev t cs
      → length cs + n ≤ m
      → All (λ (q : AuditChainCheckpoint). q.checkpoint_seq ≤ m) cs
  seqs_below n prev t [] m h le = tt
  seqs_below n prev t (q ∷ cs) m h le =
      (omega (arith, h.0.seq), seqs_below (suc n) q.checkpoint_hash t cs m h.1 (omega arith))

  insert_new-Covers :
      (d : Draw) (org : Text) (r : Report) (db : Database)
      → IsIntact x c s k w db
      → IsClean x (rows_of org db.audit_logs) r
      → Covers org (
          insert_new x c s k w d org
            (new_checkpoint x c s k w d org r (latest_of org db.checkpoints))
            db)
  unfolding latest_of
  insert_new-Covers d org r db h clean =
      let cs = anchors_of org db.checkpoints in
      let l = latest_of org db.checkpoints in
      let row = new_checkpoint x c s k w d org r l in
      let same = bare-new x c s k w d org r l in
      let next : row.checkpoint_seq ≡ suc (length cs) =
        ap (λ (q : AuditChainCheckpoint). q.checkpoint_seq) same
        ∙ (latest-AreAnchored x c s _ (rows_of org db.audit_logs) cs (h.1 org)).0 in
      (
        row,
        ap latest (
              anchors-insert_new x c s k w d org org r l db
              ∙ ap (λ (b : Bool). cs ++ (if b then row ∷ [] else [])) (text_eq_refl org))
            ∙ latest-snoc cs row (
                seqs_below 0 genesis_audit_hash (rows_of org db.audit_logs) cs row.checkpoint_seq
                  (h.1 org) (omega arith)),
        rw (logs-insert_new x c s k w d org row db)
            (ap (λ (q : AuditChainCheckpoint). q.covered_up_to_seq) same ∙ clean.length_),
      )

  -- Another organization's checkpoint leaves this one's alone.
  other-Covers :
      (d : Draw) (org o : Text) (r : Report) (db : Database)
      → text_eq org o ≡ false
      → Covers o db
      → Covers o (
          insert_new x c s k w d org
            (new_checkpoint x c s k w d org r (latest_of org db.checkpoints))
            db)
  unfolding latest_of
  other-Covers d org o r db other (q, found, size) =
      let l = latest_of org db.checkpoints in
      let row = new_checkpoint x c s k w d org r l in
      (
        q,
        ap latest (
              anchors-insert_new x c s k w d org o r l db
              ∙ ap (λ (b : Bool). anchors_of o db.checkpoints ++ (if b then row ∷ [] else [])) other
              ∙ append-nil (anchors_of o db.checkpoints))
            ∙ found,
        rw (logs-insert_new x c s k w d org row db) size,
      )

  -- One round of the sweep.
  create-Covers :
      (d : Draw) (org : Text) (db : Database)
      → Agree x c s k w
      → IsIntact x c s k w db
      → (done : Option AuditChainCheckpoint × Bool × Database)
        × (create_organization_audit_checkpoint x c s k w false d org db ≡ ok done)
        × IsIntact x c s k w done.2
        × (done.2.audit_logs ≡ db.audit_logs)
        × (1 ≤ length (rows_of org db.audit_logs) → Covers org done.2)
        × ((o : Text) → Covers o db → Covers o done.2)
  unfolding create_organization_audit_checkpoint
  create-Covers d org db agree h =
      let (r, ran, clean) = verify-IsIntact x c s k w org db h in
      let l = latest_of org db.checkpoints in
      let row = new_checkpoint x c s k w d org r l in
      elim (Bool-cases (r.verified_entries == 0)) [
        | inl nothing ↦ (
          (none, false, db),
          rw (ran, clean.valid, nothing),
          h,
          refl,
          λ some_rows.
              absurd (omega (arith, (==_iff r.verified_entries 0).0 nothing, clean.verified)),
          λ o covers. covers,
        )
        | inr some_rows ↦ elim (Bool-cases (is_covered r l)) [
          | inl covered ↦
              let (q, there, size) = is_covered-eq r l covered in
              let covered_now : Covers org db = (q, there, size ∙ clean.length_) in
              (
                (l, false, db),
                rw (ran, clean.valid, some_rows, covered),
                h,
                refl,
                λ _. covered_now,
                λ o covers. covers,
              )
          | inr fresh ↦ (
            (some row, true, insert_new x c s k w d org row db),
            rw (ran, clean.valid, some_rows, fresh),
            insert_new-IsIntact x c s k w d org r db agree h clean,
            logs-insert_new x c s k w d org row db,
            λ _. insert_new-Covers d org r db h clean,
            λ o covers. elim (Bool-cases (text_eq org o)) [
              | inl same ↦
                  subst (λ (p : Text). Covers p (insert_new x c s k w d org row db))
                    ((text_eq_iff org o).0 same) (insert_new-Covers d org r db h clean)
              | inr other ↦ other-Covers d org o r db other covers
            ],
          )
        ]
      ]

  pub sweep_lem :
      (draw : ℕ → Draw) (i : ℕ) (orgs : List Text) (db : Database) (n : Sweep)
      → Agree x c s k w
      → IsIntact x c s k w db
      → All (λ org. 1 ≤ length (rows_of org db.audit_logs)) orgs
      → (m : Sweep) × (after : Database) × (sweep x c s k w draw i orgs db n ≡ (ok m, after))
        × (m.corrupted ≡ n.corrupted)
        × (m.anchored + m.skipped ≡ n.anchored + n.skipped + length orgs)
        × ((o : Text) → Covers o db → Covers o after)
        × All (λ org. Covers org after) orgs
  unfolding sweep count_created
  sweep_lem draw i [] db n agree h rows = (n, db, refl, refl, omega arith, λ o covers. covers, tt)
  sweep_lem draw i (org ∷ orgs) db n agree h rows =
      let (done, made, intact, logs, covers, keeps) = create-Covers (draw i) org db agree h in
      let later : All (λ org. 1 ≤ length (rows_of org done.2.audit_logs)) orgs =
        subst (λ t. All (λ org. 1 ≤ length (rows_of org t)) orgs) (sym logs) rows.1 in
      let (m, after, ran, bad, total, kept, all) =
        sweep_lem draw (i + 1) orgs done.2 (count_created done.1 n) agree intact later in
      (
        m,
        after,
        rw (sweep, made) ran,
        bad ∙ corrupted_same done.1 n,
        omega (arith, counted_once done.1 n),
        λ o before. kept o (keeps o before),
        (kept org (covers rows.0), all),
      )
