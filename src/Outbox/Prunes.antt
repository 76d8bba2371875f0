-- ===== src/Outbox/Prunes.antt =====
-- What the pruning of apps/core/outbox.py deletes.
use multilingual_task_api.Prelude.{
  ℕ, zero, suc, ◌+◌, ◌-◌, ◌*◌, ◌≤◌, ◌≡◌, refl, ap, ◌∙◌, not, ◌&&◌, List, [], ◌∷◌, max, arith,
  Bool-cases, inl, inr, leb, ◌==◌, length, filter,
}
use multilingual_task_api.Outbox.{
  Table, is_dispatched, is_in, aged_ids, delete_batch, prune_chunks, prune_outbox,
}

-- The rows that are still to be sent, in work or in the dead letters.
abbrev pub undelivered : Table → Table
undelivered t = filter (λ r. not (is_dispatched r.status)) t

delete-undelivered : (ids : List ℕ) (t : Table) → undelivered (delete_batch ids t) ≡ undelivered t
unfolding delete_batch
delete-undelivered ids [] = refl
delete-undelivered ids (r ∷ t) =
    let ih = delete-undelivered ids t in
    elim (Bool-cases (is_dispatched r.status)) [
      | inr e ↦ elim (Bool-cases (is_in ids r.id)) [
        | inl i ↦ rw (i, e, e) (ap (λ l. r ∷ l) ih)
        | inr i ↦ rw (i, e) (ap (λ l. r ∷ l) ih)
      ]
      | inl e ↦ elim (Bool-cases (is_in ids r.id)) [ inl i ↦ rw (i, e) ih | inr i ↦ rw (i, e) ih ]
    ]

delete_shorter : (ids : List ℕ) (t : Table) → length (delete_batch ids t) ≤ length t
unfolding delete_batch
delete_shorter ids [] = omega arith
delete_shorter ids (r ∷ t) = elim (Bool-cases (not (is_in ids r.id && is_dispatched r.status))) [
  | inl e ↦ rw e (omega (arith, delete_shorter ids t))
  | inr e ↦ rw e (omega (arith, delete_shorter ids t))
]

prune_chunks_spares :
    (f cutoff chunk : ℕ) (t : Table)
    → let (left, deleted) = prune_chunks f cutoff chunk t in
      (undelivered left ≡ undelivered t) × (length left + deleted ≡ length t)
unfolding prune_chunks
prune_chunks_spares zero cutoff chunk t = (refl, omega arith)
prune_chunks_spares (suc f) cutoff chunk t =
    let ids = aged_ids cutoff chunk t in
    let kept = delete-undelivered ids t in
    let fewer = delete_shorter ids t in
    let (same, count) = prune_chunks_spares f cutoff chunk (delete_batch ids t) in
    elim (Bool-cases (length ids == 0)) [
      | inl e ↦ rw e (refl, omega arith)
      | inr e ↦ elim (Bool-cases (leb chunk (length ids))) [
        | inl g ↦ rw (e, g) (same ∙ kept, omega arith)
        | inr g ↦ rw (e, g) (kept, omega arith)
      ]
    ]

-- Pruning leaves every row that is pending, in processing or failed where it is, and reports exactly
-- the number of rows that are gone.
pub prune_spares :
    (retention_days chunk_size max_chunks now : ℕ) (t : Table)
    → let (left, deleted) = prune_outbox retention_days chunk_size max_chunks now t in
      (filter (λ r. not (is_dispatched r.status)) left
        ≡ filter (λ r. not (is_dispatched r.status)) t)
      × (length left + deleted ≡ length t)
unfolding prune_outbox
prune_spares retention_days chunk_size max_chunks now t =
    prune_chunks_spares (max 1 max_chunks) (now - retention_days * 86400) (max 1 chunk_size) t
