-- ===== src/Tasks/Verdicts.antt =====
-- What a vote does to its task, apps/tasks/consensus.py.
use multilingual_task_api.Prelude.{
  ℕ, ◌*◌, ◌≤◌, ◌<◌, ◌≡◌, refl, ap, sym, subst, ◌∙◌, Bool, true, false, ◌&&◌, List, [], ◌∷◌, arith,
  Bool-cases, inl, inr, ◌↔◌, le→leb, ltb, leb, length, All,
}
use multilingual_task_api.Tasks.{Task, TaskAnnotation, Preference, annotations_of, round_ratio}
use multilingual_task_api.Tasks.TaskStatus.{completed}
use multilingual_task_api.Tasks.Choice.{unresolved, preferred}
use multilingual_task_api.Tasks.Calibration.{AnnotatorCalibration}
use multilingual_task_api.Tasks.Consensus.{
  Entry, Vote, tally, ranked, total_weight, top_count, has_unique_leader, agreement_ratio, votes_of,
  settle, vote_outcome, scored, started, escalate, is_escalating, evaluate_task_consensus,
}
use multilingual_task_api.Tasks.Totals.{
  weight_for, whole, weight_share, entries, IsTable, tally-IsTable, share-ranked, total-ranked,
  share-tally, total-tally,
}
use multilingual_task_api.Tasks.Ranks.{ranked-IsTop, IsTop}
use multilingual_task_api.Tasks.Majority.{wins_iff}
use multilingual_task_api.Tasks.Skills.{IsSound, some_weight}

-- The share of a preference in all the weight, in ten-thousandths.
abbrev pub IsPastHalf : Preference → List Vote → Type 0
IsPastHalf p votes = 5_000 < round_ratio (weight_for p votes * 10_000) (whole votes)

preferred-injective : {p q : Preference} → preferred p ≡ preferred q → p ≡ q
preferred-injective e = cc

unresolved_unpreferred : {p : Preference} → unresolved ≡ preferred p → ⊥
unresolved_unpreferred e = cc

settled_choice :
    (task : Task) (total : ℕ) (top p : Preference) (has_winner : Bool)
    → ((settle task total top true has_winner).0.consensus_choice ≡ preferred p)
      ↔ ((has_winner ≡ true) × (top ≡ p))
unfolding settle escalate
settled_choice task total top p true =
    (λ h. (refl, preferred-injective h), λ (w, q). ap preferred q)
settled_choice task total top p false = (
  λ h. elim (Bool-cases (is_escalating task)) [
    | inl e ↦ absurd (unresolved_unpreferred (rw e at h))
    | inr e ↦ absurd (unresolved_unpreferred (rw e at h))
  ],
  λ (w, q). absurd (ground arith),
)

-- The first of the ranked entries of a vote wins as the majority says.
vote_wins_iff :
    (votes : List Vote) (e : Entry) (others : List Entry) (p : Preference) (unweighted : ℕ)
    → ranked (tally votes []) ≡ e ∷ others
    → 1 ≤ whole votes
    → ((has_unique_leader e others
            && ltb 5_000 (agreement_ratio e.weight (total_weight (tally votes [])) unweighted)
          ≡ true)
        × (e.preference ≡ p))
      ↔ IsPastHalf p votes
unfolding total_weight
vote_wins_iff votes e others p unweighted r heavy =
    let totals = tally votes [] in
    let same_total : total_weight (e ∷ others) ≡ total_weight totals =
      subst (λ t. total_weight t ≡ total_weight totals) r (total-ranked totals) in
    let in_all : total_weight (e ∷ others) ≡ whole votes = omega (arith, total-tally votes []) in
    let in_favour : weight_share p (e ∷ others) ≡ weight_for p votes =
      subst (λ t. weight_share p t ≡ weight_for p votes) r
        (omega (arith, share-ranked (λ f. f.weight) p totals, share-tally p votes [])) in
    let table : IsTable (e ∷ others) = λ q.
      subst (λ t. entries q t ≤ 1) r
        (omega
          (arith, share-ranked (λ f. 1) q totals, tally-IsTable votes [] (λ _. omega arith) q)) in
    let top = subst IsTop r (ranked-IsTop totals) in
    let Leads = λ (n : ℕ).
      (has_unique_leader e others && ltb 5_000 (agreement_ratio e.weight n unweighted) ≡ true)
      × (e.preference ≡ p) in
    subst (λ n. Leads n ↔ IsPastHalf p votes) same_total
      (subst
        (λ n.
          Leads (total_weight (e ∷ others)) ↔ (5_000 < round_ratio (weight_for p votes * 10_000) n))
        in_all
        (subst
          (λ n.
            Leads (total_weight (e ∷ others))
            ↔ (5_000 < round_ratio (n * 10_000) (total_weight (e ∷ others))))
          in_favour (wins_iff e others p unweighted top table (omega arith))))

some_entry : (votes : List Vote) → ranked (tally votes []) ≡ [] → 1 ≤ whole votes → ⊥
unfolding total_weight
some_entry votes r h =
    let nothing : total_weight (tally votes []) ≡ 0 = sym (
      subst (λ t. total_weight t ≡ total_weight (tally votes [])) r
        (total-ranked (tally votes []))) in
    omega (arith, nothing, total-tally votes [])

decided :
    (uncertainty : List Entry → ℕ) (task : Task) (p : Preference) (total : ℕ) (votes : List Vote)
    (t : List Entry)
    → ranked (tally votes []) ≡ t
    → task.required_annotations ≤ total
    → 1 ≤ whole votes
    → ((vote_outcome uncertainty task total (tally votes []) t).0.consensus_choice ≡ preferred p)
      ↔ IsPastHalf p votes
unfolding vote_outcome scored
decided uncertainty task p total votes [] r enough heavy = absurd (some_entry votes r heavy)
decided uncertainty task p total votes (e ∷ others) r enough heavy =
    let totals = tally votes [] in
    let unweighted = round_ratio (top_count totals * 10_000) total in
    let ratio = agreement_ratio e.weight (total_weight totals) unweighted in
    let settled =
      settled_choice (scored ratio (uncertainty totals) task) total e.preference p
        (has_unique_leader e others && ltb 5_000 ratio) in
    let vote = vote_wins_iff votes e others p unweighted r heavy in
    rw (le→leb _ _ enough) (λ h. vote.0 (settled.0 h), λ m. settled.1 (vote.1 m))

-- With sound calibrations, a task that has as many annotations as it requires is decided for a
-- preference just if more than half of the weight is for it, to four decimals.
pub decided_by_majority :
    (uncertainty : List Entry → ℕ) (cals : List AnnotatorCalibration) (anns : List TaskAnnotation)
    (task : Task) (p : Preference)
    → let annotations = annotations_of task.id anns in
      All IsSound cals
      → 1 ≤ task.required_annotations
      → task.required_annotations ≤ length annotations
      → ((evaluate_task_consensus uncertainty cals anns task).0.consensus_choice ≡ preferred p)
        ↔ IsPastHalf p (votes_of cals task annotations)
unfolding evaluate_task_consensus
decided_by_majority uncertainty cals anns task p sound positive enough =
    let annotations = annotations_of task.id anns in
    decided uncertainty task p (length annotations) (votes_of cals task annotations) _ refl enough
      (some_weight cals task annotations sound (omega arith))

-- Without a winner the choice is open, and a task that was pending is in progress.
left_open :
    (task : Task) (total : ℕ) (top : Preference) (has_quorum : Bool)
    → let after = (settle task total top has_quorum false).0 in
      (after.status ≡ started task.status) × (after.consensus_choice ≡ unresolved)
unfolding settle escalate
left_open task total top false = (refl, refl)
left_open task total top true = elim (Bool-cases (is_escalating task)) [
  | inl e ↦ rw e (refl, refl)
  | inr e ↦ rw e (refl, refl)
]

undecided :
    (uncertainty : List Entry → ℕ) (task : Task) (total : ℕ) (votes : List Vote) (t : List Entry)
    → ranked (tally votes []) ≡ t
    → 1 ≤ whole votes
    → ((p : Preference) → ¬ IsPastHalf p votes)
    → let after = (vote_outcome uncertainty task total (tally votes []) t).0 in
      (after.status ≡ started task.status) × (after.consensus_choice ≡ unresolved)
unfolding vote_outcome scored
undecided uncertainty task total votes [] r heavy split = absurd (some_entry votes r heavy)
undecided uncertainty task total votes (e ∷ others) r heavy split =
    let totals = tally votes [] in
    let unweighted = round_ratio (top_count totals * 10_000) total in
    let ratio = agreement_ratio e.weight (total_weight totals) unweighted in
    let vote = vote_wins_iff votes e others e.preference unweighted r heavy in
    elim (Bool-cases (has_unique_leader e others && ltb 5_000 ratio)) [
      | inl w ↦ absurd (split e.preference (vote.0 (w, refl)))
      | inr w ↦ rw w (
          left_open (scored ratio (uncertainty totals) task) total e.preference
            (leb task.required_annotations total))
    ]

-- When the annotations of a completed task, a late one among them, no longer have a majority of the
-- weight, its choice is erased and it stays completed.
pub split_erases_choice :
    (uncertainty : List Entry → ℕ) (cals : List AnnotatorCalibration) (anns : List TaskAnnotation)
    (task : Task)
    → let annotations = annotations_of task.id anns in
      task.status ≡ completed
      → All IsSound cals
      → 1 ≤ length annotations
      → ((p : Preference) → ¬ IsPastHalf p (votes_of cals task annotations))
      → let after = (evaluate_task_consensus uncertainty cals anns task).0 in
        (after.status ≡ completed) × (after.consensus_choice ≡ unresolved)
unfolding evaluate_task_consensus started
split_erases_choice uncertainty cals anns task done sound some_one split =
    let annotations = annotations_of task.id anns in
    let (status, choice) =
      undecided uncertainty task (length annotations) (votes_of cals task annotations) _ refl
        (some_weight cals task annotations sound some_one) split in
    (status ∙ ap started done, choice)
