-- ===== src/Tasks/Ranks.antt =====
-- The order of the entries of a vote, apps/tasks/consensus.py.
use multilingual_task_api.Prelude.{ℕ, ◌≤◌, List, [], ◌∷◌, All, All-imp, arith, Bool-cases, inl, inr}
use multilingual_task_api.Tasks.Consensus.{Entry, insert_entry, ranked, outranks}

-- The first of the ranked entries has the greatest weight.
abbrev pub IsTop : List Entry → Type 0
IsTop [] = Unit
IsTop (e ∷ t) = All (λ f. f.weight ≤ e.weight) t

insert_entry-All :
    (m : ℕ) (e : Entry) (t : List Entry)
    → e.weight ≤ m
    → All (λ f. f.weight ≤ m) t
    → All (λ f. f.weight ≤ m) (insert_entry e t)
unfolding insert_entry
insert_entry-All m e [] b a = (b, tt)
insert_entry-All m e (f ∷ t) b (c, a) =
    let rest = insert_entry-All m e t b a in
    elim (Bool-cases (outranks e f)) [
      | inl h ↦ rw (All, h) (b, (c, a))
      | inr h ↦ rw (All, h) (c, rest)
    ]

insert_entry-IsTop : (e : Entry) (t : List Entry) → IsTop t → IsTop (insert_entry e t)
unfolding insert_entry outranks
insert_entry-IsTop e [] h = tt
insert_entry-IsTop e (f ∷ t) a = elim (Bool-cases (outranks e f)) [
  | inl h ↦
      let below : f.weight ≤ e.weight = ground arith in
      rw (IsTop, h) (below, All-imp _ _ (λ g b. omega arith) t a)
  | inr h ↦
      let below : e.weight ≤ f.weight = ground arith in
      rw (IsTop, h) (insert_entry-All f.weight e t below a)
]

pub ranked-IsTop : (t : List Entry) → IsTop (ranked t)
unfolding ranked
ranked-IsTop [] = tt
ranked-IsTop (e ∷ t) = insert_entry-IsTop e (ranked t) (ranked-IsTop t)
