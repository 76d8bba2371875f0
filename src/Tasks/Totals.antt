-- ===== src/Tasks/Totals.antt =====
-- The totals of a vote on a task, against sums over the votes.
use multilingual_task_api.Prelude.{
  ℕ, ◌+◌, ◌≤◌, ◌≡◌, refl, sym, subst, true, false, List, [], ◌∷◌, All, arith, Bool-cases, inl, inr,
  if◌then◌else◌,
}
use multilingual_task_api.Tasks.{Preference, same_preference}
use multilingual_task_api.Tasks.Preference.{response_a, response_b, tie}
use multilingual_task_api.Tasks.Consensus.{
  Vote, Entry, add_vote, tally, total_weight, insert_entry, ranked, outranks,
}

pub same_preference_self : (p : Preference) → same_preference p p ≡ true
unfolding same_preference
same_preference_self response_a = refl
same_preference_self response_b = refl
same_preference_self tie = refl

pub same_preference→eq : (p q : Preference) → same_preference p q ≡ true → p ≡ q
unfolding same_preference
same_preference→eq response_a response_a h = refl
same_preference→eq response_b response_b h = refl
same_preference→eq tie tie h = refl
same_preference→eq response_a response_b h = cc
same_preference→eq response_a tie h = cc
same_preference→eq response_b response_a h = cc
same_preference→eq response_b tie h = cc
same_preference→eq tie response_a h = cc
same_preference→eq tie response_b h = cc

-- What the votes for a preference weigh.
unfoldable pub weight_for : Preference → List Vote → ℕ
weight_for p [] = 0
weight_for p (v ∷ vs) = (if same_preference p v.0 then v.1 else 0) + weight_for p vs

unfoldable pub whole : List Vote → ℕ
whole [] = 0
whole (v ∷ vs) = v.1 + whole vs

-- A measure of the entries, added up over those of a preference.
abbrev pub share : (Entry → ℕ) → Preference → List Entry → ℕ
share f p [] = 0
share f p (e ∷ t) = (if same_preference p e.preference then f e else 0) + share f p t

abbrev pub weight_share : Preference → List Entry → ℕ
weight_share = share (λ e. e.weight)

abbrev pub entries : Preference → List Entry → ℕ
entries = share (λ e. 1)

share-insert_entry :
    (f : Entry → ℕ) (p : Preference) (e : Entry) (t : List Entry)
    → share f p (insert_entry e t) ≡ share f p (e ∷ t)
unfolding insert_entry
share-insert_entry f p e [] = refl
share-insert_entry f p e (g ∷ t) =
    let rest = share-insert_entry f p e t in
    elim (Bool-cases (outranks e g)) [
      | inl h ↦ rw (share, h) refl
      | inr h ↦ rw (share, h) (omega (arith, rest))
    ]

pub share-ranked :
    (f : Entry → ℕ) (p : Preference) (t : List Entry) → share f p (ranked t) ≡ share f p t
unfolding ranked
share-ranked f p [] = refl
share-ranked f p (e ∷ t) = omega (arith, share-ranked f p t, share-insert_entry f p e (ranked t))

total-insert_entry :
    (e : Entry) (t : List Entry) → total_weight (insert_entry e t) ≡ e.weight + total_weight t
unfolding insert_entry total_weight
total-insert_entry e [] = refl
total-insert_entry e (g ∷ t) =
    let rest = total-insert_entry e t in
    elim (Bool-cases (outranks e g)) [
      | inl h ↦ rw (total_weight, h) refl
      | inr h ↦ rw (total_weight, h) (omega (arith, rest))
    ]

pub total-ranked : (t : List Entry) → total_weight (ranked t) ≡ total_weight t
unfolding ranked total_weight
total-ranked [] = refl
total-ranked (e ∷ t) = omega (arith, total-ranked t, total-insert_entry e (ranked t))

-- The table has at most one entry of a preference.
abbrev pub IsTable : List Entry → Type 0
IsTable t = (p : Preference) → entries p t ≤ 1

-- The entry of a preference is added once; those of the others stay.
entries-add_vote_other :
    (p q : Preference) (w : ℕ) (t : List Entry)
    → same_preference p q ≡ false
    → entries p (add_vote q w t) ≡ entries p t
unfolding add_vote
entries-add_vote_other p q w [] h = rw (share, h) refl
entries-add_vote_other p q w (e ∷ t) h =
    let rest = entries-add_vote_other p q w t h in
    elim (Bool-cases (same_preference q e.preference)) [
      | inl g ↦ rw (share, g) refl
      | inr g ↦ rw (share, g) (omega (arith, rest))
    ]

entries-add_vote_same :
    (q : Preference) (w : ℕ) (t : List Entry) → entries q t ≤ 1 → entries q (add_vote q w t) ≤ 1
unfolding add_vote
entries-add_vote_same q w [] h = rw (share, same_preference_self q) (omega arith)
entries-add_vote_same q w (e ∷ t) h =
    let rest = entries-add_vote_same q w t in
    elim (Bool-cases (same_preference q e.preference)) [
      | inl g ↦ rw (share, g) (ground arith)
      | inr g ↦ rw (share, g) (ground (arith, rest))
    ]

share-add_vote :
    (p q : Preference) (w : ℕ) (t : List Entry)
    → weight_share p (add_vote q w t) ≡ (if same_preference p q then w else 0) + weight_share p t
unfolding add_vote
share-add_vote p q w [] = omega arith
share-add_vote p q w (e ∷ t) =
    let rest = share-add_vote p q w t in
    elim (Bool-cases (same_preference q e.preference)) [
      | inr h ↦ rw (share, h) (omega (arith, rest))
      | inl h ↦ rw (share, h, same_preference→eq q e.preference h) (ground arith)
    ]

pub tally-IsTable : (vs : List Vote) (t : List Entry) → IsTable t → IsTable (tally vs t)
unfolding tally
tally-IsTable [] t h = h
tally-IsTable (v ∷ vs) t h = tally-IsTable vs (add_vote v.0 v.1 t) (λ p.
    elim (Bool-cases (same_preference p v.0)) [
      | inl g ↦
          subst (λ q. entries q (add_vote v.0 v.1 t) ≤ 1) (sym (same_preference→eq p v.0 g))
            (entries-add_vote_same v.0 v.1 t (h v.0))
      | inr g ↦ subst (λ n. n ≤ 1) (sym (entries-add_vote_other p v.0 v.1 t g)) (h p)
    ])

pub share-tally :
    (p : Preference) (vs : List Vote) (t : List Entry)
    → weight_share p (tally vs t) ≡ weight_for p vs + weight_share p t
unfolding tally weight_for
share-tally p [] t = omega arith
share-tally p (v ∷ vs) t =
    omega (arith, share-tally p vs (add_vote v.0 v.1 t), share-add_vote p v.0 v.1 t)

total-add_vote :
    (q : Preference) (w : ℕ) (t : List Entry) → total_weight (add_vote q w t) ≡ w + total_weight t
unfolding add_vote total_weight
total-add_vote q w [] = omega arith
total-add_vote q w (e ∷ t) =
    let rest = total-add_vote q w t in
    elim (Bool-cases (same_preference q e.preference)) [
      | inr h ↦ rw (total_weight, h) (omega (arith, rest))
      | inl h ↦ rw (total_weight, h) (omega arith)
    ]

pub total-tally :
    (vs : List Vote) (t : List Entry) → total_weight (tally vs t) ≡ whole vs + total_weight t
unfolding tally whole
total-tally [] t = omega arith
total-tally (v ∷ vs) t =
    omega (arith, total-tally vs (add_vote v.0 v.1 t), total-add_vote v.0 v.1 t)

pub differs :
    (p q r : Preference)
    → same_preference p q ≡ false
    → same_preference p r ≡ true
    → same_preference q r ≡ false
differs p q r h g = elim (Bool-cases (same_preference q r)) [
  | inr f ↦ f
  | inl f ↦ absurd (
      ground (arith, h, same_preference→eq p r g, same_preference→eq q r f, same_preference_self p))
]

-- The entries of two preferences are different ones.
pub shares_apart :
    (p q : Preference) (t : List Entry)
    → same_preference p q ≡ false
    → weight_share p t + weight_share q t ≤ total_weight t
unfolding total_weight
shares_apart p q [] h = omega arith
shares_apart p q (e ∷ t) h =
    let rest = shares_apart p q t h in
    elim (Bool-cases (same_preference p e.preference)) [
      | inr g ↦ ground (arith, rest)
      | inl g ↦ let apart = differs p q e.preference h g in ground (arith, rest, apart)
    ]

no_share : (p : Preference) (t : List Entry) → entries p t ≤ 0 → weight_share p t ≡ 0
no_share p [] h = refl
no_share p (e ∷ t) h = let rest = no_share p t in ground (arith, rest)

pub share_bounded :
    (m : ℕ) (p : Preference) (t : List Entry)
    → All (λ e. e.weight ≤ m) t
    → entries p t ≤ 1
    → weight_share p t ≤ m
share_bounded m p [] a h = omega arith
share_bounded m p (e ∷ t) (b, a) h =
    let rest = share_bounded m p t a in
    let none_left = no_share p t in
    elim (Bool-cases (same_preference p e.preference)) [
      | inl g ↦ ground (arith, none_left)
      | inr g ↦ ground (arith, rest)
    ]

pub leader_share :
    (e : Entry) (t : List Entry)
    → entries e.preference (e ∷ t) ≤ 1
    → weight_share e.preference (e ∷ t) ≡ e.weight
leader_share e t h =
    let none_left = no_share e.preference t in
    let same = same_preference_self e.preference in ground (arith, none_left, same)
