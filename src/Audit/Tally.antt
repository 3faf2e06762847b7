-- ===== src/Audit/Tally.antt =====
-- What the counts of the session report say of the log.
use lokifix.Dict
use lokifix.Audit.{Entry, Logger, Clock, left_justified}
use lokifix.Audit.Report.{
  Counts, or_zero, count_at, count_actions, action_rows, row, summary_head, summary_tail,
  session_summary,
}
use lokifix.Prelude.{
  ℕ, ◌+◌, ◌≡◌, ◌≢◌, refl, ◌||◌, ◌++◌, All, codes, show_nat, ap, inl, inr, true, none, some, List,
  [], ◌∷◌, arith, if◌then◌else◌, Bool-cases, length, Bytes, eq_bytes, eq_bytes_refl, eq_bytes→eq,
}

-- How many entries have the action.
unfoldable pub occurrences : Bytes → List Entry → ℕ
occurrences a [] = 0
occurrences a (e ∷ es) = (if eq_bytes e.action a then 1 else 0) + occurrences a es

-- All the counts together.
unfoldable pub total : Counts → ℕ
total [] = 0
total ((a, n) ∷ m) = n + total m

-- Each key stands once.
abbrev Distinct : Counts → Type 0
Distinct [] = Unit
Distinct ((a, n) ∷ m) = (Dict.lookup a m ≡ none) × Distinct m

remove_absent : (a : Bytes) (m : Counts) → Dict.lookup a m ≡ none → Dict.remove a m ≡ m
unfolding Dict.lookup Dict.remove
remove_absent a [] h = refl
remove_absent a ((b, n) ∷ m) h = elim (Bool-cases (eq_bytes b a)) [
  | inl e ↦ let found : some n ≡ none = rw e at h in absurd (cc found)
  | inr e ↦ rw e (ap (λ r. (b, n) ∷ r) (remove_absent a m (rw e at h)))
]

total-remove :
    (a : Bytes) (m : Counts) → Distinct m → total (Dict.remove a m) + count_at a m ≡ total m
unfolding Dict.lookup Dict.remove total or_zero
total-remove a [] d = refl
total-remove a ((b, n) ∷ m) d = elim (Bool-cases (eq_bytes b a)) [
  | inl e ↦
      let same : b ≡ a = eq_bytes→eq b a e in
      let once : Dict.remove a m ≡ m = remove_absent a m (rw same at d.0) in
      rw (e, once) (omega arith)
  | inr e ↦ rw e (omega (arith, total-remove a m d.1))
]

lookup-remove-none :
    (a b : Bytes) (m : Counts) → Dict.lookup b m ≡ none → Dict.lookup b (Dict.remove a m) ≡ none
unfolding Dict.lookup Dict.remove
lookup-remove-none a b [] h = refl
lookup-remove-none a b ((c, n) ∷ m) h = ground (arith, lookup-remove-none a b m)

remove-Distinct : (a : Bytes) (m : Counts) → Distinct m → Distinct (Dict.remove a m)
unfolding Dict.remove
remove-Distinct a [] d = tt
remove-Distinct a ((b, n) ∷ m) d = elim (Bool-cases (eq_bytes b a)) [
  | inl e ↦ rw e (remove-Distinct a m d.1)
  | inr e ↦ rw e (lookup-remove-none a b m d.0, remove-Distinct a m d.1)
]

insert-Distinct : (a : Bytes) (k : ℕ) (m : Counts) → Distinct m → Distinct (Dict.insert a k m)
unfolding Dict.insert
insert-Distinct a k m d = (Dict.lookup-remove_self a m, remove-Distinct a m d)

count_at-bumped :
    (a b : Bytes) (m : Counts)
    → b ≡ a
    → count_at a (Dict.insert b (count_at b m + 1) m) ≡ count_at a m + 1
unfolding or_zero
count_at-bumped a b m same = rw (same, Dict.lookup-insert_self a (count_at a m + 1) m) refl

count_actions-at :
    (a : Bytes) (es : List Entry) (m : Counts)
    → count_at a (count_actions m es) ≡ count_at a m + occurrences a es
unfolding count_actions occurrences
count_actions-at a [] m = omega arith
count_actions-at a (e ∷ es) m =
    let bumped = Dict.insert e.action (count_at e.action m + 1) m in
    let next = count_actions-at a es bumped in
    elim (Bool-cases (eq_bytes e.action a)) [
      | inl q ↦
          let one_more : count_at a bumped ≡ count_at a m + 1 =
            count_at-bumped a e.action m (eq_bytes→eq e.action a q) in
          rw q (omega (arith, next, one_more))
      | inr q ↦
          let same : count_at a bumped ≡ count_at a m = ap or_zero (
            Dict.lookup-insert_ne e.action a (count_at e.action m + 1) m (λ s.
              let equal : eq_bytes e.action a ≡ true = rw s (eq_bytes_refl a) in
              absurd (cc (q, equal)))) in
          rw q (omega (arith, next, same))
    ]

count_actions-total :
    (es : List Entry) (m : Counts) → Distinct m → total (count_actions m es) ≡ total m + length es
unfolding count_actions
count_actions-total [] m d = omega arith
count_actions-total (e ∷ es) m d =
    let bumped = Dict.insert e.action (count_at e.action m + 1) m in
    let rest =
      count_actions-total es bumped (insert-Distinct e.action (count_at e.action m + 1) m d) in
    let once : total bumped ≡ total m + 1 =
      unfold Dict.insert total in omega (arith, total-remove e.action m d) in
    omega (arith, rest, once)

-- The actions of the report.
abbrev pub actions_of : Counts → List Bytes
actions_of [] = []
actions_of ((a, n) ∷ m) = a ∷ actions_of m

-- No action stands twice.
abbrev pub IsNodup : List Bytes → Type 0
IsNodup [] = Unit
IsNodup (a ∷ bs) = All (λ b. a ≢ b) bs × IsNodup bs

-- The lines of the report for these actions: each with the number of its entries, but for the start
-- and the end of the session.
unfoldable pub rows_of : List Entry → List Bytes → Bytes
rows_of es [] = []
rows_of es (a ∷ bs) =
    (if eq_bytes a (codes "SESSION_START") || eq_bytes a (codes "SESSION_END")
      then []
      else row (codes "    " ++ (left_justified 20 a ++ b' ' ∷ show_nat (occurrences a es))))
    ++ rows_of es bs

-- The number of entries with one of these actions.
unfoldable pub sum_of : List Entry → List Bytes → ℕ
sum_of es [] = 0
sum_of es (a ∷ bs) = occurrences a es + sum_of es bs

absent-ne : (a : Bytes) (m : Counts) → Dict.lookup a m ≡ none → All (λ b. a ≢ b) (actions_of m)
unfolding Dict.lookup
absent-ne a [] h = tt
absent-ne a ((b, n) ∷ m) h = elim (Bool-cases (eq_bytes b a)) [
  | inl e ↦ let found : some n ≡ none = rw e at h in absurd (cc found)
  | inr e ↦ (
    λ s. let equal : eq_bytes b a ≡ true = rw s (eq_bytes_refl b) in absurd (cc (e, equal)),
    absent-ne a m (rw e at h),
  )
]

Distinct-IsNodup : (m : Counts) → Distinct m → IsNodup (actions_of m)
Distinct-IsNodup [] d = tt
Distinct-IsNodup ((a, n) ∷ m) d = (absent-ne a m d.0, Distinct-IsNodup m d.1)

-- What stands at an action in a table is the number of its entries.
abbrev Counted : List Entry → Counts → Type 0
Counted es m = (a : Bytes) (n : ℕ) → Dict.lookup a m ≡ some n → n ≡ occurrences a es

Counted-head :
    (es : List Entry) (a : Bytes) (n : ℕ) (m : Counts)
    → Counted es ((a, n) ∷ m)
    → n ≡ occurrences a es
unfolding Dict.lookup
Counted-head es a n m c = c a n (rw (eq_bytes_refl a) refl)

Counted-tail :
    (es : List Entry) (a : Bytes) (n : ℕ) (m : Counts)
    → Dict.lookup a m ≡ none
    → Counted es ((a, n) ∷ m)
    → Counted es m
unfolding Dict.lookup
Counted-tail es a n m absent c b k h = elim (Bool-cases (eq_bytes a b)) [
  | inl e ↦
      let same : Dict.lookup b m ≡ none = rw (← eq_bytes→eq a b e) absent in absurd (cc (h, same))
  | inr e ↦ c b k (rw e h)
]

action_rows-rows_of :
    (es : List Entry) (m : Counts)
    → Distinct m
    → Counted es m
    → (action_rows m ≡ rows_of es (actions_of m)) × (total m ≡ sum_of es (actions_of m))
unfolding action_rows rows_of total sum_of
action_rows-rows_of es [] d c = (refl, refl)
action_rows-rows_of es ((a, n) ∷ m) d c =
    let (rows, sum) = action_rows-rows_of es m d.1 (Counted-tail es a n m d.0 c) in
    let here = Counted-head es a n m c in
    (
      elim (Bool-cases (eq_bytes a (codes "SESSION_START") || eq_bytes a (codes "SESSION_END"))) [
        | inl e ↦ rw e rows
        | inr e ↦
            rw (e, here)
              (ap
                (λ r.
                  row (codes "    " ++ (left_justified 20 a ++ b' ' ∷ show_nat (occurrences a es)))
                  ++ r)
                rows)
      ],
      omega (arith, sum, here),
    )

count_actions-Distinct : (es : List Entry) (m : Counts) → Distinct m → Distinct (count_actions m es)
unfolding count_actions
count_actions-Distinct [] m d = d
count_actions-Distinct (e ∷ es) m d =
    count_actions-Distinct es (Dict.insert e.action (count_at e.action m + 1) m)
      (insert-Distinct e.action (count_at e.action m + 1) m d)

count_actions-Counted : (es : List Entry) → Counted es (count_actions [] es)
unfolding or_zero
count_actions-Counted es a n h =
    let at : or_zero (Dict.lookup a (count_actions [] es)) ≡ n = ap or_zero h in
    let counted = count_actions-at a es [] in
    unfold Dict.lookup or_zero in omega (arith, at, counted)

-- The session report has a line for each of some actions but the start and the end of the session,
-- with the number of the log's entries that have it. None of these actions stands twice, and each
-- entry has one of them: their numbers add up to all the entries.
pub session_summary_lem :
    (clock : Clock) (file_path : Bytes) (now : ℕ) (l : Logger)
    → (actions : List Bytes) × IsNodup actions
      × (sum_of l.entries actions ≡ length l.entries)
      × (before : Bytes) × (after : Bytes) × (session_summary clock file_path now l
          ≡ before ++ (rows_of l.entries actions ++ after))
unfolding session_summary
session_summary_lem clock file_path now l =
    let m = count_actions [] l.entries in
    let distinct = count_actions-Distinct l.entries [] tt in
    let (rows, sum) = action_rows-rows_of l.entries m distinct (count_actions-Counted l.entries) in
    (
      actions_of m,
      Distinct-IsNodup m distinct,
      unfold total in omega (arith, sum, count_actions-total l.entries [] tt),
      summary_head clock now l,
      summary_tail file_path l,
      ap (λ r. summary_head clock now l ++ (r ++ summary_tail file_path l)) rows,
    )
