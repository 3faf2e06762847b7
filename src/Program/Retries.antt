-- ===== src/Program/Retries.antt =====
-- How long the agent goes on trying.
use lokifix.Program.{
  Attempt, refused, lost, closed, Step, connect, wait, given_up, Ending, go_on, keep_token,
  connect_and_run,
}
use lokifix.Prelude.{
  ℕ, zero, suc, ◌+◌, ◌*◌, ◌≤◌, ◌≡◌, refl, sym, ap, ◌∙◌, ◌≢◌, inl, inr, false, List, [], ◌∷◌, ◌++◌,
  append_assoc, arith, ltb, Bool-cases, replicate, All, Bytes,
}

unfoldable pub losses : List Attempt → ℕ
losses [] = 0
losses (refused ∷ more) = losses more
losses (lost t ∷ more) = suc (losses more)
losses (closed t ∷ more) = losses more

unfoldable pub connects : List Step → ℕ
connects [] = 0
connects (connect t ∷ steps) = suc (connects steps)
connects (wait n ∷ steps) = connects steps

abbrev pub ShortWait : Step → Type 0
ShortWait (connect t) = Unit
ShortWait (wait n) = n ≤ 10

connects-bound :
    (r : ℕ) (s : Bytes) (attempts : List Attempt)
    → r ≤ 5
    → connects (connect_and_run r s attempts).0 + r ≤ 6 * (losses attempts + 1)
unfolding connect_and_run connects losses
connects-bound r s [] h = omega arith
connects-bound r s (refused ∷ more) h = elim (Bool-cases (ltb 5 (r + 1))) [
  | inl e ↦ rw e (omega arith)
  | inr e ↦
      let small : r + 1 ≤ 5 = ground (arith, e) in
      let rest = connects-bound (r + 1) s more small in rw e (omega arith)
]
connects-bound r s (lost t ∷ more) h =
    let rest = connects-bound 0 (keep_token s t) more (omega arith) in omega arith
connects-bound r s (closed t ∷ more) h = omega arith

waits-short :
    (r : ℕ) (s : Bytes) (attempts : List Attempt)
    → r ≤ 5
    → All ShortWait (connect_and_run r s attempts).0
unfolding connect_and_run
waits-short r s [] h = tt
waits-short r s (refused ∷ more) h = elim (Bool-cases (ltb 5 (r + 1))) [
  | inl e ↦ rw e (tt, tt)
  | inr e ↦
      let small : r + 1 ≤ 5 = ground (arith, e) in
      let short : (r + 1) * 2 ≤ 10 = omega arith in
      rw e (tt, (short, waits-short (r + 1) s more small))
]
waits-short r s (lost t ∷ more) h =
    (tt, (omega arith, waits-short 0 (keep_token s t) more (omega arith)))
waits-short r s (closed t ∷ more) h = (tt, tt)

-- The agent makes at most six attempts for its start and for every connection that was lost, and
-- waits for at most ten seconds before each.
pub connect_and_run_bounds :
    (s : Bytes) (attempts : List Attempt)
    → (connects (connect_and_run 0 s attempts).0 ≤ 6 * (losses attempts + 1))
      × All ShortWait (connect_and_run 0 s attempts).0
connect_and_run_bounds s attempts =
    let bound = connects-bound 0 s attempts (omega arith) in
    (omega arith, waits-short 0 s attempts (omega arith))

-- The attempts with a session token that fail in a row, each with the wait behind it, of which
-- `r` have failed before.
abbrev pub tries : ℕ → ℕ → Bytes → List Step
tries r zero s = []
tries r (suc k) s = connect s ∷ wait ((r + 1) * 2) ∷ tries (r + 1) k s

go_on-go_on :
    (xs ys : List Step) (r : List Step × Ending) → go_on xs (go_on ys r) ≡ go_on (xs ++ ys) r
go_on-go_on xs ys (zs, e) = ap (λ l. (l, e)) (sym (append_assoc xs ys zs))

keep_token-some : (s t : Bytes) → t ≢ [] → keep_token s t ≡ t
unfolding keep_token
keep_token-some s [] h = absurd (h refl)
keep_token-some s (c ∷ t) h = refl

-- What is done after some failures in a row.
after_refused :
    (k r : ℕ) (s : Bytes) (more : List Attempt)
    → r + k ≤ 5
    → connect_and_run r s (replicate k refused ++ more)
      ≡ go_on (tries r k s) (connect_and_run (r + k) s more)
unfolding connect_and_run
after_refused zero r s more h = let same : r + 0 ≡ r = omega arith in rw same refl
after_refused (suc k) r s more h =
    let on : ltb 5 (r + 1) ≡ false = ground arith in
    let same : r + 1 + k ≡ r + suc k = omega arith in
    let rest = after_refused k (r + 1) s more (omega arith) in
    rw on (
      ap (go_on (connect s ∷ wait ((r + 1) * 2) ∷ [])) rest
      ∙ ap (λ n. go_on (tries r (suc k) s) (connect_and_run n s more)) same)

lost_after_refused :
    (k : ℕ) (s t : Bytes) (more : List Attempt)
    → k ≤ 5
    → connect_and_run 0 s (replicate k refused ++ lost t ∷ more)
      ≡ go_on (tries 0 k s ++ connect s ∷ wait 2 ∷ []) (connect_and_run 0 (keep_token s t) more)
unfolding connect_and_run
lost_after_refused k s t more h =
    after_refused k 0 s (lost t ∷ more) (omega arith)
    ∙ go_on-go_on (tries 0 k s) (connect s ∷ wait 2 ∷ []) (connect_and_run 0 (keep_token s t) more)

-- Up to five failures in a row are forgotten once a connection is made, even if that is lost again:
-- the agent has made an attempt for each with its session token and waited two seconds longer each
-- time, and from there it does what an agent does that has just started with the token of that
-- connection, or with the one before if that is empty. The sixth failure in a row ends it.
pub connect_and_run_patience :
    (k : ℕ) (s t : Bytes) (more : List Attempt)
    → k ≤ 5
    → (t ≢ []
        → connect_and_run 0 s (replicate k refused ++ lost t ∷ more)
          ≡ go_on (tries 0 k s ++ connect s ∷ wait 2 ∷ []) (connect_and_run 0 t more))
      × (connect_and_run 0 s (replicate k refused ++ lost [] ∷ more)
          ≡ go_on (tries 0 k s ++ connect s ∷ wait 2 ∷ []) (connect_and_run 0 s more))
      × (connect_and_run 0 s (replicate 6 refused ++ more)
          ≡ (tries 0 5 s ++ connect s ∷ [], given_up))
unfolding connect_and_run keep_token
connect_and_run_patience k s t more h = (
  λ some_token. lost_after_refused k s t more h ∙ rw (keep_token-some s t some_token) refl,
  lost_after_refused k s [] more h,
  after_refused 5 0 s (refused ∷ more) (omega arith),
)
