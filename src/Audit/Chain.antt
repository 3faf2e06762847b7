-- ===== src/Audit/Chain.antt =====
-- The chain of hashes: what the last hash says of all that was logged before it.
use lokifix.Audit.{Logger, Clock, log, make_entry, hash_input, short_hash, hex}
use lokifix.Prelude.{
  ℕ, ◌*◌, ◌≡◌, refl, sym, ap, ◌∙◌, ◌≢◌, ◌⊎◌, inl, inr, List, [], ◌∷◌, ◌++◌, map, arith, Bool-cases,
  length, length-take, Bytes, eq_bytes, eq_bytes_iff, eq_bytes→eq,
}

-- The arguments of one call of `Log`, with its time.
pub record Event : Type 0 where
  pub time : ℕ
  pub action : Bytes
  pub detail : Bytes
  pub outcome : Bytes

append_split :
    (xs us ys vs : Bytes) → length xs ≡ length us → xs ++ ys ≡ us ++ vs → (xs ≡ us) × (ys ≡ vs)
append_split [] [] ys vs h e = (refl, e)
append_split [] (u ∷ us) ys vs h e = absurd (omega arith)
append_split (x ∷ xs) [] ys vs h e = absurd (omega arith)
append_split (x ∷ xs) (u ∷ us) ys vs h e =
    let (p, q) = append_split xs us ys vs (omega arith) (cc e) in (cc (e, p), q)

length-hex : (s : Bytes) → length (hex s) ≡ 2 * length s
unfolding hex
length-hex [] = refl
length-hex (c ∷ s) = let ih = length-hex s in omega arith

module _ (hash : Bytes → Bytes) (clock : Clock) where
  -- The logger after the events; the last of them stands first in the list.
  unfoldable pub after_events : Logger → List Event → Logger
  unfolding log
  after_events l [] = l
  after_events l (e ∷ es) = log hash clock e.time e.action e.detail e.outcome (after_events l es)

  -- What an event adds to the hash of the one before: all of it, the detail in full.
  abbrev pub text_of : Event → Bytes
  text_of e = clock.nano e.time ++ b'|' ∷ (e.action ++ b'|' ∷ (e.detail ++ b'|' ∷ e.outcome))

  -- The text that is hashed for an event after the earlier ones.
  abbrev pub hashed : Logger → Event → List Event → Bytes
  hashed l e es = (after_events l es).prev_hash ++ b'|' ∷ text_of e

  -- At one place in the two histories, different texts were hashed and gave the same short hash.
  abbrev pub Collision : Logger → List Event → List Event → Type 0
  Collision l [] fs = ⊥
  Collision l (e ∷ es) [] = ⊥
  Collision l (e ∷ es) (f ∷ fs) =
      ((hashed l e es ≢ hashed l f fs)
        × (short_hash hash (hashed l e es) ≡ short_hash hash (hashed l f fs)))
      ⊎ Collision l es fs

  prev_hash-step :
      (l : Logger) (e : Event) (es : List Event)
      → (after_events l (e ∷ es)).prev_hash
        ≡ short_hash hash ((after_events l es).prev_hash ++ b'|' ∷ text_of e)
  unfolding after_events log make_entry hash_input
  prev_hash-step l e es = refl

  length-short_hash :
      ((s : Bytes) → length (hash s) ≡ 32) → (s : Bytes) → length (short_hash hash s) ≡ 16
  unfolding short_hash
  length-short_hash size s =
      let digits = length-hex (hash s) in
      let bytes = size s in let taken = length-take 16 (hex (hash s)) in omega arith

  prev_hash-length :
      ((s : Bytes) → length (hash s) ≡ 32)
      → (l : Logger) (es fs : List Event) → length es ≡ length fs
      → length (after_events l es).prev_hash ≡ length (after_events l fs).prev_hash
  prev_hash-length size l [] [] h = refl
  prev_hash-length size l [] (f ∷ fs) h = absurd (omega arith)
  prev_hash-length size l (e ∷ es) [] h = absurd (omega arith)
  prev_hash-length size l (e ∷ es) (f ∷ fs) h =
      ap length (prev_hash-step l e es)
      ∙ length-short_hash size _
      ∙ sym (length-short_hash size _)
      ∙ sym (ap length (prev_hash-step l f fs))

  -- Two logs of equally many events that began alike and end in the same hash have told the same
  -- texts, the details in full, or else at one place in them two different texts were hashed to the
  -- same short hash.
  pub log_determined :
      ((s : Bytes) → length (hash s) ≡ 32)
      → (l : Logger) (es fs : List Event) → length es ≡ length fs
      → (after_events l es).prev_hash ≡ (after_events l fs).prev_hash
      → (map text_of es ≡ map text_of fs) ⊎ Collision l es fs
  log_determined size l [] [] h e = inl refl
  log_determined size l [] (f ∷ fs) h e = absurd (omega arith)
  log_determined size l (e ∷ es) [] h q = absurd (omega arith)
  log_determined size l (e ∷ es) (f ∷ fs) h q =
      let same = sym (prev_hash-step l e es) ∙ q ∙ prev_hash-step l f fs in
      elim (Bool-cases (eq_bytes (hashed l e es) (hashed l f fs))) [
        | inr c ↦ inr (
            inl (
              λ t. absurd (ground (arith, (eq_bytes_iff (hashed l e es) (hashed l f fs)).1 t, c)),
              same,
            ))
        | inl c ↦
            let (before, now) =
              append_split (after_events l es).prev_hash (after_events l fs).prev_hash
                (b'|' ∷ text_of e) (b'|' ∷ text_of f) (prev_hash-length size l es fs (omega arith))
                (eq_bytes→eq (hashed l e es) (hashed l f fs) c) in
            elim (log_determined size l es fs (omega arith) before) [
              | inr clash ↦ inr (inr clash)
              | inl rest ↦ inl (cc (now, rest))
            ]
      ]
