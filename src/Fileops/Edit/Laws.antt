-- ===== src/Fileops/Edit/Laws.antt =====
-- What an edit does to the text: the occurrences that are replaced, and everything around them.
use lokifix.Fileops.Edit.{count_from, replace_from}
use lokifix.Prelude.{
  ℕ, zero, suc, ◌-◌, ◌≤◌, ◌<◌, ◌≡◌, refl, ap, ◌∙◌, ◌≢◌, inl, inr, true, false, List, [], ◌∷◌, ◌++◌,
  arith, lt→ltb, Bool-cases, length, length-append, Bytes, has_prefix, has_prefix_sound,
  has_prefix_complete,
}

module _ (o : ℕ) (os : Bytes) where
  abbrev old : Bytes
  old = o ∷ os

  count_from_skip : (t s : Bytes) → count_from old (length t) (t ++ s) ≡ count_from old 0 s
  unfolding count_from
  count_from_skip [] s = refl
  count_from_skip (x ∷ t) s = count_from_skip t s

  replace_from_skip :
      (new t s : Bytes) (n : ℕ)
      → replace_from old new n (length t) (t ++ s) ≡ replace_from old new n 0 s
  unfolding replace_from
  replace_from_skip new [] s n = refl
  replace_from_skip new (x ∷ t) s n = replace_from_skip new t s n

  length-old : length old - 1 ≡ length os
  length-old = omega arith

  -- At an occurrence.
  count_from_hit : (s : Bytes) → count_from old 0 (old ++ s) ≡ suc (count_from old 0 s)
  unfolding count_from
  count_from_hit s = rw (has_prefix_complete old s, length-old, count_from_skip os s) (omega arith)

  replace_from_hit :
      (new s : Bytes) (n : ℕ)
      → replace_from old new (suc n) 0 (old ++ s) ≡ new ++ replace_from old new n 0 s
  unfolding replace_from
  replace_from_hit new s n =
      let one : suc n - 1 ≡ n = omega arith in
      let positive = lt→ltb 0 (suc n) (omega arith) in
      rw (has_prefix_complete old s, positive, length-old, one, replace_from_skip new os s n)

  -- At any other byte.
  count_from_miss :
      (c : ℕ) (s : Bytes)
      → has_prefix (c ∷ s) old ≡ false
      → count_from old 0 (c ∷ s) ≡ count_from old 0 s
  unfolding count_from
  count_from_miss c s h = rw h (omega arith)

  replace_from_miss :
      (new s : Bytes) (n c : ℕ)
      → has_prefix (c ∷ s) old ≡ false
      → replace_from old new n 0 (c ∷ s) ≡ c ∷ replace_from old new n 0 s
  unfolding replace_from
  replace_from_miss new s n c h = rw h

-- The pieces `p` and `ps` with a text between each two.
abbrev pub glue : Bytes → Bytes → List Bytes → Bytes
glue sep p [] = p
glue sep p (q ∷ qs) = p ++ (sep ++ glue sep q qs)

-- The pieces stand between the occurrences as they are found from the left: each ends where the
-- first occurrence from its start on begins, and the last one has none.
abbrev pub Leftmost : Bytes → Bytes → List Bytes → Type 0
Leftmost sep p [] = (a b : Bytes) → p ≢ a ++ (sep ++ b)
Leftmost sep p (q ∷ qs) =
    ((a b : Bytes) → glue sep p (q ∷ qs) ≡ a ++ (sep ++ b) → length p ≤ length a)
    × Leftmost sep q qs

-- What `Count` and `Replace` see in a text: the pieces between the occurrences.
pub record Pieces (old s : Bytes) : Type 0 where
  pub first : Bytes
  pub rest : List Bytes
  pub whole : s ≡ glue old first rest
  pub leftmost : Leftmost old first rest
  pub counted : count_from old 0 s ≡ length rest
  pub replaced : (new : Bytes) → replace_from old new (length rest) 0 s ≡ glue new first rest

module _ (o : ℕ) (os : Bytes) where
  Pieces-hit : (s t : Bytes) → t ≡ (o ∷ os) ++ s → Pieces (o ∷ os) s → Pieces (o ∷ os) t
  Pieces-hit s t e ps = record {
    first = [];
    rest = ps.first ∷ ps.rest;
    whole = e ∙ ap (λ r. (o ∷ os) ++ r) ps.whole;
    leftmost = (λ a b found. omega arith, ps.leftmost);
    counted = rw e (count_from_hit o os s ∙ ap suc ps.counted);
    replaced = λ new.
        rw e (replace_from_hit o os new s (length ps.rest) ∙ ap (λ r. new ++ r) (ps.replaced new));
  }

  glue-cons : (c : ℕ) (sep p : Bytes) (ps : List Bytes) → c ∷ glue sep p ps ≡ glue sep (c ∷ p) ps
  glue-cons c sep p [] = refl
  glue-cons c sep p (q ∷ qs) = refl

  -- An occurrence behind a byte at which there is none.
  behind :
      (c : ℕ) (s a b : Bytes)
      → has_prefix (c ∷ s) (o ∷ os) ≡ false
      → c ∷ s ≡ a ++ ((o ∷ os) ++ b)
      → (a' : Bytes) × (length a ≡ suc (length a')) × (s ≡ a' ++ ((o ∷ os) ++ b))
  behind c s [] b h e =
      let hit : has_prefix (c ∷ s) (o ∷ os) ≡ true = rw e (has_prefix_complete (o ∷ os) b) in
      absurd (cc (h, hit))
  behind c s (x ∷ a) b h e = (a, refl, cc e)

  Leftmost-miss :
      (c : ℕ) (p : Bytes) (ps : List Bytes)
      → has_prefix (c ∷ glue (o ∷ os) p ps) (o ∷ os) ≡ false
      → Leftmost (o ∷ os) p ps
      → Leftmost (o ∷ os) (c ∷ p) ps
  Leftmost-miss c p [] h l = λ a b e. let (a', _, e') = behind c p a b h e in l a' b e'
  Leftmost-miss c p (q ∷ qs) h l = (
    λ a b e.
        let (a', n, e') = behind c (glue (o ∷ os) p (q ∷ qs)) a b h e in
        let shorter = l.0 a' b e' in omega arith,
    l.1,
  )

  no_occurrence : (a b : Bytes) → [] ≢ a ++ ((o ∷ os) ++ b)
  no_occurrence [] b e = cc e
  no_occurrence (x ∷ a) b e = cc e

  Pieces-miss :
      (c : ℕ) (s : Bytes)
      → has_prefix (c ∷ s) (o ∷ os) ≡ false
      → Pieces (o ∷ os) s
      → Pieces (o ∷ os) (c ∷ s)
  Pieces-miss c s h ps = record {
    first = c ∷ ps.first;
    rest = ps.rest;
    whole = ap (λ r. c ∷ r) ps.whole ∙ glue-cons c (o ∷ os) ps.first ps.rest;
    leftmost = Leftmost-miss c ps.first ps.rest (rw ps.whole at h) ps.leftmost;
    counted = count_from_miss o os c s h ∙ ps.counted;
    replaced = λ new.
        replace_from_miss o os new s (length ps.rest) c h
        ∙ ap (λ r. c ∷ r) (ps.replaced new)
        ∙ glue-cons c new ps.first ps.rest;
  }

  Pieces-below : (n : ℕ) (s : Bytes) → length s < n → Pieces (o ∷ os) s
  Pieces-below zero s h = absurd (omega arith)
  Pieces-below (suc n) [] h = record {
    first = [];
    rest = [];
    whole = refl;
    leftmost = λ a b found. absurd (no_occurrence a b found);
    counted = unfold count_from in refl;
    replaced = λ new. unfold replace_from in refl;
  }
  Pieces-below (suc n) (c ∷ s) h = elim (Bool-cases (has_prefix (c ∷ s) (o ∷ os))) [
    | inl hit ↦
        let (rest, e) = has_prefix_sound (c ∷ s) (o ∷ os) hit in
        let shorter = ap length e ∙ length-append (o ∷ os) rest in
        Pieces-hit rest (c ∷ s) e (Pieces-below n rest (omega arith))
    | inr miss ↦ Pieces-miss c s miss (Pieces-below n s (omega arith))
  ]

-- Every text is cut into such pieces by a text that is not empty.
pub Pieces-all : (old s : Bytes) → old ≢ [] → Pieces old s
Pieces-all [] s h = absurd (h refl)
Pieces-all (o ∷ os) s h = Pieces-below o os (suc (length s)) s (omega arith)
