-- ===== src/Fileops/Glob/Laws.antt =====
-- `matchDoubleGlob` decides a relation that says what the pattern means.
use lokifix.Fileops.Glob.{is_double_star, all_double_stars, any_suffix, match_double_glob}
use lokifix.Prelude.{
  ◌≡◌, refl, ◌↔◌, inl, inr, Bool, true, false, List, [], ◌∷◌, arith, Bool-cases, Bytes,
}

module _ (seg : Bytes → Bytes → Bool) where
  -- A segment of the pattern stands for one segment of the path that it matches; a double star
  -- stands for any number of segments, none too.
  pub data Matches : List Bytes → List Bytes → Type 0 where
    done : Matches [] []
    segment :
        {p s : Bytes} {ps ss : List Bytes}
        → is_double_star p ≡ false
        → seg p s ≡ true
        → Matches ps ss
        → Matches (p ∷ ps) (s ∷ ss)
    leave :
        {p : Bytes} {ps ss : List Bytes}
        → is_double_star p ≡ true
        → Matches ps ss
        → Matches (p ∷ ps) ss
    take_one :
        {p s : Bytes} {ps ss : List Bytes}
        → is_double_star p ≡ true
        → Matches (p ∷ ps) ss
        → Matches (p ∷ ps) (s ∷ ss)

  any_suffix_sound :
      (p : Bytes) (ps : List Bytes) (f : List Bytes → Bool) (ss : List Bytes)
      → is_double_star p ≡ true
      → ((ts : List Bytes) → f ts ≡ true → Matches ps ts)
      → any_suffix f ss ≡ true
      → Matches (p ∷ ps) ss
  unfolding any_suffix
  any_suffix_sound p ps f [] star h e = leave star (h [] e)
  any_suffix_sound p ps f (s ∷ ss) star h e = elim (Bool-cases (f (s ∷ ss))) [
    | inl now ↦ leave star (h (s ∷ ss) now)
    | inr later ↦ take_one star (any_suffix_sound p ps f ss star h (rw later at e))
  ]

  all_double_stars_sound : (ps : List Bytes) → all_double_stars ps ≡ true → Matches ps []
  unfolding all_double_stars
  all_double_stars_sound [] h = done
  all_double_stars_sound (p ∷ ps) h = elim (Bool-cases (is_double_star p)) [
    | inl e ↦ leave e (all_double_stars_sound ps (rw e at h))
    | inr e ↦ absurd (ground arith)
  ]

  any_segments : (p : Bytes) (ss : List Bytes) → is_double_star p ≡ true → Matches (p ∷ []) ss
  any_segments p [] h = leave h done
  any_segments p (s ∷ ss) h = take_one h (any_segments p ss h)

  match_sound : (ps ss : List Bytes) → match_double_glob seg ps ss ≡ true → Matches ps ss
  unfolding match_double_glob
  match_sound [] [] h = done
  match_sound [] (s ∷ ss) h = absurd (ground arith)
  match_sound (p ∷ ps) [] h = all_double_stars_sound (p ∷ ps) h
  match_sound (p ∷ []) (s ∷ ss) h = elim (Bool-cases (is_double_star p)) [
    | inl star ↦ any_segments p (s ∷ ss) star
    | inr plain ↦ elim (Bool-cases (seg p s)) [
      | inl fits ↦ segment plain fits (match_sound [] ss (rw (plain, fits) at h))
      | inr not_fits ↦ absurd (ground arith)
    ]
  ]
  match_sound (p ∷ q ∷ ps) (s ∷ ss) h = elim (Bool-cases (is_double_star p)) [
    | inl star ↦
        any_suffix_sound p (q ∷ ps) (match_double_glob seg (q ∷ ps)) (s ∷ ss) star
          (match_sound (q ∷ ps)) (rw star at h)
    | inr plain ↦ elim (Bool-cases (seg p s)) [
      | inl fits ↦ segment plain fits (match_sound (q ∷ ps) ss (rw (plain, fits) at h))
      | inr not_fits ↦ absurd (ground arith)
    ]
  ]

  any_suffix_here : (f : List Bytes → Bool) (ss : List Bytes) → f ss ≡ true → any_suffix f ss ≡ true
  unfolding any_suffix
  any_suffix_here f [] h = h
  any_suffix_here f (s ∷ ss) h = rw h

  any_suffix_later :
      (f : List Bytes → Bool) (s : Bytes) (ss : List Bytes)
      → any_suffix f ss ≡ true
      → any_suffix f (s ∷ ss) ≡ true
  unfolding any_suffix
  any_suffix_later f s ss h = ground arith

  match_complete : {ps ss : List Bytes} → Matches ps ss → match_double_glob seg ps ss ≡ true
  unfolding match_double_glob
  match_complete done = refl
  match_complete (segment {ps = []} plain fits m) = rw (plain, fits) (match_complete m)
  match_complete (segment {ps = q ∷ ps} plain fits m) = rw (plain, fits) (match_complete m)
  match_complete (leave {ps = []} {ss = []} star m) = rw star
  match_complete (leave {ps = []} {ss = s ∷ ss} star m) = rw star
  match_complete (leave {ps = q ∷ ps} {ss = []} star m) = rw star (match_complete m)
  match_complete (leave {ps = q ∷ ps} {ss = s ∷ ss} star m) =
      rw star (any_suffix_here (match_double_glob seg (q ∷ ps)) (s ∷ ss) (match_complete m))
  match_complete (take_one {ps = []} {ss = ss} star m) = rw star
  match_complete (take_one {s = s} {ps = q ∷ ps} {ss = []} star m) =
      rw star
        (any_suffix_later (match_double_glob seg (q ∷ ps)) s [] (rw star at (match_complete m)))
  match_complete (take_one {s = s} {ps = q ∷ ps} {ss = s' ∷ ss} star m) = rw star (
      any_suffix_later (match_double_glob seg (q ∷ ps)) s (s' ∷ ss) (rw star at (match_complete m)))

  -- `matchDoubleGlob` answers true exactly on the paths that the pattern stands for.
  pub match_double_glob_iff :
      (ps ss : List Bytes) → (match_double_glob seg ps ss ≡ true) ↔ Matches ps ss
  match_double_glob_iff ps ss = (match_sound ps ss, match_complete)
