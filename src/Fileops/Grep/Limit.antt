-- ===== src/Fileops/Grep/Limit.antt =====
-- The head limit of `GrepFile`: what the lists of results are, and how long they get.
use lokifix.Prelude.Int.{ℤ, pos, pos_part}
use lokifix.Protocol.Message.{GrepMatch}
use lokifix.Fileops.Grep.{
  Visit, GrepOptions, entries, range_entries, context_start, context_end, match_entries, grep_lines,
  grep_content_loop, grep_visit, searched, collect, file_hit, file_count,
}
use lokifix.Prelude.{
  ℕ, zero, suc, ◌+◌, ◌-◌, ◌≤◌, ◌<◌, ◌≡◌, refl, sym, ap, ◌∙◌, inl, inr, Bool, true, false, Option,
  none, some, List, [], ◌∷◌, ◌++◌, append-nil, append_assoc, arith, leb, if◌then◌else◌, Bool-cases,
  length, length-append, take, drop, length-take, take-append, take_all, take_nil, nil_of_length,
  Bytes,
}

length-entries : (path : Bytes) (n : ℕ) (ls : List Bytes) → length (entries path n ls) ≡ length ls
unfolding entries
length-entries path n [] = refl
length-entries path n (l ∷ ls) = ap suc (length-entries path (n + 1) ls)

length-range_entries :
    (path : Bytes) (lines : List Bytes) (from to : ℕ)
    → length (range_entries path lines from to) ≤ to - from
unfolding range_entries
length-range_entries path lines from to = omega (
  arith,
  length-entries path from (take (to - from) (drop from lines)),
  length-take (to - from) (drop from lines),
)

module _ (b : ℕ) (behind : ℤ) where
  -- A match with its context.
  abbrev pub widest : ℕ
  widest = b + 1 + pos_part behind

  context_start-le : (i : ℕ) → i - context_start (pos b) i ≤ b
  unfolding context_start
  context_start-le i = ground arith

  context_end-le : (i n : ℕ) → context_end behind i n - (i + 1) ≤ pos_part behind
  unfolding context_end
  context_end-le i n = ground arith

  length-match_entries :
      (path : Bytes) (lines : List Bytes) (i : ℕ) (l : Bytes)
      → length (match_entries path (pos b) behind lines i l) ≤ widest
  unfolding match_entries
  length-match_entries path lines i l = omega (
    arith,
    length-append (range_entries path lines (context_start (pos b) i) i) (
        record { file = path; line = i + 1; content = l }
        ∷ range_entries path lines (i + 1) (context_end behind i (length lines))),
    length-range_entries path lines (context_start (pos b) i) i,
    length-range_entries path lines (i + 1) (context_end behind i (length lines)),
    context_start-le i,
    context_end-le i (length lines),
  )

module _ (re : Bytes → Bool) where
  -- The lines of a file that match, from line `i` on.
  unfoldable pub hits : Bytes → ℕ → List Bytes → List GrepMatch
  hits path i [] = []
  hits path i (l ∷ ls) =
      (if re l then record { file = path; line = i + 1; content = l } ∷ [] else [])
      ++ hits path (i + 1) ls

module _ (re : Bytes → Bool) (path : Bytes) (lines : List Bytes) where
  -- Without context a match adds itself.
  match_entries_alone :
      (i : ℕ) (l : Bytes)
      → match_entries path (pos 0) (pos 0) lines i l
        ≡ record { file = path; line = i + 1; content = l } ∷ []
  unfolding match_entries
  match_entries_alone i l =
      let start = context_start-le 0 (pos 0) i in
      let stop = context_end-le 0 (pos 0) i (length lines) in
      let first = range_entries path lines (context_start (pos 0) i) i in
      let last = range_entries path lines (i + 1) (context_end (pos 0) i (length lines)) in
      let above = length-range_entries path lines (context_start (pos 0) i) i in
      let below = length-range_entries path lines (i + 1) (context_end (pos 0) i (length lines)) in
      let no_first : length first ≤ 0 = omega (arith, above, start) in
      let no_last : length last ≤ 0 = omega (arith, below, stop) in
      rw (nil_of_length first no_first, nil_of_length last no_last)

  -- Room for `room` results and one more.
  grep_lines_alone :
      (limit room i : ℕ) (results : List GrepMatch) (ls : List Bytes)
      → limit ≡ length results + suc room
      → grep_lines re path (pos 0) (pos 0) limit lines i results ls
        ≡ results ++ take (suc room) (hits re path i ls)
  unfolding grep_lines hits
  grep_lines_alone limit room i results [] h = rw append-nil
  grep_lines_alone limit zero i results (l ∷ ls) h = elim (Bool-cases (re l)) [
    | inl hit ↦
        let e : GrepMatch = record { file = path; line = i + 1; content = l } in
        let full : leb limit (length (results ++ e ∷ [])) ≡ true =
          ground (arith, length-append results (e ∷ [])) in
        rw (hit, match_entries_alone i l, full)
    | inr miss ↦ rw miss (grep_lines_alone limit zero (i + 1) results ls h)
  ]
  grep_lines_alone limit (suc room) i results (l ∷ ls) h = elim (Bool-cases (re l)) [
    | inl hit ↦
        let e : GrepMatch = record { file = path; line = i + 1; content = l } in
        let longer = length-append results (e ∷ []) in
        let not_full : leb limit (length (results ++ e ∷ [])) ≡ false =
          ground (arith, length-append results (e ∷ [])) in
        rw (hit, match_entries_alone i l, not_full)
          (grep_lines_alone limit room (i + 1) (results ++ e ∷ []) ls (omega arith)
            ∙ append_assoc results (e ∷ []) (take (suc room) (hits re path (i + 1) ls)))
    | inr miss ↦ rw miss (grep_lines_alone limit (suc room) (i + 1) results ls h)
  ]

  grep_lines_bound :
      (b : ℕ) (behind : ℤ) (limit i : ℕ) (results : List GrepMatch) (ls : List Bytes)
      → length results < limit
      → length (grep_lines re path (pos b) behind limit lines i results ls)
        < limit + widest b behind
  unfolding grep_lines
  grep_lines_bound b behind limit i results [] h = omega arith
  grep_lines_bound b behind limit i results (l ∷ ls) h =
      let more = results ++ match_entries path (pos b) behind lines i l in
      ground (
        arith,
        length-append results (match_entries path (pos b) behind lines i l),
        length-match_entries b behind path lines i l,
        grep_lines_bound b behind limit (i + 1) more ls,
        grep_lines_bound b behind limit (i + 1) results ls,
      )

module _ (re : Bytes → Bool) (seg : Bytes → Bytes → Bool) (opts : GrepOptions)
    (exts : List Bytes) where
  -- The matching lines of a visited file that is searched.
  unfoldable pub visit_hits : Visit → List GrepMatch
  visit_hits v = elim (searched seg opts exts v) [ none ↦ [] | some lines ↦ hits re v.path 0 lines ]

  -- All matching lines, in the order of the walk.
  unfoldable pub all_hits : List Visit → List GrepMatch
  all_hits [] = []
  all_hits (v ∷ vs) = visit_hits v ++ all_hits vs

  grep_visit_alone :
      (limit room : ℕ) (results : List GrepMatch) (v : Visit)
      → opts.context_before ≡ pos 0
      → opts.context_after ≡ pos 0
      → limit ≡ length results + suc room
      → grep_visit re seg opts exts limit results v ≡ results ++ take (suc room) (visit_hits v)
  unfolding grep_visit visit_hits
  grep_visit_alone limit room results v b a h = by_lines (searched seg opts exts v)
    where
      by_lines :
          (o : Option (List Bytes))
          → ◌≡◌ {A = List GrepMatch}
              (elim o [
                | none ↦ results
                | some lines ↦
                    grep_lines re v.path opts.context_before opts.context_after limit lines 0
                      results lines
              ])
              (results
                ++ take (suc room) (elim o [ none ↦ [] | some lines ↦ hits re v.path 0 lines ]))
      by_lines none = rw append-nil
      by_lines (some lines) =
          rw (b, a) (grep_lines_alone re v.path lines limit room 0 results lines h)

  grep_content_alone :
      (limit room : ℕ) (results : List GrepMatch) (vs : List Visit)
      → opts.context_before ≡ pos 0
      → opts.context_after ≡ pos 0
      → limit ≡ length results + room
      → grep_content_loop re seg opts exts limit results vs ≡ results ++ take room (all_hits vs)
  unfolding grep_content_loop all_hits
  grep_content_alone limit room results [] b a h = rw (take_nil room, append-nil)
  grep_content_alone limit zero results (v ∷ vs) b a h =
      let full : leb limit (length results) ≡ true = ground arith in rw (full, append-nil)
  grep_content_alone limit (suc room) results (v ∷ vs) b a h =
      let not_full : leb limit (length results) ≡ false = ground arith in
      let found = visit_hits v in
      let more = results ++ take (suc room) found in
      let left = suc room - length found in
      let size : limit ≡ length more + left =
        omega
          (arith, length-append results (take (suc room) found), length-take (suc room) found) in
      rw (not_full, grep_visit_alone limit room results v b a h)
        (grep_content_alone limit left more vs b a size
          ∙ append_assoc results (take (suc room) found) (take left (all_hits vs))
          ∙ ap (λ t. results ++ t) (sym (take-append (suc room) found (all_hits vs))))

  -- Without context lines, the contents mode gives the matching lines in the order of the walk, up to
  -- the head limit.
  pub grep_content_first :
      (limit : ℕ) (vs : List Visit)
      → opts.context_before ≡ pos 0
      → opts.context_after ≡ pos 0
      → grep_content_loop re seg opts exts limit [] vs ≡ take limit (all_hits vs)
  grep_content_first limit vs b a = grep_content_alone limit limit [] vs b a (omega arith)

  grep_visit_bound :
      (b limit : ℕ) (results : List GrepMatch) (v : Visit)
      → opts.context_before ≡ pos b
      → length results < limit
      → length (grep_visit re seg opts exts limit results v) < limit + widest b opts.context_after
  unfolding grep_visit
  grep_visit_bound b limit results v before h = by_lines (searched seg opts exts v)
    where
      by_lines :
          (o : Option (List Bytes))
          → length (elim o [
            | none ↦ results
            | some lines ↦
                grep_lines re v.path opts.context_before opts.context_after limit lines 0 results
                  lines
          ])
            < limit + widest b opts.context_after
      by_lines none = omega arith
      by_lines (some lines) =
          rw before (grep_lines_bound re v.path lines b opts.context_after limit 0 results lines h)

  grep_content_loop_bound :
      (b limit : ℕ) (results : List GrepMatch) (vs : List Visit)
      → opts.context_before ≡ pos b
      → length results < limit + widest b opts.context_after
      → length (grep_content_loop re seg opts exts limit results vs)
        < limit + widest b opts.context_after
  unfolding grep_content_loop
  grep_content_loop_bound b limit results [] before h = h
  grep_content_loop_bound b limit results (v ∷ vs) before h =
      elim (Bool-cases (leb limit (length results))) [
        | inl full ↦ rw full h
        | inr room ↦ rw room (
            grep_content_loop_bound b limit (grep_visit re seg opts exts limit results v) vs before
              (grep_visit_bound b limit results v before (ground arith)))
      ]

  -- With context lines, of which the number before a match is not negative, there may be more results
  -- than the head limit, but by less than one match with its context.
  pub grep_content_bound :
      (b limit : ℕ) (vs : List Visit)
      → opts.context_before ≡ pos b
      → length (grep_content_loop re seg opts exts limit [] vs)
        < limit + widest b opts.context_after
  grep_content_bound b limit vs before = grep_content_loop_bound b limit [] vs before (omega arith)

-- What all files add, in the order of the walk.
unfoldable pub gather {ℓ} : {A : Type ℓ} → (Visit → List A) → List Visit → List A
gather f [] = []
gather f (v ∷ vs) = f v ++ gather f vs

module _ {ℓ} {A : Type ℓ} (f : Visit → List A) (one : (v : Visit) → length (f v) ≤ 1) where
  collect-gather :
      (limit room : ℕ) (out : List A) (vs : List Visit)
      → limit ≡ length out + room
      → collect f limit out vs ≡ out ++ take room (gather f vs)
  unfolding collect gather
  collect-gather limit room out [] h = rw (take_nil room, append-nil)
  collect-gather limit zero out (v ∷ vs) h =
      let full : leb limit (length out) ≡ true = ground arith in rw (full, append-nil)
  collect-gather limit (suc room) out (v ∷ vs) h =
      let not_full : leb limit (length out) ≡ false = ground arith in
      let left = suc room - length (f v) in
      let size : limit ≡ length (out ++ f v) + left =
        omega (arith, length-append out (f v), one v) in
      rw not_full (
        collect-gather limit left (out ++ f v) vs size
        ∙ append_assoc out (f v) (take left (gather f vs))
        ∙ ap (λ t. out ++ t)
            (ap (λ t. t ++ take left (gather f vs))
                (sym (take_all (suc room) (f v) (omega (arith, one v))))
              ∙ sym (take-append (suc room) (f v) (gather f vs))))

module _ (re : Bytes → Bool) (seg : Bytes → Bytes → Bool) (opts : GrepOptions)
    (exts : List Bytes) where
  length-file_hit : (v : Visit) → length (file_hit re seg opts exts v) ≤ 1
  unfolding file_hit
  length-file_hit v = ground arith

  length-file_count : (v : Visit) → length (file_count re seg opts exts v) ≤ 1
  unfolding file_count
  length-file_count v = ground arith

  -- The other two modes list the files that match, or their counts, in the order of the walk and up to
  -- the head limit.
  pub grep_files_first :
      (limit : ℕ) (vs : List Visit)
      → (collect (file_hit re seg opts exts) limit [] vs
          ≡ take limit (gather (file_hit re seg opts exts) vs))
        × (collect (file_count re seg opts exts) limit [] vs
            ≡ take limit (gather (file_count re seg opts exts) vs))
  grep_files_first limit vs = (
    collect-gather (file_hit re seg opts exts) length-file_hit limit limit [] vs (omega arith),
    collect-gather (file_count re seg opts exts) length-file_count limit limit [] vs (omega arith),
  )
