-- ===== src/Program/Tests.antt =====
-- Runs of the main program's parts, and concrete cases of what is proved about them.
use lokifix.Program.{
  refused, lost, connect, wait, given_up, go_on, connect_and_run, is_approved, mask_host, last_two,
}
use lokifix.Program.Retries.{tries, connect_and_run_patience}
use lokifix.Prelude.{
  is_listed, ◌≡◌, ◌≢◌, refl, true, [], ◌∷◌, ◌++◌, arith, replicate, codes, eq_bytes, lower,
  trim_space, join,
}

connect_and_run_patience_example :
    (codes "t" ≢ []
      → connect_and_run 0 [] (replicate 2 refused ++ lost (codes "t") ∷ refused ∷ [])
        ≡ go_on
            (tries 0 2 [] ++ connect [] ∷ wait 2 ∷ [])
            (connect_and_run 0 (codes "t") (refused ∷ [])))
    × (connect_and_run 0 [] (replicate 2 refused ++ lost [] ∷ refused ∷ [])
        ≡ go_on (tries 0 2 [] ++ connect [] ∷ wait 2 ∷ []) (connect_and_run 0 [] (refused ∷ [])))
    × (connect_and_run 0 [] (replicate 6 refused ++ refused ∷ [])
        ≡ (tries 0 5 [] ++ connect [] ∷ [], given_up))
connect_and_run_patience_example =
    connect_and_run_patience 2 [] (codes "t") (refused ∷ []) (ground arith)

italian_yes : is_approved (codes " Si\r\n") ≡ true
unfolding is_approved lower is_listed eq_bytes trim_space
italian_yes = refl

masked : mask_host (codes "x") (codes "abcd" ∷ codes "ef" ∷ codes "io" ∷ []) ≡ codes "abc***.ef.io"
unfolding mask_host last_two join
masked = refl
