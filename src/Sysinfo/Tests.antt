-- ===== src/Sysinfo/Tests.antt =====
-- Runs of the readers and command makers, and concrete cases of what is proved about them.
use lokifix.Prelude.Int.{pos}
use lokifix.Sysinfo.{
  to_valid, parse_csv_line, validate_registry_key, registry_command, log_name_of, max_items_of,
  csv_loop, event_filter,
}
use lokifix.Sysinfo.Csv.{csv_line, parse_csv_line-csv_line}
use lokifix.Sysinfo.Quoting.{ascii_quotes, read_quoted, registry_command_lem, get_value, get_all}
use lokifix.Prelude.{
  is_listed, ◌≡◌, refl, ◌≢◌, true, some, [], ◌∷◌, ◌++◌, map, Bytes, codes, eq_bytes, upper, arith,
  is_space, trim_right, trim_space, replace_byte, show_nat, has_prefix, digits,
}

-- A quote that is doubled inside a field is lost.
doubled_quote : parse_csv_line (codes "\"a\"\"b\",\"c\"") ≡ codes "ab" ∷ codes "c" ∷ []
unfolding parse_csv_line csv_loop trim_space
doubled_quote = refl

no_text : trim_right (13 ∷ []) ≡ []
unfolding trim_right is_space
no_text = refl

parse_csv_line-csv_line_example :
    parse_csv_line (csv_line (codes "Spooler") (codes "a, b" ∷ []) ++ 13 ∷ [])
    ≡ map trim_space (codes "Spooler" ∷ codes "a, b" ∷ [])
unfolding to_valid
parse_csv_line-csv_line_example =
    parse_csv_line-csv_line (codes "Spooler") (codes "a, b" ∷ []) (13 ∷ [])
      (
        (refl, (refl, (refl, (refl, (refl, (refl, (refl, tt))))))),
        ((refl, (refl, (refl, (refl, tt)))), tt),
      )
      refl no_text

key_of_users : validate_registry_key (codes "hkcu:/Software") ≡ true
unfolding validate_registry_key replace_byte upper has_prefix
key_of_users = refl

registry_command_lem_example :
    (t rest : Bytes) × (registry_command (codes "HKLM:\\it's") (codes "v") ≡ codes "$k = '" ++ t)
    × (read_quoted [] (ascii_quotes t) ≡ some (codes "HKLM:\\it's", codes "; " ++ rest))
    × ((codes "v" ≡ [] → rest ≡ get_all)
        × (codes "v" ≢ []
            → (u : Bytes) × (rest ≡ codes "$v = '" ++ u)
              × (read_quoted [] (ascii_quotes u) ≡ some (codes "v", get_value))))
registry_command_lem_example =
    registry_command_lem (codes "HKLM:\\it's") (codes "v") (omega arith) (omega arith)

filter_of_errors :
    event_filter (codes "Setup") (pos 501) (codes "Error")
    ≡ codes "-FilterHashtable @{LogName='System'; Level=2} -MaxEvents 50"
unfolding event_filter log_name_of max_items_of is_listed eq_bytes show_nat digits
filter_of_errors = refl
