-- ===== src/Fileops/Grep/Filter.antt =====
-- The file filters of `GrepFile`: `fileTypeExtensions` and `matchesFileFilter`.
use lokifix.Dict
use lokifix.World.{base_name}
use lokifix.Prelude.{
  Bool, false, ◌&&◌, ◌||◌, none, some, List, [], ◌∷◌, ◌++◌, ◌==◌, if◌then◌else◌, Bytes, codes,
  eq_bytes, is_empty, to_lower,
}

abbrev pub file_type_extensions : List (Bytes × List Bytes)
file_type_extensions =
    (codes "go", codes ".go" ∷ [])
    ∷ (codes "js", codes ".js" ∷ codes ".mjs" ∷ codes ".cjs" ∷ [])
    ∷ (codes "ts", codes ".ts" ∷ codes ".tsx" ∷ [])
    ∷ (codes "py", codes ".py" ∷ codes ".pyi" ∷ [])
    ∷ (codes "java", codes ".java" ∷ [])
    ∷ (codes "rust", codes ".rs" ∷ [])
    ∷ (codes "rs", codes ".rs" ∷ [])
    ∷ (codes "c", codes ".c" ∷ codes ".h" ∷ [])
    ∷ (
      codes "cpp",
      codes ".cpp" ∷ codes ".cc" ∷ codes ".cxx" ∷ codes ".hpp" ∷ codes ".hxx" ∷ codes ".h" ∷ [],
    )
    ∷ (codes "cs", codes ".cs" ∷ [])
    ∷ (codes "rb", codes ".rb" ∷ [])
    ∷ (codes "php", codes ".php" ∷ [])
    ∷ (codes "swift", codes ".swift" ∷ [])
    ∷ (codes "kotlin", codes ".kt" ∷ codes ".kts" ∷ [])
    ∷ (codes "kt", codes ".kt" ∷ codes ".kts" ∷ [])
    ∷ (codes "scala", codes ".scala" ∷ [])
    ∷ (codes "html", codes ".html" ∷ codes ".htm" ∷ [])
    ∷ (codes "css", codes ".css" ∷ [])
    ∷ (codes "scss", codes ".scss" ∷ codes ".sass" ∷ [])
    ∷ (codes "json", codes ".json" ∷ [])
    ∷ (codes "yaml", codes ".yaml" ∷ codes ".yml" ∷ [])
    ∷ (codes "yml", codes ".yaml" ∷ codes ".yml" ∷ [])
    ∷ (codes "xml", codes ".xml" ∷ [])
    ∷ (codes "md", codes ".md" ∷ codes ".markdown" ∷ [])
    ∷ (codes "sql", codes ".sql" ∷ [])
    ∷ (codes "sh", codes ".sh" ∷ codes ".bash" ∷ [])
    ∷ (codes "ps1", codes ".ps1" ∷ codes ".psm1" ∷ [])
    ∷ (codes "bat", codes ".bat" ∷ codes ".cmd" ∷ [])
    ∷ (codes "toml", codes ".toml" ∷ [])
    ∷ (codes "ini", codes ".ini" ∷ [])
    ∷ (codes "txt", codes ".txt" ∷ [])
    ∷ (codes "log", codes ".log" ∷ [])
    ∷ (codes "csv", codes ".csv" ∷ [])
    ∷ (codes "lua", codes ".lua" ∷ [])
    ∷ (codes "r", codes ".r" ∷ codes ".R" ∷ [])
    ∷ (codes "dart", codes ".dart" ∷ [])
    ∷ (codes "vue", codes ".vue" ∷ [])
    ∷ (codes "svelte", codes ".svelte" ∷ [])
    ∷ []

-- `strings.TrimPrefix(s, ".")`
unfoldable pub trim_dot : Bytes → Bytes
trim_dot [] = []
trim_dot (c ∷ s) = if c == b'.' then s else c ∷ s

-- The extensions that a type filter stands for; an unknown type is an extension itself.
unfoldable pub type_extensions : Bytes → List Bytes
unfolding trim_dot Dict.lookup eq_bytes
type_extensions type_filter =
    if is_empty type_filter
    then []
    else elim (Dict.lookup (to_lower type_filter) file_type_extensions) [
      | none ↦ (b'.' ∷ trim_dot type_filter) ∷ []
      | some exts ↦ exts
    ]

-- `filepath.Ext`: from the last dot of the last segment on.
unfoldable pub extension_from : Bytes → Bytes → Bytes
extension_from cur [] = cur
extension_from cur (c ∷ s) =
    extension_from (if c == b'.' then c ∷ [] else if is_empty cur then [] else cur ++ c ∷ []) s

unfoldable pub extension : Bytes → Bytes
unfolding extension_from base_name
extension path = extension_from [] (base_name path)

unfoldable pub any_equal : Bytes → List Bytes → Bool
any_equal e [] = false
any_equal e (x ∷ xs) = eq_bytes e x || any_equal e xs

-- `seg` is `filepath.Match`.
unfoldable pub matches_file_filter : (Bytes → Bytes → Bool) → Bytes → Bytes → List Bytes → Bool
unfolding any_equal extension
matches_file_filter seg path glob_filter exts =
    (is_empty glob_filter || seg glob_filter (base_name path))
    && (is_empty exts || any_equal (to_lower (extension path)) exts)
