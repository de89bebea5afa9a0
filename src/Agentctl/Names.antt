-- ===== src/Agentctl/Names.antt =====
-- cmd/agentctl/cmd/run.go: the name that `run` derives from a file, over the bytes of the path.
use agenttask_operator.Base.{
  ◌=?◌, ℕ, ◌+◌, Bool, true, ◌&&◌, [], ◌∷◌, ◌++◌, map, ltb, leb, if◌then◌else◌,
}
use agenttask_operator.Text.{Bytes, codes, is_empty, equal, replace_all}
use agenttask_operator.Agentctl.{Tools}

-- The path with no slashes at its end.
unfoldable pub strip_slashes : Bytes → Bytes
strip_slashes [] = []
strip_slashes (c ∷ s) =
    let rest = strip_slashes s in if is_empty rest && c =? b'/' then [] else c ∷ rest

-- What stands behind the last slash.
unfoldable pub after_slash : Bytes → Bytes → Bytes
after_slash seen [] = seen
after_slash seen (c ∷ s) = after_slash (if c =? b'/' then [] else seen ++ c ∷ []) s

-- filepath.Base, on Unix
unfoldable pub base_name : Bytes → Bytes
unfolding strip_slashes after_slash
base_name path =
    if is_empty path
    then codes "."
    else if is_empty (strip_slashes path)
    then codes "/"
    else after_slash [] (strip_slashes path)

-- filepath.Ext of a name with no slash: from the last dot on.
unfoldable pub extension : Bytes → Bytes
extension [] = []
extension (c ∷ s) = let rest = extension s in if is_empty rest && c =? b'.' then c ∷ s else rest

-- strings.TrimSuffix(name, suffix)
unfoldable pub trim_suffix : Bytes → Bytes → Bytes
unfolding equal
trim_suffix [] suffix = []
trim_suffix (c ∷ s) suffix =
    let rest = trim_suffix s suffix in if equal (c ∷ s) suffix then [] else c ∷ rest

abbrev is_upper : ℕ → Bool
is_upper c = leb b'A' c && leb c b'Z'

abbrev pub lower : ℕ → ℕ
lower c = if is_upper c then c + 32 else c

abbrev pub is_ascii : Bytes → Bool
is_ascii [] = true
is_ascii (c ∷ s) = ltb c 128 && is_ascii s

-- strings.ToLower, which has a case of its own for ASCII.
unfoldable pub to_lower : Tools → Bytes → Bytes
to_lower T s = if is_ascii s then map lower s else T.unicode_lower s

-- The file's name with no extension.
unfoldable pub stem : Bytes → Bytes
unfolding base_name extension trim_suffix
stem path = let filename = base_name path in trim_suffix filename (extension filename)

unfoldable pub task_name : Tools → Bytes → Bytes
unfolding stem replace_all to_lower
task_name T path = to_lower T (replace_all (stem path) (codes "_") (codes "-"))
