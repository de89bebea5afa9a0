-- ===== src/Text.antt =====
-- Text as bytes, and what the program uses of Go's packages strings and bufio over it.
pub mod Search
pub mod Lines
use Prim.Native.Char.{code}
use agenttask_operator.Base.{
  ◌=?◌, ℕ, zero, suc, ◌+◌, ◌-◌, ◌*◌, Bool, true, false, ◌&&◌, ◌||◌, String, Option, none, some,
  List, [], ◌∷◌, ◌++◌, ltb, length, if◌then◌else◌,
}

abbrev pub Bytes : Type 0
Bytes = List ℕ

-- The bytes of a literal, which is ASCII.
abbrev pub codes : String → Bytes
codes String.[] = []
codes (String.◌∷◌ c s) = code c ∷ codes s

abbrev pub is_empty : Bytes → Bool
is_empty [] = true
is_empty (c ∷ s) = false

-- text[:n] and text[n:]
abbrev pub take : ℕ → Bytes → Bytes
take zero s = []
take (suc n) [] = []
take (suc n) (c ∷ s) = c ∷ take n s

abbrev pub drop : ℕ → Bytes → Bytes
drop zero s = s
drop (suc n) [] = []
drop (suc n) (c ∷ s) = drop n s

unfoldable pub equal : Bytes → Bytes → Bool
equal [] [] = true
equal [] (d ∷ t) = false
equal (c ∷ s) [] = false
equal (c ∷ s) (d ∷ t) = c =? d && equal s t

-- strings.HasPrefix(text, prefix)
unfoldable pub has_prefix : Bytes → Bytes → Bool
has_prefix s [] = true
has_prefix [] (p ∷ ps) = false
has_prefix (c ∷ s) (p ∷ ps) = c =? p && has_prefix s ps

-- strings.TrimPrefix(text, prefix)
unfoldable pub trim_prefix : Bytes → Bytes → Bytes
unfolding has_prefix
trim_prefix s p = if has_prefix s p then drop (length p) s else s

-- strings.Index(text, part): `none` for -1.
unfoldable pub index : Bytes → Bytes → Option ℕ
unfolding has_prefix
index [] t = if has_prefix [] t then some 0 else none
index (c ∷ s) t =
    let later = index s t in
    if has_prefix (c ∷ s) t then some 0 else elim later [ none ↦ none | some n ↦ some (suc n) ]

-- strings.Contains(text, part)
abbrev pub contains_part : Bytes → Bytes → Bool
contains_part s t = elim (index s t) [ none ↦ false | some _ ↦ true ]

-- strings.ReplaceAll(text, old, new) for an `old` that is not empty; `skip` bytes belong to an `old` that is
-- replaced already.
unfoldable pub replace_from : Bytes → Bytes → ℕ → Bytes → Bytes
unfolding has_prefix
replace_from old new skip [] = []
replace_from old new (suc skip) (c ∷ s) = replace_from old new skip s
replace_from old new zero (c ∷ s) = elim (has_prefix (c ∷ s) old) [
  | true ↦ new ++ replace_from old new (length old - 1) s
  | false ↦ c ∷ replace_from old new zero s
]

unfoldable pub replace_all : Bytes → Bytes → Bytes → Bytes
unfolding replace_from
replace_all s old new = replace_from old new zero s

-- strings.Split(text, "\n"), by the part that is being read.
unfoldable pub split_from : Bytes → Bytes → List Bytes
split_from line [] = line ∷ []
split_from line (c ∷ s) = elim (c =? 10) [
  | true ↦ line ∷ split_from [] s
  | false ↦ split_from (line ++ c ∷ []) s
]

unfoldable pub split_lines : Bytes → List Bytes
unfolding split_from
split_lines s = split_from [] s

-- The lines of bufio.ScanLines before the carriage return is dropped: a last line that is empty is none.
unfoldable pub raw_from : Bytes → Bytes → List Bytes
raw_from line [] = if is_empty line then [] else line ∷ []
raw_from line (c ∷ s) = elim (c =? 10) [
  | true ↦ line ∷ raw_from [] s
  | false ↦ raw_from (line ++ c ∷ []) s
]

-- One carriage return at the end of a line is dropped.
unfoldable pub drop_cr : Bytes → Bytes
drop_cr [] = []
drop_cr (c ∷ s) = let rest = drop_cr s in if is_empty s && c =? 13 then [] else c ∷ rest

-- bufio.MaxScanTokenSize
abbrev pub max_token : ℕ
max_token = 64 * 1024

-- The scanner stops at the first line that does not fit its buffer together with a further byte.
unfoldable pub fitting : List Bytes → List Bytes
unfolding drop_cr
fitting [] = []
fitting (l ∷ ls) =
    let rest = fitting ls in if ltb (length l) max_token then drop_cr l ∷ rest else []

-- The tokens of bufio.NewScanner(text).
unfoldable pub scan_lines : Bytes → List Bytes
unfolding raw_from fitting
scan_lines s = fitting (raw_from [] s)
