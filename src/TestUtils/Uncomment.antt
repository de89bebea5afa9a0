-- ===== src/TestUtils/Uncomment.antt =====
-- test/utils/utils.go: what UncommentCode makes of a commented block.
use agenttask_operator.Base.{
  Option, none, suc, ◌+◌, ◌≡◌, refl, ◌∙◌, some, List, [], ◌∷◌, ◌++◌, length, arith, All,
}
use native.Mathlib.Nat.{zero-add}
use agenttask_operator.Text.{codes, Bytes, drop, index, scan_lines}
use agenttask_operator.Text.Search.{take-append, drop-append, trim_prefix-append}
use agenttask_operator.Text.Lines.{IsLine, Lines, join_lines, scan_lines-join, scan_lines-end}
use agenttask_operator.TestUtils.{Host, fine, uncomment_code, replaced, write_lines, uncomment}

-- The lines, each behind the prefix.
abbrev pub commented : Bytes → List Bytes → List Bytes
commented prefix [] = []
commented prefix (l ∷ ls) = (prefix ++ l) ∷ commented prefix ls

write_lines-commented :
    (prefix l : Bytes) (ls : List Bytes)
    → write_lines prefix (prefix ++ l) (commented prefix ls) ≡ join_lines (l ∷ ls)
unfolding write_lines
write_lines-commented prefix l [] = trim_prefix-append prefix l
write_lines-commented prefix l (m ∷ ls) =
    rw (trim_prefix-append, write_lines-commented prefix m ls) refl

drop_both : (a t b : Bytes) → drop (length a + length t) (a ++ (t ++ b)) ≡ b
drop_both [] t b = rw zero-add (drop-append t b)
drop_both (c ∷ a) t b =
    let e : suc (length a) + length t ≡ suc (length a + length t) = omega arith in
    rw e (drop_both a t b)

-- Where the target occurs first and is scanned to these lines.
uncomment_lem :
    (before after target prefix line : Bytes) (ls : List Bytes)
    → index (before ++ (target ++ after)) target ≡ some (length before)
    → scan_lines target ≡ line ∷ ls
    → uncomment (before ++ (target ++ after)) target prefix
      ≡ replaced (before ++ (write_lines prefix line ls ++ after))
unfolding uncomment
uncomment_lem before after target prefix line ls found scanned =
    rw (found, uncomment) (rw (scanned, uncomment) (rw (take-append, drop_both) refl))

module _ (before after prefix l : Bytes) (ls : List Bytes) where
  uncomment-commented :
      Lines (commented prefix (l ∷ ls))
      → index
          (before ++ (join_lines (commented prefix (l ∷ ls)) ++ after))
          (join_lines (commented prefix (l ∷ ls)))
        ≡ some (length before)
      → uncomment
          (before ++ (join_lines (commented prefix (l ∷ ls)) ++ after))
          (join_lines (commented prefix (l ∷ ls)))
          prefix
        ≡ replaced (before ++ (join_lines (l ∷ ls) ++ after))
  uncomment-commented clean found =
      uncomment_lem before after (join_lines (commented prefix (l ∷ ls))) prefix (prefix ++ l)
        (commented prefix ls) found (scan_lines-join (commented prefix (l ∷ ls)) clean)
      ∙ rw write_lines-commented refl

  -- Where the target is a block of lines with the prefix, each with no newline and no carriage return at
  -- its end and short enough for the scanner, and a newline follows the last one in the target, that
  -- newline is lost: at the block's first occurrence the last line is joined to what stands after it.
  pub uncomment_loses_newline :
      All IsLine (commented prefix (l ∷ ls))
      → index
          (before ++ ((join_lines (commented prefix (l ∷ ls)) ++ 10 ∷ []) ++ after))
          (join_lines (commented prefix (l ∷ ls)) ++ 10 ∷ [])
        ≡ some (length before)
      → uncomment
          (before ++ ((join_lines (commented prefix (l ∷ ls)) ++ 10 ∷ []) ++ after))
          (join_lines (commented prefix (l ∷ ls)) ++ 10 ∷ [])
          prefix
        ≡ replaced (before ++ (join_lines (l ∷ ls) ++ after))
  uncomment_loses_newline clean found =
      uncomment_lem before after (join_lines (commented prefix (l ∷ ls)) ++ 10 ∷ []) prefix
        (prefix ++ l) (commented prefix ls) found
        (scan_lines-end (prefix ++ l) (commented prefix ls) clean)
      ∙ rw write_lines-commented refl

-- os.WriteFile, with the error that UncommentCode makes of its error.
abbrev pub written : (H : Host) → Bytes → Bytes → H.State → Option Bytes × H.State
written H filename text s =
    let (failed, after) = H.write_file filename text s in
    elim failed [
      | none ↦ (none, after)
      | some e ↦
          (some (codes "failed to write file " ++ (H.quote filename ++ (codes ": " ++ e))), after)
    ]

module _ (H : Host) (filename : Bytes) (s : H.State) (before after prefix l : Bytes)
    (ls : List Bytes) where
  -- Where each line, with the prefix before it, has no newline and no carriage return at its end and fits
  -- the scanner, and the last of them is not empty, UncommentCode on the block of these lines, in a file
  -- that can be read and has the block, writes the file once, with the lines without the prefix in the
  -- place of the block's first occurrence and what stands before and after it kept, and it fails only if
  -- that write does.
  pub uncomment_code-commented :
      Lines (commented prefix (l ∷ ls))
      → index
          (before ++ (join_lines (commented prefix (l ∷ ls)) ++ after))
          (join_lines (commented prefix (l ∷ ls)))
        ≡ some (length before)
      → H.read_file filename s ≡ fine (before ++ (join_lines (commented prefix (l ∷ ls)) ++ after))
      → uncomment_code H filename (join_lines (commented prefix (l ∷ ls))) prefix s
        ≡ written H filename (before ++ (join_lines (l ∷ ls) ++ after)) s
  unfolding uncomment_code
  uncomment_code-commented clean found read =
      rw (read, uncomment_code) (rw (uncomment-commented before after prefix l ls clean found) refl)
