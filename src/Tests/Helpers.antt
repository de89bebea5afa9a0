-- ===== src/Tests/Helpers.antt =====
-- The helpers of the end-to-end tests at concrete inputs.
use agenttask_operator.Base.{◌≡◌, refl, none, some, List, [], ◌∷◌, ◌++◌, arith, All}
use agenttask_operator.Text.{Bytes, codes, index, drop_cr}
use agenttask_operator.Text.Lines.{join_lines, IsLine}
use agenttask_operator.TestUtils.{Command, Host, fine, replaced, uncomment, uncomment_code}
use agenttask_operator.TestUtils.Uncomment.{
  commented, uncomment_code-commented, uncomment_loses_newline,
}
use agenttask_operator.TestUtils.Commands.{IsItem}

-- A host with one file, which keeps the texts that are written.
abbrev holding : Bytes → Host
holding content = record {
  State = List Bytes;
  getwd = λ s. (codes "/src/test/e2e", none);
  chdir = λ dir s. s;
  environ = λ s. [];
  lookup_env = λ name s. none;
  execute = λ c s. (([], none), s);
  read_file = λ name s. fine content;
  write_file = λ name text s. (none, text ∷ s);
  quote = λ s. s;
}

b_IsLine : IsLine (codes "#b")
unfolding drop_cr
b_IsLine = record { lacks = ground arith; no_cr = refl; short = omega arith }

c_IsLine : IsLine (codes "#c")
unfolding drop_cr
c_IsLine = record { lacks = ground arith; no_cr = refl; short = omega arith }

abbrev tail_text : Bytes
tail_text = 10 ∷ codes "d"

found :
    index
      (codes "a" ++ (join_lines (commented (codes "#") (codes "b" ∷ codes "c" ∷ [])) ++ tail_text))
      (join_lines (commented (codes "#") (codes "b" ∷ codes "c" ∷ [])))
    ≡ some 1
unfolding index
found = refl

uncomment_code-commented_example :
    uncomment_code
      (holding (codes "a" ++ (join_lines (codes "#b" ∷ codes "#c" ∷ []) ++ tail_text)))
      (codes "kustomization.yaml")
      (join_lines (codes "#b" ∷ codes "#c" ∷ []))
      (codes "#")
      []
    ≡ (none, (codes "a" ++ (join_lines (codes "b" ∷ codes "c" ∷ []) ++ tail_text)) ∷ [])
uncomment_code-commented_example =
    uncomment_code-commented
      (holding (codes "a" ++ (join_lines (codes "#b" ∷ codes "#c" ∷ []) ++ tail_text)))
      (codes "kustomization.yaml") [] (codes "a") tail_text (codes "#") (codes "b") (codes "c" ∷ [])
      (b_IsLine, (c_IsLine, refl)) found refl

found_end :
    index
      (codes "a"
        ++ ((join_lines (commented (codes "#") (codes "b" ∷ codes "c" ∷ [])) ++ 10 ∷ [])
            ++ codes "d"))
      (join_lines (commented (codes "#") (codes "b" ∷ codes "c" ∷ [])) ++ 10 ∷ [])
    ≡ some 1
unfolding index
found_end = refl

uncomment_loses_newline_example :
    uncomment
      (codes "a" ++ ((join_lines (codes "#b" ∷ codes "#c" ∷ []) ++ 10 ∷ []) ++ codes "d"))
      (join_lines (codes "#b" ∷ codes "#c" ∷ []) ++ 10 ∷ [])
      (codes "#")
    ≡ replaced (codes "a" ++ (join_lines (codes "b" ∷ codes "c" ∷ []) ++ codes "d"))
uncomment_loses_newline_example =
    uncomment_loses_newline (codes "a") (codes "d") (codes "#") (codes "b") (codes "c" ∷ [])
      (b_IsLine, (c_IsLine, tt)) found_end

items_IsItem : All IsItem (codes "node/a" ∷ codes "node/b" ∷ [])
items_IsItem = ground arith

-- A host on which every command prints the same.
abbrev printing : Bytes → Host
printing output = record {
  State = List Command;
  getwd = λ s. (codes "/src/test/e2e", none);
  chdir = λ dir s. s;
  environ = λ s. [];
  lookup_env = λ name s. none;
  execute = λ c s. ((output, none), c ∷ s);
  read_file = λ name s. fine [];
  write_file = λ name text s. (none, s);
  quote = λ s. s;
}
