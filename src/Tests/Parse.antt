-- ===== src/Tests/Parse.antt =====
-- Runs of `process` of nvptx-as.cc on a small file.
use nvptx_tools.Base.{equal, ℕ, ◌≡◌, refl, List, [], ◌∷◌, ◌++◌, Bytes, codes}
use nvptx_tools.Hashtab.Assoc.{lookup, insert, assoc_table}
use nvptx_tools.Hashtab.Count.{assoc_count}
use nvptx_tools.Result.{Result, ok, err, expected_identifier, circular_reference}
use nvptx_tools.Result.Ensures.{Ensures}
use nvptx_tools.As.Token.{Token, tokenize, write_token}
use nvptx_tools.As.Statement.{alloc_stmt}
use nvptx_tools.As.Parse.{append_to}
use nvptx_tools.As.Parse.File.{parse_file, no_statements}
use nvptx_tools.As.Parse.Words.{IsParseError}
use nvptx_tools.As.Parse.Moves.Whole.{IsFileTurn, parse_file-IsFileTurn, no_statements-IsSound}
use nvptx_tools.As.Process.{mode_unset, Assembled, assemble, process}
use nvptx_tools.As.Process.Correct.{IsReport, IsAssembled, assemble-IsAssembled}

-- Two variables, of which the first names the second, and a function.
abbrev source : Bytes
source =
    codes ".version 6.0\n.target sm_30\n"
    ++ codes ".visible .global .u64 a[1] = { b };\n.visible .global .u32 b[1] = { 7 };\n"
    ++ codes ".visible .func f\n{\nret;\n}\n"

abbrev tokens_of : Result (List Token) → List Token
tokens_of (ok ts) = ts
tokens_of (err x) = []

abbrev tokens : List Token
unfolding tokenize
tokens = tokens_of (tokenize source)

parse_file-IsFileTurn_example :
    Ensures
      (IsFileTurn (assoc_table ℕ) (no_statements (assoc_table ℕ)) tokens)
      IsParseError
      (parse_file (assoc_table ℕ) (no_statements (assoc_table ℕ)) tokens)
parse_file-IsFileTurn_example =
    parse_file-IsFileTurn (assoc_table ℕ) (no_statements (assoc_table ℕ)) tokens
      (no_statements-IsSound (assoc_table ℕ))

assemble-IsAssembled_example :
    Ensures
      (IsAssembled (assoc_table ℕ) (assoc_count ℕ) mode_unset tokens)
      (IsReport (assoc_table ℕ) (assoc_count ℕ) mode_unset tokens)
      (assemble (assoc_table ℕ) (assoc_count ℕ) mode_unset tokens)
assemble-IsAssembled_example =
    assemble-IsAssembled (assoc_table ℕ) (assoc_count ℕ) mode_unset tokens

abbrev processed : Bytes → Result Assembled
unfolding process
processed text = process (assoc_table ℕ) (assoc_count ℕ) mode_unset text

abbrev output_of : Result Assembled → Bytes
output_of (ok a) = a.output
output_of (err x) = []

abbrev failure_of : Result Assembled → List ℕ
failure_of (ok a) = []
failure_of (err circular_reference) = 1 ∷ []
failure_of (err expected_identifier) = 2 ∷ []
failure_of (err x) = 3 ∷ []

-- The second variable is put out first.
second_first :
    output_of (processed source)
    ≡ codes ".version 6.0\n.target sm_30\n"
      ++ codes ".visible .global .u32 b[1] =\n{7 };\n.visible .global .u64 a[1] =\n{b };\n"
      ++ codes ".visible .func f\n{\nret;\n}\n"
unfolding processed equal append_to lookup insert alloc_stmt write_token
second_first = refl

-- Each of two variables names the other, and a variable has no name.
circular :
    failure_of (
      processed (
        codes
          ".version 6.0\n.target sm_30\n.global .u64 a[1] = { b };\n.global .u64 b[1] = { a };\n"))
    ≡ 1 ∷ []
unfolding processed equal append_to lookup insert alloc_stmt write_token
circular = refl

without_name :
    failure_of (processed (codes ".version 6.0\n.target sm_30\n.global .u64 ;\n")) ≡ 2 ∷ []
unfolding processed equal append_to lookup insert alloc_stmt write_token
without_name = refl

-- A comment between the head of a function and its body: the body is dropped.
body_dropped :
    output_of (processed (codes ".version 6.0\n.target sm_30\n.func f\n// c\n{\nret;\n}\n"))
    ≡ codes ".version 6.0\n.target sm_30\n.func f\n// c\n"
unfolding processed equal append_to lookup insert alloc_stmt write_token
body_dropped = refl

-- A variable whose name ends with "func" behind its first character: its initializer is dropped.
initializer_dropped :
    output_of (processed (codes ".version 6.0\n.target sm_30\n.global .u32 xfunc[1] = { 7, 8 };\n"))
    ≡ codes ".version 6.0\n.target sm_30\n.global .u32 xfunc[1] =\n"
unfolding processed equal append_to lookup insert alloc_stmt write_token
initializer_dropped = refl
