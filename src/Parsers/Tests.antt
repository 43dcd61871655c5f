-- ===== src/Parsers/Tests.antt =====
-- Witnesses of the parsers' theorems, with the character classes of ASCII, on a line of
-- tests/unit/test_hdfs_parser.py and one of bgl_parser.py.
use pipelinex.Prelude.{ℕ, ◌≡◌, ◌↔◌, refl, String, Bool, true, false, [], ◌∷◌, none, some}
use pipelinex.Prelude.Tests.{◌==◌, leb, if◌then◌else◌}
use pipelinex.Prelude.Text.{size, exactly, expect, many1}
use pipelinex.Prelude.Equality.{string_eq}
use pipelinex.Parsers.{Python, IsPython}
use pipelinex.Parsers.Hdfs
use pipelinex.Parsers.Hdfs.Lines
use pipelinex.Parsers.Csv
use pipelinex.Parsers.Csv.Oracle
use pipelinex.Parsers.Bgl
use pipelinex.Parsers.Bgl.Reads

abbrev between : ℕ → ℕ → ℕ → Bool
between a b c = if leb a c then leb c b else false

abbrev word_char : ℕ → Bool
word_char c =
    if between 48 57 c
    then true
    else if between 65 90 c
    then true
    else if between 97 122 c
    then true
    else c == 95

abbrev digits_only : String → Bool
digits_only String.[] = false
digits_only s = true

abbrev ascii : Python
ascii = record {
  is_digit = between 48 57;
  is_word = word_char;
  is_space = λ c. if c == 32 then true else between 9 13 c;
  strptime = λ format s. if size s == 12 then some 7 else if size s == 26 then some 8 else none;
  isdigit = digits_only;
  isupper = digits_only;
  isalpha = digits_only;
}

ascii-IsPython : IsPython ascii
ascii-IsPython = record {
  no_digit_space = refl;
  no_digit_minus = refl;
  no_word_space = refl;
  no_word_colon = refl;
}

abbrev line : Hdfs.Line
line = record {
  date = "081109";
  time = "203615";
  pid = "148";
  level = "INFO";
  component = "dfs.DataNode$PacketResponder";
  content = "PacketResponder 1 for block blk_38 terminating";
}

abbrev raw_line : String
raw_line =
    "081109 203615 148 INFO dfs.DataNode$PacketResponder: PacketResponder 1 for block blk_38 terminating"

line_read : Hdfs.match_line ascii raw_line ≡ some line
unfolding Hdfs.match_line exactly expect many1
line_read = refl

match_line_iff_example :
    (Hdfs.match_line ascii raw_line ≡ some line) ↔ Lines.IsLineText ascii raw_line line
match_line_iff_example = Lines.match_line_iff ascii ascii-IsPython raw_line line

parse-Reads_example : Lines.Reads ascii ascii-IsPython ℕ 3 raw_line
parse-Reads_example = Lines.parse-Reads ascii ascii-IsPython ℕ 3 raw_line

line-IsLine : Lines.IsLine ascii line
line-IsLine = ((Lines.match_line_iff ascii ascii-IsPython raw_line line).0 line_read).0

abbrev one_row : String → Csv.CsvRow
one_row raw = Csv.CsvRow.fields (Oracle.cells "1" "E5" "T" [] line)

parse-parse_example :
    Oracle.map_parsed Oracle.forget (Csv.parse {F = ℕ} ascii one_row 3 "1,081109")
    ≡ Hdfs.parse ascii 3 (Lines.line_text line)
parse-parse_example =
    Oracle.parse-parse {F = ℕ} ascii ascii-IsPython one_row 3 "1,081109" "1" "E5" "T" [] line
      line-IsLine refl

abbrev bgl_text : String
bgl_text =
    "- 1117838570 2005.06.03 R02 2005-06-03-15.42.50.675872 R02 RAS KERNEL INFO instruction cache parity error corrected"

spaces_kept : Bgl.split_max ascii 2 "a  b c d " ≡ "a" ∷ "b" ∷ "c d " ∷ []
unfolding Bgl.split_max
spaces_kept = refl
