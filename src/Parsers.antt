-- ===== src/Parsers.antt =====
-- What the parsers of src/pipelinex/stages/parsing/ share. The classes `\d` and `\w` of Python's
-- regular expressions, white space and `datetime.strptime` are parameters; a regular expression is the steps of
-- a reader, which is the same where no step can match in two ways.
pub mod Hdfs
pub mod Csv
pub mod Bgl
mod Tests
use pipelinex.Prelude.{ℕ, ◌≡◌, refl, String, Bool, true, false, List, [], ◌∷◌, Option, none, some}
use Prim.Native.Char.{Char, code}
use pipelinex.Prelude.Tests.{if◌then◌else◌, ◌==◌}
use pipelinex.Prelude.Text.{◌<>◌, many1, expect, ◌>>=◌}
use pipelinex.Prelude.Dict.{Dict, lookup, insert}
use pipelinex.Prelude.Equality.{string_eq}
use pipelinex.Models.{Severity, Value, LogRecord, add_enrichment}

-- `strptime` takes the format and the text; none stands for `ValueError`. The last three are
-- methods of texts.
pub record Python : Type 0 where
  pub is_digit : ℕ → Bool
  pub is_word : ℕ → Bool
  pub is_space : ℕ → Bool
  pub strptime : String → String → Option ℕ
  pub isdigit : String → Bool
  pub isupper : String → Bool
  pub isalpha : String → Bool

-- `[\w$.]`
abbrev pub is_name : Python → ℕ → Bool
is_name py c = if py.is_word c then true else if c == b'$' then true else c == b'.'

-- `.`, which is any code point but a line feed.
abbrev pub is_inline : ℕ → Bool
is_inline c = if c == 10 then false else true

-- What the reader relies on: a space, a colon and a minus are in no class.
pub record IsPython (py : Python) : Type 0 where
  pub no_digit_space : py.is_digit b' ' ≡ false
  pub no_digit_minus : py.is_digit b'-' ≡ false
  pub no_word_space : py.is_word b' ' ≡ false
  pub no_word_colon : py.is_word b':' ≡ false

-- The first of a list and the rest.
abbrev pub uncons : List String → Option (String × List String)
uncons [] = none
uncons (x ∷ xs) = some (x, xs)

-- `_LEVEL_MAP` of the two parsers of HDFS.
abbrev pub level_map : Dict String Severity
level_map =
    ("DEBUG", Severity.debug)
    ∷ ("INFO", Severity.info)
    ∷ ("WARN", Severity.warning)
    ∷ ("WARNING", Severity.warning)
    ∷ ("ERROR", Severity.error)
    ∷ ("FATAL", Severity.critical)
    ∷ []

-- `_LEVEL_MAP.get(level, Severity.INFO)`
abbrev pub severity_of : Dict String Severity → String → Severity
severity_of levels level = elim (lookup level levels) [ none ↦ Severity.info | some s ↦ s ]

module _ (py : Python) where
  -- `blk_(-?\d+)` at the front of a text: the group.
  abbrev pub minus_of : String → String × String
  minus_of String.[] = ("", "")
  minus_of (String.◌∷◌ c s) = if code c == b'-' then ("-", s) else ("", String.◌∷◌ c s)

  unfoldable pub match_block : String → Option String
  match_block s = expect "blk_" s >>= (λ rest.
      many1 py.is_digit ((minus_of rest).1) >>= (λ (digits, _). some ((minus_of rest).0 <> digits)))

  -- `_BLOCK_RE.search`: the first place where it matches.
  unfoldable pub search_block : String → Option String
  search_block String.[] = match_block ""
  search_block (String.◌∷◌ c s) =
      let later = search_block s in
      elim (match_block (String.◌∷◌ c s)) [ some group ↦ some group | none ↦ later ]

module _ {F : Type 0} where
  abbrev pub with_block : Option String → LogRecord F → LogRecord F
  with_block none r = r
  with_block (some group) r = add_enrichment r "block_id" (Value.text ("blk_" <> group))

  abbrev pub with_warning : Option Severity → String → LogRecord F → LogRecord F
  with_warning (some s) level r = r
  with_warning none level r =
      add_enrichment r "parse_warning" (Value.text ("unknown level: " <> level))

  abbrev pub add_block : Python → String → LogRecord F → LogRecord F
  add_block py content r = with_block (search_block py content) r

  abbrev pub add_warning : Dict String Severity → String → LogRecord F → LogRecord F
  add_warning levels level r = with_warning (lookup level levels) level r
