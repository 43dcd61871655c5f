-- ===== src/Synthetic/Blocks.antt =====
-- The block in the lines of scripts/generate_synthetic_logs.py, as the parser searches for it.
use Prim.Native.Char.{Char, code}
use pipelinex.Prelude.{
  ℕ, suc, ◌*◌, ◌≤◌, ◌<◌, String, Bool, true, false, none, some, ◌≡◌, ◌≢◌, refl, ap, ◌∙◌, arith, inl,
  inr,
}
use pipelinex.Prelude.Tests.{if◌then◌else◌, leb, ◌==◌, Bool-cases}
use pipelinex.Prelude.Equality.{string_eq}
use pipelinex.Prelude.Int.{ℤ, pos, negsuc}
use pipelinex.Prelude.Text.{◌<>◌, AllChars, Stops, size, expect, many1-append, expect-append}
use pipelinex.Parsers.{Python, IsPython, minus_of, match_block, search_block}
use pipelinex.Synthetic.Format.{Texts}

abbrev pub is_letter : ℕ → Bool
is_letter c = if leb b'a' c then leb c b'z' else if leb b'A' c then leb c b'Z' else false

-- What is relied on: which characters are digits and letters, and the texts of numbers and
-- instants. `strptime` reads what `strftime` writes, for whole seconds of the years 2000 to 2068.
pub record AreTexts (py : Python) (t : Texts) : Type 0 where
  pub classes : IsPython py
  pub no_digit_feed : py.is_digit 10 ≡ false
  pub no_digit_colon : py.is_digit b':' ≡ false
  pub no_digit_b : py.is_digit b'b' ≡ false
  pub letters : (c : ℕ) → is_letter c ≡ true → py.is_word c ≡ true
  pub digits : (n : ℕ) → AllChars py.is_digit (t.str_ℕ n)
  pub some_digit : (n : ℕ) → t.str_ℕ n ≢ ""
  pub str_pos : (n : ℕ) → t.str_int (pos n) ≡ t.str_ℕ n
  pub str_negsuc : (n : ℕ) → t.str_int (negsuc n) ≡ "-" <> t.str_ℕ (suc n)
  pub date_digits : (ts : ℕ) → AllChars py.is_digit (t.strftime "%y%m%d" ts)
  pub date_six : (ts : ℕ) → size (t.strftime "%y%m%d" ts) ≡ 6
  pub time_digits : (ts : ℕ) → AllChars py.is_digit (t.strftime "%H%M%S" ts)
  pub time_six : (ts : ℕ) → size (t.strftime "%H%M%S" ts) ≡ 6
  pub reads_back :
      (s : ℕ)
      → 946684800 ≤ s
      → s < 3124224000
      → py.strptime "%y%m%d%H%M%S"
          (t.strftime "%y%m%d" (s * 1000000) <> t.strftime "%H%M%S" (s * 1000000))
        ≡ some (s * 1000000)

module _ (py : Python) where
  search_hit :
      (c : Char) (s : String) {g : String}
      → match_block py (String.◌∷◌ c s) ≡ some g
      → search_block py (String.◌∷◌ c s) ≡ some g
  unfolding search_block
  search_hit c s h = rw (search_block, h) refl

  search_miss :
      (c : Char) (s : String)
      → match_block py (String.◌∷◌ c s) ≡ none
      → search_block py (String.◌∷◌ c s) ≡ search_block py s
  unfolding search_block
  search_miss c s h = rw (search_block, h) refl

  match_block_other :
      (c : Char) (s : String) → (code c == b'b') ≡ false → match_block py (String.◌∷◌ c s) ≡ none
  unfolding match_block expect
  match_block_other c s other = rw (match_block, expect, other) refl

module _ {py : Python} {t : Texts} (ok : AreTexts py t) where
  no_minus :
      (d rest : String)
      → AllChars py.is_digit d
      → d ≢ ""
      → minus_of py (d <> rest) ≡ ("", d <> rest)
  no_minus String.[] rest h some_d = absurd (some_d refl)
  no_minus (String.◌∷◌ c d) rest h some_d = elim (Bool-cases (code c == b'-')) [
    | inr other ↦ rw (minus_of, other) refl
    | inl minus ↦
        let same : code c ≡ b'-' = ground (arith, minus) in
        absurd (ground (arith, h.0, ap py.is_digit same, ok.classes.no_digit_minus))
  ]

  match_block-str_int :
      (z : ℤ) (rest : String)
      → Stops py.is_digit rest
      → match_block py ("blk_" <> t.str_int z <> rest) ≡ some (t.str_int z)
  unfolding match_block
  match_block-str_int (pos n) rest stop =
      let d = t.str_ℕ n in
      rw
        (
          ok.str_pos n,
          expect-append "blk_" (d <> rest),
          no_minus d rest (ok.digits n) (ok.some_digit n),
          many1-append py.is_digit d rest (ok.digits n) (ok.some_digit n) stop,
        )
        refl
  match_block-str_int (negsuc n) rest stop =
      let d = t.str_ℕ (suc n) in
      rw
        (
          ok.str_negsuc n,
          expect-append "blk_" ("-" <> d <> rest),
          many1-append py.is_digit d rest (ok.digits (suc n)) (ok.some_digit (suc n)) stop,
        )
        refl

  -- The search stops here.
  pub here :
      (z : ℤ) (rest : String)
      → Stops py.is_digit rest
      → search_block py ("blk_" <> t.str_int z <> rest) ≡ some (t.str_int z)
  here z rest stop =
      search_hit py "b" ("lk_" <> t.str_int z <> rest) (match_block-str_int z rest stop)

  -- It passes over a number.
  pub over :
      (d rest : String)
      → AllChars py.is_digit d
      → search_block py (d <> rest) ≡ search_block py rest
  over String.[] rest h = refl
  over (String.◌∷◌ c d) rest h = elim (Bool-cases (code c == b'b')) [
    | inr other ↦
        search_miss py c (d <> rest) (match_block_other py c (d <> rest) other) ∙ over d rest h.1
    | inl hit ↦
        let same : code c ≡ b'b' = ground (arith, hit) in
        absurd (ground (arith, h.0, ap py.is_digit same, ok.no_digit_b))
  ]
