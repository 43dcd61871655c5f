-- ===== src/Synthetic/Tests.antt =====
-- A stream of two blocks, with texts of numbers and instants that are short and can be read back.
use Prim.Native.Char.{Char, code}
use pipelinex.Prelude.{
  ℕ, zero, suc, ◌+◌, ◌-◌, ◌*◌, ◌/◌, ◌%◌, ◌≤◌, ◌<◌, String, Bool, true, false, List, [], ◌∷◌, none,
  some, ◌≡◌, ◌≢◌, refl, sym, ap, ◌∙◌, arith,
}
use pipelinex.Prelude.Tests.{if◌then◌else◌, leb, ◌==◌}
use pipelinex.Prelude.Lists.{length, total, get_or, replicate}
use pipelinex.Prelude.Equality.{◌=?◌, string_eq}
use pipelinex.Prelude.Int.{ℤ, pos, negsuc}
use pipelinex.Prelude.Text.{◌<>◌, <>-nil, AllChars, size}
use pipelinex.Parsers.{Python}
use pipelinex.Synthetic.{normal_lifecycle, AnomalyDraw, inject_anomaly, LineDraw, interleave}
use pipelinex.Synthetic.Anomalies.{inject_anomaly_lem}
use pipelinex.Synthetic.Blocks.{is_letter, AreTexts}
use pipelinex.Synthetic.Format.{Texts, BlockDraw, events_of_block, hdfs_stream}
use pipelinex.Synthetic.Interleaving.{of_index, interleave-of_index}
use pipelinex.Prelude.Pairwise.{Pairwise}
use pipelinex.Synthetic.{Emitted}
use pipelinex.Synthetic.RoundTrip.{IsRead}
use pipelinex.Synthetic.Stream.{AreEmitted, hdfs_stream-ReadsBack}

abbrev digit : ℕ → Char
digit zero = "0"
digit (suc zero) = "1"
digit (suc (suc zero)) = "2"
digit (suc (suc (suc zero))) = "3"
digit (suc (suc (suc (suc zero)))) = "4"
digit (suc (suc (suc (suc (suc zero))))) = "5"
digit (suc (suc (suc (suc (suc (suc zero)))))) = "6"
digit (suc (suc (suc (suc (suc (suc (suc zero))))))) = "7"
digit (suc (suc (suc (suc (suc (suc (suc (suc zero)))))))) = "8"
digit (suc (suc (suc (suc (suc (suc (suc (suc (suc n))))))))) = "9"

code-digit : (n : ℕ) → n < 10 → code (digit n) ≡ 48 + n
code-digit zero h = refl
code-digit (suc zero) h = refl
code-digit (suc (suc zero)) h = refl
code-digit (suc (suc (suc zero))) h = refl
code-digit (suc (suc (suc (suc zero)))) h = refl
code-digit (suc (suc (suc (suc (suc zero))))) h = refl
code-digit (suc (suc (suc (suc (suc (suc zero)))))) h = refl
code-digit (suc (suc (suc (suc (suc (suc (suc zero))))))) h = refl
code-digit (suc (suc (suc (suc (suc (suc (suc (suc zero)))))))) h = refl
code-digit (suc (suc (suc (suc (suc (suc (suc (suc (suc zero))))))))) h = refl
code-digit (suc (suc (suc (suc (suc (suc (suc (suc (suc (suc n)))))))))) h = absurd (omega arith)

-- So many digits, the last one first.
pad : ℕ → ℕ → String
pad zero n = ""
pad (suc k) n = String.◌∷◌ (digit (n % 10)) (pad k (n / 10))

read_digits : String → ℕ
read_digits String.[] = 0
read_digits (String.◌∷◌ c s) = (code c - 48) + 10 * read_digits s

abbrev shift : ℕ → ℕ → ℕ
shift zero r = r
shift (suc k) r = 10 * shift k r

read_digits-pad :
    (k n : ℕ) (rest : String)
    → n < shift k 1
    → read_digits (pad k n <> rest) ≡ n + shift k (read_digits rest)
unfolding read_digits pad
read_digits-pad zero n rest h = omega arith
read_digits-pad (suc k) n rest h =
    omega (arith, code-digit (n % 10) (omega arith), read_digits-pad k (n / 10) rest (omega arith))

abbrev is_digit : ℕ → Bool
is_digit c = if leb 48 c then leb c 57 else false

pad-AllChars : (k n : ℕ) → AllChars is_digit (pad k n)
unfolding pad
pad-AllChars zero n = tt
pad-AllChars (suc k) n =
    (ground (arith, code-digit (n % 10) (omega arith)), pad-AllChars k (n / 10))

size-pad : (k n : ℕ) → size (pad k n) ≡ k
unfolding pad
size-pad zero n = refl
size-pad (suc k) n = ap suc (size-pad k (n / 10))

abbrev test_python : Python
test_python = record {
  is_digit = is_digit;
  is_word = λ c. if is_letter c then true else is_digit c;
  is_space = λ c. c == 32;
  strptime = λ f s. some (read_digits s * 1000000);
  isdigit = λ s. true;
  isupper = λ s. true;
  isalpha = λ s. true;
}

abbrev signed_text : ℤ → String
signed_text (pos n) = pad 3 n
signed_text (negsuc n) = "-" <> pad 3 (suc n)

abbrev clock_text : String → ℕ → String
clock_text f ts =
    if f =? "%y%m%d" then pad 6 (ts / 1000000 % 1000000) else pad 6 (ts / 1000000 / 1000000)

abbrev test_texts : Texts
test_texts = record { str_int = signed_text; str_ℕ = pad 3; strftime = clock_text }

pad_ne : (k n : ℕ) → pad (suc k) n ≢ ""
unfolding pad
pad_ne k n h = cc

reads_back :
    (s : ℕ)
    → s < 3124224000
    → read_digits
        (pad 6 (s * 1000000 / 1000000 % 1000000) <> pad 6 (s * 1000000 / 1000000 / 1000000))
      ≡ s
reads_back s h =
    let hi = s * 1000000 / 1000000 / 1000000 in
    let low = read_digits-pad 6 (s * 1000000 / 1000000 % 1000000) (pad 6 hi) (omega arith) in
    let high : read_digits (pad 6 hi) ≡ hi =
      ap read_digits (sym (<>-nil (pad 6 hi)))
      ∙ read_digits-pad 6 hi "" (omega arith)
      ∙ (unfold read_digits in omega arith) in
    omega (arith, low, high)

test-AreTexts : AreTexts test_python test_texts
test-AreTexts = record {
  classes = record {
    no_digit_space = refl;
    no_digit_minus = refl;
    no_word_space = refl;
    no_word_colon = refl;
  };
  no_digit_feed = refl;
  no_digit_colon = refl;
  no_digit_b = refl;
  letters = λ c h. rw h refl;
  digits = λ n. pad-AllChars 3 n;
  some_digit = λ n. pad_ne 2 n;
  str_pos = λ n. refl;
  str_negsuc = λ n. refl;
  date_digits = λ ts. pad-AllChars 6 (ts / 1000000 % 1000000);
  date_six = λ ts. size-pad 6 (ts / 1000000 % 1000000);
  time_digits = λ ts. pad-AllChars 6 (ts / 1000000 / 1000000);
  time_six = λ ts. size-pad 6 (ts / 1000000 / 1000000);
  reads_back = λ s from to. ap (λ (n : ℕ). some (n * 1000000)) (reads_back s to);
}

abbrev draw : ℕ → LineDraw
draw n = record {
  pick = n;
  seconds = 1000 * n;
  node = n;
  node2 = 2;
  port = 3;
  port2 = 4;
  seq = 5;
  idx = n;
}

abbrev draws : ℕ → List LineDraw
draws zero = []
draws (suc n) = draw n ∷ draws n

abbrev blocks : List BlockDraw
blocks =
    record { id = 7; anomaly = none }
    ∷ record { id = 8; anomaly = some (record { strategy = 1; place = 3; event = 0 }) }
    ∷ []

hdfs_stream-ReadsBack_example :
    (lines : List Emitted) × AreEmitted test_texts blocks (draws 13) lines
    × Pairwise (IsRead ℕ test_python test_texts 4) lines (hdfs_stream test_texts blocks (draws 13))
unfolding inject_anomaly
hdfs_stream-ReadsBack_example =
    hdfs_stream-ReadsBack ℕ test_texts 4 blocks (draws 13) test-AreTexts enough
  where
    enough :
        total (λ (b : BlockDraw). length (events_of_block b.anomaly)) blocks ≤ length (draws 13)
    enough = omega arith

abbrev two_sequences : List (List (String × String))
two_sequences = (("E22", "a") ∷ ("E5", "a") ∷ []) ∷ (("E9", "b") ∷ []) ∷ []

interleave-of_index_example :
    let lines = interleave two_sequences (replicate (length two_sequences) 0) 100 (draws 4) in
    (length lines ≡ total length two_sequences)
    × ((i : ℕ) → of_index i lines ≡ get_or two_sequences i [])
interleave-of_index_example = interleave-of_index two_sequences (draws 4) 100 (omega arith)

abbrev dropped : AnomalyDraw
dropped = record { strategy = 0; place = 1; event = 0 }

inject_anomaly_lem_example :
    (inject_anomaly dropped normal_lifecycle ≢ normal_lifecycle)
    × (2 ≤ length (inject_anomaly dropped normal_lifecycle))
    × (length (inject_anomaly dropped normal_lifecycle) ≤ 7)
inject_anomaly_lem_example = inject_anomaly_lem dropped
