-- ===== src/Stages/Validation/Checks.antt =====
-- The validators without state: src/pipelinex/stages/validation/schema_validator.py and
-- size_validator.py.
use pipelinex.Prelude.{
  zero, suc, sym, ap, ◌∙◌, ◌&&◌, ℕ, ◌≡◌, ◌≢◌, ◌↔◌, ◌⊎◌, refl, String, Bool, true, false, not, List,
  [], ◌∷◌, Option, none, some, arith,
}
use Prim.Native.String.{◌++◌ as join}
use pipelinex.Prelude.Tests.{if◌then◌else◌, ltb}
use pipelinex.Prelude.Equality.{◌=?◌, nat_eq, string_eq}
use pipelinex.Models.{Severity, severity_text, LogRecord}
use pipelinex.Stages.Validation.{ValidationResult, passed, refused}

-- The fields of `SchemaValidator`.
pub record SchemaConfig : Type 0 where
  pub require_message : Bool
  pub require_source : Bool
  pub allowed : Option (List Severity)

abbrev pub severity_code : Severity → ℕ
severity_code Severity.debug = 0
severity_code Severity.info = 1
severity_code Severity.warning = 2
severity_code Severity.error = 3
severity_code Severity.critical = 4

abbrev pub among : Severity → List Severity → Bool
among s [] = false
among s (t ∷ ts) = if severity_code s =? severity_code t then true else among s ts

abbrev pub allows : Option (List Severity) → Severity → Bool
allows none s = true
allows (some ts) s = among s ts

module _ {F : Type 0} where
  unfoldable pub check_schema : SchemaConfig → LogRecord F → ValidationResult
  check_schema c r =
      if c.require_message && (r.message =? "")
      then refused "missing message" "schema"
      else if c.require_source && (r.source =? "")
      then refused "missing source" "schema"
      else if not (allows c.allowed r.severity)
      then refused (join (join "severity " (severity_text r.severity)) " not in allowlist") "schema"
      else passed "schema"

  -- `utf8_size` stands for the length of the encoded text, `number_text` for `str` of a number.
  unfoldable pub check_size : (String → ℕ) → (ℕ → String) → ℕ → LogRecord F → ValidationResult
  check_size utf8_size number_text max_message_bytes r =
      let size = utf8_size r.message in
      if ltb max_message_bytes size
      then refused
          (join (join (join "message size " (number_text size)) " > ")
            (number_text max_message_bytes))
          "size"
      else passed "size"

abbrev pub Among : Severity → List Severity → Type 0
Among s [] = ⊥
Among s (t ∷ ts) = (s ≡ t) ⊎ Among s ts

-- No allowlist, or one with the severity.
abbrev pub Allowed : Option (List Severity) → Severity → Type 0
Allowed none s = Unit
Allowed (some ts) s = Among s ts

severity_of_code : ℕ → Severity
severity_of_code zero = Severity.debug
severity_of_code (suc zero) = Severity.info
severity_of_code (suc (suc zero)) = Severity.warning
severity_of_code (suc (suc (suc zero))) = Severity.error
severity_of_code (suc (suc (suc (suc n)))) = Severity.critical

severity_code_back : (s : Severity) → severity_of_code (severity_code s) ≡ s
unfolding severity_of_code
severity_code_back Severity.debug = refl
severity_code_back Severity.info = refl
severity_code_back Severity.warning = refl
severity_code_back Severity.error = refl
severity_code_back Severity.critical = refl

severity_code_inj : (s t : Severity) → severity_code s ≡ severity_code t → s ≡ t
severity_code_inj s t h = sym (severity_code_back s) ∙ ap severity_of_code h ∙ severity_code_back t

among_iff : (s : Severity) (ts : List Severity) → (among s ts ≡ true) ↔ Among s ts
among_iff s [] = ground arith
among_iff s (t ∷ ts) = ground (
  arith,
  among_iff s ts,
  nat_eq.beq_iff (severity_code s) (severity_code t),
  severity_code_inj s t,
  ap severity_code {x = s} {y = t},
)

-- A required text is there.
abbrev pub Required : Bool → String → Type 0
Required b text = b ≡ true → text ≢ ""

allows_iff : (a : Option (List Severity)) (s : Severity) → (allows a s ≡ true) ↔ Allowed a s
allows_iff none s = ground arith
allows_iff (some ts) s = among_iff s ts

-- A record passes the schema check exactly when the texts that are required are not empty and its
-- severity is allowed.
pub check_schema_iff :
    {F : Type 0} (c : SchemaConfig) (r : LogRecord F)
    → ((check_schema c r).valid ≡ true) ↔ (
        Required c.require_message r.message
        × Required c.require_source r.source
        × Allowed c.allowed r.severity)
unfolding check_schema
check_schema_iff c r = ground (
  arith,
  string_eq.beq_iff r.message "",
  string_eq.beq_iff r.source "",
  allows_iff c.allowed r.severity,
)
