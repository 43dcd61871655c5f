-- ===== src/Report/Update.antt =====
-- What `_update_benchmarks_md` leaves in BENCHMARKS.md.
use pipelinex.Prelude.{ℕ, String, Bool, Option, none, some, ◌≡◌, refl, sym, ap, ◌∙◌, inl, inr}
use Prim.Native.Char.{code}
use pipelinex.Prelude.Tests.{Bool-cases}
use pipelinex.Prelude.Equality.{string_eq, =?-cases}
use pipelinex.Prelude.Text.{◌<>◌, <>-nil, <>_assoc, AllChars, expect}
use pipelinex.Report.{Formats, rstrip, split_once, update_section}
use pipelinex.Report.Blocks.{section}
use pipelinex.Report.Markers.{
  differs, IsPlain, mark, behind, behind_cons, split_once-front, split_once-stops,
  split_once-IsPlain, split_once_plain, split_once_inv, split_once_prefix, all_chars-AllChars,
}

-- The two markers are one line each, hold < only in front, and the second is not found where the
-- first one stands.
pub record AreMarkers (b e : String) : Type 0 where
  pub begin_plain : IsPlain b
  pub end_plain : IsPlain e
  pub begin_line : AllChars (differs "\n") b
  pub end_line : AllChars (differs "\n") e
  pub apart : (x : String) → expect e (b <> x) ≡ none

behind-behind :
    (u v : String) (found : Option (String × String))
    → behind u (behind v found) ≡ behind (u <> v) found
behind-behind u v none = refl
behind-behind u v (some (x, y)) = rw (<>_assoc u v x) refl

behind-start : (u x : String) → ◌≡◌ {A = Option (String × String)} (some (u <> "", x)) (some (u, x))
behind-start u x = rw (<>-nil u) refl

module _ {b e : String} (m : AreMarkers b e) where
  find_begin :
      (before x : String)
      → split_once (mark b) before ≡ none
      → split_once (mark b) (before <> mark b <> x) ≡ some (before, x)
  find_begin before x free =
      split_once-stops b "<" before (b <> x) m.begin_plain free
      ∙ ap (behind before) (split_once-front b x)
      ∙ behind-start before x

  over_begin :
      (x : String) → split_once (mark e) (mark b <> x) ≡ behind (mark b) (split_once (mark e) x)
  unfolding expect
  over_begin x =
      rw (split_once, m.apart x, split_once-IsPlain e b x m.begin_plain)
        (behind_cons "<" b (split_once (mark e) x))

  find_end :
      (before x : String)
      → split_once (mark e) before ≡ none
      → split_once (mark e) (before <> mark b <> x)
        ≡ behind (before <> mark b) (split_once (mark e) x)
  find_end before x free =
      split_once-stops e "<" before (b <> x) m.end_plain free
      ∙ ap (behind before) (over_begin x)
      ∙ behind-behind before (mark b) (split_once (mark e) x)

  -- The section's own end.
  inside_end :
      (body after : String)
      → IsPlain body
      → split_once (mark e) ("\n" <> body <> mark e <> "\n" <> after)
        ≡ some ("\n" <> body, "\n" <> after)
  inside_end body after plain =
      split_once-IsPlain e ("\n" <> body) (mark e <> "\n" <> after) (refl, plain)
      ∙ ap (behind ("\n" <> body)) (split_once-front e ("\n" <> after))
      ∙ behind-start ("\n" <> body) ("\n" <> after)

-- A file that the writer can replace its section in: there is none, or it holds neither marker, or
-- the end marker follows the first begin marker and does not stand before it.
pub data IsTidy (b e : String) : Option String → Type 0 where
  missing : IsTidy b e none
  bare :
      {file : String}
      → split_once (mark b) file ≡ none
      → split_once (mark e) file ≡ none
      → IsTidy b e (some file)
  sectioned :
      {file before rest inside after : String}
      → split_once (mark b) file ≡ some (before, rest)
      → split_once (mark e) before ≡ none
      → split_once (mark e) rest ≡ some (inside, after)
      → IsTidy b e (some file)

abbrev header : String
header = "# PipelineX Benchmarks\n\n"

rstrip_front :
    (is_space : ℕ → Bool) (file : String)
    → (trail : String) × (file ≡ rstrip is_space file <> trail)
rstrip_front is_space String.[] = ("", refl)
rstrip_front is_space (String.◌∷◌ c s) =
    let (trail, whole) = rstrip_front is_space s in
    elim (=?-cases (rstrip is_space s) "") [
      | inr (_, kept) ↦ (trail, rw (rstrip, kept) (ap (String.◌∷◌ c) whole))
      | inl (_, gone) ↦ elim (Bool-cases (is_space (code c))) [
        | inl space ↦ (String.◌∷◌ c s, rw (rstrip, gone, space) refl)
        | inr solid ↦ (s, rw (rstrip, gone, solid) refl)
      ]
    ]

append_end : (u block : String) → u <> "\n\n" <> block ≡ (u <> "\n\n") <> block <> ""
append_end u block = rw (<>-nil block) (sym (<>_assoc u "\n\n" block))

section-append : (b e body v : String) → section b e body <> v ≡ b <> "\n" <> body <> e <> "\n" <> v
section-append b e body v = simp <>_assoc

-- A marker does not reach over the end of a line.
feeds_free :
    (m u : String)
    → AllChars (differs "\n") m
    → split_once (mark m) u ≡ none
    → split_once (mark m) (u <> "\n\n") ≡ none
feeds_free m u line free =
    split_once-stops m "\n" u "\n" line free
    ∙ ap (behind u) (split_once_plain m "\n\n" (all_chars-AllChars (differs "<") "\n\n" refl))

module _ {F : Type 0} (fmt : Formats F) where
  -- What stands before the section, and after it, once it has been written.
  abbrev pub outside : {b e : String} {file : Option String} → IsTidy b e file → String × String
  outside missing = (header, "")
  outside (bare {file} _ _) = (rstrip fmt.is_space file <> "\n\n", "")
  outside (sectioned {before} {after} _ _ _) = (before, after)

  -- The text before the section holds no marker that goes with its lines.
  pub outside_free :
      {b e : String} (m : AreMarkers b e) {file : Option String} (t : IsTidy b e file)
      → (split_once (mark b) (outside t).0 ≡ none) × (split_once (mark e) (outside t).0 ≡ none)
  outside_free {b} {e} m missing =
      let plain = all_chars-AllChars (differs "<") header refl in
      (split_once_plain b header plain, split_once_plain e header plain)
  outside_free {b} {e} m (bare {file} no_begin no_end) =
      let text = rstrip fmt.is_space file in
      let (trail, whole) = rstrip_front fmt.is_space file in
      (
        feeds_free b text m.begin_line (split_once_prefix b text trail (rw whole at no_begin)),
        feeds_free e text m.end_line (split_once_prefix e text trail (rw whole at no_end)),
      )
  outside_free {b} {e} m (sectioned {file} found free closed) =
      ((split_once_inv b file found).1, free)

  module _ {b e : String} (m : AreMarkers b e) (body : String) where
    -- The section is written between what stands outside it.
    pub update_section_tidy :
        (file : Option String) (t : IsTidy b e file)
        → update_section fmt (mark b) (mark e) (section (mark b) (mark e) body) file
          ≡ (outside t).0 <> section (mark b) (mark e) body <> (outside t).1
    update_section_tidy none missing =
        ap (◌<>◌ header) (sym (<>-nil (section (mark b) (mark e) body)))
    update_section_tidy (some file) (bare no_begin no_end) =
        rw (update_section, no_begin)
          (append_end (rstrip fmt.is_space file) (section (mark b) (mark e) body))
    update_section_tidy (some file) (sectioned {before} {rest} {inside} {after} found free closed) =
        let (whole, _) = split_once_inv b file found in
        let ended : split_once (mark e) file ≡ some ((before <> mark b) <> inside, after) =
          ap (split_once (mark e)) whole
          ∙ find_end m before rest free
          ∙ ap (behind (before <> mark b)) closed in
        rw (update_section, found, ended) refl

    -- The file can be written again, with one more line feed after the section.
    pub section-IsTidy :
        (u v : String)
        → IsPlain body
        → split_once (mark b) u ≡ none
        → split_once (mark e) u ≡ none
        → (t : IsTidy b e (some (u <> section (mark b) (mark e) body <> v))) × (outside t
            ≡ (u, "\n" <> v))
    section-IsTidy u v plain free_b free_e =
        let shape : u <> section (mark b) (mark e) body <> v
            ≡ u <> mark b <> "\n" <> body <> mark e <> "\n" <> v =
          ap (◌<>◌ u) (section-append (mark b) (mark e) body v) in
        (
          sectioned
              (ap (split_once (mark b)) shape
                ∙ find_begin m u ("\n" <> body <> mark e <> "\n" <> v) free_b)
              free_e (inside_end m body v plain),
          refl,
        )
