-- ===== src/Reconciliation/Engine/CopyId.antt =====
-- extractCopyId of backend/src/modules/reconciliation/reconciliationEngine.ts: the match of a comment
-- with the pattern /^copy:(.+)$/.
use Prim.Native.Char.{Char, code}
use forex_remote_copy_tradin.Prelude.Text.{same, strip_prefix}
use forex_remote_copy_tradin.Prelude.{
  String, Bool, true, not, ◌&&◌, ◌||◌, Option, none, some, if◌then◌else◌, option_bind, truthy,
}

-- the characters that `.` does not match
abbrev is_line_terminator : Char → Bool
is_line_terminator c =
    same (code c) 10 || same (code c) 13 || same (code c) 8232 || same (code c) 8233

-- `.*` up to the end
one_line : String → Bool
one_line String.[] = true
one_line (String.◌∷◌ c t) = not (is_line_terminator c) && one_line t

-- `(.+)$`
rest_of_line : String → Option String
unfolding one_line
rest_of_line String.[] = none
rest_of_line (String.◌∷◌ c t) = if one_line (String.◌∷◌ c t) then some (String.◌∷◌ c t) else none

unfoldable pub extract_copy_id : Option String → Option String
unfolding strip_prefix rest_of_line
extract_copy_id comment =
    option_bind (truthy comment) λ c. option_bind (strip_prefix "copy:" c) rest_of_line
