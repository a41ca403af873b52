-- ===== src/Prelude/Text.antt =====
-- The methods of Python's `str` that the program uses, and their liftings to an optional text: a
-- column that is NULL is `none`, equals no text and begins with none.
use Prim.Native.Nat.{ℕ, ◌+◌, ◌-◌}
use Prim.Native.Char.{code}
use Prim.Native.String.{String, ◌++◌, len, slice}
use mathlib.Core.Path.{◌≡◌, refl}
use mathlib.Core.Bool.{Bool, true, false, ◌||◌, ◌&&◌}
use mathlib.Core.Option.{Option, none, some}
use mathlib.Core.List.{List, [], ◌∷◌}
use text.Mathlib.Text.{◌==◌, find?, starts_with as text_starts_with}
use text.Mathlib.TextPositions.{eq_refl}
use server_npd.Prelude.Tests.{if◌then◌else◌, ltb, leb}

abbrev pub str_eq : String → String → Bool
str_eq s t = s == t

pub str_eq_refl : (s : String) → str_eq s s ≡ true
str_eq_refl s = eq_refl s

-- `s.startswith(t)`
abbrev pub starts_with : String → String → Bool
starts_with s t = text_starts_with s t

-- `s.endswith(t)`
unfoldable pub ends_with : String → String → Bool
ends_with s t = slice s (len s - len t) (len s) == t

-- `s.replace(old, new, 1)`
unfoldable pub replace_first : String → String → String → String
replace_first s old new = elim (find? s old) [
  | none ↦ s
  | some i ↦ slice s 0 i ++ (new ++ slice s (i + len old) (len s))
]

-- `s.removeprefix(t)`
unfoldable pub remove_prefix : String → String → String
remove_prefix s t = if text_starts_with s t then slice s (len t) (len s) else s

-- `s.split(c, 1)[0]`, for a character of code `c`.
unfoldable pub take_until : ℕ → String → String
take_until c String.[] = ""
take_until c (String.◌∷◌ d s) =
    let rest = take_until c s in if leb (code d) c && leb c (code d) then "" else String.◌∷◌ d rest

-- `s.isascii()`
unfoldable pub is_ascii : String → Bool
is_ascii String.[] = true
is_ascii (String.◌∷◌ d s) = ltb (code d) 128 && is_ascii s

-- `s in {…}`
abbrev pub one_of : String → List String → Bool
one_of s [] = false
one_of s (t ∷ ts) = s == t || one_of s ts

-- `column == text`
abbrev pub is_text : Option String → String → Bool
is_text none t = false
is_text (some s) t = s == t

-- `column in {…}`
abbrev pub text_in : Option String → List String → Bool
text_in none ts = false
text_in (some s) ts = one_of s ts

-- `(column or "").startswith(text)`, and SQL's `column LIKE 'text%'`, where NULL does not match.
abbrev pub begins : Option String → String → Bool
begins none t = false
begins (some s) t = text_starts_with s t

-- What `f"{column}"` writes.
abbrev pub shown : Option String → String
shown none = "None"
shown (some s) = s

replace_first_test :
    replace_first "dispatch_reboot_dispatch_" "dispatch_" "x_" ≡ "x_reboot_dispatch_"
unfolding replace_first
replace_first_test = refl

replace_first_absent : replace_first "reconcile" "dispatch_" "x_" ≡ "reconcile"
unfolding replace_first
replace_first_absent = refl

remove_prefix_test : remove_prefix "poll_backoff_start" "poll_backoff_" ≡ "start"
unfolding remove_prefix
remove_prefix_test = refl

ends_with_test : ends_with "dispatch_create_clone" "_clone" ≡ true
unfolding ends_with
ends_with_test = refl

ends_with_longer : ends_with "a" "_clone" ≡ false
unfolding ends_with
ends_with_longer = refl
