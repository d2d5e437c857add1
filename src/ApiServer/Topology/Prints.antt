-- ===== src/ApiServer/Topology/Prints.antt =====
-- A configuration that is printed in lines is read back (parseFlinkConfYAML of
-- internal/apiserver/handlers_topology.go).
use Prim.Native.Char.{Char, code}
use text.Mathlib.TextLemmas.{append_assoc, cons-append, nil-append}
use flink_chaos_operator.Prelude.{
  ℕ, String, ◌≡◌, ◌≢◌, refl, ap, false, ◌&◌, some, List, [], ◌∷◌, ◌++◌, ◌==◌, All, arith,
}
use flink_chaos_operator.ApiServer.Topology.Conf.{
  ExternalConnection, is_space, trim_left, trimmed_cons, trim_right, trim_space, split_lines,
  split_key, entry_connections, line_connections, parse_flink_conf_yaml,
}

unfoldable pub print_entries : List (String × String) → String
print_entries [] = ""
print_entries ((key, value) ∷ entries) = (key & ": " & value) & "\n" & print_entries entries

-- What a configuration says of the storage, entry by entry.
unfoldable pub entries_connections : List (String × String) → List ExternalConnection
unfolding entry_connections
entries_connections [] = []
entries_connections ((key, value) ∷ entries) =
    entry_connections key value ++ entries_connections entries

-- No space in a text, and no colon.
abbrev pub IsPlain : String → Type 0
IsPlain String.[] = Unit
IsPlain (String.◌∷◌ c s) = (is_space (code c) ≡ false) × IsPlain s

abbrev pub HasNoColon : String → Type 0
HasNoColon String.[] = Unit
HasNoColon (String.◌∷◌ c s) = ((code c == b':') ≡ false) × HasNoColon s

abbrev pub IsEntry : String × String → Type 0
IsEntry (key, value) = IsPlain key × HasNoColon key × IsPlain value × (value ≢ "")

abbrev HasNoNewline : String → Type 0
HasNoNewline String.[] = Unit
HasNoNewline (String.◌∷◌ c s) = ((code c == 10) ≡ false) × HasNoNewline s

newline_is_space : (c : ℕ) → is_space c ≡ false → (c == 10) ≡ false
unfolding is_space
newline_is_space c h = ground arith

HasNoNewline-of_IsPlain : (s : String) → IsPlain s → HasNoNewline s
HasNoNewline-of_IsPlain String.[] h = tt
HasNoNewline-of_IsPlain (String.◌∷◌ c s) h =
    (newline_is_space (code c) h.0, HasNoNewline-of_IsPlain s h.1)

HasNoNewline-append : (s t : String) → HasNoNewline s → HasNoNewline t → HasNoNewline (s & t)
HasNoNewline-append String.[] t hs ht = rw (nil-append t) ht
HasNoNewline-append (String.◌∷◌ c s) t hs ht =
    rw (cons-append c s t) (hs.0, HasNoNewline-append s t hs.1 ht)

split_lines-line :
    (s rest : String) → HasNoNewline s → split_lines (s & "\n" & rest) ≡ s ∷ split_lines rest
unfolding split_lines
split_lines-line String.[] rest h =
    rw (nil-append ("\n" & rest), cons-append "\n" "" rest, nil-append rest)
split_lines-line (String.◌∷◌ c s) rest h =
    rw (cons-append c s ("\n" & rest), h.0, split_lines-line s rest h.1)

trim_left_plain : (s : String) → IsPlain s → trim_left s ≡ s
unfolding trim_left
trim_left_plain String.[] h = refl
trim_left_plain (String.◌∷◌ c s) h = rw h.0

trimmed_plain :
    (c : Char) (s : String) → is_space (code c) ≡ false → trimmed_cons c s ≡ String.◌∷◌ c s
trimmed_plain c String.[] h = rw h
trimmed_plain c (String.◌∷◌ d s) h = refl

trim_right_plain : (s : String) → IsPlain s → trim_right s ≡ s
unfolding trim_right
trim_right_plain String.[] h = refl
trim_right_plain (String.◌∷◌ c s) h = rw (trim_right_plain s h.1) (trimmed_plain c s h.0)

trim_space_plain : (s : String) → IsPlain s → trim_space s ≡ s
unfolding trim_space
trim_space_plain s h = rw (trim_left_plain s h) (trim_right_plain s h)

-- Nothing is cut from a text in front of one that keeps its end.
trimmed_cons-append :
    (c d : Char) (s t : String)
    → trimmed_cons c (s & String.◌∷◌ d t) ≡ String.◌∷◌ c (s & String.◌∷◌ d t)
trimmed_cons-append c d String.[] t = rw (nil-append (String.◌∷◌ d t))
trimmed_cons-append c d (String.◌∷◌ e s) t = rw (cons-append e s (String.◌∷◌ d t))

trim_right-append :
    (s : String) (d : Char) (t : String)
    → trim_right (String.◌∷◌ d t) ≡ String.◌∷◌ d t
    → trim_right (s & String.◌∷◌ d t) ≡ s & String.◌∷◌ d t
unfolding trim_right
trim_right-append String.[] d t h = rw (nil-append (String.◌∷◌ d t)) h
trim_right-append (String.◌∷◌ c s) d t h =
    rw (cons-append c s (String.◌∷◌ d t), trim_right-append s d t h) (trimmed_cons-append c d s t)

split_key-entry :
    (key value : String) → HasNoColon key → split_key (key & ": " & value) ≡ some (key, value)
unfolding split_key
split_key-entry String.[] value h = rw (
  nil-append (": " & value),
  cons-append ":" " " value,
  cons-append " " "" value,
  nil-append value,
)
split_key-entry (String.◌∷◌ c key) value h =
    rw (cons-append c key (": " & value), h.0, split_key-entry key value h.1)

trim_left-entry :
    (key rest : String) → IsPlain key → trim_left (key & ": " & rest) ≡ key & ": " & rest
unfolding trim_left is_space
trim_left-entry String.[] rest h = rw (nil-append (": " & rest), cons-append ":" " " rest)
trim_left-entry (String.◌∷◌ c key) rest h = rw (cons-append c key (": " & rest), h.0)

trim_space-entry :
    (key value : String)
    → IsPlain key
    → IsPlain value
    → value ≢ ""
    → trim_space (key & ": " & value) ≡ key & ": " & value
unfolding trim_space
trim_space-entry key String.[] plain plain_value some_value = absurd (some_value refl)
trim_space-entry key (String.◌∷◌ d t) plain plain_value some_value =
    rw (trim_left-entry key (String.◌∷◌ d t) plain, ← append_assoc key ": " (String.◌∷◌ d t))
      (trim_right-append (key & ": ") d t (trim_right_plain (String.◌∷◌ d t) plain_value))

line_connections-entry :
    (key value : String)
    → IsEntry (key, value)
    → line_connections (key & ": " & value) ≡ entry_connections key value
unfolding line_connections
line_connections-entry key value (plain, no_colon, plain_value, some_value) = rw (
  trim_space-entry key value plain plain_value some_value,
  split_key-entry key value no_colon,
  trim_space_plain key plain,
  trim_space_plain value plain_value,
)

entry_is_one_line : (key value : String) → IsEntry (key, value) → HasNoNewline (key & ": " & value)
entry_is_one_line key value (plain, no_colon, plain_value, some_value) =
    HasNoNewline-append key (": " & value) (HasNoNewline-of_IsPlain key plain) (
      HasNoNewline-append ": " value (refl, (refl, tt)) (HasNoNewline-of_IsPlain value plain_value))

-- A configuration printed in lines "key: value" is read as it was printed: each entry for the
-- directory of the checkpoints or of the savepoints gives its connection, in the order of the lines,
-- and no other does. It holds for keys without spaces and colons and for values without spaces that
-- are not empty.
pub parse_flink_conf_yaml-print_entries :
    (entries : List (String × String))
    → All IsEntry entries
    → parse_flink_conf_yaml (print_entries entries) ≡ entries_connections entries
unfolding parse_flink_conf_yaml print_entries entries_connections
parse_flink_conf_yaml-print_entries [] h = refl
parse_flink_conf_yaml-print_entries ((key, value) ∷ entries) h =
    rw
      (split_lines-line (key & ": " & value) (print_entries entries)
        (entry_is_one_line key value h.0))
      (rw (line_connections-entry key value h.0) (
        ap (λ cs. entry_connections key value ++ cs)
          (parse_flink_conf_yaml-print_entries entries h.1)))
