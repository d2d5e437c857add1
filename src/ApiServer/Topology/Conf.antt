-- ===== src/ApiServer/Topology/Conf.antt =====
-- The storage that a Flink configuration names, and its text of lines "key: value"
-- (parseFlinkConfYAML and storageType of internal/apiserver/handlers_topology.go).
use Prim.Native.Char.{Char, code}
use text.Mathlib.Text.{starts_with}
use flink_chaos_operator.Prelude.{
  ℕ, String, Bool, true, false, ◌&&◌, ◌||◌, Option, none, some, List, [], ◌∷◌, ◌++◌, if◌then◌else◌,
  ◌==◌, leb, str_eq, index, ◌≡◌, refl,
}

-- ExternalConnection
pub record ExternalConnection : Type 0 where
  pub connection_type : String
  pub endpoint : String
  pub purpose : String

unfoldable pub storage_type : String → String
storage_type uri =
    if starts_with uri "s3://" || starts_with uri "s3a://" || starts_with uri "s3n://"
    then "S3"
    else if starts_with uri "gs://"
    then "GCS"
    else if starts_with uri "hdfs://"
    then "HDFS"
    else if starts_with uri "wasbs://" || starts_with uri "abfs://" || starts_with uri "abfss://"
    then "AzureBlob"
    else "Unknown"

unfoldable pub connection : String → String → ExternalConnection
unfolding storage_type
connection purpose dir = record {
  connection_type = storage_type dir;
  endpoint = dir;
  purpose = purpose;
}

-- A directory that is not empty.
unfoldable pub stored : String → String → List ExternalConnection
unfolding connection
stored purpose dir = if str_eq dir "" then [] else connection purpose dir ∷ []

-- The two keys of a map.
unfoldable pub flat_connections : List (String × String) → List ExternalConnection
unfolding stored index
flat_connections m =
    stored "checkpoint" (index "state.checkpoints.dir" m)
    ++ stored "savepoint" (index "state.savepoints.dir" m)

-- `unicode.IsSpace`
unfoldable pub is_space : ℕ → Bool
is_space c =
    (leb 9 c && leb c 13)
    || c == 32
    || c == 0x85
    || c == 0xa0
    || c == 0x1680
    || (leb 0x2000 c && leb c 0x200a)
    || c == 0x2028
    || c == 0x2029
    || c == 0x202f
    || c == 0x205f
    || c == 0x3000

unfoldable pub trim_left : String → String
unfolding is_space
trim_left String.[] = ""
trim_left (String.◌∷◌ c s) =
    let rest = trim_left s in if is_space (code c) then rest else String.◌∷◌ c s

-- The character and the trimmed rest, or nothing if only space is left.
abbrev pub trimmed_cons : Char → String → String
trimmed_cons c String.[] = if is_space (code c) then "" else String.◌∷◌ c ""
trimmed_cons c (String.◌∷◌ d s) = String.◌∷◌ c (String.◌∷◌ d s)

unfoldable pub trim_right : String → String
unfolding is_space
trim_right String.[] = ""
trim_right (String.◌∷◌ c s) = trimmed_cons c (trim_right s)

-- `strings.TrimSpace`
unfoldable pub trim_space : String → String
unfolding trim_left trim_right
trim_space s = trim_right (trim_left s)

abbrev pub onto_first : Char → List String → List String
onto_first c [] = String.◌∷◌ c "" ∷ []
onto_first c (line ∷ lines) = String.◌∷◌ c line ∷ lines

-- `strings.Split(s, "\n")`
unfoldable pub split_lines : String → List String
split_lines String.[] = "" ∷ []
split_lines (String.◌∷◌ c s) =
    let lines = split_lines s in if code c == 10 then "" ∷ lines else onto_first c lines

-- What stands behind a space in front.
abbrev pub after_space : String → Option String
after_space String.[] = none
after_space (String.◌∷◌ c s) = if code c == 32 then some s else none

abbrev pub onto_key : Char → Option (String × String) → Option (String × String)
onto_key c none = none
onto_key c (some (key, value)) = some (String.◌∷◌ c key, value)

abbrev pub key_ends : Bool → Option String → Option (String × String) → Option (String × String)
key_ends false value later = later
key_ends true none later = later
key_ends true (some value) later = some ("", value)

-- `strings.SplitN(s, ": ", 2)`, where it has two parts.
unfoldable pub split_key : String → Option (String × String)
split_key String.[] = none
split_key (String.◌∷◌ c s) = key_ends (code c == b':') (after_space s) (onto_key c (split_key s))

-- `switch key`, with the test that the value is not empty before it.
unfoldable pub entry_connections : String → String → List ExternalConnection
unfolding stored
entry_connections key value =
    if str_eq key "state.checkpoints.dir"
    then stored "checkpoint" value
    else if str_eq key "state.savepoints.dir"
    then stored "savepoint" value
    else []

abbrev pub parts_connections : Option (String × String) → List ExternalConnection
parts_connections none = []
parts_connections (some (key, value)) = entry_connections (trim_space key) (trim_space value)

unfoldable pub line_connections : String → List ExternalConnection
unfolding split_key trim_space entry_connections
line_connections line = parts_connections (split_key (trim_space line))

unfoldable pub lines_connections : List String → List ExternalConnection
unfolding line_connections
lines_connections [] = []
lines_connections (line ∷ lines) = line_connections line ++ lines_connections lines

unfoldable pub parse_flink_conf_yaml : String → List ExternalConnection
unfolding split_lines lines_connections
parse_flink_conf_yaml raw = lines_connections (split_lines raw)

two_entries :
    parse_flink_conf_yaml "a: b\n state.savepoints.dir:  s3://x: y \r\nstate.checkpoints.dir:z"
    ≡ connection "savepoint" "s3://x: y" ∷ []
unfolding parse_flink_conf_yaml connection
two_entries = refl
