-- ===== src/Clients/SysFs/Lines.antt =====
-- The loop of `get_sysfs_values` over the lines that `grep -H` prints.
pub mod Values
use whitebox_tempest_plugin.Prelude.{
  ℕ, zero, suc, Bool, ◌||◌, not, List, [], ◌∷◌, ◌++◌, Option, none, some, map, if◌then◌else◌,
}
use whitebox_tempest_plugin.Exceptions.{Result, ok, err, value_error, extra_value_found, ◌>>=◌}
use whitebox_tempest_plugin.Python.Dict.{Dict, insert, keys}
use whitebox_tempest_plugin.Python.Equality.{text_instance}
use whitebox_tempest_plugin.Python.Set.{contains, union}
use whitebox_tempest_plugin.Python.Text.{Text, codes, split_once, strip}

abbrev pub sys_path : Text → Text
sys_path path = codes "/sys/" ++ path

-- `text[n:]`
abbrev pub from_index : ℕ → Text → Text
from_index zero text = text
from_index (suc n) [] = []
from_index (suc n) (c ∷ text) = from_index n text

-- `set('/sys/%s' % p for p in paths)`
abbrev pub asked : List Text → List Text
asked paths = union [] (map sys_path paths)

-- The body of the loop on the parts of a line around its first colon. The path is looked for among
-- the results as it is, though it is stored without its prefix.
unfoldable pub read_parts :
    List Text → Option (Text × Text) → Dict Text Text → Result (Dict Text Text)
read_parts paths none results = err value_error
read_parts paths (some (path, value)) results =
    if contains (keys results) path || not (contains paths path)
    then err (extra_value_found path)
    else ok (insert (from_index 5 path) (strip value) results)

unfoldable pub read_lines : List Text → List Text → Dict Text Text → Result (Dict Text Text)
unfolding read_parts
read_lines paths [] results = ok results
read_lines paths (line ∷ lines) results = do
  results' ← read_parts paths (split_once b':' line) results
  read_lines paths lines results'
