-- ===== src/Language.antt =====
-- crates/weave-graph-parse/src/language.rs: the language of a file by its path, with the feature
-- `lang-extended`, and the visibility rules of contract.rs beside it.
pub mod Path
mod Tests
use weave_graph.Common.{
  ℕ, Text, codes, List, [], ◌∷◌, ◌++◌, filter, Bool, true, false, not, ◌&&◌, ◌||◌, Option, none,
  some, ◌>>=◌, ◌==◌, nat_eq, list_eq, leb, if◌then◌else◌, is_empty, lookup, starts_with,
  to_ascii_lowercase,
}

pub data Language : Type 0 where
  rust python java_script type_script tsx go java c cpp c_sharp kotlin swift scala zig ruby php bash
        power_shell lua yaml toml json properties elixir haskell dart sql html css r ark_ts obj_c
        metal cuda svelte vue astro liquid pascal luau cfml cobol visual_basic erlang solidity
        terraform nix :
      Language

-- The arms of the `match` on the extension.
abbrev pub extensions : List (Text × Language)
extensions =
    (codes "rs", rust)
    ∷ (codes "py", python)
    ∷ (codes "js", java_script)
    ∷ (codes "jsx", java_script)
    ∷ (codes "mjs", java_script)
    ∷ (codes "cjs", java_script)
    ∷ (codes "ts", type_script)
    ∷ (codes "tsx", tsx)
    ∷ (codes "go", go)
    ∷ (codes "java", java)
    ∷ (codes "c", c)
    ∷ (codes "h", c)
    ∷ (codes "cpp", cpp)
    ∷ (codes "cc", cpp)
    ∷ (codes "cxx", cpp)
    ∷ (codes "hpp", cpp)
    ∷ (codes "hh", cpp)
    ∷ (codes "hxx", cpp)
    ∷ (codes "cs", c_sharp)
    ∷ (codes "kt", kotlin)
    ∷ (codes "kts", kotlin)
    ∷ (codes "swift", swift)
    ∷ (codes "scala", scala)
    ∷ (codes "sc", scala)
    ∷ (codes "zig", zig)
    ∷ (codes "rb", ruby)
    ∷ (codes "php", php)
    ∷ (codes "sh", bash)
    ∷ (codes "bash", bash)
    ∷ (codes "ps1", power_shell)
    ∷ (codes "psm1", power_shell)
    ∷ (codes "lua", lua)
    ∷ (codes "yaml", yaml)
    ∷ (codes "yml", yaml)
    ∷ (codes "toml", toml)
    ∷ (codes "json", json)
    ∷ (codes "jsonc", json)
    ∷ (codes "properties", properties)
    ∷ (codes "ex", elixir)
    ∷ (codes "exs", elixir)
    ∷ (codes "hs", haskell)
    ∷ (codes "dart", dart)
    ∷ (codes "sql", sql)
    ∷ (codes "html", html)
    ∷ (codes "htm", html)
    ∷ (codes "css", css)
    ∷ (codes "r", r)
    ∷ (codes "R", r)
    ∷ (codes "ets", ark_ts)
    ∷ (codes "m", obj_c)
    ∷ (codes "mm", obj_c)
    ∷ (codes "metal", metal)
    ∷ (codes "cu", cuda)
    ∷ (codes "cuh", cuda)
    ∷ (codes "svelte", svelte)
    ∷ (codes "vue", vue)
    ∷ (codes "astro", astro)
    ∷ (codes "liquid", liquid)
    ∷ (codes "pas", pascal)
    ∷ (codes "pp", pascal)
    ∷ (codes "luau", luau)
    ∷ (codes "cfm", cfml)
    ∷ (codes "cfc", cfml)
    ∷ (codes "cbl", cobol)
    ∷ (codes "cob", cobol)
    ∷ (codes "vb", visual_basic)
    ∷ (codes "erl", erlang)
    ∷ (codes "hrl", erlang)
    ∷ (codes "sol", solidity)
    ∷ (codes "tf", terraform)
    ∷ (codes "tofu", terraform)
    ∷ (codes "nix", nix)
    ∷ []

-- A byte in front of a path whose components are given.
unfoldable pub put_byte : ℕ → List Text → List Text
put_byte byte [] = []
put_byte byte (first ∷ rest) = if byte == b'/' then [] ∷ first ∷ rest else (byte ∷ first) ∷ rest

-- The components of a path between the slashes.
unfoldable pub segments : Text → List Text
unfolding put_byte
segments [] = [] ∷ []
segments (byte ∷ path) = put_byte byte (segments path)

-- Empty components and `.` are no part of a path.
unfoldable pub is_component : Text → Bool
is_component segment = not (is_empty segment) && not (segment == codes ".")

unfoldable pub last_component : List Text → Option Text
unfolding is_component
last_component [] = none
last_component (segment ∷ rest) = elim (last_component rest) [
  | some found ↦ some found
  | none ↦ if is_component segment then some segment else none
]

-- `Path::file_name`.
unfoldable pub file_name : Text → Option Text
unfolding segments last_component
file_name path = do
  name ← last_component (segments path)
  if name == codes ".." then none else some name

-- The part behind the last dot.
unfoldable pub after_dot : Text → Option Text
after_dot [] = none
after_dot (byte ∷ name) = elim (after_dot name) [
  | some found ↦ some found
  | none ↦ if byte == b'.' then some name else none
]

-- `Path::extension` of a file name: a dot in front begins no extension.
unfoldable pub extension : Text → Option Text
unfolding after_dot
extension [] = none
extension (byte ∷ name) = after_dot name

unfoldable pub from_name : Text → Option Language
unfolding extension
from_name name =
    if starts_with name (codes ".env")
    then some properties
    else extension name >>= lookup extensions

-- `Language::from_path`.
unfoldable pub from_path : Text → Option Language
unfolding file_name from_name
from_path path = file_name path >>= from_name

-- `format!("{lang:?}").to_ascii_lowercase()`.
unfoldable pub debug_name : Language → Text
debug_name rust = codes "rust"
debug_name python = codes "python"
debug_name java_script = codes "javascript"
debug_name type_script = codes "typescript"
debug_name tsx = codes "tsx"
debug_name go = codes "go"
debug_name java = codes "java"
debug_name c = codes "c"
debug_name cpp = codes "cpp"
debug_name c_sharp = codes "csharp"
debug_name kotlin = codes "kotlin"
debug_name swift = codes "swift"
debug_name scala = codes "scala"
debug_name zig = codes "zig"
debug_name ruby = codes "ruby"
debug_name php = codes "php"
debug_name bash = codes "bash"
debug_name power_shell = codes "powershell"
debug_name lua = codes "lua"
debug_name yaml = codes "yaml"
debug_name toml = codes "toml"
debug_name json = codes "json"
debug_name properties = codes "properties"
debug_name elixir = codes "elixir"
debug_name haskell = codes "haskell"
debug_name dart = codes "dart"
debug_name sql = codes "sql"
debug_name html = codes "html"
debug_name css = codes "css"
debug_name r = codes "r"
debug_name ark_ts = codes "arkts"
debug_name obj_c = codes "objc"
debug_name metal = codes "metal"
debug_name cuda = codes "cuda"
debug_name svelte = codes "svelte"
debug_name vue = codes "vue"
debug_name astro = codes "astro"
debug_name liquid = codes "liquid"
debug_name pascal = codes "pascal"
debug_name luau = codes "luau"
debug_name cfml = codes "cfml"
debug_name cobol = codes "cobol"
debug_name visual_basic = codes "visualbasic"
debug_name erlang = codes "erlang"
debug_name solidity = codes "solidity"
debug_name terraform = codes "terraform"
debug_name nix = codes "nix"

-- `str::contains`.
unfoldable pub has_part : Text → Text → Bool
has_part [] part = is_empty part
has_part (byte ∷ text) part = starts_with (byte ∷ text) part || has_part text part

unfoldable pub is_upper_first : Text → Bool
is_upper_first [] = false
is_upper_first (byte ∷ name) = leb b'A' byte && leb byte b'Z'

abbrev pub no_underscore : Text → Bool
no_underscore name = not (starts_with name (codes "_"))

abbrev pub says_public : Text → Bool
says_public signature = has_part (to_ascii_lowercase signature) (codes "public")

abbrev pub not_static : Text → Bool
not_static signature = not (starts_with signature (codes "static"))

-- `visibility_rule(language)(signature, name)`.
unfoldable pub visibility_rule : Language → Text → Text → Bool
unfolding has_part is_upper_first
visibility_rule rust signature name =
    starts_with signature (codes "pub") && not (starts_with signature (codes "pub("))
visibility_rule python signature name = no_underscore name
visibility_rule go signature name = is_upper_first name
visibility_rule type_script signature name = has_part signature (codes "export")
visibility_rule tsx signature name = has_part signature (codes "export")
visibility_rule java_script signature name = has_part signature (codes "export")
visibility_rule java signature name = says_public signature
visibility_rule c signature name = not_static signature
visibility_rule cpp signature name = not_static signature
visibility_rule dart signature name = no_underscore name
visibility_rule ark_ts signature name = has_part signature (codes "export")
visibility_rule kotlin signature name = says_public signature
visibility_rule c_sharp signature name = says_public signature
visibility_rule scala signature name = says_public signature
visibility_rule swift signature name = says_public signature
visibility_rule php signature name = says_public signature
visibility_rule visual_basic signature name = says_public signature
visibility_rule solidity signature name =
    has_part signature (codes "public") || has_part signature (codes "external")
visibility_rule elixir signature name = not (has_part signature (codes "defp"))
visibility_rule zig signature name = starts_with signature (codes "pub")
visibility_rule obj_c signature name = not_static signature
visibility_rule metal signature name = not_static signature
visibility_rule cuda signature name = not_static signature
visibility_rule _ signature name = true
