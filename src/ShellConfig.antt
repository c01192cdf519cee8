-- ===== src/ShellConfig.antt =====
-- The shell's configuration, src/shell/hzsh_config.c: its lines, the prompt and the aliases.
pub mod Bounds
pub mod Alias
mod Tests
use hz_os.Base.{
  ℕ, zero, suc, ◌+◌, ◌-◌, Bool, true, false, ◌&&◌, ◌||◌, List, [], ◌∷◌, ◌++◌, Option, none, some,
  if◌then◌else◌, ltb, ◌==◌, take, drop, length,
}

abbrev pub max_prompt_len : ℕ
max_prompt_len = 64

abbrev pub max_alias_name : ℕ
max_alias_name = 32

abbrev pub max_alias_value : ℕ
max_alias_value = 128

abbrev pub max_aliases : ℕ
max_aliases = 32

-- Strings are the characters in front of the NUL.
pub record AliasEntry : Type 0 where
  pub name : List ℕ
  pub value : List ℕ

-- `aliases` are the entries that alias_count counts.
pub record Config : Type 0 where
  pub prompt : List ℕ
  pub color_prompt : ℕ
  pub history_size : ℕ
  pub aliases : List AliasEntry

abbrev pub alias_count : Config → ℕ
alias_count config = length config.aliases

abbrev pub hzsh_config_default : Config
hzsh_config_default = record {
  prompt = b'>' ∷ b' ' ∷ [];
  color_prompt = 0;
  history_size = 100;
  aliases = [];
}

unfoldable pub skip_blanks : List ℕ → List ℕ
skip_blanks [] = []
skip_blanks (c ∷ cs) = let rest = skip_blanks cs in if c == b' ' || c == 9 then rest else c ∷ cs

-- The loops over `key`.
unfoldable pub starts_with : List ℕ → List ℕ → Bool
starts_with [] line = true
starts_with (k ∷ ks) [] = false
starts_with (k ∷ ks) (c ∷ cs) = let rest = starts_with ks cs in if c == k then rest else false

abbrev pub prompt_key : List ℕ
prompt_key = b'p' ∷ b'r' ∷ b'o' ∷ b'm' ∷ b'p' ∷ b't' ∷ b'=' ∷ []

abbrev pub alias_key : List ℕ
alias_key = b'a' ∷ b'l' ∷ b'i' ∷ b'a' ∷ b's' ∷ b' ' ∷ []

-- The characters before '=', at most `room`, and what is left.
unfoldable pub split_name : ℕ → List ℕ → List ℕ × List ℕ
split_name zero cs = ([], cs)
split_name (suc room) [] = ([], [])
split_name (suc room) (c ∷ cs) =
    let (name, rest) = split_name room cs in if c == b'=' then ([], c ∷ cs) else (c ∷ name, rest)

-- What follows the name: a definition is counted where it is an '='.
unfoldable pub define_alias : Config → List ℕ → List ℕ → Config
define_alias config name [] = config
define_alias config name (c ∷ cs) =
    if c == b'='
    then record config {
      aliases =
          config.aliases ++ (record { name = name; value = take (max_alias_value - 1) cs } ∷ []);
    }
    else config

unfoldable pub parse_alias : Config → List ℕ → Config
parse_alias config alias_def =
    let (name, rest) = split_name (max_alias_name - 1) alias_def in define_alias config name rest

-- A line behind its blanks, by its first character.
unfoldable pub parse_text : Config → List ℕ → Config
parse_text config [] = config
parse_text config (c ∷ cs) =
    if c == b'#'
    then config
    else if starts_with prompt_key (c ∷ cs)
    then record config { prompt = take (max_prompt_len - 1) (drop 7 (c ∷ cs)) }
    else if starts_with alias_key (c ∷ cs) && ltb (alias_count config) max_aliases
    then parse_alias config (drop 6 (c ∷ cs))
    else config

unfoldable pub parse_line : Config → List ℕ → Config
parse_line config line = parse_text config (skip_blanks line)

-- The string that a buffer holds.
unfoldable pub until_nul : List ℕ → List ℕ
until_nul [] = []
until_nul (c ∷ cs) = let rest = until_nul cs in if c == 0 then [] else c ∷ rest

-- A finished line is parsed unless it is empty.
abbrev pub flush : Config → List ℕ → Config
flush config line = if length line == 0 then config else parse_line config (until_nul line)

-- The loop over the file; 10 is the newline, 13 the carriage return.
unfoldable pub load_loop : Config → List ℕ → List ℕ → Config
load_loop config line [] = flush config line
load_loop config line (c ∷ cs) =
    if c == 10 || c == 13
    then load_loop (flush config line) [] cs
    else load_loop config (if ltb (length line) 255 then line ++ (c ∷ []) else line) cs

-- `content` is what fs_read returns for /etc/hzsh.conf.
unfoldable pub hzsh_config_load : Option (List ℕ) → Config
hzsh_config_load none = hzsh_config_default
hzsh_config_load (some content) = load_loop hzsh_config_default [] content

-- Whether an alias's name is the name looked up, up to its end or a blank.
unfoldable pub matches : List ℕ → List ℕ → Bool
matches [] [] = true
matches [] (n ∷ ns) = n == b' '
matches (a ∷ rest_name) [] = false
matches (a ∷ rest_name) (n ∷ ns) = let rest = matches rest_name ns in if a == n then rest else false

unfoldable pub resolve_in : List AliasEntry → List ℕ → Option (List ℕ)
resolve_in [] name = none
resolve_in (e ∷ es) name =
    let rest = resolve_in es name in if matches e.name name then some e.value else rest

abbrev pub hzsh_alias_resolve : Config → List ℕ → Option (List ℕ)
hzsh_alias_resolve config name = resolve_in config.aliases name
