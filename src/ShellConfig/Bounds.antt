-- ===== src/ShellConfig/Bounds.antt =====
-- Strings and aliases of src/shell/hzsh_config.c fit their arrays.
use hz_os.Base.{
  ℕ, zero, suc, ◌≤◌, ◌<◌, ◌&&◌, ◌||◌, List, [], ◌∷◌, ◌++◌, Option, none, some, if◌then◌else◌, ltb,
  ◌==◌, take, drop, length, length-append, length-take, All, All-append, arith, Bool-cases, inl,
  inr, if-both, if-true, if-false,
}
use hz_os.ShellConfig.{
  Config, AliasEntry, max_prompt_len, max_alias_name, max_alias_value, max_aliases, split_name,
  define_alias, parse_alias, parse_text, parse_line, flush, load_loop, hzsh_config_load,
  skip_blanks, starts_with, until_nul, prompt_key, alias_key, hzsh_config_default,
}

-- An alias's strings with their final NUL fit its arrays.
abbrev pub EntryFits : AliasEntry → Type 0
EntryFits e = (length e.name < max_alias_name) × (length e.value < max_alias_value)

pub record Fits (config : Config) : Type 0 where
  pub prompt_in : length config.prompt < max_prompt_len
  pub count_in : length config.aliases ≤ max_aliases
  pub entries : All EntryFits config.aliases

split_name-le : (room : ℕ) (cs : List ℕ) → length (split_name room cs).0 ≤ room
unfolding split_name
split_name-le zero cs = omega arith
split_name-le (suc room) [] = omega arith
split_name-le (suc room) (c ∷ cs) = ground (arith, split_name-le room cs)

define-Fits :
    (config : Config) (name rest : List ℕ)
    → Fits config
    → length config.aliases < max_aliases
    → length name < max_alias_name
    → Fits (define_alias config name rest)
unfolding define_alias
define-Fits config name [] f room le = f
define-Fits config name (c ∷ cs) f room le =
    let new : AliasEntry = record { name = name; value = take 127 cs } in
    if-both Fits (c == b'=')
      (record {
        prompt_in = f.prompt_in;
        count_in = omega (arith, room, length-append config.aliases (new ∷ []));
        entries =
            All-append EntryFits config.aliases (new ∷ []) f.entries
              ((le, omega (arith, length-take 127 cs)), tt);
      })
      f

alias-Fits :
    (config : Config) (alias_def : List ℕ)
    → Fits config
    → length config.aliases < max_aliases
    → Fits (parse_alias config alias_def)
unfolding parse_alias
alias-Fits config alias_def f room =
    define-Fits config (split_name 31 alias_def).0 (split_name 31 alias_def).1 f room
      (omega (arith, split_name-le 31 alias_def))

text-Fits : (config : Config) (line : List ℕ) → Fits config → Fits (parse_text config line)
unfolding parse_text
text-Fits config [] f = f
text-Fits config (c ∷ cs) f = if-both Fits (c == b'#') f (
    if-both Fits (starts_with prompt_key (c ∷ cs))
      (record {
        prompt_in = omega (arith, length-take 63 (drop 7 (c ∷ cs)));
        count_in = f.count_in;
        entries = f.entries;
      })
      (elim (Bool-cases (starts_with alias_key (c ∷ cs) && ltb (length config.aliases) 32)) [
        | inl e ↦ if-true Fits _ e (alias-Fits config (drop 6 (c ∷ cs)) f (ground (arith, e)))
        | inr e ↦ if-false Fits _ e f
      ]))

flush-Fits : (config : Config) (line : List ℕ) → Fits config → Fits (flush config line)
unfolding parse_line
flush-Fits config line f =
    if-both Fits (length line == 0) f (text-Fits config (skip_blanks (until_nul line)) f)

loop-Fits : (config : Config) (line cs : List ℕ) → Fits config → Fits (load_loop config line cs)
unfolding load_loop
loop-Fits config line [] f = flush-Fits config line f
loop-Fits config line (c ∷ cs) f =
    if-both Fits (c == 10 || c == 13)
      (loop-Fits (flush config line) [] cs (flush-Fits config line f))
      (loop-Fits config (if ltb (length line) 255 then line ++ (c ∷ []) else line) cs f)

-- Whatever the configuration file holds, the prompt and the names and values of the aliases with
-- their final NUL fit their arrays, and there are at most 32 aliases.
pub load-Fits : (content : Option (List ℕ)) → Fits (hzsh_config_load content)
unfolding hzsh_config_load
load-Fits content = go content
  where
    default_fits : Fits hzsh_config_default
    default_fits = record { prompt_in = omega arith; count_in = omega arith; entries = tt }

    go : (content : Option (List ℕ)) → Fits (hzsh_config_load content)
    go none = default_fits
    go (some cs) = loop-Fits hzsh_config_default [] cs default_fits
