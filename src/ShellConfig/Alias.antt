-- ===== src/ShellConfig/Alias.antt =====
-- Defining and resolving the aliases of src/shell/hzsh_config.c.
use hz_os.Base.{
  ℕ, ◌≡◌, ◌⊎◌, inl, inr, false, ◌&&◌, List, [], ◌∷◌, ◌++◌, some, ltb, ◌==◌, drop, length, All,
  Bool-cases, if-both,
}
use hz_os.ShellConfig.{
  Config, AliasEntry, split_name, define_alias, parse_alias, parse_text, parse_line, skip_blanks,
  starts_with, prompt_key, alias_key, matches, resolve_in, hzsh_alias_resolve,
}

abbrev pub NoEquals : List ℕ → Type 0
NoEquals = All (λ c. (c == b'=') ≡ false)

resolve_in-append_some :
    (es fs : List AliasEntry) (q : List ℕ) {v : List ℕ}
    → resolve_in es q ≡ some v
    → resolve_in (es ++ fs) q ≡ some v
unfolding resolve_in
resolve_in-append_some [] fs q h = absurd (cc)
resolve_in-append_some (x ∷ es) fs q h = elim (Bool-cases (matches x.name q)) [
  | inl t ↦ rw t (rw t at h)
  | inr f ↦ rw f (resolve_in-append_some es fs q (rw f at h))
]

-- The name ends, or a blank follows it.
abbrev pub Ends : List ℕ → Type 0
Ends tail = (tail ≡ []) ⊎ ((args : List ℕ) × (tail ≡ b' ' ∷ args))

-- The alias `q` resolves to `v`.
abbrev Resolves : List ℕ → List ℕ → Config → Type 0
Resolves q v config = resolve_in config.aliases q ≡ some v

define-Resolves :
    (config : Config) (name rest q v : List ℕ)
    → Resolves q v config
    → Resolves q v (define_alias config name rest)
unfolding define_alias
define-Resolves config name [] q v h = h
define-Resolves config name (c ∷ cs) q v h =
    if-both (Resolves q v) (c == b'=') (resolve_in-append_some config.aliases _ q h) h

text-Resolves :
    (config : Config) (line q v : List ℕ)
    → Resolves q v config
    → Resolves q v (parse_text config line)
unfolding parse_text parse_alias
text-Resolves config [] q v h = h
text-Resolves config (c ∷ cs) q v h = if-both (Resolves q v) (c == b'#') h (
    if-both (Resolves q v) (starts_with prompt_key (c ∷ cs)) h (
      if-both (Resolves q v) (starts_with alias_key (c ∷ cs) && ltb (length config.aliases) 32)
        (define-Resolves config (split_name 31 (drop 6 (c ∷ cs))).0
          (split_name 31 (drop 6 (c ∷ cs))).1 q v h)
        h))

-- No line changes what a name that is an alias already resolves to: the first definition counts.
pub parse_line-kept :
    (config : Config) (line q v : List ℕ)
    → hzsh_alias_resolve config q ≡ some v
    → hzsh_alias_resolve (parse_line config line) q ≡ some v
unfolding parse_line
parse_line-kept config line q v h = text-Resolves config (skip_blanks line) q v h
