-- ===== src/ShellConfig/Tests.antt =====
-- The shell's configuration of src/shell/hzsh_config.c on concrete lines.
use hz_os.Base.{[], ◌∷◌}
use hz_os.ShellConfig.{Config, hzsh_config_default}

abbrev with_alias : Config
with_alias = record hzsh_config_default {
  aliases = record { name = b'l' ∷ []; value = b'f' ∷ [] } ∷ [];
}
