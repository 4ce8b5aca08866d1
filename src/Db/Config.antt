-- ===== src/Db/Config.antt =====
-- The config table of internal/db/db.go is a map.
use ivault.Common.{◌≡◌, some, if◌then◌else◌}
use ivault.Common.Text.{Text, text_eq}
use ivault.Common.Assoc.{lookup-insert}
use ivault.Db.{Db, set_config, get_config}

-- A read after a write gives the written value at its key and the old one at every other key.
pub get_config-set_config :
    (d : Db) (k j v : Text)
    → get_config (set_config k v d) j ≡ (if text_eq k j then some v else get_config d j)
unfolding get_config set_config
get_config-set_config d k j v = lookup-insert k j v d.config
