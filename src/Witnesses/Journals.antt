-- ===== src/Witnesses/Journals.antt =====
-- Tests and instances for internal/agent/logs.go.
use ivault.Common.{◌≡◌, refl, List, [], ◌∷◌}
use ivault.Common.Text.{codes}
use ivault.Logs.{classify_level, level_warn, set_log_ship_level}
use ivault.Logs.Shipped.{Event, wrote, levelled, pushed, ship, batches, ship-batches}

abbrev said : List Event
said =
    wrote (codes "10:00") (codes "Upload failed")
    ∷ levelled (codes "error")
    ∷ wrote (codes "10:01") (codes "will retry")
    ∷ pushed
    ∷ wrote (codes "10:02") (codes "panic")
    ∷ pushed
    ∷ []

test_classify : classify_level (codes "Could not open") ≡ codes "ERROR"
unfolding classify_level
test_classify = refl

-- A name that is no level sets the level to INFO.
test_unknown_level :
    set_log_ship_level (codes "loud") (record { buffer = []; ship_level = 3 })
    ≡ record { buffer = []; ship_level = 1 }
unfolding set_log_ship_level
test_unknown_level = refl

ship-batches_example :
    ship said (record { buffer = []; ship_level = level_warn }) ≡ batches said level_warn []
ship-batches_example = ship-batches said level_warn
