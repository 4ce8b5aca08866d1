-- ===== src/Witnesses/Gadgets.antt =====
-- Tests and instances for internal/gadget/monitor.go.
use ivault.Common.{◌≡◌, refl, List, [], ◌∷◌}
use ivault.Common.Text.{Text, codes, text_eq}
use ivault.Gadget.{plugged, start, is_not_attached, poll, polls, debounce_samples}
use ivault.Gadget.Steady.{HasHeld, after, poll-HasHeld}

abbrev off : Text
off = codes "not attached\n"

abbrev on : Text
on = codes "configured"

-- A flap of two polls, then a plug.
abbrev flap : List Text
flap = on ∷ on ∷ off ∷ on ∷ on ∷ on ∷ []

test_flap : (polls (start off) flap).1 ≡ plugged ∷ []
unfolding polls start text_eq is_not_attached
test_flap = refl

poll-HasHeld_example : HasHeld on debounce_samples (on ∷ on ∷ on ∷ [])
unfolding after poll start text_eq is_not_attached
poll-HasHeld_example = poll-HasHeld off on (on ∷ on ∷ []) plugged refl
