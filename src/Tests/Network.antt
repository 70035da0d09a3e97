-- ===== src/Tests/Network.antt =====
-- Packets, requests and texts.
use cdns.Network.Requests.{Request, no_request, request, clean}
use cdns.Network.Requests.Dropped.{clean_drops}
use cdns.Network.Requests.Open.{active, clean-active}
use cdns.Prelude.{◌≡◌, refl, true, false, [], ◌∷◌, ◌++◌}

abbrev closed : Request
closed = request 1 true

abbrev open_one : Request
open_one = request 2 false

clean-active_example :
    active (clean ((closed ∷ closed ∷ []) ++ open_one ∷ no_request ∷ []))
    ≡ active (closed ∷ closed ∷ []) ++ open_one ∷ no_request ∷ []
clean-active_example = clean-active (closed ∷ closed ∷ []) open_one no_request refl refl

clean_drops_example : clean ((open_one ∷ []) ++ closed ∷ open_one ∷ []) ≡ open_one ∷ []
clean_drops_example = clean_drops (open_one ∷ []) closed open_one (refl, tt) refl refl
