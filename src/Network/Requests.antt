-- ===== src/Network/Requests.antt =====
-- The vector of requests that wait for an answer, and its clean-up, which stands twice in the source:
-- network/srcz/listener.cpp: `abs_listener::on_message`, and dns/srcz/responder.cpp:
-- `responder::collect_garbage`. An empty pointer is no request and is kept as an active one is.
pub mod Open
pub mod Dropped
use cdns.Prelude.{ltb, if◌then◌else◌, length, get_or, ℕ, zero, suc, ◌+◌, Bool, false, List, [], ◌∷◌}

-- A pointer to a request: the request, by a number, and whether it is closed, or no request.
pub data Request : Type 0 where
  no_request : Request
  request : ℕ → Bool → Request

-- `qreq && qreq->is_closed()`; `qreq && !qreq->is_active()`
abbrev pub is_closed : Request → Bool
is_closed no_request = false
is_closed (request n closed) = closed

-- `std::vector::erase` of one element.
unfoldable pub erase_at : ℕ → List Request → List Request
erase_at i [] = []
erase_at zero (x ∷ xs) = xs
erase_at (suc i) (x ∷ xs) = x ∷ erase_at i xs

-- `std::vector::resize`: empty pointers are added.
unfoldable pub resize : ℕ → List Request → List Request
resize zero xs = []
resize (suc n) [] = no_request ∷ resize n []
resize (suc n) (x ∷ xs) = x ∷ resize n xs

-- The loop, with the index and `last`, and the size of the vector as fuel: the vector and `last`.
unfoldable pub clean_loop : ℕ → ℕ → ℕ → List Request → List Request × ℕ
clean_loop zero i last reqs = (reqs, last)
clean_loop (suc fuel) i last reqs =
    let erased = clean_loop fuel (i + 1) last (erase_at i reqs) in
    let kept = clean_loop fuel (i + 1) (i + 1) reqs in
    if ltb i (length reqs)
    then (if is_closed (get_or reqs i no_request) then erased else kept)
    else (reqs, last)

-- The clean-up.
unfoldable pub clean : List Request → List Request
clean reqs = let done = clean_loop (length reqs) 0 0 reqs in resize done.1 done.0
