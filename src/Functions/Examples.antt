-- ===== src/Functions/Examples.antt =====
-- The theorems on the functions of PHP at a request with two cookies, and at a batch of three.
use ignis.Shared.{
  ℕ, ◌≡◌, refl, false, List, [], ◌∷◌, some, Bytes, codes, lookup, remove, arith, ◌++◌, wrapping_add,
}
use ignis.Reactor.{HttpRequest, Completion, ready, slept, request, new, watch, cancel_watch}
use ignis.Wait.{Parked, resume_parked}
use ignis.Functions.{
  named, text, request_to_zval, add_headers, add_assoc, header_pairs, hand_out, watch_stream,
  cancel_op, long, as_i64,
}
use ignis.Functions.Ops.{queued, cancel_names_watch}
use ignis.Functions.Headers.{value_at, last_value, request_to_zval-last_value, headers_return}

-- Two crumbs of the cookie, as HTTP/2 may send them.
abbrev two_cookies : HttpRequest
two_cookies = record {
  method = codes "GET";
  uri = codes "/";
  headers =
      (codes "cookie", codes "a=1")
      ∷ (codes "host", codes "x")
      ∷ (codes "cookie", codes "b=2")
      ∷ [];
  body = [];
}

request_to_zval-last_value_example :
    value_at (named (codes "cookie")) (request_to_zval named two_cookies).headers
    ≡ last_value named (named (codes "cookie")) two_cookies.headers
request_to_zval-last_value_example =
    request_to_zval-last_value named (named (codes "cookie")) two_cookies

first_cookie_lost :
    value_at (named (codes "cookie")) (request_to_zval named two_cookies).headers
    ≡ some (text (codes "b=2"))
unfolding request_to_zval add_headers add_assoc
first_cookie_lost = refl

abbrev plain_request : HttpRequest
plain_request = record {
  method = codes "GET";
  uri = codes "/";
  headers = (codes "host", codes "x") ∷ (codes "accept", codes "y") ∷ [];
  body = [];
}

headers_return_example :
    header_pairs (λ (b : Bytes). b) (request_to_zval named plain_request).headers
    ≡ plain_request.headers
headers_return_example =
    headers_return named (λ (b : Bytes). b) plain_request ((refl, tt), (tt, tt))
      ((refl, refl, refl), ((refl, refl, refl), tt))

-- A fiber is parked on the op 5, and nobody on the op 6.
abbrev batch : List Completion
batch =
    record { id = 5; outcome = ready }
    ∷ record { id = 6; outcome = slept 10 }
    ∷ record { id = 7; outcome = request two_cookies }
    ∷ []

abbrev one_parked : Parked
one_parked = record { parked = (5, 900) ∷ []; results = [] }

one_resumed :
    (hand_out named (λ (id : ℕ). 0) (λ (f : ℕ) (w : Parked). w) batch one_parked []).2
    ≡ (5, 900) ∷ []
unfolding hand_out resume_parked lookup remove
one_resumed = refl

cancel_names_watch_example :
    let (after, answered) = watch_stream (some 9) 1 false (some (new 0)) in
    (answered ≡ long (as_i64 1))
    × (queued (cancel_op (as_i64 1) after).0
        ≡ queued after ++ (wrapping_add 1 1, cancel_watch 1) ∷ [])
    × (queued after ≡ (1, watch 9 false) ∷ [])
unfolding new
cancel_names_watch_example = cancel_names_watch 9 1 (new 0) refl (omega arith)
