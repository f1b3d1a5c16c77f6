-- ===== src/Post/Examples.antt =====
-- The theorems on request bodies at a PUT with a form and a POST with JSON.
use ignis.Shared.{
  ◌≡◌, refl, All, List, [], ◌∷◌, none, some, Bytes, min, length, lookup, insert, remove, arith,
}
use ignis.Post.{Post, enter, leave, read_post, take, pointee, c_text}
use ignis.Post.Read.{Step, reads, enters, leaves, run, Others, body_reassembled}
use ignis.Post.Info.{GivenOut, method_dangles, type_of_last_entered}

abbrev put : Bytes
put = 80 ∷ 85 ∷ 84 ∷ []

-- `a=1&b=2`
abbrev form : Bytes
form = 97 ∷ 61 ∷ 49 ∷ 38 ∷ 98 ∷ 61 ∷ 50 ∷ []

abbrev form_type : Bytes
form_type = 120 ∷ 45 ∷ 119 ∷ 119 ∷ 119 ∷ []

abbrev json_type : Bytes
json_type = 106 ∷ 115 ∷ 111 ∷ 110 ∷ []

-- No request yet.
abbrev idle : Post
idle = record {
  bodies = [];
  request_info = record { content_length = 0; content_type = none; request_method = none };
  next = 1000;
}

-- The fiber 500 reads in buffers of three while the fiber 600 has a request of its own.
abbrev interleaved : List Step
interleaved =
    reads 500 3
    ∷ enters 600 put json_type (123 ∷ 125 ∷ [])
    ∷ reads 500 3
    ∷ reads 600 3
    ∷ leaves 600
    ∷ reads 500 3
    ∷ []

interleaved-Others : All (Others 500) interleaved
interleaved-Others =
    (tt, ((λ e. ground (arith, e)), (tt, (tt, ((λ e. ground (arith, e)), (tt, tt))))))

body_reassembled_example : (run 500 interleaved (enter 500 put form_type form idle)).1 ≡ form
body_reassembled_example =
    body_reassembled 500 put form_type form interleaved idle interleaved-Others (omega arith)

-- The last of the three reads is given one byte, and a fourth nothing.
last_bytes :
    (run 500 (reads 500 3 ∷ []) (run 500 interleaved (enter 500 put form_type form idle)).0).1 ≡ []
unfolding run enter leave read_post lookup remove insert
last_bytes = refl

idle-GivenOut : GivenOut idle
unfolding GivenOut
idle-GivenOut = tt

method_dangles_example :
    let entered = enter 500 put form_type form idle in
    let left = leave 500 entered in
    (pointee entered.request_info.request_method entered ≡ some (c_text put))
    × (left.request_info.content_type ≡ none)
    × (left.request_info.request_method ≡ some 1001)
    × (pointee (some 1001) left ≡ none)
method_dangles_example = method_dangles 500 put form_type form idle idle-GivenOut

type_of_last_entered_example :
    let both = enter 600 put json_type [] (enter 500 put form_type form idle) in
    (pointee both.request_info.content_type both ≡ some (c_text json_type))
    × (pointee (leave 600 both).request_info.content_type (leave 600 both) ≡ none)
    × ((read_post 500 3 both).1 ≡ take (min (length form) 3) form)
    × ((read_post 500 3 (leave 600 both)).1 ≡ take (min (length form) 3) form)
type_of_last_entered_example =
    type_of_last_entered 500 600 put form_type form put json_type [] 3 idle (λ e. ground (arith, e))
      (λ e. ground (arith, e)) idle-GivenOut
