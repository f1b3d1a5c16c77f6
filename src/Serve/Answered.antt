-- ===== src/Serve/Answered.antt =====
-- crates/ignis/src/http.rs over reactor.rs: an exchange whose request is answered.
use ignis.Shared.{
  ℕ, ◌+◌, ◌<◌, ◌≡◌, ◌≢◌, refl, sym, ap, subst, ◌∙◌, ◌⊎◌, inl, inr, Bool, true, false, Option, none,
  some, Bytes, lookup, arith, u64_mod, Bool-cases, Option-cases, codes,
}
use ignis.Reactor.{
  Answer, whole, streaming, grpc, HttpResponse, ResponseBody, full, stream, Reactor,
}
use ignis.Reactor.Answers.{drop_receiver}
use ignis.Reactor.Answers.Invariant.{Inv, Agrees, IsStream}
use ignis.Serve.{
  CancelOnDrop, drop_guard, waiting, sending, over, answer, php_response, poll_request,
  has_responder, disarmed_for_this_answer, is_stream,
}
use ignis.Serve.Kept.{
  Kept, absurd_none, leave-Inv, leave-next_id, leave-answers, guard-Kept, left-Kept, plain-Kept,
}

pub body-cases :
    (b : ResponseBody) → ((bytes : Bytes) × (b ≡ full bytes)) ⊎ ((bound : ℕ) × (b ≡ stream bound))
body-cases (full bytes) = inl (bytes, refl)
body-cases (stream bound) = inr (bound, refl)

abbrev pub StreamBody : ResponseBody → Type 0
StreamBody (full bytes) = ⊥
StreamBody (stream bound) = Unit

pub true_not_false : true ≢ false
true_not_false e = ground (arith, e)

pub not_full : (resp : HttpResponse) → is_stream resp.body ≡ false → ¬ IsStream (some resp)
not_full resp b i = elim (body-cases resp.body) [
  | inl (bytes, q) ↦ subst StreamBody q i
  | inr (bound, q) ↦ true_not_false (ap is_stream (sym q) ∙ b)
]

-- An id whose client was sent a response, and that is no gRPC call: it is not owed an answer as a
-- whole, and nothing at all where the response has its whole body.
pub responded :
    (id : ℕ) (r : Reactor) (resp : HttpResponse)
    → Inv r
    → (r.channels id).response ≡ some resp
    → lookup id r.answers ≢ some grpc
    → (lookup id r.answers ≢ some whole)
      × (is_stream resp.body ≡ false → lookup id r.answers ≡ none)
responded id r resp v e n = elim (Option-cases (lookup id r.answers)) [
  | inl q ↦ ((λ f. absurd_none (sym q ∙ f)), λ _. q)
  | inr (whole, q) ↦
      let told = subst (λ (s : Option Answer). Agrees s (r.channels id)) q (v.agrees id) in
      let absurd : ⊥ = ground (arith, e, told.0) in elim absurd [ ]
  | inr (streaming, q) ↦
      let told = subst (λ (s : Option Answer). Agrees s (r.channels id)) q (v.agrees id) in
      let streams : IsStream (some resp) = subst IsStream e told.0 in
      ((λ f. ground (arith, q, f)), λ b. elim (not_full resp b streams) [ ])
  | inr (grpc, q) ↦ elim (n q) [ ]
]

pub not_waiting :
    (id : ℕ) (r : Reactor)
    → Inv r
    → (r.channels id).response ≡ none
    → lookup id r.answers ≢ some grpc
    → has_responder id r ≡ false
    → lookup id r.answers ≡ none
not_waiting id r v e n h = elim (Option-cases (lookup id r.answers)) [
  | inl q ↦ q
  | inr (whole, q) ↦ ground (arith, q, h)
  | inr (streaming, q) ↦
      let told = subst (λ (s : Option Answer). Agrees s (r.channels id)) q (v.agrees id) in
      elim (subst IsStream e told.0) [ ]
  | inr (grpc, q) ↦ elim (n q) [ ]
]

pub disarmed-full :
    (resp : HttpResponse)
    → disarmed_for_this_answer (is_stream resp.body) ≡ true
    → is_stream resp.body ≡ false
unfolding disarmed_for_this_answer
disarmed-full resp y = ground (arith, y)

pub answered-Kept :
    (id now : ℕ) (valid : Bool) (guard : CancelOnDrop) (resp : HttpResponse) (r : Reactor)
    → r.next_id + 1 < u64_mod
    → Kept id (r, waiting guard)
    → (r.channels id).response ≡ some resp
    → let (after, response) = answer valid (some resp) guard now r in
      Kept id (after, sending response.body)
unfolding answer php_response disarmed_for_this_answer
answered-Kept id now valid guard resp r l k e =
    let (i, a, n) = k.owes in
    let (m, free) = responded id r resp k.inv e n in
    let left : Reactor = drop_receiver r guard.id in
    let same : left.answers ≡ r.answers = leave-answers r guard.id in
    let inv : Inv left = leave-Inv r guard.id l k.inv in
    let given : id < left.next_id = omega (arith, k.given, leave-next_id r guard.id) in
    let disarmed : CancelOnDrop = record guard {
      answered = disarmed_for_this_answer (is_stream resp.body);
    } in
    let done : disarmed.answered ≡ true → lookup id left.answers ≡ none =
      λ y. ap (lookup id) same ∙ free (disarmed-full resp y) in
    let guarded : Kept id (drop_guard disarmed now left, over) =
      guard-Kept id now disarmed left (omega (arith, l, leave-next_id r guard.id)) inv given i
        done in
    elim (body-cases resp.body) [
      | inl (bytes, q) ↦ elim (Bool-cases valid) [
        | inl y ↦
            rw (q, y, answer, php_response, disarmed_for_this_answer)
              (plain-Kept id bytes _ guarded)
        | inr z ↦
            rw (q, z, answer, php_response, disarmed_for_this_answer)
              (plain-Kept id (codes "bad response headers\n") _ guarded)
      ]
      | inr (bound, q) ↦ elim (Bool-cases valid) [
        | inl y ↦
            rw (q, y, answer, php_response, disarmed_for_this_answer)
              (record {
                inv = inv;
                given = given;
                owes = (
                  i,
                  (λ f. n (sym (ap (lookup id) same) ∙ f)),
                  (λ f. m (sym (ap (lookup id) same) ∙ f)),
                  done,
                );
              })
        | inr z ↦
            rw (q, z, answer, php_response, disarmed_for_this_answer)
              (plain-Kept id (codes "bad response headers\n") _ guarded)
      ]
    ]

pub poll_request-Kept :
    (id now : ℕ) (valid : Bool) (guard : CancelOnDrop) (r : Reactor)
    → r.next_id + 1 < u64_mod
    → Kept id (r, waiting guard)
    → Kept id (poll_request valid now guard r)
unfolding poll_request
poll_request-Kept id now valid guard r l k =
    let (i, a, n) = k.owes in
    elim (Option-cases (r.channels guard.id).response) [
      | inr (resp, q) ↦
          rw (q, poll_request)
            (answered-Kept id now valid guard resp r l k
              (ap (λ (j : ℕ). (r.channels j).response) (sym i) ∙ q))
      | inl q ↦ elim (Bool-cases (has_responder guard.id r)) [
        | inl y ↦ rw (q, y, poll_request) k
        | inr z ↦
            rw (q, z, poll_request)
              (plain-Kept id (codes "no response from php\n") _ (
                left-Kept id guard.id r l (record {
                  inv = k.inv;
                  given = k.given;
                  owes =
                      not_waiting id r k.inv (ap (λ (j : ℕ). (r.channels j).response) (sym i) ∙ q) n
                        (ap (λ (j : ℕ). has_responder j r) (sym i) ∙ z);
                })))
      ]
    ]
