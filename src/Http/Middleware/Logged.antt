-- ===== src/Http/Middleware/Logged.antt =====
-- internal/httpapi/middleware.go: what the client and the log get of a request.
use go_clipboard.Base.{
  ℕ, ◌≡◌, refl, ap, ◌∙◌, sym, List, [], ◌∷◌, ◌++◌, Option, none, some, Option-cases, inl, inr,
}
use mathlib.Core.List.{append_assoc}
use go_clipboard.Http.{Header, Request, Response, write_error}
use go_clipboard.Http.Writer.{
  Op, set_header, write_header, write, Writer, new_writer, write_all, sent_header, set_headers,
  respond,
}
use go_clipboard.Http.Writer.Sent.{
  write_all-append, write_all-sent, respond-sent, respond-exact, IsDistinct,
}
use go_clipboard.Http.Middleware.{
  returned, panicked, request_completed, handler_panic, Handler, recorded, log_request, recover,
  request_logging, panic_recovery, chain,
}

recorded-append :
    (xs ys : List Op) (status : ℕ) → recorded (xs ++ ys) status ≡ recorded ys (recorded xs status)
unfolding recorded
recorded-append [] ys status = refl
recorded-append (set_header h ∷ xs) ys status = recorded-append xs ys status
recorded-append (write_header new ∷ xs) ys status = recorded-append xs ys new
recorded-append (write p ∷ xs) ys status = recorded-append xs ys status

recorded-set_headers : (hs : List Header) (status : ℕ) → recorded (set_headers hs) status ≡ status
unfolding recorded set_headers
recorded-set_headers [] status = refl
recorded-set_headers (h ∷ hs) status = recorded-set_headers hs status

pub recorded-respond : (resp : Response) (status : ℕ) → recorded (respond resp) status ≡ resp.status
unfolding respond recorded
recorded-respond resp status =
    recorded-append (set_headers resp.headers) (write_header resp.status ∷ write resp.body ∷ [])
      status

abbrev error_500 : Response
error_500 = write_error 500 "internal_error" "an unexpected error occurred"

-- The status that the client gets of a handler that panics after the calls `ops`.
abbrev pub status_of_panic : Option (ℕ × List Header) → ℕ
status_of_panic none = 500
status_of_panic (some sent) = sent.0

error_500-status : error_500.status ≡ 500
unfolding write_error
error_500-status = refl

sent_header-some :
    (w : Writer) (old : ℕ × List Header) → w.sent ≡ some old → (sent_header w).0 ≡ old.0
unfolding sent_header
sent_header-some w old h = rw h refl

panic-sent :
    (ops : List Op)
    → (sent_header (write_all (ops ++ respond error_500) new_writer)).0
      ≡ status_of_panic (write_all ops new_writer).sent
panic-sent ops =
    let before = write_all ops new_writer in
    ap (λ (w : Writer). (sent_header w).0) (write_all-append ops (respond error_500) new_writer)
    ∙ (elim (Option-cases before.sent) [
      | inl fresh ↦
          respond-sent error_500 before fresh ∙ error_500-status ∙ ap status_of_panic (sym fresh)
      | inr (old, sent) ↦
          sent_header-some (write_all (respond error_500) before) old
            (write_all-sent (respond error_500) before old sent)
          ∙ ap status_of_panic (sym sent)
    ])

module _ {S : Type 0} (next : Handler S) (r : Request) (s : S) where
  -- A panic does not leave the wrappers: the request ends, the state is what the handler made of it,
  -- and two lines are logged, of the panic and of the request with status 500. The client gets that
  -- status if the handler had sent none before it panicked, and the one that it had sent otherwise.
  pub chain-panicked :
      (next r s).0.ending ≡ panicked
      → ((chain next (request_logging ∷ panic_recovery ∷ []) r s).0.ending ≡ returned)
        × ((chain next (request_logging ∷ panic_recovery ∷ []) r s).1 ≡ (next r s).1)
        × ((chain next (request_logging ∷ panic_recovery ∷ []) r s).0.log
            ≡ (next r s).0.log ++ (handler_panic ∷ request_completed r.method r.path 500 ∷ []))
        × ((sent_header (
              write_all
                (chain next (request_logging ∷ panic_recovery ∷ []) r s).0.ops
                new_writer)).0
            ≡ status_of_panic (write_all (next r s).0.ops new_writer).sent)
  unfolding chain request_logging panic_recovery recover log_request
  chain-panicked h = rw h (
    refl,
    refl,
    append_assoc (next r s).0.log (handler_panic ∷ []) _
        ∙ ap
            (λ (n : ℕ).
              (next r s).0.log ++ (handler_panic ∷ request_completed r.method r.path n ∷ []))
            (recorded-append (next r s).0.ops (respond error_500) 200
              ∙ recorded-respond error_500 (recorded (next r s).0.ops 200)
              ∙ error_500-status),
    panic-sent (next r s).0.ops,
  )

  -- A handler that writes one response and returns: the client reads exactly that response, and one
  -- line is logged, with its status.
  pub chain-returned :
      (resp : Response)
      → (next r s).0 ≡ record { ops = respond resp; ending = returned; log = [] }
      → IsDistinct [] resp.headers
      → ((chain next (request_logging ∷ panic_recovery ∷ []) r s).0 ≡ record {
        ops = respond resp;
        ending = returned;
        log = request_completed r.method r.path resp.status ∷ [];
      })
        × (sent_header (write_all (respond resp) new_writer) ≡ (resp.status, resp.headers))
        × ((chain next (request_logging ∷ panic_recovery ∷ []) r s).1 ≡ (next r s).1)
  unfolding chain request_logging panic_recovery recover log_request
  chain-returned resp h distinct = (
    rw h (
        ap
          (λ (n : ℕ). record {
            ops = respond resp;
            ending = returned;
            log = request_completed r.method r.path n ∷ [];
          })
          (recorded-respond resp 200)),
    (respond-exact resp distinct).0,
    refl,
  )
