-- ===== src/Http/Writer/Sent.antt =====
-- net/http's ResponseWriter: what one response, and a second one after it, send.
use go_clipboard.Base.{
  ℕ, ◌≡◌, refl, ap, ◌∙◌, sym, false, List, [], ◌∷◌, ◌++◌, none, some, arith, All, subst,
}
use go_clipboard.Http.{Header, Payload, Response}
use go_clipboard.Http.Writer.{
  Op, set_header, write_header, write, Writer, new_writer, same_name, put_header, send_header, step,
  write_all, sent_header, set_headers, respond,
}
use mathlib.Core.List.{append_assoc, append-nil}

pub write_all-append :
    (xs ys : List Op) (w : Writer) → write_all (xs ++ ys) w ≡ write_all ys (write_all xs w)
unfolding write_all
write_all-append [] ys w = refl
write_all-append (op ∷ xs) ys w = write_all-append xs ys (step op w)

step-sent :
    (op : Op) (w : Writer) (old : ℕ × List Header) → w.sent ≡ some old → (step op w).sent ≡ some old
unfolding step
step-sent (set_header h) w old k = k
step-sent (write_header status) w old k = ground arith
step-sent (write p) w old k = ground arith

-- Once a status has been sent, no call changes it or the headers.
pub write_all-sent :
    (ops : List Op) (w : Writer) (old : ℕ × List Header)
    → w.sent ≡ some old
    → (write_all ops w).sent ≡ some old
unfolding write_all
write_all-sent [] w old h = h
write_all-sent (op ∷ ops) w old h = write_all-sent ops (step op w) old (step-sent op w old h)

-- Setting headers sends nothing, and keeps the body.
set_headers_keeps :
    (hs : List Header) (w : Writer)
    → ((write_all (set_headers hs) w).sent ≡ w.sent)
      × ((write_all (set_headers hs) w).body ≡ w.body)
unfolding write_all set_headers step
set_headers_keeps [] w = (refl, refl)
set_headers_keeps (h ∷ hs) w = set_headers_keeps hs (record w { pending = put_header h w.pending })

response-sent :
    (status : ℕ) (p : Payload) (w : Writer)
    → w.sent ≡ none
    → ((write_all (write_header status ∷ write p ∷ []) w).sent ≡ some (status, w.pending))
      × ((write_all (write_header status ∷ write p ∷ []) w).body ≡ w.body ++ (p ∷ []))
unfolding write_all step send_header
response-sent status p w fresh = (rw fresh refl, rw fresh refl)

-- A response that is written before any other call decides the status.
pub respond-sent :
    (resp : Response) (w : Writer)
    → w.sent ≡ none
    → (sent_header (write_all (respond resp) w)).0 ≡ resp.status
unfolding respond sent_header
respond-sent resp w fresh =
    let set = write_all (set_headers resp.headers) w in
    let (kept, _) = set_headers_keeps resp.headers w in
    rw
      (
        write_all-append (set_headers resp.headers)
            (write_header resp.status ∷ write resp.body ∷ []) w,
        sent_header,
        (response-sent resp.status resp.body set (kept ∙ fresh)).0,
      )
      refl

-- No two headers have one name.
abbrev pub IsDistinct : List Header → List Header → Type 0
IsDistinct before [] = Unit {0}
IsDistinct before (h ∷ hs) =
    All (λ g. same_name h g ≡ false) before × IsDistinct (before ++ (h ∷ [])) hs

put_header-append :
    (h : Header) (hs : List Header)
    → All (λ g. same_name h g ≡ false) hs
    → put_header h hs ≡ hs ++ (h ∷ [])
unfolding put_header
put_header-append h [] new = refl
put_header-append h (g ∷ hs) new = rw (new.0, put_header, put_header-append h hs new.1) refl

set_headers-pending :
    (hs : List Header) (w : Writer)
    → IsDistinct w.pending hs
    → (write_all (set_headers hs) w).pending ≡ w.pending ++ hs
unfolding write_all set_headers step
set_headers-pending [] w distinct = sym (append-nil w.pending)
set_headers-pending (h ∷ hs) w distinct =
    let added = put_header-append h w.pending distinct.0 in
    set_headers-pending hs (record w { pending = put_header h w.pending })
      (subst (λ ps. IsDistinct ps hs) (sym added) distinct.1)
    ∙ ap (λ (ps : List Header). ps ++ hs) added
    ∙ append_assoc w.pending (h ∷ []) hs

-- The client reads exactly the response that a handler writes.
pub respond-exact :
    (resp : Response)
    → IsDistinct [] resp.headers
    → (sent_header (write_all (respond resp) new_writer) ≡ (resp.status, resp.headers))
      × ((write_all (respond resp) new_writer).body ≡ resp.body ∷ [])
unfolding respond sent_header
respond-exact resp distinct =
    let set = write_all (set_headers resp.headers) new_writer in
    let (fresh, empty) = set_headers_keeps resp.headers new_writer in
    let sent = response-sent resp.status resp.body set fresh in
    let parts =
      write_all-append (set_headers resp.headers) (write_header resp.status ∷ write resp.body ∷ [])
        new_writer in
    (
      rw (parts, sent_header, sent.0)
          (ap (λ (hs : List Header). (resp.status, hs))
            (set_headers-pending resp.headers new_writer distinct)),
      rw parts (sent.1 ∙ ap (λ (b : List Payload). b ++ (resp.body ∷ [])) empty),
    )
