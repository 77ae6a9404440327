-- ===== src/Arpc/Calls.antt =====
-- A whole call, and a request that arrives in pieces.
use learncc.Prelude.{
  ℕ, ◌+◌, ◌^◌, ◌%◌, ◌≤◌, ◌<◌, ◌≡◌, inl, inr, refl, ap, sym, ◌∙◌, List, [], Option, none, some,
  length, drop, put, arith, append-nil, length-append, drop_all, Option-cases,
}
use learncc.Mmuduo.Buffer.{Buffer, readable_bytes, retrieve_as_string}
use learncc.Mmuduo.Buffer.Laws.{
  IsValid, contents, contents-retrieve_as_string, retrieve_as_string-IsValid, readable_eq,
  length-contents,
}
use learncc.Arpc.{
  Proto, frame, Channel, sent, request_header, call_method, calls, Registry, on_message,
  response_header, send_response, finished, recv_size, on_reply, get_size,
}
use learncc.Arpc.RoundTrip.{IsRegistered, on_message-frame, on_reply-frame}

abbrev bytes_of : Option (List ℕ) → List ℕ
bytes_of none = []
bytes_of (some bs) = bs

-- A call, with any identifier, whose request arrives as a whole at a server that knows its method, and whose
-- response has at most 1024 bytes and arrives as a whole in the one `recv` of the caller: the server calls
-- the method with the argument of the caller, and the caller gets the response of the method for this
-- call, which is then no longer waited for.
pub call_method-finished :
    (p : Proto) (reg : Registry) (beyond : List ℕ) (b : Buffer) (ch : Channel)
    (service method args res bytes : List ℕ) (out m : ℕ)
    → let (o, ch') = call_method p service method args out sent ch in
      o ≡ some bytes
      → IsValid b
      → contents b ≡ bytes
      → ch.next < 2 ^ 32
      → length args < 2 ^ 32
      → length (p.serialize (request_header ch.next service method args)) < 2 ^ 32
      → IsRegistered reg service method args m
      → length (send_response p ch.next res) ≤ recv_size
      → ((on_message p reg beyond b).0 ≡ calls ch.next m args)
        × ((on_reply p
              (send_response p ch.next res)
              (call_method p service method args out sent ch).1).0
            ≡ finished out res)
        × ((on_reply p
                (send_response p ch.next res)
                (call_method p service method args out sent ch).1).1.calls
              ch.next
            ≡ none)
unfolding call_method send_response frame
call_method-finished p reg beyond b ch service method args res bytes out m e v arrived i l l' r
      small =
    let h = request_header ch.next service method args in
    let same : frame p h args ≡ bytes = ap bytes_of e in
    let served =
      on_message-frame p reg beyond b h args [] m v
        (arrived ∙ sym same ∙ sym (append-nil (frame p h args))) l' (omega arith, i, ground arith)
        (ground arith) r in
    let replied =
      on_reply-frame p (response_header ch.next res) res refl (omega arith, i, ground arith)
        (ground (arith, length-append (p.serialize (response_header ch.next res)) res)) small
        (record ch { next = (ch.next + 1) % 2 ^ 32; calls = put ch.calls ch.next (some out) }) out
        (ground arith) in
    (served.0, ap (λ x. x.0) replied, ap (λ x. x.1.calls ch.next) replied ∙ ground arith)

no_bytes :
    (beyond : List ℕ) (b : Buffer) (len : ℕ)
    → IsValid b
    → contents b ≡ []
    → contents (retrieve_as_string beyond b len).1 ≡ []
no_bytes beyond b len v e =
    contents-retrieve_as_string beyond len v ∙ ap (drop len) e ∙ drop_all len [] (omega arith)

-- A server handles a buffer in which at most four bytes have arrived: if it gets through the reads past
-- what has arrived, whatever is in memory there and whatever it takes from it, none of these bytes is in
-- the buffer any more when the rest of the request arrives.
pub on_message-early :
    (p : Proto) (reg : Registry) (beyond : List ℕ) (b : Buffer)
    → IsValid b
    → readable_bytes b ≤ 4
    → contents (on_message p reg beyond b).1 ≡ []
unfolding on_message
on_message-early p reg beyond b v h =
    let b1 = (retrieve_as_string beyond b 4).1 in
    let size = get_size (retrieve_as_string beyond b 4).0 in
    let b2 = (retrieve_as_string beyond b1 size).1 in
    let v1 = retrieve_as_string-IsValid beyond 4 v in
    let e1 : contents b1 ≡ [] =
      contents-retrieve_as_string beyond 4 v
      ∙ drop_all 4 (contents b) (omega (arith, length-contents v, readable_eq v)) in
    let v2 = retrieve_as_string-IsValid beyond size v1 in
    let e2 = no_bytes beyond b1 size v1 e1 in
    elim (Option-cases (p.parse (retrieve_as_string beyond b1 size).0)) [
      | inl e ↦ rw (e) e2
      | inr (x, e) ↦ rw (e) (no_bytes beyond b2 x.args_size v2 e2)
    ]
