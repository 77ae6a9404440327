-- ===== src/Arpc/RoundTrip.antt =====
-- A call goes to the method of the server, and its response back to the call.
use learncc.Prelude.{
  ℕ, zero, suc, ◌+◌, ◌^◌, ◌≤◌, ◌<◌, ◌≡◌, refl, ap, sym, subst, ◌∙◌, true, false, List, [], ◌∷◌,
  ◌++◌, none, some, length, take, drop, ltb, ◌==◌, if◌then◌else◌, put, arith, append_split,
  append_assoc, length-append,
}
use learncc.Mmuduo.Buffer.{Buffer, readable_bytes, retrieve_as_string}
use learncc.Mmuduo.Buffer.Laws.{
  IsValid, contents, retrieve_as_string_lem, length-retrieve_as_string, retrieve_as_string-IsValid,
  readable_eq, length-contents,
}
use learncc.Arpc.{
  Header, IsWire, Proto, put_size, get_size, frame, Channel, Service, calls, Registry, on_message,
  Reply, finished, thrown, not_response, find_call, read_reply, recv_size, on_reply,
}

get_size-put_size : (n : ℕ) → n < 2 ^ 32 → get_size (put_size n) ≡ n
get_size-put_size n h = omega arith

-- The bytes in front of the unread ones are taken out, and the others stay.
record Taken (beyond : List ℕ) (b : Buffer) (len : ℕ) (front rest : List ℕ) : Type 0 where
  got : (retrieve_as_string beyond b len).0 ≡ front
  left : contents (retrieve_as_string beyond b len).1 ≡ rest
  valid : IsValid (retrieve_as_string beyond b len).1

take_nil : {A : Type 0} (n : ℕ) → take {A = A} n [] ≡ []
take_nil zero = refl
take_nil (suc n) = refl

pub take_all : {A : Type 0} (n : ℕ) (xs : List A) → length xs ≤ n → take n xs ≡ xs
take_all n [] h = take_nil n
take_all zero (x ∷ xs) h = absurd (omega arith)
take_all (suc n) (x ∷ xs) h = ap (λ ys. x ∷ ys) (take_all n xs (omega arith))

pub take-length : {A : Type 0} (xs ys : List A) → take (length xs) (xs ++ ys) ≡ xs
take-length [] ys = refl
take-length (x ∷ xs) ys = ap (λ zs. x ∷ zs) (take-length xs ys)

pub drop-length : {A : Type 0} (xs ys : List A) → drop (length xs) (xs ++ ys) ≡ ys
drop-length [] ys = refl
drop-length (x ∷ xs) ys = drop-length xs ys

retrieve-Taken :
    {beyond : List ℕ} {b : Buffer} (front rest : List ℕ)
    → IsValid b
    → contents b ≡ front ++ rest
    → Taken beyond b (length front) front rest
retrieve-Taken {beyond} {b} front rest v e =
    let size : length (contents b) ≡ length front + length rest =
      ap length e ∙ length-append front rest in
    let enough_bytes : length front ≤ readable_bytes b =
      omega (arith, length-contents v, readable_eq v) in
    let (got, left) =
      append_split (retrieve_as_string beyond b (length front)).0 front
        (contents (retrieve_as_string beyond b (length front)).1) rest
        (length-retrieve_as_string beyond (length front) v enough_bytes)
        (retrieve_as_string_lem beyond (length front) v enough_bytes ∙ e) in
    record { got = got; left = left; valid = retrieve_as_string-IsValid beyond (length front) v }

-- The state of a server that a request reaches.
pub record IsRegistered (reg : Registry) (service method args : List ℕ) (m : ℕ) : Type 0 where
  pub s : Service
  pub service_there : reg.services service ≡ some s
  pub method_there : s.methods method ≡ some m
  pub accepted : reg.accepts m args ≡ true

frame_parts :
    (p : Proto) (h : Header) (args rest : List ℕ)
    → frame p h args ++ rest
      ≡ put_size (length (p.serialize h)) ++ (p.serialize h ++ (args ++ rest))
unfolding frame
frame_parts p h args rest =
    ap (λ xs. put_size (length (p.serialize h)) ++ xs) (append_assoc (p.serialize h) args rest)

-- The frame of a request that has arrived as a whole is taken out of the buffer, and the method that
-- it names is called with its argument; what lies behind it stays.
pub on_message-frame :
    (p : Proto) (reg : Registry) (beyond : List ℕ) (b : Buffer) (h : Header) (args rest : List ℕ)
    (m : ℕ)
    → IsValid b
    → contents b ≡ frame p h args ++ rest
    → length (p.serialize h) < 2 ^ 32
    → IsWire h
    → h.args_size ≡ length args
    → IsRegistered reg h.service_name h.method_name args m
    → ((on_message p reg beyond b).0 ≡ calls h.id m args)
      × (contents (on_message p reg beyond b).1 ≡ rest)
      × IsValid (on_message p reg beyond b).1
unfolding on_message
on_message-frame p reg beyond b h args rest m v e small wire len r =
    let hdr = p.serialize h in
    let t1 =
      retrieve-Taken (put_size (length hdr)) (hdr ++ (args ++ rest)) v
        (e ∙ frame_parts p h args rest) in
    let size : get_size (retrieve_as_string beyond b 4).0 ≡ length hdr =
      ap get_size t1.got ∙ get_size-put_size (length hdr) small in
    let t2 = retrieve-Taken hdr (args ++ rest) t1.valid t1.left in
    let b2 = (retrieve_as_string beyond (retrieve_as_string beyond b 4).1 (length hdr)).1 in
    let t3 : Taken beyond b2 h.args_size args rest =
      subst (λ n. Taken beyond b2 n args rest) (sym len)
        (retrieve-Taken args rest t2.valid t2.left) in
    rw (size, t2.got, p.parse-serialize h wire, t3.got, r.service_there, r.method_there, r.accepted)
      (refl, t3.left, t3.valid)

abbrev reply_of : Proto → Channel → List ℕ → ℕ → Reply × Channel
reply_of p ch got size =
    if ltb (length got) 4
    then (thrown, ch)
    else read_reply (drop (4 + size) got) ch (p.parse (take size (drop 4 got)))

drop-put_size : (n k : ℕ) (xs : List ℕ) → drop (4 + k) (put_size n ++ xs) ≡ drop k xs
drop-put_size n k xs = let steps : 4 + k ≡ suc (suc (suc (suc k))) = omega arith in rw (steps) refl

module _ (p : Proto) (h : Header) (res : List ℕ) (response : h.kind ≡ 1) (wire : IsWire h)
    (len : h.args_size ≡ length res) (small : length (frame p h res) ≤ recv_size) where
  read_reply_lem :
      (ch : Channel) (out : ℕ)
      → ch.calls h.id ≡ some out
      → read_reply res ch (some h)
        ≡ (finished out res, record ch { calls = put ch.calls h.id none })
  read_reply_lem ch out e =
      let is_response : (h.kind == 1) ≡ true = ground arith in
      ap (λ b. if b then find_call h res ch (ch.calls h.id) else (not_response, ch)) is_response
      ∙ ap (λ o. find_call h res ch o) e
      ∙ ap (λ r. (finished out r, record ch { calls = put ch.calls h.id none }))
          (take_all h.args_size res (omega arith))

  -- A response of at most 1024 bytes that has arrived as a whole is that of the call with its identifier,
  -- which is then no longer waited for.
  pub on_reply-frame :
      (ch : Channel) (out : ℕ)
      → ch.calls h.id ≡ some out
      → on_reply p (frame p h res) ch
        ≡ (finished out res, record ch { calls = put ch.calls h.id none })
  unfolding on_reply frame
  on_reply-frame ch out e =
      let hdr = p.serialize h in
      let s = put_size (length hdr) ++ (hdr ++ res) in
      let whole : take recv_size s ≡ s = take_all recv_size s small in
      let size : get_size s ≡ length hdr =
        get_size-put_size (length hdr) (ground (arith, length-append hdr res)) in
      let enough_bytes : ltb (length s) 4 ≡ false = ground (arith, length-append hdr res) in
      let rest : drop (4 + length hdr) s ≡ res =
        drop-put_size (length hdr) (length hdr) (hdr ++ res) ∙ drop-length hdr res in
      let header_bytes = take-length hdr res in
      let found =
        ap (λ x. read_reply (drop (4 + length hdr) s) ch (p.parse x)) header_bytes
        ∙ ap (λ x. read_reply x ch (p.parse hdr)) rest
        ∙ ap (λ x. read_reply res ch x) (p.parse-serialize h wire)
        ∙ read_reply_lem ch out e in
      ap (λ got. reply_of p ch got (get_size got)) whole
      ∙ ap (reply_of p ch s) size
      ∙ ap
          (λ b.
            if b
            then (thrown, ch)
            else read_reply (drop (4 + length hdr) s) ch (p.parse (take (length hdr) (hdr ++ res))))
          enough_bytes
      ∙ found
