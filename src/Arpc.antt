-- ===== src/Arpc.antt =====
-- Remote calls: src/arpc/arpc_channel.cc and arpc_server.cc. Messages are the bytes that protobuf makes of
-- them; protobuf itself is the interface `Proto`. A name of a service or method is its bytes.
pub mod RoundTrip
pub mod Calls
mod Tests
use learncc.Prelude.{
  ℕ, zero, suc, ◌+◌, ◌-◌, ◌*◌, ◌/◌, ◌%◌, ◌^◌, ◌<◌, ◌≡◌, Bool, true, false, List, [], ◌∷◌, ◌++◌,
  Option, none, some, length, take, drop, ltb, ◌==◌, if◌then◌else◌, put,
}
use learncc.Mmuduo.Buffer.{Buffer, retrieve_as_string}

-- `arpc_header`; a type of 1 is `RESPONSE`.
pub record Header : Type 0 where
  pub kind : ℕ
  pub id : ℕ
  pub service_name : List ℕ
  pub method_name : List ℕ
  pub args_size : ℕ

-- The numbers of a header fit in their fields.
abbrev pub IsWire : Header → Type 0
IsWire h = (h.kind < 2 ^ 32) × (h.id < 2 ^ 32) × (h.args_size < 2 ^ 32)

-- A header whose numbers fit is parsed as it was serialized.
pub record Proto : Type 0 where
  pub serialize : Header → List ℕ
  pub parse : List ℕ → Option Header
  pub parse-serialize : (h : Header) → IsWire h → parse (serialize h) ≡ some h

-- The copy of a `uint32_t` from and to a string, on a machine that stores the lowest byte first.
abbrev pub put_size : ℕ → List ℕ
put_size n = n % 256 ∷ n / 256 % 256 ∷ n / 65536 % 256 ∷ n / 16777216 % 256 ∷ []

abbrev pub get_size : List ℕ → ℕ
get_size [] = 0
get_size (a ∷ []) = a
get_size (a ∷ b ∷ []) = a + b * 256
get_size (a ∷ b ∷ c ∷ []) = a + b * 256 + c * 65536
get_size (a ∷ b ∷ c ∷ d ∷ bs) = a + b * 256 + c * 65536 + d * 16777216

pub frame : Proto → Header → List ℕ → List ℕ
frame p h args = put_size (length (p.serialize h)) ++ (p.serialize h ++ args)

-- `calls_`, by identifier, and `id_`, an `int` that wraps around and that nothing initialises: it is kept as
-- the number that is sent for it. A call is a number that stands for its response and closure.
pub record Channel : Type 0 where
  pub next : ℕ
  pub calls : ℕ → Option ℕ

-- How far the connection to the server gets.
pub data Net : Type 0 where
  sent : Net
  failed : Net

-- `CallMethod` up to the thread that waits: the bytes sent, or an error of the controller.
abbrev after_send : List ℕ → Net → Option (List ℕ)
after_send bs sent = some bs
after_send bs failed = none

abbrev pub request_header : ℕ → List ℕ → List ℕ → List ℕ → Header
request_header id service method args = record {
  kind = 0;
  id = id;
  service_name = service;
  method_name = method;
  args_size = length args % 2 ^ 32;
}

pub call_method : Proto → List ℕ → List ℕ → List ℕ → ℕ → Net → Channel → Option (List ℕ) × Channel
unfolding frame
call_method p service method args out net ch = (
  after_send (frame p (request_header ch.next service method args) args) net,
  record ch { next = (ch.next + 1) % 2 ^ 32; calls = put ch.calls ch.next (some out) },
)

-- A service of the server: its methods by name.
pub record Service : Type 0 where
  pub methods : List ℕ → Option ℕ

-- How `on_message` ends; `calls` has the identifier, the method and its argument.
pub data Reaction : Type 0 where
  bad_header : Reaction
  no_service : Reaction
  no_method : Reaction
  bad_request : Reaction
  calls : ℕ → ℕ → List ℕ → Reaction

-- What the server knows: its services by name, and whether a method's request parses.
pub record Registry : Type 0 where
  pub services : List ℕ → Option Service
  pub accepts : ℕ → List ℕ → Bool

abbrev with_method : Registry → Header → List ℕ → Option ℕ → Reaction
with_method reg h args none = no_method
with_method reg h args (some m) = if reg.accepts m args then calls h.id m args else bad_request

abbrev with_service : Registry → Header → List ℕ → Option Service → Reaction
with_service reg h args none = no_service
with_service reg h args (some s) = with_method reg h args (s.methods h.method_name)

abbrev with_header : Registry → List ℕ → Buffer → Option Header → Reaction × Buffer
with_header reg beyond b none = (bad_header, b)
with_header reg beyond b (some h) =
    let (args, b') = retrieve_as_string beyond b h.args_size in
    (with_service reg h args (reg.services h.service_name), b')

-- `beyond` is the memory behind the array of the buffer.
pub on_message : Proto → Registry → List ℕ → Buffer → Reaction × Buffer
on_message p reg beyond b =
    let (size_bytes, b1) = retrieve_as_string beyond b 4 in
    let (header_bytes, b2) = retrieve_as_string beyond b1 (get_size size_bytes) in
    with_header reg beyond b2 (p.parse header_bytes)

abbrev pub response_header : ℕ → List ℕ → Header
response_header id res = record {
  kind = 1;
  id = id;
  service_name = [];
  method_name = [];
  args_size = length res % 2 ^ 32;
}

pub send_response : Proto → ℕ → List ℕ → List ℕ
unfolding frame
send_response p id res = frame p (response_header id res) res

-- How the thread ends that waits for the response: `finished` has the call and the bytes that its
-- response is parsed from.
pub data Reply : Type 0 where
  thrown : Reply
  unparsed : Reply
  not_response : Reply
  unknown_call : Reply
  finished : ℕ → List ℕ → Reply

abbrev find_call : Header → List ℕ → Channel → Option ℕ → Reply × Channel
find_call h rest ch none = (unknown_call, ch)
find_call h rest ch (some out) =
    (finished out (take h.args_size rest), record ch { calls = put ch.calls h.id none })

abbrev read_reply : List ℕ → Channel → Option Header → Reply × Channel
read_reply rest ch none = (unparsed, ch)
read_reply rest ch (some h) =
    if h.kind == 1 then find_call h rest ch (ch.calls h.id) else (not_response, ch)

abbrev pub recv_size : ℕ
recv_size = 1024

-- One `recv` of what has arrived; `substr` throws if its start is behind the end.
pub on_reply : Proto → List ℕ → Channel → Reply × Channel
on_reply p arrived ch =
    let got = take recv_size arrived in
    let header_size = get_size got in
    if ltb (length got) 4
    then (thrown, ch)
    else read_reply (drop (4 + header_size) got) ch (p.parse (take header_size (drop 4 got)))
