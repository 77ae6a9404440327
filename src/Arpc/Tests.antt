-- ===== src/Arpc/Tests.antt =====
-- The theorems on calls with a protobuf that writes two bytes of a header.
use learncc.Prelude.{
  ℕ, ◌≡◌, refl, true, List, [], ◌∷◌, ◌++◌, Option, none, some, length, take, drop, replicate, arith,
}
use learncc.Mmuduo.Buffer.{Buffer}
use learncc.Mmuduo.Buffer.Laws.{contents}
use learncc.Arpc.{
  Header, Proto, frame, Channel, sent, call_method, calls, Registry, on_message, send_response,
  finished, on_reply,
}
use learncc.Arpc.RoundTrip.{take-length, drop-length, take_all}
use learncc.Arpc.Calls.{call_method-finished, on_message-early}

abbrev write_header : Header → List ℕ
write_header h =
    h.kind
    ∷ h.id
    ∷ length h.service_name
    ∷ length h.method_name
    ∷ h.args_size
    ∷ (h.service_name ++ h.method_name)

abbrev read_header : List ℕ → Option Header
read_header (k ∷ i ∷ n ∷ m ∷ a ∷ names) = some (record {
  kind = k;
  id = i;
  service_name = take n names;
  method_name = take m (drop n names);
  args_size = a;
})
read_header bs = none

read_header-write_header : (h : Header) → read_header (write_header h) ≡ some h
read_header-write_header h =
    let s = h.service_name in
    let m = h.method_name in
    rw (take-length s m, drop-length s m, take_all (length m) m (omega arith)) refl

abbrev plain : Proto
plain = record {
  serialize = write_header;
  parse = read_header;
  parse-serialize = λ h w. read_header-write_header h;
}

abbrev echo : Registry
echo = record {
  services = λ name. some (record { methods = λ method. some 5 });
  accepts = λ m args. true;
}

abbrev idle : Channel
idle = record { next = 3; calls = λ id. none }

abbrev request : List ℕ
request = 7 ∷ 0 ∷ 0 ∷ 0 ∷ 0 ∷ 3 ∷ 1 ∷ 1 ∷ 2 ∷ 101 ∷ 102 ∷ 8 ∷ 9 ∷ []

abbrev received : Buffer
received = record { buf = replicate 8 0 ++ request; read = 8; write = 21 }

call_method-finished_example :
    ((on_message plain echo [] received).0 ≡ calls 3 5 (8 ∷ 9 ∷ []))
    × ((on_reply plain
          (send_response plain 3 (6 ∷ []))
          (call_method plain (101 ∷ []) (102 ∷ []) (8 ∷ 9 ∷ []) 4 sent idle).1).0
        ≡ finished 4 (6 ∷ []))
    × ((on_reply plain
            (send_response plain 3 (6 ∷ []))
            (call_method plain (101 ∷ []) (102 ∷ []) (8 ∷ 9 ∷ []) 4 sent idle).1).1.calls
          3
        ≡ none)
unfolding call_method send_response frame
call_method-finished_example =
    call_method-finished plain echo [] received idle (101 ∷ []) (102 ∷ []) (8 ∷ 9 ∷ []) (6 ∷ [])
      request 4 5 refl
      (record {
        reserved = omega arith;
        ordered = omega arith;
        stored = omega arith;
        small = omega arith;
      })
      refl (omega arith) (omega arith) (omega arith)
      (record {
        s = record { methods = λ method. some 5 };
        service_there = refl;
        method_there = refl;
        accepted = refl;
      })
      (omega arith)

abbrev early : Buffer
early = record { buf = replicate 8 0 ++ (7 ∷ 0 ∷ []); read = 8; write = 10 }

on_message-early_example : contents (on_message plain echo [] early).1 ≡ []
on_message-early_example =
    on_message-early plain echo [] early
      (record {
        reserved = omega arith;
        ordered = omega arith;
        stored = omega arith;
        small = omega arith;
      })
      (omega arith)
