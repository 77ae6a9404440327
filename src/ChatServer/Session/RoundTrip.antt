-- ===== src/ChatServer/Session/RoundTrip.antt =====
-- What one session sends, another one reads.
use learncc.Prelude.{
  append_split, ℕ, zero, suc, ◌+◌, ◌-◌, ◌≤◌, ◌<◌, ◌≡◌, inl, inr, refl, ap, sym, subst, ◌∙◌, List,
  [], ◌∷◌, ◌++◌, length, take, drop, leb, min, max, arith, Every, Bool-cases, append-nil,
  append_assoc, length-append, length-take, length-drop, take-append-drop,
}
use learncc.ChatServer.MsgNode.{head_total_len, put_short}
use learncc.ChatServer.Session.{Phase, head, body, open_, Reader, start, on_read, feed}
use learncc.ChatServer.Session.Wire.{IsSendable, wire, wire_cons, on_head_lem}

-- A session that is open, in this phase, waiting for `w` bytes with `g` read.
abbrev reading : Phase → ℕ → List ℕ → List (ℕ × List ℕ) → Reader
reading p w g q = record { phase = p; want = w; got = g; posted = q; status = open_ }

-- It is at the messages `ms` of the stream: in the head of the first of them, or in its body.
IsAt : Phase → ℕ → List ℕ → List ℕ → List (ℕ × List ℕ) → Type 0
IsAt head w g stream ms =
    (w ≡ head_total_len) × (length g < head_total_len) × (g ++ stream ≡ wire ms)
IsAt (body id) w g stream [] = ⊥
IsAt (body id) w g stream (m ∷ ms) =
    (w ≡ length m.1) × (id ≡ m.0) × (length g < max w 1) × (g ++ stream ≡ m.1 ++ wire ms)

abbrev amount : ℕ → Reader → ℕ
amount n r = min n (r.want - length r.got)

-- After a read by which it got `n` bytes at most, it is at the messages `ms'`.
record Moved (n : ℕ) (r : Reader) (stream : List ℕ) (ms : List (ℕ × List ℕ)) : Type 0 where
  p : Phase
  w : ℕ
  g : List ℕ
  q : List (ℕ × List ℕ)
  ms' : List (ℕ × List ℕ)
  read_to : on_read (take (amount n r) stream) r ≡ reading p w g q
  is_at : IsAt p w g (drop (amount n r) stream) ms'
  sendable : Every IsSendable ms'
  posted_lem : q ++ ms' ≡ r.posted ++ ms
  shorter : length (drop (amount n r) stream) + length ms' < length stream + length ms

-- A read of at most `n` of the bytes that are missing of `us`.
module _ (n : ℕ) (g stream us rest : List ℕ) (few : length g ≤ length us)
    (e : g ++ stream ≡ us ++ rest) where
  abbrev asked : ℕ
  asked = min n (length us - length g)

  taken-left : (g ++ take asked stream) ++ drop asked stream ≡ g ++ stream
  taken-left =
      append_assoc g (take asked stream) (drop asked stream)
      ∙ ap (λ s. g ++ s) (take-append-drop asked stream)

  taken-long : length us ≤ length g + length stream
  taken-long =
      let both : length (g ++ stream) ≡ length (us ++ rest) = ap length e in
      omega (arith, length-append g stream, length-append us rest)

  taken-length : length (g ++ take asked stream) ≡ length g + asked
  taken-length =
      let long = taken-long in
      ground (arith, length-append g (take asked stream), length-take asked stream)

  taken-all :
      length us ≤ length (g ++ take asked stream)
      → (g ++ take asked stream ≡ us) × (drop asked stream ≡ rest)
  taken-all h =
      let size = taken-length in
      append_split (g ++ take asked stream) us (drop asked stream) rest (ground arith)
        (taken-left ∙ e)

  taken-less : 1 ≤ n → length g < length us → length (drop asked stream) < length stream
  taken-less h l = let long = taken-long in ground (arith, length-drop asked stream)

module _ (n : ℕ) (m : ℕ × List ℕ) (ms q : List (ℕ × List ℕ)) (g stream : List ℕ) (v : IsSendable m)
    (vs : Every IsSendable ms) (some_bytes : 1 ≤ n) where
  move_head :
      length g < head_total_len
      → g ++ stream ≡ wire (m ∷ ms)
      → Moved n (reading head head_total_len g q) stream (m ∷ ms)
  unfolding on_read IsAt
  move_head few e =
      let front = put_short m.0 ++ put_short (length m.1) in
      let rest = m.1 ++ wire ms in
      let whole : g ++ stream ≡ front ++ rest = e ∙ wire_cons m ms v in
      let k = min n (head_total_len - length g) in
      let got = g ++ take k stream in
      let less = taken-less n g stream front rest (omega arith) whole some_bytes few in
      elim (Bool-cases (leb head_total_len (length got))) [
        | inl full ↦
            let (read_in, left) =
              taken-all n g stream front rest (omega arith) whole (ground arith) in
            record {
              p = body m.0;
              w = length m.1;
              g = [];
              q = q;
              ms' = m ∷ ms;
              read_to =
                  rw (full, read_in) (on_head_lem m.0 m.1 (reading head head_total_len g q) v);
              is_at = (refl, refl, ground arith, left);
              sendable = (v, vs);
              posted_lem = refl;
              shorter = omega arith;
            }
        | inr part ↦ record {
          p = head;
          w = head_total_len;
          g = got;
          q = q;
          ms' = m ∷ ms;
          read_to = rw (part) refl;
          is_at = (refl, ground arith, taken-left n g stream front rest (omega arith) whole ∙ e);
          sendable = (v, vs);
          posted_lem = refl;
          shorter = omega arith;
        }
      ]

  move_body :
      length g < max (length m.1) 1
      → g ++ stream ≡ m.1 ++ wire ms
      → Moved n (reading (body m.0) (length m.1) g q) stream (m ∷ ms)
  unfolding on_read IsAt
  move_body few e =
      let k = min n (length m.1 - length g) in
      let got = g ++ take k stream in
      let within : length g ≤ length m.1 = ground arith in
      elim (Bool-cases (leb (length m.1) (length got))) [
        | inl full ↦
            let (read_in, left) = taken-all n g stream m.1 (wire ms) within e (ground arith) in
            record {
              p = head;
              w = head_total_len;
              g = [];
              q = q ++ (m ∷ []);
              ms' = ms;
              read_to = rw (full, read_in) refl;
              is_at = (refl, ground arith, left);
              sendable = vs;
              posted_lem = append_assoc q (m ∷ []) ms;
              shorter = ground (arith, length-drop k stream);
            }
        | inr part ↦
            let less =
              taken-less n g stream m.1 (wire ms) within e some_bytes
                (ground (arith, length-append g (take k stream))) in
            record {
              p = body m.0;
              w = length m.1;
              g = got;
              q = q;
              ms' = m ∷ ms;
              read_to = rw (part) refl;
              is_at = (refl, refl, ground arith, taken-left n g stream m.1 (wire ms) within e ∙ e);
              sendable = (v, vs);
              posted_lem = refl;
              shorter = omega arith;
            }
      ]

empty_end : {A : Type 0} (xs ys : List A) → xs ++ ys ≡ [] → (xs ≡ []) × (ys ≡ [])
empty_end [] ys e = (refl, e)
empty_end (x ∷ xs) ys e = absurd (ground arith)

take_nil : (n : ℕ) → take {A = ℕ} n [] ≡ []
take_nil zero = refl
take_nil (suc n) = refl

drop_nil : (n : ℕ) → drop {A = ℕ} n [] ≡ []
drop_nil zero = refl
drop_nil (suc n) = refl

feed_idle :
    (ns : List ℕ) (q : List (ℕ × List ℕ))
    → (feed ns [] (reading head head_total_len [] q)).posted ≡ q
unfolding feed on_read
feed_idle [] q = refl
feed_idle (n ∷ ns) q = rw (take_nil (min n 4), drop_nil (min n 4)) (feed_idle ns q)

feed-Moved :
    (n : ℕ) (ns : List ℕ) (p : Phase) (w : ℕ) (g : List ℕ) (q : List (ℕ × List ℕ)) (stream : List ℕ)
    (ms : List (ℕ × List ℕ))
    → (v : Moved n (reading p w g q) stream ms)
    → (feed ns (drop (amount n (reading p w g q)) stream) (reading v.p v.w v.g v.q)).posted
      ≡ v.q ++ v.ms'
    → (feed (n ∷ ns) stream (reading p w g q)).posted ≡ q ++ ms
unfolding feed
feed-Moved n ns p w g q stream ms v e = rw (v.read_to) (e ∙ v.posted_lem)

feed_at :
    (ns : List ℕ) (p : Phase) (w : ℕ) (g : List ℕ) (q : List (ℕ × List ℕ)) (stream : List ℕ)
    (ms : List (ℕ × List ℕ))
    → IsAt p w g stream ms
    → Every IsSendable ms
    → Every (λ n. 1 ≤ n) ns
    → length stream + length ms ≤ length ns
    → (feed ns stream (reading p w g q)).posted ≡ q ++ ms
unfolding IsAt wire
feed_at ns head w g q stream [] (same, few, e) vs os enough_reads =
    let (none_read, none_left) = empty_end g stream e in
    rw (same, none_read, none_left) (feed_idle ns q ∙ sym (append-nil q))
feed_at ns (body id) w g q stream [] a vs os enough_reads = absurd a
feed_at [] p w g q stream (m ∷ ms) a vs os enough_reads = absurd (omega arith)
feed_at (n ∷ ns) head w g q stream (m ∷ ms) (same, few, e) (v, vs) (o, os) enough_reads =
    let next = move_head n m ms q g stream v vs o few e in
    let rest =
      feed_at ns next.p next.w next.g next.q
        (drop (amount n (reading head head_total_len g q)) stream) next.ms' next.is_at next.sendable
        os (ground (arith, next.shorter)) in
    rw (same) (feed-Moved n ns head head_total_len g q stream (m ∷ ms) next rest)
feed_at (n ∷ ns) (body id) w g q stream (m ∷ ms) (same, same', few, e) (v, vs) (o, os)
      enough_reads =
    let next = move_body n m ms q g stream v vs o (subst (λ x. length g < max x 1) same few) e in
    let rest =
      feed_at ns next.p next.w next.g next.q
        (drop (amount n (reading (body m.0) (length m.1) g q)) stream) next.ms' next.is_at
        next.sendable os (ground (arith, next.shorter)) in
    rw (same, same') (feed-Moved n ns (body m.0) (length m.1) g q stream (m ∷ ms) next rest)

-- Messages whose identifiers and lengths are at most 2048, sent one behind the other, are read and posted
-- as they were sent, in whatever pieces the network delivers them, if there are as many reads as there
-- are bytes and messages.
pub feed-wire :
    (ns : List ℕ) (ms : List (ℕ × List ℕ))
    → Every IsSendable ms
    → Every (λ n. 1 ≤ n) ns
    → length (wire ms) + length ms ≤ length ns
    → (feed ns (wire ms) start).posted ≡ ms
unfolding IsAt
feed-wire ns ms vs os enough_reads =
    feed_at ns head head_total_len [] [] (wire ms) ms (refl, omega arith, refl) vs os enough_reads
