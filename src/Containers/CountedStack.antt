-- ===== src/Containers/CountedStack.antt =====
-- `ref_count_stack` of inc/public/ts_stack.h: a stack without locks whose nodes count the threads that use
-- them. A turn is what a thread does up to its next access of an atomic; turns follow one another, so the
-- orders weaker than sequential consistency are not modelled. Nodes are numbered as they are made,
-- from 1 on; 0 is the null pointer.
mod Tests
pub mod Counting
pub mod Owners
pub mod Pops
pub mod Takes
pub mod Pushes
pub mod Safety
use learncc.Prelude.{
  ℕ, zero, suc, ◌+◌, ◌≡◌, Bool, true, false, ◌&&◌, List, [], ◌∷◌, ◌++◌, Option, none, some, ◌==◌,
  if◌then◌else◌, put,
}

-- `counted_node_ptr`.
pub record Ptr : Type 0 where
  pub external_count : ℕ
  pub node : ℕ

abbrev pub same : Ptr → Ptr → Bool
same p q = (p.external_count == q.external_count) && (p.node == q.node)

-- A thread in a call: `entering` is in `increase_head_count` with what it expects; `holding` has the count
-- and the node of its `old_head`; `leaving` has failed to take the node, and goes on with another
-- `old_head`; `won` has taken it, and `swapped` its data. `pushing` has a node of its own.
pub data Thread : Type 0 where
  entering : Ptr → Thread
  holding : ℕ → ℕ → Thread
  leaving : ℕ → Ptr → Thread
  won : ℕ → ℕ → Thread
  swapped : ℕ → ℕ → Thread
  pushing : ℕ → Thread

-- The `internal_count` of a node is `plus` less `minus`; `freed` tells which nodes are deleted.
pub record Stack : Type 0 where
  pub head : Ptr
  pub data_of : ℕ → Option ℕ
  pub next_of : ℕ → Ptr
  pub plus : ℕ → ℕ
  pub minus : ℕ → ℕ
  pub freed : ℕ → Bool
  pub made : ℕ
  pub threads : List Thread

-- What happens to the list of nodes, and what a caller gets.
pub data Event : Type 0 where
  pushed : ℕ → Event
  popped : ℕ → Event
  found_empty : Event
  returned : ℕ → ℕ → Event

-- `fault` is an access of a deleted node, a second deletion, or the exception `empty_stack`.
pub data Outcome : Type 0 where
  fault : Outcome
  went : List Event → Stack → Outcome

abbrev ptr : ℕ → ℕ → Ptr
ptr count n = record { external_count = count; node = n }

-- `increase_head_count`.
abbrev count_in : Ptr → List Thread → Stack → Outcome
count_in old ts s =
    if same old s.head
    then (if old.node == 0
        then went (found_empty ∷ [])
            (record s { head = ptr (old.external_count + 1) 0; threads = ts })
        else went [] (record s {
          head = ptr (old.external_count + 1) old.node;
          threads = holding (old.external_count + 1) old.node ∷ ts;
        }))
    else went [] (record s { threads = entering s.head ∷ ts })

-- The exchange of the head for the next node.
abbrev exchange : ℕ → ℕ → List Thread → Stack → Outcome
exchange count n ts s =
    if same (ptr count n) s.head
    then went (popped n ∷ []) (record s { head = s.next_of n; threads = won count n ∷ ts })
    else went [] (record s { threads = leaving n s.head ∷ ts })

abbrev delete : Bool → ℕ → Stack → Stack
delete true n s = record s { freed = put s.freed n true }
delete false n s = s

-- `fetch_add(-1)`, and the deletion if it gave 1.
abbrev leave : ℕ → Ptr → List Thread → Stack → Outcome
leave n old ts s = went [] (
    delete (s.plus n == s.minus n + 1) n
      (record s { minus = put s.minus n (s.minus n + 1); threads = entering old ∷ ts }))

-- `res.swap(ptr->data)`, and the exception.
abbrev swap_data : ℕ → ℕ → List Thread → Stack → Option ℕ → Outcome
swap_data count n ts s none = fault
swap_data count n ts s (some v) =
    went (returned n v ∷ [])
      (record s { data_of = put s.data_of n none; threads = swapped count n ∷ ts })

-- `fetch_add(count - 2)`, and the deletion if it gave the opposite.
abbrev add_count : ℕ → ℕ → List Thread → Stack → Outcome
add_count count n ts s = went [] (
    delete (s.plus n + count == s.minus n + 2) n (record s {
      plus = put s.plus n (s.plus n + count);
      minus = put s.minus n (s.minus n + 2);
      threads = ts;
    }))

-- The exchange of the head for the new node, which points to the node expected there.
abbrev link : ℕ → List Thread → Stack → Outcome
link n ts s =
    if same (s.next_of n) s.head
    then went (pushed n ∷ []) (record s { head = ptr 1 n; threads = ts })
    else went [] (record s { next_of = put s.next_of n s.head; threads = pushing n ∷ ts })

abbrev alive : Bool → Outcome → Outcome
alive true o = fault
alive false o = o

abbrev turn_of : Thread → List Thread → Stack → Outcome
turn_of (entering old) ts s = count_in old ts s
turn_of (holding count n) ts s = alive (s.freed n) (exchange count n ts s)
turn_of (leaving n old) ts s = alive (s.freed n) (leave n old ts s)
turn_of (won count n) ts s = alive (s.freed n) (swap_data count n ts s (s.data_of n))
turn_of (swapped count n) ts s = alive (s.freed n) (add_count count n ts s)
turn_of (pushing n) ts s = alive (s.freed n) (link n ts s)

-- Another thread has its turn: it comes first.
abbrev first_before : Thread → List Thread → List Thread
first_before t [] = t ∷ []
first_before t (u ∷ us) = u ∷ (t ∷ us)

pub bring : ℕ → List Thread → List Thread
bring zero ts = ts
bring (suc k) [] = []
bring (suc k) (t ∷ ts) = first_before t (bring k ts)

abbrev turn : List Thread → Stack → Outcome
turn [] s = went [] (record s { threads = [] })
turn (t ∷ ts) s = turn_of t ts s

pub data Action : Type 0 where
  call_pop : Action
  call_push : Action
  schedule : ℕ → Action
  go : Action

-- The n-th push is given `value n`.
pub step : (ℕ → ℕ) → Action → Stack → Outcome
unfolding bring
step value call_pop s = went [] (record s { threads = entering s.head ∷ s.threads })
step value call_push s =
    let n = s.made + 1 in
    went [] (record s {
      data_of = put s.data_of n (some (value n));
      next_of = put s.next_of n s.head;
      made = n;
      threads = pushing n ∷ s.threads;
    })
step value (schedule k) s = went [] (record s { threads = bring k s.threads })
step value go s = turn s.threads s

pub empty : Stack
empty = record {
  head = ptr 0 0;
  data_of = λ n. none;
  next_of = λ n. ptr 0 0;
  plus = λ n. 0;
  minus = λ n. 0;
  freed = λ n. false;
  made = 0;
  threads = [];
}

abbrev pub then_do : List Event → Outcome → Outcome
then_do es fault = fault
then_do es (went fs s) = went (es ++ fs) s

abbrev pub and_then : Outcome → (Stack → Outcome) → Outcome
and_then fault k = fault
and_then (went es s) k = then_do es (k s)

pub run : (ℕ → ℕ) → List Action → Stack → Outcome
unfolding step
run value [] s = went [] s
run value (a ∷ later) s = and_then (step value a s) (run value later)
