-- ===== src/Diameter/Transport.antt =====
-- internal/diameter/tcp.go: how the calls of RoundTrip on one connection find their answers. Dialing and
-- sockets stay outside. Each event is what one goroutine does under the lock, or one wait that ends;
-- any list of events is an interleaving of the callers, the reader and the watcher.
pub mod Entries
pub mod Matching
pub mod Registered
pub mod Arrival
mod Examples
use vectorcore_gmlc.Base.{
  ℕ, ◌+◌, ◌%◌, ◌^◌, Bool, true, false, not, Option, none, some, List, [], ◌∷◌, if◌then◌else◌, ◌==◌,
  keep, first, is_some, Result, ok, err,
}
use vectorcore_gmlc.Errors.{Error, unavailable, connection_lost, shutting_down}
use vectorcore_gmlc.Diameter.Message.{Message}

-- Where a call of RoundTrip is: in WriteTo, in the `select`, or back.
pub data Progress : Type 0 where
  writing waiting : Progress
  returned : Result Error Message → Progress

-- A call, with the message that it sends and its channel, which holds at most one result.
pub record Call : Type 0 where
  pub sent : Message
  pub progress : Progress
  pub channel : Option (Result Error Message)

-- The map `pending` leads from hop-by-hop identifiers to the numbers of calls; `calls` are numbered as they
-- start. `blocked` is whether a goroutine has met a channel that is full.
pub record Transport : Type 0 where
  pub pending : List (ℕ × ℕ)
  pub seq : ℕ
  pub closed : Bool
  pub loss_error : Option Error
  pub started : ℕ
  pub calls : ℕ → Call
  pub blocked : Bool
  pub swept : Bool

abbrev pub set_call : ℕ → Call → (ℕ → Call) → ℕ → Call
set_call n c calls k = if k == n then c else calls k

-- delete(pending, id)
abbrev pub without : ℕ → List (ℕ × ℕ) → List (ℕ × ℕ)
without id pending = keep (λ e. not (e.0 == id)) pending

-- ch <- r
unfoldable pub send : ℕ → Result Error Message → Transport → Transport
send n r t =
    if is_some (t.calls n).channel
    then record t { blocked = true }
    else record t { calls = set_call n (record (t.calls n) { channel = some r }) t.calls }

abbrev pub return : ℕ → Result Error Message → Transport → Transport
return n r t = record t {
  calls = set_call n (record (t.calls n) { progress = returned r }) t.calls;
}

unfoldable pub remove : ℕ → Transport → Transport
remove id t = record t { pending = without id t.pending }

unfoldable pub closed_error : Transport → Error
closed_error t = elim t.loss_error [ none ↦ unavailable | some e ↦ e ]

-- seq.Add(1) on 32 bits.
abbrev pub next_id : ℕ → ℕ
next_id seq = (seq + 1) % 2 ^ 32

-- The call up to WriteTo; a call on a closed connection returns at once.
unfoldable pub begin : Message → Transport → Transport
begin m t =
    let id = next_id t.seq in
    let c : Call = record {
      sent = record m { header = record m.header { hop_by_hop = id } };
      progress = if t.closed then returned (err unavailable) else writing;
      channel = none;
    } in
    record t {
      seq = id;
      started = t.started + 1;
      calls = set_call t.started c t.calls;
      pending = if t.closed then t.pending else (id, t.started) ∷ without id t.pending;
    }

abbrev found : Option (ℕ × ℕ) → Message → Transport → Transport
found none m t = t
found (some (id, n)) m t = send n (ok m) (remove id t)

-- `deliver`, of what the reader has read.
unfoldable pub deliver : Message → Transport → Transport
unfolding send remove
deliver m t =
    if m.header.request then t else found (first (λ e. e.0 == m.header.hop_by_hop) t.pending) m t

-- The loop of `failAll`.
unfoldable pub fail_each : Error → List (ℕ × ℕ) → Transport → Transport
unfolding send
fail_each e [] t = t
fail_each e ((id, n) ∷ pending) t = fail_each e pending (send n (err e) t)

-- `failAll` up to close(r.closed), which comes before it takes the lock. `once`: only the first error counts.
unfoldable pub fail_all : Error → Transport → Transport
fail_all e t = if t.closed then t else record t { closed = true; loss_error = some e }

-- The rest of `failAll`, under the lock.
unfoldable pub sweep : Transport → Transport
unfolding fail_each closed_error
sweep t =
    if t.closed
    then (if t.swept
        then t
        else record (fail_each (closed_error t) t.pending t) { pending = []; swept = true })
    else t

-- What can happen: a call starts, its message is written or is not, something is read, and a call that
-- waits takes what is in its channel, or gives up with its context, or sees the connection closed. A
-- connection is closed, and its map is swept later.
pub data Event : Type 0 where
  starts : Message → Event
  wrote : ℕ → Event
  write_failed : ℕ → Error → Event
  read : Message → Event
  receives : ℕ → Event
  cancelled : ℕ → Error → Event
  sees_closed : ℕ → Event
  lost : Event
  close : Event
  sweeps : Event

abbrev pub is_writing : Progress → Bool
is_writing writing = true
is_writing _ = false

abbrev pub is_waiting : Progress → Bool
is_waiting waiting = true
is_waiting _ = false

abbrev received : ℕ → Option (Result Error Message) → Transport → Transport
received n none t = t
received n (some r) t = return n r t

abbrev pub identifier : ℕ → Transport → ℕ
identifier n t = (t.calls n).sent.header.hop_by_hop

-- An event that cannot happen changes nothing. `lost` is `watch`, and `close` is Close.
unfoldable pub step : Event → Transport → Transport
unfolding begin deliver remove closed_error fail_all sweep
step (starts m) t = begin m t
step (wrote n) t =
    if is_writing (t.calls n).progress
    then record t { calls = set_call n (record (t.calls n) { progress = waiting }) t.calls }
    else t
step (write_failed n e) t =
    if is_writing (t.calls n).progress then return n (err e) (remove (identifier n t) t) else t
step (read m) t = deliver m t
step (receives n) t =
    if is_waiting (t.calls n).progress then received n (t.calls n).channel t else t
step (cancelled n e) t =
    if is_waiting (t.calls n).progress then return n (err e) (remove (identifier n t) t) else t
step (sees_closed n) t =
    if is_waiting (t.calls n).progress
    then (if t.closed then return n (err (closed_error t)) (remove (identifier n t) t) else t)
    else t
step lost t = fail_all connection_lost t
step close t = fail_all shutting_down t
step sweeps t = sweep t

abbrev pub run : List Event → Transport → Transport
run [] t = t
run (e ∷ events) t = run events (step e t)

-- A connection after dialTransport; `c` is never read.
abbrev pub dialed : Call → Transport
dialed c = record {
  pending = [];
  seq = 0;
  closed = false;
  loss_error = none;
  started = 0;
  calls = λ n. c;
  blocked = false;
  swept = false;
}
