-- ===== src/Diameter/Transport/Matching.antt =====
-- internal/diameter/tcp.go: a call returns only an answer to the message that it sent.
use vectorcore_gmlc.Base.{
  ℕ, ◌+◌, ◌≡◌, refl, Bool, true, false, not, Option, none, some, List, [], ◌∷◌, if◌then◌else◌, ◌==◌,
  first, All, All-keep, is_some, Result, ok, err, arith, Bool-cases, sym, ◌∙◌, subst, inl, inr,
}
use vectorcore_gmlc.Errors.{Error, unavailable, connection_lost, shutting_down}
use vectorcore_gmlc.Diameter.Message.{Message}
use vectorcore_gmlc.Diameter.Transport.{
  writing, waiting, returned, Call, Transport, set_call, send, return, remove, begin, deliver,
  found, fail_each, fail_all, sweep, Event, starts, wrote, write_failed, read, receives, cancelled,
  sees_closed, lost, close, sweeps, received, step, run, dialed, closed_error, identifier, next_id,
}
use vectorcore_gmlc.Diameter.Transport.Entries.{
  remove-Sound, Answers, InChannel, CallOk, Waits, Sound, without-All, without-Keys,
  set_call-CallOk, set_call-Waits, set_call-others, first-Waits, fresh-Waits, ==_refl, without_none,
  All-both, tail_swept,
}

return-Sound :
    (n : ℕ) (r : Result Error Message) (t : Transport)
    → Answers (t.calls n).sent r
    → Sound t
    → Sound (return n r t)
return-Sound n r t a s = record {
  waits =
      set_call-Waits t.started n (record (t.calls n) { progress = returned r }) t.calls t.pending
        refl refl s.waits;
  keys = s.keys;
  calls =
      set_call-CallOk n (record (t.calls n) { progress = returned r }) t.calls ((s.calls n).0, a)
        s.calls;
  free = s.free;
  swept = s.swept;
}

-- What is sent to a call that is no longer pending.
send-Sound :
    (n id : ℕ) (r : Result Error Message) (t : Transport)
    → (t.calls n).channel ≡ none
    → (t.calls n).sent.header.hop_by_hop ≡ id
    → Answers (t.calls n).sent r
    → All (λ e. Waits t.started t.calls e × ((e.0 == id) ≡ false)) t.pending
    → Sound t
    → Sound (send n r t)
unfolding send
send-Sound n id r t h own a others s = rw h (record {
  waits =
      set_call-others t.started n id (record (t.calls n) { channel = some r }) t.calls t.pending own
        others;
  keys = s.keys;
  calls =
      set_call-CallOk n (record (t.calls n) { channel = some r }) t.calls (a, (s.calls n).1)
        s.calls;
  free = s.free;
  swept = s.swept;
})

deliver-Sound : (m : Message) (t : Transport) → Sound t → Sound (deliver m t)
unfolding deliver remove
deliver-Sound m t s = elim (Bool-cases m.header.request) [
  | inl q ↦ simp q s
  | inr q ↦ simp q (go (first (λ e. e.0 == m.header.hop_by_hop) t.pending) refl q)
]
  where
    go :
        (o : Option (ℕ × ℕ))
        → first (λ e. e.0 == m.header.hop_by_hop) t.pending ≡ o
        → m.header.request ≡ false
        → Sound (found o m t)
    go none e q = s
    go (some (id, n)) e q =
        let (key, (l, own, free)) =
          first-Waits m.header.hop_by_hop (Waits t.started t.calls) t.pending (id, n) e s.waits in
        send-Sound n id (ok m) (remove id t) free own (sym key ∙ sym own, q)
          (without-All (Waits t.started t.calls) id t.pending s.waits) (remove-Sound id t s)

send_pending :
    (n : ℕ) (r : Result Error Message) (t : Transport) (pending : List (ℕ × ℕ))
    → send n r (record t { pending = pending }) ≡ record (send n r t) { pending = pending }
unfolding send
send_pending n r t pending = elim (Bool-cases (is_some (t.calls n).channel)) [
  | inl q ↦ simp q
  | inr q ↦ simp q
]

-- Each pending call is sent the error once.
fail_each-Sound :
    (e : Error) (pending : List (ℕ × ℕ)) (t : Transport)
    → Sound (record t { pending = pending })
    → Sound (record (fail_each e pending t) { pending = [] })
unfolding fail_each
fail_each-Sound e [] t s = s
fail_each-Sound e ((id, n) ∷ pending) t s =
    let (l, own, free) = s.waits.0 in
    let rest : Sound (record t { pending = pending }) = record {
      waits = s.waits.1;
      keys = s.keys.1;
      calls = s.calls;
      free = s.free;
      swept = λ c. ((s.swept c).0, tail_swept (id, n) pending (s.swept c).1);
    } in
    fail_each-Sound e pending (send n (err e) t) (
      subst Sound (send_pending n (err e) t pending) (
        send-Sound n id (err e) (record t { pending = pending }) free own tt
          (All-both (Waits t.started t.calls) (λ f. (f.0 == id) ≡ false) pending s.waits.1 s.keys.0)
          rest))

-- What `failAll` sends does not open the connection.
send-closed : (n : ℕ) (r : Result Error Message) (t : Transport) → (send n r t).closed ≡ t.closed
unfolding send
send-closed n r t = elim (Bool-cases (is_some (t.calls n).channel)) [
  | inl q ↦ rw q refl
  | inr q ↦ rw q refl
]

fail_each-closed :
    (e : Error) (pending : List (ℕ × ℕ)) (t : Transport) → (fail_each e pending t).closed ≡ t.closed
unfolding fail_each
fail_each-closed e [] t = refl
fail_each-closed e ((id, n) ∷ pending) t =
    fail_each-closed e pending (send n (err e) t) ∙ send-closed n (err e) t

fail_all-Sound : (e : Error) (t : Transport) → Sound t → Sound (fail_all e t)
unfolding fail_all
fail_all-Sound e t s = elim (Bool-cases t.closed) [
  | inl q ↦ simp q s
  | inr q ↦ simp q (record {
    waits = s.waits;
    keys = s.keys;
    calls = s.calls;
    free = s.free;
    swept = λ w. (refl, (s.swept w).1);
  })
]

sweep-Sound : (t : Transport) → Sound t → Sound (sweep t)
unfolding sweep
sweep-Sound t s = elim (Bool-cases t.closed) [
  | inl q ↦ elim (Bool-cases t.swept) [
    | inl w ↦ simp (q, w) s
    | inr w ↦
        let f = fail_each-Sound (closed_error t) t.pending t s in
        let shut : (fail_each (closed_error t) t.pending t).closed ≡ true =
          fail_each-closed (closed_error t) t.pending t ∙ q in
        simp (q, w)
          (record {
            waits = tt;
            keys = tt;
            calls = f.calls;
            free = f.free;
            swept = λ c. (shut, refl);
          })
  ]
  | inr q ↦ simp q s
]

abbrev new_call : Message → Transport → Call
new_call m t = record {
  sent = record m { header = record m.header { hop_by_hop = next_id t.seq } };
  progress = writing;
  channel = none;
}

begin-Sound : (m : Message) (t : Transport) → Sound t → Sound (begin m t)
unfolding begin
begin-Sound m t s = elim (Bool-cases t.closed) [
  | inl q ↦ simp q (record {
    waits =
        fresh-Waits t.started
          (record {
            sent = record m { header = record m.header { hop_by_hop = next_id t.seq } };
            progress = returned (err unavailable);
            channel = none;
          })
          t.calls t.pending s.waits;
    keys = s.keys;
    calls = set_call-CallOk t.started _ t.calls (tt, tt) s.calls;
    free = s.free;
    swept = λ w. (refl, (s.swept w).1);
  })
  | inr q ↦
      let fresh = fresh-Waits t.started (new_call m t) t.calls t.pending s.waits in
      simp q (record {
        waits = (
          (omega arith, rw (==_refl t.started) refl, rw (==_refl t.started) refl),
          All-keep (Waits (t.started + 1) (set_call t.started (new_call m t) t.calls))
              (λ e. not (e.0 == next_id t.seq)) t.pending fresh,
        );
        keys =
            (without_none (next_id t.seq) t.pending, without-Keys (next_id t.seq) t.pending s.keys);
        calls = set_call-CallOk t.started (new_call m t) t.calls (tt, tt) s.calls;
        free = s.free;
        swept = λ w. let c = (s.swept w).0 in cc;
      })
]

if-Sound : (b : Bool) (t u : Transport) → Sound t → Sound u → Sound (if b then t else u)
if-Sound true t u h k = h
if-Sound false t u h k = k

-- A call that leaves its wait with an error, and its entry with it.
leave-Sound :
    (n : ℕ) (e : Error) (t : Transport)
    → Sound t
    → Sound (return n (err e) (remove (identifier n t) t))
leave-Sound n e t s =
    return-Sound n (err e) (remove (identifier n t) t) tt (remove-Sound (identifier n t) t s)

wrote-Sound :
    (n : ℕ) (t : Transport)
    → Sound t
    → Sound (record t { calls = set_call n (record (t.calls n) { progress = waiting }) t.calls })
wrote-Sound n t s = record {
  waits =
      set_call-Waits t.started n (record (t.calls n) { progress = waiting }) t.calls t.pending refl
        refl s.waits;
  keys = s.keys;
  calls =
      set_call-CallOk n (record (t.calls n) { progress = waiting }) t.calls ((s.calls n).0, tt)
        s.calls;
  free = s.free;
  swept = s.swept;
}

received-Sound :
    (n : ℕ) (o : Option (Result Error Message)) (t : Transport)
    → InChannel (t.calls n).sent o
    → Sound t
    → Sound (received n o t)
received-Sound n none t a s = s
received-Sound n (some r) t a s = return-Sound n r t a s

pub step-Sound : (e : Event) (t : Transport) → Sound t → Sound (step e t)
unfolding step
step-Sound (starts m) t s = begin-Sound m t s
step-Sound (wrote n) t s = if-Sound _ _ t (wrote-Sound n t s) s
step-Sound (write_failed n e) t s = if-Sound _ _ t (leave-Sound n e t s) s
step-Sound (read m) t s = deliver-Sound m t s
step-Sound (receives n) t s =
    if-Sound _ _ t (received-Sound n (t.calls n).channel t (s.calls n).0 s) s
step-Sound (cancelled n e) t s = if-Sound _ _ t (leave-Sound n e t s) s
step-Sound (sees_closed n) t s =
    if-Sound _ _ t (if-Sound t.closed _ t (leave-Sound n (closed_error t) t s) s) s
step-Sound lost t s = fail_all-Sound connection_lost t s
step-Sound close t s = fail_all-Sound shutting_down t s
step-Sound sweeps t s = sweep-Sound t s

pub run-Sound : (events : List Event) (t : Transport) → Sound t → Sound (run events t)
run-Sound [] t s = s
run-Sound (e ∷ events) t s = run-Sound events (step e t) (step-Sound e t s)

-- However the calls, the reader and the watcher of a connection interleave: a result that a call returns is
-- an error or an answer with the hop-by-hop identifier of the message that it sent, no goroutine is
-- blocked on a full channel, no identifier is pending twice, and no call is pending once a connection that
-- was closed has been swept.
pub dialed-Sound : (c : Call) (events : List Event) → CallOk c → Sound (run events (dialed c))
dialed-Sound c events h =
    run-Sound events (dialed c)
      (record { waits = tt; keys = tt; calls = λ n. h; free = refl; swept = λ w. cc })
