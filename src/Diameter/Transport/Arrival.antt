-- ===== src/Diameter/Transport/Arrival.antt =====
-- internal/diameter/tcp.go: an answer reaches the call that waits for it.
use mathlib.Core.Bool.{false≢true}
use native.Mathlib.Nat.{le_refl}
use vectorcore_gmlc.Base.{
  ℕ, ◌+◌, ◌^◌, ◌≤◌, ◌<◌, ◌≡◌, refl, sym, ap, ◌∙◌, subst, Bool, true, false, Option, none, some,
  List, [], ◌∷◌, if◌then◌else◌, ◌==◌, first, is_some, Result, ok, err, arith, inl, inr,
}
use vectorcore_gmlc.Errors.{Error, connection_lost, shutting_down}
use vectorcore_gmlc.Diameter.Message.{Message}
use vectorcore_gmlc.Diameter.Transport.{
  Progress, waiting, returned, Call, Transport, set_call, send, return, remove, begin, deliver,
  found, fail_each, fail_all, sweep, Event, starts, wrote, write_failed, read, receives, cancelled,
  sees_closed, lost, close, sweeps, received, step, run, dialed, closed_error, identifier,
  is_waiting, is_writing,
}
use vectorcore_gmlc.Diameter.Transport.Entries.{Sound, CallOk, ==_refl}
use vectorcore_gmlc.Diameter.Transport.Matching.{step-Sound, dialed-Sound}
use vectorcore_gmlc.Diameter.Transport.Registered.{
  is_back, Entry, Registered, changed-Registered, born, leave-Registered, begin-Registered,
  found-Registered, send-Same, fail_each-Same, fail_all-Registered, sweep-Registered,
}

if-Registered :
    (b : Bool) (t u : Transport)
    → (b ≡ true → Registered t)
    → Registered u
    → Registered (if b then t else u)
if-Registered true t u h k = h refl
if-Registered false t u h k = k

writing-out : (p : Progress) → is_writing p ≡ true → is_back p ≡ false
writing-out p h = ground arith

waiting-out : (p : Progress) → is_waiting p ≡ true → is_back p ≡ false
waiting-out p h = ground arith

wrote-Registered :
    (n : ℕ) (t : Transport)
    → is_back (t.calls n).progress ≡ false
    → Registered t
    → Registered
        (record t { calls = set_call n (record (t.calls n) { progress = waiting }) t.calls })
wrote-Registered n t out r =
    changed-Registered n (record (t.calls n) { progress = waiting }) t.pending t r refl
      (λ l. absurd (omega (arith, l, born n t out r))) (λ l. out_entry (r.entry n l))
      (λ k q l. r.entry k l)
  where
    out_entry :
        Entry t.closed t.pending n (t.calls n)
        → Entry t.closed t.pending n (record (t.calls n) { progress = waiting })
    out_entry (inl e) = inl e
    out_entry (inr (inl e)) = absurd (false≢true (sym out ∙ e))
    out_entry (inr (inr e)) = inr (inr e)

received-Registered :
    (n : ℕ) (o : Option (Result Error Message)) (t : Transport)
    → is_back (t.calls n).progress ≡ false
    → Registered t
    → Registered (received n o t)
received-Registered n none t out r = r
received-Registered n (some x) t out r =
    changed-Registered n (record (t.calls n) { progress = returned x }) t.pending t r refl
      (λ l. refl) (λ l. inr (inl refl)) (λ k q l. r.entry k l)

module _ (t : Transport) (s : Sound t) (r : Registered t) where
  step-Registered : (e : Event) → (step e t).started < 2 ^ 32 → Registered (step e t)
  unfolding step begin deliver
  step-Registered (starts m) small = begin-Registered m t small r
  step-Registered (wrote n) small =
      if-Registered (is_writing (t.calls n).progress) _ t
        (λ w. wrote-Registered n t (writing-out _ w) r) r
  step-Registered (write_failed n e) small =
      if-Registered (is_writing (t.calls n).progress) _ t
        (λ w. leave-Registered n e t (writing-out _ w) r) r
  step-Registered (read m) small =
      if-Registered m.header.request t _ (λ q. r)
        (found-Registered t s r m (first (λ e. e.0 == m.header.hop_by_hop) t.pending) refl)
  step-Registered (receives n) small =
      if-Registered (is_waiting (t.calls n).progress) _ t
        (λ w. received-Registered n (t.calls n).channel t (waiting-out _ w) r) r
  step-Registered (cancelled n e) small =
      if-Registered (is_waiting (t.calls n).progress) _ t
        (λ w. leave-Registered n e t (waiting-out _ w) r) r
  step-Registered (sees_closed n) small =
      if-Registered (is_waiting (t.calls n).progress) _ t
        (λ w.
          if-Registered t.closed _ t
            (λ c. leave-Registered n (closed_error t) t (waiting-out _ w) r) r)
        r
  step-Registered lost small = fail_all-Registered connection_lost t r
  step-Registered close small = fail_all-Registered shutting_down t r
  step-Registered sweeps small = sweep-Registered t r

if-started :
    (b : Bool) (t u : Transport) (k : ℕ)
    → k ≤ t.started
    → k ≤ u.started
    → k ≤ (if b then t else u).started
if-started true t u k h j = h
if-started false t u k h j = j

found-started :
    (o : Option (ℕ × ℕ)) (m : Message) (t : Transport) → t.started ≤ (found o m t).started
unfolding remove
found-started none m t = omega arith
found-started (some (id, n)) m t = omega (arith, (send-Same n (ok m) (remove id t)).1)

received-started :
    (n : ℕ) (o : Option (Result Error Message)) (t : Transport)
    → t.started ≤ (received n o t).started
received-started n none t = omega arith
received-started n (some r) t = omega arith

fail_all-started : (e : Error) (t : Transport) → t.started ≤ (fail_all e t).started
unfolding fail_all
fail_all-started e t = if-started t.closed t _ t.started (le_refl t.started) (le_refl t.started)

sweep-started : (t : Transport) → t.started ≤ (sweep t).started
unfolding sweep
sweep-started t =
    let all = fail_each (closed_error t) t.pending t in
    let swept = record all { pending = []; swept = true } in
    let same = (fail_each-Same (closed_error t) t.pending t).1 in
    if-started t.closed (if t.swept then t else swept) t t.started
      (if-started t.swept t swept t.started (le_refl t.started) (omega (arith, same)))
      (le_refl t.started)

step-started : (e : Event) (t : Transport) → t.started ≤ (step e t).started
unfolding step begin deliver remove
step-started (starts m) t = omega arith
step-started (wrote n) t = if-started _ _ t t.started (le_refl t.started) (le_refl t.started)
step-started (write_failed n e) t =
    if-started _ _ t t.started (le_refl t.started) (le_refl t.started)
step-started (read m) t =
    if-started _ t _ t.started (le_refl t.started)
      (found-started (first (λ e. e.0 == m.header.hop_by_hop) t.pending) m t)
step-started (receives n) t =
    if-started _ _ t t.started (received-started n (t.calls n).channel t) (le_refl t.started)
step-started (cancelled n e) t = if-started _ _ t t.started (le_refl t.started) (le_refl t.started)
step-started (sees_closed n) t =
    let back = return n (err (closed_error t)) (remove (identifier n t) t) in
    if-started (is_waiting (t.calls n).progress) (if t.closed then back else t) t t.started
      (if-started t.closed back t t.started (le_refl t.started) (le_refl t.started))
      (le_refl t.started)
step-started lost t = fail_all-started connection_lost t
step-started close t = fail_all-started shutting_down t
step-started sweeps t = sweep-started t

run-started : (events : List Event) (t : Transport) → t.started ≤ (run events t).started
run-started [] t = omega arith
run-started (e ∷ events) t = omega (arith, step-started e t, run-started events (step e t))

run-Registered :
    (events : List Event) (t : Transport)
    → Sound t
    → Registered t
    → (run events t).started < 2 ^ 32
    → Registered (run events t)
run-Registered [] t s r small = r
run-Registered (e ∷ events) t s r small =
    run-Registered events (step e t) (step-Sound e t s)
      (step-Registered t s r e (omega (arith, run-started events (step e t), small))) small

-- The entry of a call that waits with nothing in its channel.
waiting-Entry :
    (t : Transport) (n : ℕ) (closed : Bool) (pending : List (ℕ × ℕ)) (c : Call)
    → is_back c.progress ≡ false
    → c.channel ≡ none
    → closed ≡ false
    → Entry closed pending n c
    → first (λ e. e.0 == n + 1) pending ≡ some (n + 1, n)
waiting-Entry t n closed pending c out free opened (inl e) = absurd (false≢true (sym opened ∙ e))
waiting-Entry t n closed pending c out free opened (inr (inl e)) = absurd (false≢true (sym out ∙ e))
waiting-Entry t n closed pending c out free opened (inr (inr (inl e))) =
    absurd (false≢true (sym (ap is_some free) ∙ e))
waiting-Entry t n closed pending c out free opened (inr (inr (inr e))) = e

-- The answer that is read, at the entry of the call.
read_entry :
    (t : Transport) (n id : ℕ) (m : Message)
    → first (λ e. e.0 == m.header.hop_by_hop) t.pending ≡ some (id, n)
    → m.header.request ≡ false
    → (t.calls n).channel ≡ none
    → is_waiting (t.calls n).progress ≡ true
    → ((step (receives n) (step (read m) t)).calls n).progress ≡ returned (ok m)
unfolding step deliver send remove
read_entry t n id m e answer free waits = simp (answer, e, free, ==_refl n, waits)

-- However the goroutines of a connection interleave, and as long as fewer than 2^32 calls have started: when
-- an answer with the identifier of a waiting call is read, on a connection that is open, and the call has no
-- result yet, then what the call next takes from its channel is that answer, and it returns it.
pub dialed-read :
    (c : Call) (events : List Event) (n : ℕ) (m : Message)
    → CallOk c
    → is_back c.progress ≡ true
    → (run events (dialed c)).started < 2 ^ 32
    → is_waiting ((run events (dialed c)).calls n).progress ≡ true
    → ((run events (dialed c)).calls n).channel ≡ none
    → (run events (dialed c)).closed ≡ false
    → m.header.hop_by_hop ≡ identifier n (run events (dialed c))
    → m.header.request ≡ false
    → ((step (receives n) (step (read m) (run events (dialed c)))).calls n).progress
      ≡ returned (ok m)
dialed-read c events n m h idle small waits free opened same answer =
    let t = run events (dialed c) in
    let r =
      run-Registered events (dialed c) (dialed-Sound c [] h)
        (record {
          seq = refl;
          ids = λ k l. absurd (omega (arith, l));
          unborn = λ k l. idle;
          entry = λ k l. absurd (omega (arith, l));
        })
        small in
    let out = waiting-out (t.calls n).progress waits in
    let l = born n t out r in
    let e = waiting-Entry t n t.closed t.pending (t.calls n) out free opened (r.entry n l) in
    read_entry t n (n + 1) m
      (subst (λ k. first (λ f. f.0 == k) t.pending ≡ some (n + 1, n)) (sym (same ∙ r.ids n l)) e)
      answer free waits
