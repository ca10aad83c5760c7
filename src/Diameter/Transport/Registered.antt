-- ===== src/Diameter/Transport/Registered.antt =====
-- internal/diameter/tcp.go: every call that waits has its entry in the map.
use vectorcore_gmlc.Base.{
  ℕ, ◌+◌, ◌^◌, ◌≤◌, ◌<◌, ◌≡◌, refl, sym, ap, ◌∙◌, subst, Bool, true, false, Option, none, some,
  List, [], ◌∷◌, if◌then◌else◌, ◌==◌, first, is_some, Result, ok, err, arith, Bool-cases, ==_iff,
  inl, inr, ◌⊎◌, ltb, ltb→lt,
}
use vectorcore_gmlc.Errors.{Error, unavailable}
use vectorcore_gmlc.Diameter.Message.{Message}
use vectorcore_gmlc.Diameter.Transport.{
  Progress, writing, returned, Call, Transport, set_call, without, send, return, remove, begin,
  found, fail_each, fail_all, sweep, closed_error, identifier, next_id,
}
use vectorcore_gmlc.Diameter.Transport.Entries.{Sound, Waits, ==_refl, first-Waits}

abbrev pub is_back : Progress → Bool
is_back (returned r) = true
is_back _ = false

-- What the map must have of the call `n`: nothing when it is back, or has its result, or the connection is
-- closed, and else its entry.
abbrev pub Entry : Bool → List (ℕ × ℕ) → ℕ → Call → Type 0
Entry closed pending n c =
    (closed ≡ true)
    ⊎ ((is_back c.progress ≡ true)
        ⊎ ((is_some c.channel ≡ true) ⊎ (first (λ e. e.0 == n + 1) pending ≡ some (n + 1, n))))

-- Until the identifiers wrap around, the n-th call has the identifier n + 1, and its entry.
pub record Registered (t : Transport) : Type 0 where
  pub seq : t.seq ≡ t.started
  pub ids : (n : ℕ) → n < t.started → identifier n t ≡ n + 1
  pub unborn : (n : ℕ) → t.started ≤ n → is_back (t.calls n).progress ≡ true
  pub entry : (n : ℕ) → n < t.started → Entry t.closed t.pending n (t.calls n)

first-without :
    (k id : ℕ) (pending : List (ℕ × ℕ))
    → (k == id) ≡ false
    → first (λ e. e.0 == k) (without id pending) ≡ first (λ e. e.0 == k) pending
first-without k id [] h = refl
first-without k id (e ∷ pending) h = elim (Bool-cases (e.0 == id)) [
  | inl q ↦
      let other : (e.0 == k) ≡ false = ground (arith, q, h) in
      rw (q, other) (first-without k id pending h)
  | inr q ↦ elim (Bool-cases (e.0 == k)) [
    | inl w ↦ rw (q, w) refl
    | inr w ↦ rw (q, w) (first-without k id pending h)
  ]
]

-- Without an entry of another key.
pub Entry-without :
    (closed : Bool) (pending : List (ℕ × ℕ)) (n id : ℕ) (c : Call)
    → (n + 1 == id) ≡ false
    → Entry closed pending n c
    → Entry closed (without id pending) n c
Entry-without closed pending n id c h (inl e) = inl e
Entry-without closed pending n id c h (inr (inl e)) = inr (inl e)
Entry-without closed pending n id c h (inr (inr (inl e))) = inr (inr (inl e))
Entry-without closed pending n id c h (inr (inr (inr e))) =
    inr (inr (inr (first-without (n + 1) id pending h ∙ e)))

Entry-cons :
    (closed : Bool) (pending : List (ℕ × ℕ)) (n id k : ℕ) (c : Call)
    → (n + 1 == id) ≡ false
    → Entry closed pending n c
    → Entry closed ((id, k) ∷ pending) n c
Entry-cons closed pending n id k c h (inl e) = inl e
Entry-cons closed pending n id k c h (inr (inl e)) = inr (inl e)
Entry-cons closed pending n id k c h (inr (inr (inl e))) = inr (inr (inl e))
Entry-cons closed pending n id k c h (inr (inr (inr e))) =
    let other : (id == n + 1) ≡ false = ground (arith, h) in inr (inr (inr (rw other e)))

-- One call is changed to one that needs no entry, or has it, and keeps what it sent.
pub changed-Registered :
    (n : ℕ) (c : Call) (pending : List (ℕ × ℕ)) (t : Transport)
    → Registered t
    → c.sent.header.hop_by_hop ≡ identifier n t
    → (t.started ≤ n → is_back c.progress ≡ true)
    → (n < t.started → Entry t.closed pending n c)
    → ((k : ℕ) → (k == n) ≡ false → k < t.started → Entry t.closed pending k (t.calls k))
    → Registered (record t { calls = set_call n c t.calls; pending = pending })
changed-Registered n c pending t r same born own others = record {
  seq = r.seq;
  ids = λ k l. elim (Bool-cases (k == n)) [
    | inl q ↦
        rw (identifier, q) (same ∙ ap (λ x. identifier x t) (sym ((==_iff k n).0 q)) ∙ r.ids k l)
    | inr q ↦ rw (identifier, q) (r.ids k l)
  ];
  unborn = λ k l. elim (Bool-cases (k == n)) [
    | inl q ↦ rw q (born (subst (λ x. t.started ≤ x) ((==_iff k n).0 q) l))
    | inr q ↦ rw q (r.unborn k l)
  ];
  entry = λ k l. elim (Bool-cases (k == n)) [
    | inl q ↦
        let w : k ≡ n = (==_iff k n).0 q in
        rw q
          (subst (λ x. Entry t.closed pending x c) (sym w) (own (subst (λ x. x < t.started) w l)))
    | inr q ↦ rw q (others k q l)
  ];
}

-- A call that is out has started, and has its own identifier.
pub born :
    (n : ℕ) (t : Transport) → is_back (t.calls n).progress ≡ false → Registered t → n < t.started
born n t out r = elim (Bool-cases (ltb n t.started)) [
  | inl l ↦ ltb→lt n t.started l
  | inr l ↦ let b = r.unborn n (omega (arith, not_below l)) in cc
]
  where
    not_below : ltb n t.started ≡ false → t.started ≤ n
    not_below l = ground (arith, l)

other_key : (k n id : ℕ) → (k == n) ≡ false → id ≡ n + 1 → (k + 1 == id) ≡ false
other_key k n id h e = ground (arith, h, e)

pub leave-Registered :
    (n : ℕ) (e : Error) (t : Transport)
    → is_back (t.calls n).progress ≡ false
    → Registered t
    → Registered (return n (err e) (remove (identifier n t) t))
unfolding remove
leave-Registered n e t out r =
    changed-Registered n (record (t.calls n) { progress = returned (err e) })
      (without (identifier n t) t.pending) t r refl (λ l. refl) (λ l. inr (inl refl))
      (λ k q l.
        Entry-without t.closed t.pending k (identifier n t) (t.calls k)
          (other_key k n (identifier n t) q (r.ids n (born n t out r))) (r.entry k l))

abbrev sent_as : ℕ → Message → Message
sent_as id m = record m { header = record m.header { hop_by_hop = id } }

-- The new call and its entry; those before it keep theirs.
module _ (m : Message) (t : Transport) (small : t.started + 1 < 2 ^ 32) (r : Registered t) where
  next : next_id t.seq ≡ t.started + 1
  next = rw r.seq (omega (arith, small))

  below : (k : ℕ) → (k == t.started) ≡ false → k < t.started + 1 → k < t.started
  below k q l = ground (arith, q, l)

  started_after :
      (c : Call) (pending : List (ℕ × ℕ))
      → c.sent.header.hop_by_hop ≡ next_id t.seq
      → Entry t.closed pending t.started c
      → ((k : ℕ) → k < t.started → Entry t.closed pending k (t.calls k))
      → Registered (record t {
        seq = next_id t.seq;
        started = t.started + 1;
        calls = set_call t.started c t.calls;
        pending = pending;
      })
  started_after c pending id own others = record {
    seq = next;
    ids = λ k l. elim (Bool-cases (k == t.started)) [
      | inl q ↦ rw (identifier, q) (id ∙ next ∙ ap (λ x. x + 1) (sym ((==_iff k t.started).0 q)))
      | inr q ↦ rw (identifier, q) (r.ids k (below k q l))
    ];
    unborn = λ k l.
        let q : (k == t.started) ≡ false = ground (arith, l) in
        rw q (r.unborn k (omega (arith, l)));
    entry = λ k l. elim (Bool-cases (k == t.started)) [
      | inl q ↦ rw q (subst (λ x. Entry t.closed pending x c) (sym ((==_iff k t.started).0 q)) own)
      | inr q ↦ rw q (others k (below k q l))
    ];
  }

  begun-Registered :
      (b : Bool)
      → t.closed ≡ b
      → Registered (record t {
        seq = next_id t.seq;
        started = t.started + 1;
        calls =
            set_call t.started
              (record {
                sent = sent_as (next_id t.seq) m;
                progress = if b then returned (err unavailable) else writing;
                channel = none;
              })
              t.calls;
        pending =
            if b then t.pending else (next_id t.seq, t.started) ∷ without (next_id t.seq) t.pending;
      })
  begun-Registered true q = started_after _ t.pending refl (inl q) r.entry
  begun-Registered false q =
      started_after _ ((next_id t.seq, t.started) ∷ without (next_id t.seq) t.pending) refl
        (inr (inr (inr (rw (next, ==_refl (t.started + 1)) refl))))
        (λ k l.
          let ne : (k + 1 == next_id t.seq) ≡ false = rw next (ground (arith, l)) in
          Entry-cons t.closed (without (next_id t.seq) t.pending) k (next_id t.seq) t.started
            (t.calls k) ne
            (Entry-without t.closed t.pending k (next_id t.seq) (t.calls k) ne (r.entry k l)))

  pub begin-Registered : Registered (begin m t)
  unfolding begin
  begin-Registered = begun-Registered t.closed refl

-- A message that is read.
module _ (t : Transport) (s : Sound t) (r : Registered t) where
  pub found-Registered :
      (m : Message) (o : Option (ℕ × ℕ))
      → first (λ e. e.0 == m.header.hop_by_hop) t.pending ≡ o
      → Registered (found o m t)
  unfolding remove send
  found-Registered m none h = r
  found-Registered m (some (id, n)) h =
      let (key, (l, own, free)) =
        first-Waits m.header.hop_by_hop (Waits t.started t.calls) t.pending (id, n) h s.waits in
      rw free (
        changed-Registered n (record (t.calls n) { channel = some (ok m) }) (without id t.pending) t
          r refl (λ k. absurd (omega (arith, k, l))) (λ k. inr (inr (inl refl)))
          (λ k q j.
            Entry-without t.closed t.pending k id (t.calls k)
              (other_key k n id q (sym own ∙ r.ids n l)) (r.entry k j)))

-- What `failAll` sends changes neither the messages nor the progress of the calls.
abbrev pub Same : Transport → Transport → Type 0
Same u t =
    (u.seq ≡ t.seq)
    × (u.started ≡ t.started)
    × ((k : ℕ) → (u.calls k).sent ≡ (t.calls k).sent)
    × ((k : ℕ) → (u.calls k).progress ≡ (t.calls k).progress)
    × (u.closed ≡ t.closed)

set_call-keeps :
    {X : Type 0} (f : Call → X) (n : ℕ) (c : Call) (calls : ℕ → Call) (k : ℕ)
    → f c ≡ f (calls n)
    → f (set_call n c calls k) ≡ f (calls k)
set_call-keeps f n c calls k e = elim (Bool-cases (k == n)) [
  | inl q ↦ rw q (e ∙ ap (λ x. f (calls x)) (sym ((==_iff k n).0 q)))
  | inr q ↦ rw q refl
]

pub send-Same : (n : ℕ) (e : Result Error Message) (t : Transport) → Same (send n e t) t
unfolding send
send-Same n e t = elim (Bool-cases (is_some (t.calls n).channel)) [
  | inl q ↦ rw q (refl, refl, λ k. refl, λ k. refl, refl)
  | inr q ↦ rw q (
    refl,
    refl,
    λ k. set_call-keeps (λ c. c.sent) n _ t.calls k refl,
    λ k. set_call-keeps (λ c. c.progress) n _ t.calls k refl,
    refl,
  )
]

pub fail_each-Same :
    (e : Error) (pending : List (ℕ × ℕ)) (t : Transport) → Same (fail_each e pending t) t
unfolding fail_each
fail_each-Same e [] t = (refl, refl, λ k. refl, λ k. refl, refl)
fail_each-Same e ((id, n) ∷ pending) t =
    let (a, b, c, d, f) = fail_each-Same e pending (send n (err e) t) in
    let (a', b', c', d', f') = send-Same n (err e) t in
    (a ∙ a', b ∙ b', λ k. c k ∙ c' k, λ k. d k ∙ d' k, f ∙ f')

pub fail_all-Registered : (e : Error) (t : Transport) → Registered t → Registered (fail_all e t)
unfolding fail_all
fail_all-Registered e t r = elim (Bool-cases t.closed) [
  | inl q ↦ simp q r
  | inr q ↦ simp q (record { seq = r.seq; ids = r.ids; unborn = r.unborn; entry = λ k l. inl refl })
]

pub sweep-Registered : (t : Transport) → Registered t → Registered (sweep t)
unfolding sweep
sweep-Registered t r = elim (Bool-cases t.closed) [
  | inl q ↦ elim (Bool-cases t.swept) [
    | inl w ↦ simp (q, w) r
    | inr w ↦
        let (a, b, c, d, f) = fail_each-Same (closed_error t) t.pending t in
        simp (q, w)
          (record {
            seq = a ∙ r.seq ∙ sym b;
            ids = λ k l. ap (λ x. x.header.hop_by_hop) (c k) ∙ r.ids k (subst (λ x. k < x) b l);
            unborn = λ k l. ap is_back (d k) ∙ r.unborn k (subst (λ x. x ≤ k) b l);
            entry = λ k l. inl (f ∙ q);
          })
  ]
  | inr q ↦ simp q r
]
