-- ===== src/L2cap/Balance.antt =====
-- The credits of both sides of a channel of src/host/l2cap.c, with the segments and the credits that
-- are on their way.
use mathlib.Core.Path.{subst}
use zephyr_polling.Prelude.{
  ℕ, zero, suc, ◌⊎◌, ◌+◌, ◌-◌, ◌≤◌, ◌<◌, ◌^◌, ◌≡◌, refl, sym, Bool, true, false, ◌&&◌, Option, none,
  some, List, [], ◌∷◌, ◌++◌, length, length-append, if◌then◌else◌, arith, Bool-cases, inl, inr,
}
use zephyr_polling.L2cap.{
  RxChan, Answers, RxStep, recv_paid, l2cap_chan_le_recv, bt_l2cap_chan_recv_complete, TxStep,
  l2cap_chan_le_send, le_credits,
}
use zephyr_polling.L2cap.Credits.{sum, Counts, recv_paid-Counts, recv_complete-Counts}

-- A sender and a receiver, and what is between them, the oldest first.
pub record Link : Type 0 where
  pub tx : ℕ
  pub segs : List (List ℕ)
  pub grants : List ℕ
  pub rx : RxChan

-- What can happen: a call of `l2cap_chan_le_send` for a segment, the arrival of the oldest segment or
-- of the oldest signal with credits, and the application that has done with an SDU.
pub data Event : Type 0 where
  send : Bool → Bool → List ℕ → Event
  deliver : Answers → Event
  grant : Event
  recv_complete : Answers → ℕ → Event

abbrev received : Link → List (List ℕ) → RxStep → Link
received l segs r = record l { segs = segs; grants = l.grants ++ r.given; rx = r.chan }

abbrev sent : Link → List ℕ → TxStep → Link
sent l bytes t = record l {
  tx = t.credits;
  segs = if t.went then l.segs ++ (bytes ∷ []) else l.segs;
}

abbrev delivered : Answers → Link → List (List ℕ) → Link
delivered a l [] = l
delivered a l (s ∷ ss) = received l ss (l2cap_chan_le_recv a l.rx s)

-- With an overflow the channel would be given up.
abbrev added : Link → List ℕ → Option ℕ → Link
added l gs none = l
added l gs (some n) = record l { tx = n; grants = gs }

abbrev granted : Link → List ℕ → Link
granted l [] = l
granted l (g ∷ gs) = added l gs (le_credits l.tx g)

abbrev pub step : Link → Event → Link
step l (send seg_ok send_ok bytes) = sent l bytes (l2cap_chan_le_send seg_ok send_ok l.tx)
step l (deliver a) = delivered a l l.segs
step l grant = granted l l.grants
step l (recv_complete a seg) = received l l.segs (bt_l2cap_chan_recv_complete a l.rx seg)

pub data Reaches (l : Link) : Link → Type 0 where
  start : Reaches l l
  next : {m : Link} (e : Event) → Reaches l m → Reaches l (step m e)

-- Every credit is at the sender, in a segment or in a signal, and the receiver counts all of them.
pub record IsBalanced (l : Link) : Type 0 where
  pub balance : l.tx + length l.segs + sum l.grants ≡ l.rx.credits
  pub bounded : l.rx.credits ≤ l.rx.init_credits
  pub small : l.rx.init_credits < 2 ^ 16

sum-append : (xs ys : List ℕ) → sum (xs ++ ys) ≡ sum xs + sum ys
sum-append [] ys = omega arith
sum-append (x ∷ xs) ys = omega (arith, sum-append xs ys)

-- The receiver's credits are not all in use while a segment is on its way.
le_recv_paid :
    (a : Answers) (c : RxChan) (bytes : List ℕ)
    → 0 < c.credits
    → l2cap_chan_le_recv a c bytes ≡ recv_paid a (record c { credits = c.credits - 1 }) bytes
unfolding l2cap_chan_le_recv
le_recv_paid a c bytes h = ground arith

le_credits-some : (n g : ℕ) → n + g < 2 ^ 16 → le_credits n g ≡ some (n + g)
unfolding le_credits
le_credits-some n g h = ground arith

-- The link after a step of the receiver that counts what it gives.
received-IsBalanced :
    (l : Link) (segs : List (List ℕ)) (c : RxChan) (r : RxStep)
    → Counts c r
    → c.init_credits < 2 ^ 16
    → l.tx + length segs + sum l.grants ≡ c.credits
    → IsBalanced (received l segs r)
received-IsBalanced l segs c r h small e = record {
  balance = omega (arith, sum-append l.grants r.given, h.0);
  bounded = omega (arith, h.1, h.2);
  small = omega (arith, h.2);
}

-- A segment goes out for one credit, or nothing happens.
send_cases :
    (seg_ok send_ok : Bool) (n : ℕ)
    → let t = l2cap_chan_le_send seg_ok send_ok n in
      ((t.went ≡ false) × (t.credits ≡ n)) ⊎ ((t.went ≡ true) × (suc t.credits ≡ n))
unfolding l2cap_chan_le_send
send_cases seg_ok send_ok zero = inl (refl, refl)
send_cases seg_ok send_ok (suc n) = elim (Bool-cases (seg_ok && send_ok)) [
  | inl e ↦ rw e (inr (refl, refl))
  | inr k ↦ rw k (inl (refl, refl))
]

sent-IsBalanced :
    (l : Link) (bytes : List ℕ) (t : TxStep)
    → ((t.went ≡ false) × (t.credits ≡ l.tx)) ⊎ ((t.went ≡ true) × (suc t.credits ≡ l.tx))
    → IsBalanced l
    → IsBalanced (sent l bytes t)
sent-IsBalanced l bytes t (inl (w, e)) h =
    rw w (record { balance = omega (arith, e, h.balance); bounded = h.bounded; small = h.small })
sent-IsBalanced l bytes t (inr (w, e)) h = rw w (record {
  balance = omega (arith, e, h.balance, length-append l.segs (bytes ∷ []));
  bounded = h.bounded;
  small = h.small;
})

delivered-IsBalanced :
    (l : Link) (a : Answers) (segs : List (List ℕ))
    → l.tx + length segs + sum l.grants ≡ l.rx.credits
    → IsBalanced l
    → IsBalanced (delivered a l segs)
delivered-IsBalanced l a [] b h = h
delivered-IsBalanced l a (s ∷ ss) b h =
    let c = record l.rx { credits = l.rx.credits - 1 } in
    rw (le_recv_paid a l.rx s (omega (arith, b))) (
      received-IsBalanced l ss c (recv_paid a c s)
        (recv_paid-Counts a c s (omega (arith, h.bounded), h.small)) h.small (omega (arith, b)))

granted-IsBalanced :
    (l : Link) (grants : List ℕ)
    → l.tx + length l.segs + sum grants ≡ l.rx.credits
    → IsBalanced l
    → IsBalanced (granted l grants)
granted-IsBalanced l [] b h = h
granted-IsBalanced l (g ∷ gs) b h =
    subst (λ o. IsBalanced (added l gs o))
      (sym (le_credits-some l.tx g (omega (arith, b, h.bounded, h.small))))
      (record { balance = omega (arith, b); bounded = h.bounded; small = h.small })

step-IsBalanced : (l : Link) (e : Event) → IsBalanced l → IsBalanced (step l e)
step-IsBalanced l (send seg_ok send_ok bytes) h =
    sent-IsBalanced l bytes _ (send_cases seg_ok send_ok l.tx) h
step-IsBalanced l (deliver a) h = delivered-IsBalanced l a l.segs h.balance h
step-IsBalanced l grant h = granted-IsBalanced l l.grants h.balance h
step-IsBalanced l (recv_complete a seg) h =
    received-IsBalanced l l.segs l.rx (bt_l2cap_chan_recv_complete a l.rx seg)
      (recv_complete-Counts a l.rx seg (h.bounded, h.small)) h.small h.balance

-- Whatever happens on a channel, in any order, and whatever the application, the pools and the lower
-- layer answer, the credits that the receiver counts are those of the sender, those of the segments
-- on their way and those in signals on their way, and they are never more than the initial ones.
pub Reaches-IsBalanced : {l m : Link} → Reaches l m → IsBalanced l → IsBalanced m
Reaches-IsBalanced start h = h
Reaches-IsBalanced (next {m} e r) h = step-IsBalanced m e (Reaches-IsBalanced r h)

-- The link of a channel that was just opened.
abbrev pub opened : RxChan → Link
opened c = record {
  tx = c.init_credits;
  segs = [];
  grants = [];
  rx = record c { credits = c.init_credits };
}

opened-IsBalanced : (c : RxChan) → c.init_credits < 2 ^ 16 → IsBalanced (opened c)
opened-IsBalanced c small = record { balance = omega arith; bounded = omega arith; small = small }

-- The oldest segment on its way, if there is one, gets behind the receiver's test for a credit.
abbrev pub IsPaid : Answers → RxChan → List (List ℕ) → Type 0
IsPaid a c [] = Unit
IsPaid a c (s ∷ ss) =
    l2cap_chan_le_recv a c s ≡ recv_paid a (record c { credits = c.credits - 1 }) s

-- The oldest credits on their way, if there are any, are all added to those of the sender.
abbrev pub IsAdded : ℕ → List ℕ → Type 0
IsAdded n [] = Unit
IsAdded n (g ∷ gs) = le_credits n g ≡ some (n + g)

segs-IsPaid :
    (a : Answers) (c : RxChan) (segs : List (List ℕ)) → length segs ≤ c.credits → IsPaid a c segs
segs-IsPaid a c [] h = tt
segs-IsPaid a c (s ∷ ss) h = le_recv_paid a c s (omega arith)

grants-IsAdded : (n : ℕ) (grants : List ℕ) → n + sum grants < 2 ^ 16 → IsAdded n grants
grants-IsAdded n [] h = tt
grants-IsAdded n (g ∷ gs) h = le_credits-some n g (omega arith)

-- From an open channel on, whatever happens, no segment that arrives is refused for lack of a credit,
-- and no credits that arrive overflow: the receiver goes on behind its test with any segment that is
-- the oldest on its way, and the sender adds all of the oldest credits on their way. Neither
-- needs the other one.
pub Reaches_safe :
    (c : RxChan) (m : Link) (a : Answers)
    → c.init_credits < 2 ^ 16
    → Reaches (opened c) m
    → IsPaid a m.rx m.segs × IsAdded m.tx m.grants
Reaches_safe c m a small r =
    let h = Reaches-IsBalanced r (opened-IsBalanced c small) in
    (
      segs-IsPaid a m.rx m.segs (omega (arith, h.balance)),
      grants-IsAdded m.tx m.grants (omega (arith, h.balance, h.bounded, h.small)),
    )
