-- ===== src/Tests/Channels.antt =====
-- Channels with credits: a receiver with two credits that has given one back.
use zephyr_polling.Prelude.{ℕ, refl, true, false, none, List, [], ◌∷◌, arith}
use zephyr_polling.L2cap.{RxChan, Answers, taken}
use zephyr_polling.L2cap.Balance.{
  Link, send, deliver, step, Reaches, start, next, IsBalanced, opened, Reaches-IsBalanced,
  Reaches_safe, IsPaid, IsAdded,
}

abbrev two_credits : RxChan
two_credits = record {
  init_credits = 2;
  credits = 2;
  mps = 23;
  mtu = 23;
  has_alloc = false;
  sdu = none;
  sdu_len = 0;
  connected = true;
}

abbrev willing : Answers
willing = record { sig_ok = true; alloc_ok = true; room = 64; app = taken }

abbrev segment : List ℕ
segment = 1 ∷ 0 ∷ 7 ∷ []

-- Two segments are sent, and one has arrived.
abbrev busy : Link
busy =
    step (step (step (opened two_credits) (send true true segment)) (send true true segment))
      (deliver willing)

busy-Reaches : Reaches (opened two_credits) busy
busy-Reaches =
    next (deliver willing) (next (send true true segment) (next (send true true segment) start))

two_credits-IsBalanced : IsBalanced (opened two_credits)
two_credits-IsBalanced = record { balance = refl; bounded = omega arith; small = omega arith }

Reaches-IsBalanced_example : IsBalanced busy
Reaches-IsBalanced_example = Reaches-IsBalanced busy-Reaches two_credits-IsBalanced

Reaches_safe_example : IsPaid willing busy.rx busy.segs × IsAdded busy.tx busy.grants
Reaches_safe_example = Reaches_safe two_credits busy willing (omega arith) busy-Reaches
