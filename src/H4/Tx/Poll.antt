-- ===== src/H4/Tx/Poll.antt =====
-- One poll of process_tx: what is still to be sent, and what goes on the wire.
use zephyr_polling.Prelude.{
  ℕ, ◌≡◌, refl, sym, ◌∙◌, ap, Bool, true, false, Option, none, some, List, [], ◌∷◌, ◌++◌,
  append_assoc, append-nil, take-append-drop, ◌==◌, if◌then◌else◌, arith, ==_ne, ◌≢◌, Option-cases,
  Bool-cases, inl, inr,
}
use mathlib.Core.Path.{subst}
use native.Mathlib.Decide.{ℕ_discrete}
use zephyr_polling.H4.{h4_none}
use zephyr_polling.H4.Tx.{
  BufType, Buf, Tx, Driver, TxResult, take_buf, indicator, next_buf, tx_done, sent, unsent, is_nil,
  tx_data, type_went, then_send, tx_buf, tx_current, process_tx,
}

module _ (iso : Bool) where
  -- A packet on the wire; a buffer of unknown type is dropped.
  abbrev pub packet : Buf → List ℕ
  packet b = elim (indicator iso b.type) [ none ↦ [] | some t ↦ t ∷ b.bytes ]

  abbrev pub packets : List Buf → List ℕ
  packets [] = []
  packets (b ∷ bs) = packet b ++ packets bs

  -- What is still to be sent: the rest of the current buffer, then those in the queue.
  pub pending : Tx → List ℕ
  pending tx =
      elim tx.buf [ none ↦ [] | some b ↦ if tx.type == h4_none then packet b else b.bytes ]
      ++ packets tx.fifo

-- Between polls a packet indicator is remembered only for a current buffer.
abbrev pub IsValid : Tx → Type 0
IsValid tx = tx.buf ≡ none → tx.type ≡ h4_none

sent-append : (n : Option ℕ) (xs : List ℕ) → sent n xs ++ unsent n xs ≡ xs
sent-append none xs = refl
sent-append (some n) xs = take-append-drop n xs

type-take_buf : (tx : Tx) → (take_buf tx).type ≡ tx.type
type-take_buf tx = go tx.fifo
  where
    go : (fifo : List Buf) → (next_buf tx fifo).type ≡ tx.type
    go [] = refl
    go (b ∷ bs) = refl

module _ (iso : Bool) where
  pending-done :
      (type : ℕ) (fifo : List Buf) (b : Option Buf)
      → pending iso (tx_done (record { type = type; buf = b; fifo = fifo })) ≡ packets iso fifo
  unfolding pending
  pending-done type [] b = refl
  pending-done type (c ∷ cs) b = refl

  tx_data-pending :
      (d : Driver) (tx : Tx) (b : Buf)
      → tx.type ≢ h4_none
      → let (ys, tx') = tx_data d tx b in
        (ys ++ pending iso tx' ≡ b.bytes ++ packets iso tx.fifo) × IsValid tx'
  unfolding tx_data pending
  tx_data-pending d tx b ne = split (unsent d.data_sent b.bytes) refl
    where
      out : List ℕ
      out = sent d.data_sent b.bytes

      rest : List ℕ
      rest = packets iso tx.fifo

      all : out ++ unsent d.data_sent b.bytes ≡ b.bytes
      all = sent-append d.data_sent b.bytes

      split :
          (left : List ℕ)
          → unsent d.data_sent b.bytes ≡ left
          → let tx' = record tx { buf = some (record b { bytes = left }) } in
            let tx'' = if is_nil left then tx_done tx' else tx' in
            (sent d.data_sent b.bytes ++ pending iso tx'' ≡ b.bytes ++ packets iso tx.fifo)
            × IsValid tx''
      split [] e = (
        ap (λ k. out ++ k) (pending-done tx.type tx.fifo none)
            ∙ ap (λ k. k ++ rest) (sym (append-nil out) ∙ rw e at all),
        λ h. type-take_buf (record { type = h4_none; buf = none; fifo = tx.fifo }),
      )
      split (x ∷ xs) e = (
        rw (==_ne tx.type h4_none ne)
            (sym (append_assoc out (x ∷ xs) rest) ∙ ap (λ k. k ++ rest) (rw e at all)),
        λ h. cc,
      )

  indicator-ne-none : (k : BufType) {t : ℕ} → indicator iso k ≡ some t → t ≢ h4_none
  indicator-ne-none k h = ground arith

  -- What `tx_buf` computes, by whether the indicator is known and has been sent.
  module _ (d : Driver) (tx : Tx) (b : Buf) where
    tx_buf_busy : tx.type ≢ h4_none → tx_buf iso d tx b ≡ tx_data d tx b
    unfolding tx_buf
    tx_buf_busy ne = rw (==_ne tx.type h4_none ne) refl

    tx_buf_unknown :
        tx.type ≡ h4_none → indicator iso b.type ≡ none → tx_buf iso d tx b ≡ ([], tx_done tx)
    unfolding tx_buf
    tx_buf_unknown z u = ground arith

    tx_buf_refused :
        {t : ℕ}
        → tx.type ≡ h4_none
        → indicator iso b.type ≡ some t
        → type_went d.type_sent ≡ false
        → tx_buf iso d tx b ≡ ([], tx)
    unfolding tx_buf
    tx_buf_refused z u w = ground arith

    tx_buf_typed :
        {t : ℕ}
        → tx.type ≡ h4_none
        → indicator iso b.type ≡ some t
        → type_went d.type_sent ≡ true
        → tx_buf iso d tx b ≡ then_send (t ∷ []) (tx_data d (record tx { type = t }) b)
    unfolding tx_buf
    tx_buf_typed z u w = ground arith

    pub pending_busy :
        tx.buf ≡ some b → tx.type ≢ h4_none → pending iso tx ≡ b.bytes ++ packets iso tx.fifo
    unfolding pending
    pending_busy e ne = rw (e, pending) (rw (==_ne tx.type h4_none ne) refl)

    pub pending_fresh :
        tx.buf ≡ some b → tx.type ≡ h4_none → pending iso tx ≡ packet iso b ++ packets iso tx.fifo
    unfolding pending
    pending_fresh e z = ground arith

    packet_unknown : indicator iso b.type ≡ none → packet iso b ≡ []
    packet_unknown u = rw (u, packet) refl

    packet_known : {t : ℕ} → indicator iso b.type ≡ some t → packet iso b ≡ t ∷ b.bytes
    packet_known u = rw (u, packet) refl

  tx_buf-pending :
      (d : Driver) (tx : Tx) (b : Buf)
      → tx.buf ≡ some b
      → let (ys, tx') = tx_buf iso d tx b in (ys ++ pending iso tx' ≡ pending iso tx) × IsValid tx'
  tx_buf-pending d tx b e = elim (ℕ_discrete tx.type h4_none) [
    | no ne ↦ rw (tx_buf_busy d tx b ne, pending_busy d tx b e ne) (tx_data-pending d tx b ne)
    | yes z ↦ elim (Option-cases (indicator iso b.type)) [
      | inl u ↦
          rw (tx_buf_unknown d tx b z u, pending_fresh d tx b e z, packet_unknown d tx b u)
            (
              pending-done tx.type tx.fifo tx.buf,
              λ h. type-take_buf (record tx { type = h4_none; buf = none }),
            )
      | inr (t, u) ↦ elim (Bool-cases (type_went d.type_sent)) [
        | inl w ↦
            let r = tx_data-pending d (record tx { type = t }) b (indicator-ne-none b.type u) in
            rw (tx_buf_typed d tx b z u w, pending_fresh d tx b e z, packet_known d tx b u)
              (ap (λ k. t ∷ k) r.0, r.1)
        | inr w ↦ rw (tx_buf_refused d tx b z u w) (refl, λ h. z)
      ]
    ]
  ]

  pub pending_idle : (tx : Tx) → tx.buf ≡ none → pending iso tx ≡ packets iso tx.fifo
  unfolding pending
  pending_idle tx e = rw (e, pending) refl

  from_queue :
      (d : Driver) (tx : Tx)
      → IsValid tx
      → tx.buf ≡ none
      → (fifo : List Buf) → tx.fifo ≡ fifo
      → let (ys, tx') = tx_current iso d (next_buf tx fifo) (next_buf tx fifo).buf in
        (ys ++ pending iso tx' ≡ packets iso fifo) × IsValid tx'
  from_queue d tx v n [] e =
      (pending_idle (record tx { buf = none }) refl ∙ ap (packets iso) e, λ h. v n)
  from_queue d tx v n (b ∷ bs) e =
      let tx' = record tx { buf = some b; fifo = bs } in
      let r = tx_buf-pending d tx' b refl in (r.0 ∙ pending_fresh d tx' b refl (v n), r.1)

  -- What goes on the wire, followed by what is still pending, is what was pending before.
  abbrev pub Sends : Tx → TxResult → Type 0
  Sends tx (ys, tx') = (ys ++ pending iso tx' ≡ pending iso tx) × IsValid tx'

  process_tx_idle :
      (d : Driver) (tx : Tx)
      → tx.buf ≡ none
      → process_tx iso d tx ≡ tx_current iso d (next_buf tx tx.fifo) (next_buf tx tx.fifo).buf
  unfolding process_tx
  process_tx_idle d tx e = ground arith

  process_tx_busy :
      (d : Driver) (tx : Tx) (b : Buf) → tx.buf ≡ some b → process_tx iso d tx ≡ tx_buf iso d tx b
  unfolding process_tx
  process_tx_busy d tx b e = ground arith

  -- One poll: what goes on the wire, followed by what is still pending, is what was pending before,
  -- however many bytes the driver takes, and whether its calls fail.
  pub process_tx-pending : (d : Driver) (tx : Tx) → IsValid tx → Sends tx (process_tx iso d tx)
  process_tx-pending d tx v = elim (Option-cases tx.buf) [
    | inl e ↦
        let r = from_queue d tx v e tx.fifo refl in
        subst (Sends tx) (sym (process_tx_idle d tx e)) (r.0 ∙ sym (pending_idle tx e), r.1)
    | inr (b, e) ↦ subst (Sends tx) (sym (process_tx_busy d tx b e)) (tx_buf-pending d tx b e)
  ]
