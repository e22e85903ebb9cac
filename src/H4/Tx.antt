-- ===== src/H4/Tx.antt =====
-- `process_tx` of src/drivers/hci_h4.c. The UART driver's `send` is a parameter of each poll: how
-- many bytes each of the two calls takes, or that it fails. The bytes on the wire are the result.
pub mod Poll
pub mod Stream
use zephyr_polling.Prelude.{
  ℕ, ◌+◌, ◌-◌, ◌<◌, Bool, true, false, ◌&&◌, Option, none, some, List, [], ◌∷◌, ◌++◌, length, take,
  drop, ◌==◌, if◌then◌else◌, min,
}
use zephyr_polling.H4.{h4_none, h4_cmd, h4_acl, h4_iso}

-- `enum bt_buf_type`, as far as the transport looks at it.
pub data BufType : Type 0 where
  cmd acl_out iso_out other : BufType

pub record Buf : Type 0 where
  pub type : BufType
  pub bytes : List ℕ

pub record Tx : Type 0 where
  pub type : ℕ
  pub buf : Option Buf
  pub fifo : List Buf

-- What the driver does with the two calls of a poll: `none` is a negative result.
pub record Driver : Type 0 where
  pub type_sent : Option ℕ
  pub data_sent : Option ℕ

abbrev pub TxResult : Type 0
TxResult = List ℕ × Tx

-- `tx.buf = net_buf_get(&tx.fifo, …)`
abbrev pub next_buf : Tx → List Buf → Tx
next_buf tx [] = record tx { buf = none }
next_buf tx (b ∷ bs) = record tx { buf = some b; fifo = bs }

abbrev pub take_buf : Tx → Tx
take_buf tx = next_buf tx tx.fifo

module _ (iso : Bool) where
  -- The packet indicator of a buffer; `none` is an unknown type. `iso` is CONFIG_BT_ISO.
  abbrev pub indicator : BufType → Option ℕ
  indicator acl_out = some h4_acl
  indicator cmd = some h4_cmd
  indicator iso_out = if iso then some h4_iso else none
  indicator other = none

-- The label `done`.
abbrev pub tx_done : Tx → Tx
tx_done tx = take_buf (record tx { type = h4_none; buf = none })

-- The bytes that a call of `send` puts on the wire: at most those that it was given.
abbrev pub sent : Option ℕ → List ℕ → List ℕ
sent none xs = []
sent (some n) xs = take n xs

abbrev pub unsent : Option ℕ → List ℕ → List ℕ
unsent none xs = xs
unsent (some n) xs = drop n xs

abbrev pub is_nil : List ℕ → Bool
is_nil [] = true
is_nil (x ∷ xs) = false

-- The part behind the packet indicator: send the data, and finish the buffer once it is empty.
unfoldable pub tx_data : Driver → Tx → Buf → TxResult
tx_data d tx b =
    let left = unsent d.data_sent b.bytes in
    let tx' = record tx { buf = some (record b { bytes = left }) } in
    (sent d.data_sent b.bytes, if is_nil left then tx_done tx' else tx')

-- One byte goes out only where the driver returns 1.
abbrev pub type_went : Option ℕ → Bool
type_went none = false
type_went (some n) = n == 1

abbrev pub then_send : List ℕ → TxResult → TxResult
then_send xs (ys, tx) = (xs ++ ys, tx)

module _ (iso : Bool) (d : Driver) where
  unfoldable pub tx_buf : Tx → Buf → TxResult
  unfolding tx_data
  tx_buf tx b =
      if tx.type == h4_none
      then elim (indicator iso b.type) [
        | none ↦ ([], tx_done tx)
        | some t ↦
            if type_went d.type_sent
            then then_send (t ∷ []) (tx_data d (record tx { type = t }) b)
            else ([], record tx { type = h4_none })
      ]
      else tx_data d tx b

  abbrev pub tx_current : Tx → Option Buf → TxResult
  tx_current tx none = ([], tx)
  tx_current tx (some b) = tx_buf tx b

  unfoldable pub process_tx : Tx → TxResult
  process_tx tx = elim tx.buf [
    | none ↦ tx_current (take_buf tx) (take_buf tx).buf
    | some b ↦ tx_buf tx b
  ]

-- `h4_send`
unfoldable pub h4_send : Tx → Buf → Tx
h4_send tx b = record tx { fifo = tx.fifo ++ b ∷ [] }
