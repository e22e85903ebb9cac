-- ===== src/H4.antt =====
-- The UART transport of src/drivers/hci_h4.c: packets to and from the controller as a byte stream.
pub mod Tx
pub mod Rx
use zephyr_polling.Prelude.{ℕ, Bool}

abbrev pub h4_none : ℕ
h4_none = 0

abbrev pub h4_cmd : ℕ
h4_cmd = 1

abbrev pub h4_acl : ℕ
h4_acl = 2

abbrev pub h4_evt : ℕ
h4_evt = 4

abbrev pub h4_iso : ℕ
h4_iso = 5

-- The build options that the transport looks at: CONFIG_BT_ISO and CONFIG_BT_BREDR.
pub record Config : Type 0 where
  pub iso : Bool
  pub bredr : Bool
