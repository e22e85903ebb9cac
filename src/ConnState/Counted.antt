-- ===== src/ConnState/Counted.antt =====
-- The references of a connection in src/host/conn.c, along all that can happen to it.
use zephyr_polling.Prelude.{◌≡◌, false}
use zephyr_polling.ConnState.{Build}
use zephyr_polling.ConnState.Life.{World, IsExact, HasRefs}

abbrev pub IsCounted : Build → World → Type 0
IsCounted b w = HasRefs b w.users w.conn × (w.early ≡ false → IsExact b w.users w.conn)
