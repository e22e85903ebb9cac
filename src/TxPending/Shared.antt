-- ===== src/TxPending/Shared.antt =====
-- The semaphore of src/host/conn.c that all connections take the controller's buffers from.
use mathlib.Core.Path.{subst}
use zephyr_polling.Prelude.{
  ℕ, zero, suc, ◌+◌, ◌<◌, ◌≡◌, refl, sym, ap, ◌∙◌, Bool, true, Option, none, some, List, [], ◌∷◌,
  ◌++◌, arith,
}
use zephyr_polling.TxPending.{
  Conn, Sem, k_sem_take, Step, send_frag, do_send_frag, num_completed, tx_notify, process_unack_tx,
}
use zephyr_polling.TxPending.Held.{held, IsFresh, add_pending-held}
use zephyr_polling.TxPending.Account.{
  Covers, StepCovers, send_frag-Covers, num_completed-Covers, unacked-Covers,
  process_unack_tx-unacked,
}

-- What happens on a connection with the semaphore `sem`.
pub data Happens (sem : Sem) (c : Conn) : Step → Type 0 where
  sends :
      (connected driver_ok : Bool) (tx : Option ℕ)
      → IsFresh tx c
      → Happens sem c (send_frag connected driver_ok tx sem c).step
  completes : (count : ℕ) → Happens sem c (num_completed count sem c)
  notifies : Happens sem c (tx_notify sem c)
  disconnects :
      {r : Step} (fuel : ℕ) → held c < fuel → process_unack_tx fuel sem c ≡ some r → Happens sem c r

pub record World : Type 0 where
  pub sem : Sem
  pub conns : List Conn

pub data Reaches (w : World) : World → Type 0 where
  start : Reaches w w
  next :
      {sem : Sem} (before after : List Conn) (c : Conn) (r : Step)
      → Happens sem c r
      → Reaches w (record { sem = sem; conns = before ++ c ∷ after })
      → Reaches w (record { sem = r.sem; conns = before ++ r.conn ∷ after })

abbrev pub held_all : List Conn → ℕ
held_all [] = 0
held_all (c ∷ cs) = held c + held_all cs

held_all-split :
    (before after : List Conn) (c : Conn)
    → held_all (before ++ c ∷ after) ≡ held c + held_all (before ++ after)
held_all-split [] after c = refl
held_all-split (b ∷ bs) after c = let rest = held_all-split bs after c in ground arith

abbrev stepped : Option Step → Step → Step
stepped none r = r
stepped (some s) r = s

Happens-Covers :
    (l k : ℕ) (sem : Sem) (c : Conn) (r : Step)
    → Happens sem c r
    → Covers l k sem (held c)
    → StepCovers l k r
unfolding tx_notify
Happens-Covers l k sem c _ (sends connected driver_ok tx f) h =
    send_frag-Covers l k connected driver_ok tx sem c f h
Happens-Covers l k sem c _ (completes count) h = num_completed-Covers l k count sem c h
Happens-Covers l k sem c _ notifies h = h
Happens-Covers l k sem c r (disconnects fuel more e) h =
    let same = ap (λ o. stepped o r) (sym (process_unack_tx-unacked fuel sem c more) ∙ e) in
    subst (StepCovers l k) same (unacked-Covers l k sem (held c) h)

-- Every one of the controller's `l` buffers is free for the semaphore or taken by a packet.
abbrev pub IsCovered : ℕ → World → Type 0
IsCovered l w = Covers l 0 w.sem (held_all w.conns)

apart : (l k : ℕ) (sem : Sem) (h : ℕ) → Covers l 0 sem (h + k) → Covers l k sem h
apart l k sem h c = ground arith

together : (l k : ℕ) (sem : Sem) (h : ℕ) → Covers l k sem h → Covers l 0 sem (h + k)
together l k sem h c = ground arith

replaced :
    (l : ℕ) (before after : List Conn) (c : Conn) (r : Step) (sem : Sem)
    → Happens sem c r
    → Covers l 0 sem (held_all (before ++ c ∷ after))
    → Covers l 0 r.sem (held_all (before ++ r.conn ∷ after))
replaced l before after c r sem h q =
    let k = held_all (before ++ after) in
    subst (Covers l 0 r.sem) (sym (held_all-split before after r.conn)) (
      together l k r.sem (held r.conn) (
        Happens-Covers l k sem c r h
          (apart l k sem (held c) (subst (Covers l 0 sem) (held_all-split before after c) q))))

-- However the connections send, complete, fail and disconnect, no buffer of the controller is lost: each
-- is counted by the semaphore or taken by a packet that a connection still holds, and the
-- semaphore never counts more buffers than there are. (There may be more packets than buffers.)
pub Reaches-IsCovered : (l : ℕ) (w v : World) → Reaches w v → IsCovered l w → IsCovered l v
Reaches-IsCovered l w _ start i = i
Reaches-IsCovered l w _ (next {sem} before after c r h q) i =
    replaced l before after c r sem h
      (Reaches-IsCovered l w (record { sem = sem; conns = before ++ c ∷ after }) q i)

-- Packets without a callback that are sent one after the other.
abbrev pub burst : ℕ → Sem → Conn → Step
burst zero sem c = record { conn = c; sem = sem; out = [] }
burst (suc n) sem c = let r = (send_frag true true none sem c).step in burst n r.sem r.conn

one_more : (sem : Sem) (c : Conn) → held (send_frag true true none sem c).step.conn ≡ suc (held c)
unfolding send_frag do_send_frag k_sem_take
one_more sem c = add_pending-held none c

-- The semaphore does not hold back a connection: whatever it counts and whatever its limit is, `n`
-- packets that are sent are `n` more packets in the controller.
pub burst_lem : (n : ℕ) (sem : Sem) (c : Conn) → held (burst n sem c).conn ≡ n + held c
burst_lem zero sem c = omega arith
burst_lem (suc n) sem c =
    let r = (send_frag true true none sem c).step in
    let rest = burst_lem n r.sem r.conn in
    let one = one_more sem c in rest ∙ ap (λ h. n + h) one ∙ omega arith
