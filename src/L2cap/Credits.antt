-- ===== src/L2cap/Credits.antt =====
-- What each function of the receiving side in src/host/l2cap.c does to the credits.
use zephyr_polling.Prelude.{
  ℕ, ◌++◌, add_u16, take, ◌+◌, ◌≤◌, ◌<◌, ◌^◌, ◌%◌, drop, ◌≡◌, refl, Bool, true, false, ◌&&◌, none,
  some, List, [], ◌∷◌, length, ltb, ◌==◌, if◌then◌else◌, arith, Option-cases, inl, inr,
}
use zephyr_polling.ByteOrder.{get_le16}
use zephyr_polling.L2cap.{
  Sdu, RxChan, Taken, taken, in_progress, refused, Answers, Fault, too_long, too_short, mismatch,
  no_buffer, app_error, RxStep, quiet, give_up, capped, l2cap_chan_send_credits,
  l2cap_chan_update_credits, l2cap_chan_le_recv_sdu, stored, l2cap_chan_le_recv_seg, recv_first,
  recv_paid, bt_l2cap_chan_recv_complete,
}

abbrev pub sum : List ℕ → ℕ
sum [] = 0
sum (n ∷ ns) = n + sum ns

-- What a step of the receiver does to its credits: it counts what it gives.
abbrev pub Counts : RxChan → RxStep → Type 0
Counts c r =
    (r.chan.credits ≡ c.credits + sum r.given)
    × (r.chan.credits ≤ c.init_credits)
    × (r.chan.init_credits ≡ c.init_credits)

abbrev pub Fits : RxChan → Type 0
Fits c = (c.credits ≤ c.init_credits) × (c.init_credits < 2 ^ 16)

send_credits-Counts :
    (a : Answers) (c : RxChan) (n : ℕ) → Fits c → Counts c (l2cap_chan_send_credits a c n)
unfolding l2cap_chan_send_credits capped
send_credits-Counts a c n f = ground arith

choose :
    (c : RxChan) (b : Bool) (x y : RxStep) → Counts c x → Counts c y → Counts c (if b then x else y)
choose c true x y p q = p
choose c false x y p q = q

quiet-Counts : (c : RxChan) → Fits c → Counts c (quiet c)
quiet-Counts c f = (omega arith, f.0, refl)

give_up-Counts : (fault : Fault) (c : RxChan) → Fits c → Counts c (give_up fault c)
give_up-Counts fault c f = (omega arith, f.0, refl)

module _ (a : Answers) where
  update_credits-Counts : (c : RxChan) (n : ℕ) → Fits c → Counts c (l2cap_chan_update_credits a c n)
  unfolding l2cap_chan_update_credits
  update_credits-Counts c n f =
      choose c _ (quiet c) (l2cap_chan_send_credits a c _) (quiet-Counts c f)
        (send_credits-Counts a c _ f)

  -- What comes of an SDU, by the answer of the application.
  answered-Counts :
      (c : RxChan) (app : Taken) (r : RxStep)
      → Fits c
      → Counts c r
      → Counts c (elim app [ refused ↦ give_up app_error c | in_progress ↦ quiet c | taken ↦ r ])
  answered-Counts c refused r f h = give_up-Counts app_error c f
  answered-Counts c in_progress r f h = quiet-Counts c f
  answered-Counts c taken r f h = h

  recv_sdu-Counts :
      (c : RxChan) (bytes : List ℕ) (seg : ℕ)
      → Fits c
      → Counts c (l2cap_chan_le_recv_sdu a c bytes seg)
  unfolding l2cap_chan_le_recv_sdu
  recv_sdu-Counts c bytes seg f =
      answered-Counts c a.app (if c.connected then l2cap_chan_send_credits a c seg else quiet c) f (
        choose c c.connected (l2cap_chan_send_credits a c seg) (quiet c)
          (send_credits-Counts a c seg f) (quiet-Counts c f))

  stored-Counts : (c : RxChan) (sdu : Sdu) (n : ℕ) → Fits c → Counts c (stored a c sdu n)
  unfolding stored
  stored-Counts c sdu n f =
      let kept = record c { sdu = some sdu } in
      let done = record c { sdu = none; sdu_len = 0 } in
      choose c (ltb (length sdu.bytes) c.sdu_len)
        (if (c.credits == 0) && (sdu.seg == c.init_credits)
          then l2cap_chan_update_credits a kept n
          else quiet kept)
        (l2cap_chan_le_recv_sdu a done sdu.bytes sdu.seg)
        (choose c ((c.credits == 0) && (sdu.seg == c.init_credits))
          (l2cap_chan_update_credits a kept n) (quiet kept) (update_credits-Counts kept n f)
          (quiet-Counts kept f))
        (recv_sdu-Counts done sdu.bytes sdu.seg f)

  recv_seg-Counts :
      (c : RxChan) (sdu : Sdu) (bytes : List ℕ)
      → Fits c
      → Counts c (l2cap_chan_le_recv_seg a c sdu bytes)
  unfolding l2cap_chan_le_recv_seg
  recv_seg-Counts c sdu bytes f =
      let kept = record c { sdu = some sdu } in
      let seg = if length sdu.bytes % 2 ^ 16 == 0 then 0 else sdu.seg in
      let partly = record c {
        sdu = some (record { bytes = sdu.bytes ++ take a.room bytes; seg = add_u16 seg 1 });
      } in
      choose c (ltb c.sdu_len (length sdu.bytes % 2 ^ 16 + length bytes)) (give_up mismatch kept) _
        (give_up-Counts mismatch kept f)
        (choose c (ltb a.room (length bytes)) _ _ (give_up-Counts no_buffer partly f)
          (stored-Counts c _ (length bytes) f))

  recv_first-Counts :
      (c : RxChan) (n : ℕ) (bytes : List ℕ) → Fits c → Counts c (recv_first a c n bytes)
  unfolding recv_first
  recv_first-Counts c n bytes f =
      choose c (ltb c.mtu n) (give_up too_long c) _ (give_up-Counts too_long c f) (
        choose c c.has_alloc _ _
          (choose c a.alloc_ok _ (give_up no_buffer c)
            (recv_seg-Counts (record c { sdu_len = n }) (record { bytes = []; seg = 0 }) bytes f)
            (give_up-Counts no_buffer c f))
          (answered-Counts c a.app (l2cap_chan_send_credits a c 1) f (send_credits-Counts a c 1 f)))

  pub recv_paid-Counts : (c : RxChan) (bytes : List ℕ) → Fits c → Counts c (recv_paid a c bytes)
  unfolding recv_paid
  recv_paid-Counts c bytes f =
      choose c (ltb c.mps (length bytes)) (give_up too_long c) _ (give_up-Counts too_long c f)
        (elim (Option-cases c.sdu) [
          | inl e ↦ rw e (
              choose c (ltb (length bytes) 2) (give_up too_short c)
                (recv_first a c (get_le16 bytes) (drop 2 bytes)) (give_up-Counts too_short c f)
                (recv_first-Counts c _ _ f))
          | inr (sdu, e) ↦ rw e (recv_seg-Counts c sdu bytes f)
        ])

  pub recv_complete-Counts :
      (c : RxChan) (seg : ℕ) → Fits c → Counts c (bt_l2cap_chan_recv_complete a c seg)
  unfolding bt_l2cap_chan_recv_complete
  recv_complete-Counts c seg f =
      choose c c.connected (l2cap_chan_send_credits a c seg) (quiet c)
        (send_credits-Counts a c seg f) (quiet-Counts c f)
