-- ===== src/Smp/Method/Agree.antt =====
-- Two devices that run the choice of the pairing method in src/host/smp.c come to methods that fit.
use zephyr_polling.Prelude.{true, ◌||◌, ◌==◌, ℕ, ◌≤◌, ◌≡◌, Bool, false, not, ◌&&◌, arith}
use zephyr_polling.Smp.{
  Config, Host, Smp, central, peripheral, PairingMethod, just_works, passkey_input, passkey_display,
  passkey_confirm, le_sc_oob, legacy_oob, flag_sc,
}
use zephyr_polling.Smp.Method.{
  gen_method_legacy, gen_method_sc, table_at, get_io_capa, passkey_by_role,
}

-- What the capabilities mean: 0 is a display, 1 a display with yes and no, 2 a keyboard, 3 nothing, and
-- 4 a keyboard with a display.
abbrev pub shows : ℕ → Bool
shows io = (io == 0) || ((io == 1) || (io == 4))

abbrev pub enters : ℕ → Bool
enters io = (io == 2) || (io == 4)

abbrev pub confirms : ℕ → Bool
confirms io = (io == 1) || (io == 4)

-- The method of the initiator, with the capability `i`, and the method of the responder, with the
-- capability `j`, fit: one enters what the other shows, both compare, or both do the same, and
-- each is able to. Both enter, what the user makes up, only if neither can show anything.
pub data Fits (i j : ℕ) : PairingMethod → PairingMethod → Type 0 where
  both_just_works : Fits i j just_works just_works
  both_confirm : confirms i ≡ true → confirms j ≡ true → Fits i j passkey_confirm passkey_confirm
  both_input :
      enters i ≡ true
      → enters j ≡ true
      → shows i ≡ false
      → shows j ≡ false
      → Fits i j passkey_input passkey_input
  initiator_displays : shows i ≡ true → enters j ≡ true → Fits i j passkey_display passkey_input
  responder_displays : enters i ≡ true → shows j ≡ true → Fits i j passkey_input passkey_display
  both_sc_oob : Fits i j le_sc_oob le_sc_oob
  both_legacy_oob : Fits i j legacy_oob legacy_oob

-- Every capability that is announced has a row and a column in the tables.
pub get_io_capa_le : (cfg : Config) (host : Host) (smp : Smp) → get_io_capa cfg host smp ≤ 4
unfolding get_io_capa
get_io_capa_le cfg host smp = ground arith

-- The entry of the initiator `i` and the one of the responder `j`.
abbrev ScFits : ℕ → ℕ → Type 0
ScFits i j = Fits i j (table_at gen_method_sc j i) (table_at gen_method_sc i j)

abbrev LegacyFits : ℕ → ℕ → Type 0
LegacyFits i j =
    Fits i j (passkey_by_role central (table_at gen_method_legacy j i))
      (passkey_by_role peripheral (table_at gen_method_legacy i j))

-- The initiator `a` and the responder `b` of one pairing, each with its own build: both keep the same
-- request and response, which hold their capabilities, and both have agreed on secure connections
-- or not. A build that has only secure connections is in no other pairing, and both or neither
-- have out-of-band pairing of the legacy kind only.
pub record Paired (cfa cfb : Config) (ha hb : Host) (a b : Smp) : Type 0 where
  pub initiator : a.conn.role ≡ central
  pub responder : b.conn.role ≡ peripheral
  pub same_preq : b.preq ≡ a.preq
  pub same_prsp : b.prsp ≡ a.prsp
  pub same_sc : b.flags flag_sc ≡ a.flags flag_sc
  pub announced_req : a.preq.io_capability ≡ get_io_capa cfa ha a
  pub announced_rsp : a.prsp.io_capability ≡ get_io_capa cfb hb b
  pub sc_only_a : cfa.sc_pair_only && not (a.flags flag_sc) ≡ false
  pub sc_only_b : cfb.sc_pair_only && not (b.flags flag_sc) ≡ false
  pub same_oob : cfb.oob_legacy_pair_only ≡ cfa.oob_legacy_pair_only
