-- ===== src/Acl/Send.antt =====
-- The loop of `send_buf` in src/host/conn.c: what it sends of a buffer behind its first fragment.
use zephyr_polling.Prelude.{
  Bool, ℕ, zero, suc, min, ◌≤◌, ◌<◌, ◌≡◌, refl, ap, ◌∙◌, false, none, List, [], ◌∷◌, ◌++◌, length,
  take, drop, leb, arith, append-nil, length-take, length-drop, take-append-drop, All, Bool-cases,
  inl, inr,
}
use zephyr_polling.Acl.{
  SendResult, AclFlag, acl_start, acl_cont, FragFlag, frag_start, frag_cont, frag_single, frag_end,
  Frag, send_loop, no_error,
}
use zephyr_polling.Acl.Reassemble.{concat, IsNonempty}

-- The flag of `send_acl`, as the other side gets it from its controller.
abbrev pub acl_of : FragFlag → AclFlag
acl_of frag_start = acl_start
acl_of frag_single = acl_start
acl_of frag_cont = acl_cont
acl_of frag_end = acl_cont

abbrev pub pieces : List Frag → List (List ℕ)
pieces [] = []
pieces (f ∷ fs) = f.bytes ∷ pieces fs

abbrev pub IsCont : Frag → Type 0
IsCont f = IsNonempty f.bytes × (acl_of f.flag ≡ acl_cont)

-- Packets that continue a frame with these bytes, with nothing left.
abbrev pub Continues : List ℕ → SendResult → Type 0
Continues bytes r =
    (concat (pieces r.out) ≡ bytes) × All IsCont r.out × (r.left ≡ none) × (r.err ≡ no_error)

module _ (mtu room : ℕ) (hm : 0 < mtu) (hr : 0 < room) where
  -- What is left behind a full fragment.
  pub dropped :
      (bytes : List ℕ) → leb (length bytes) mtu ≡ false → IsNonempty (drop (min mtu room) bytes)
  dropped bytes k = ground (arith, length-drop (min mtu room) bytes)

  pub shorter :
      (bytes : List ℕ) (n : ℕ)
      → leb (length bytes) mtu ≡ false
      → length bytes ≤ suc n
      → length (drop (min mtu room) bytes) ≤ n
  shorter bytes n k h = ground (arith, length-drop (min mtu room) bytes)

  pub taken :
      (bytes : List ℕ) → leb (length bytes) mtu ≡ false → IsNonempty (take (min mtu room) bytes)
  taken bytes k = ground (arith, length-take (min mtu room) bytes)

  pub send_loop-Continues :
      (was : Bool) (bytes : List ℕ) (frags accepted : ℕ)
      → IsNonempty bytes
      → length bytes ≤ frags
      → length bytes ≤ accepted
      → Continues bytes (send_loop mtu room frag_cont was bytes frags accepted)
  send_loop-Continues was bytes zero accepted ne hf ha = absurd (omega arith)
  send_loop-Continues was bytes (suc frags) zero ne hf ha = absurd (omega arith)
  send_loop-Continues was bytes (suc frags) (suc accepted) ne hf ha =
      elim (Bool-cases (leb (length bytes) mtu)) [
        | inl e ↦ rw e (append-nil bytes, ((ne, refl), tt), refl, refl)
        | inr k ↦
            let c =
              send_loop-Continues was (drop (min mtu room) bytes) frags accepted (dropped bytes k)
                (shorter bytes frags k hf) (shorter bytes accepted k ha) in
            rw k (
              ap (λ x. take (min mtu room) bytes ++ x) (c.0)
                  ∙ take-append-drop (min mtu room) bytes,
              ((taken bytes k, refl), c.1),
              c.2,
              c.3,
            )
      ]
