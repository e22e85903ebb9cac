-- ===== src/Hex/Overflow.antt =====
-- The length check of `bin2hex` accepts arrays that are too short for the terminator.
use zephyr_polling.Prelude.{
  ℕ, ◌+◌, ◌*◌, ◌≡◌, refl, true, false, none, some, List, [], ◌++◌, length, length-append,
  append-nil, ltb, poke_outside, IsBytes, arith,
}
use zephyr_polling.Hex.{bin2hex_loop, bin2hex}
use zephyr_polling.Hex.RoundTrip.{digits, length-digits, bin2hex_loop_lem}

-- With an array of exactly two characters for each byte, `bin2hex` passes its check and writes the
-- terminator outside the array.
pub bin2hex_overflow :
    (buf hex : List ℕ) → IsBytes buf → length hex ≡ 2 * length buf → bin2hex buf hex ≡ none
unfolding bin2hex
bin2hex_overflow buf hex b r =
    let fits : ltb (length hex + 1) (length buf * 2) ≡ false = ground arith in
    let loop : bin2hex_loop buf 0 hex ≡ some (true, digits buf ++ []) =
      rw (append-nil hex) at (bin2hex_loop_lem buf 0 [] hex [] b refl r) in
    let outside =
      poke_outside (digits buf ++ []) (2 * length buf) 0
        (omega (arith, length-append (digits buf) [], length-digits buf)) in
    rw (fits, bin2hex) (rw (loop, bin2hex) (rw (outside, bin2hex) refl))
