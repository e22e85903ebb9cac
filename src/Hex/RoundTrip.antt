-- ===== src/Hex/RoundTrip.antt =====
-- Digits of bytes, and bytes of digits.
use zephyr_polling.Prelude.{
  ℕ, ◌+◌, ◌-◌, ◌*◌, ◌/◌, ◌%◌, ◌^◌, ◌<◌, ◌≡◌, refl, sym, ◌∙◌, ap, true, false, some, List, [], ◌∷◌,
  ◌++◌, length, length-append, append_assoc, ltb, leb, ◌==◌, if◌then◌else◌, poke, poke_at, get_or,
  get_or_at, IsBytes, arith,
}
use zephyr_polling.Hex.{char2hex, hex2char, bin2hex_loop, bin2hex, hex2bin_loop, hex2bin}

-- The digit of a number below 16.
abbrev pub digit : ℕ → ℕ
digit x = if leb x 9 then x + b'0' else x - 10 + b'a'

abbrev pub digits : List ℕ → List ℕ
digits [] = []
digits (x ∷ xs) = digit (x / 2 ^ 4) ∷ (digit (x % 2 ^ 4) ∷ digits xs)

pub length-digits : (xs : List ℕ) → length (digits xs) ≡ 2 * length xs
length-digits [] = refl
length-digits (x ∷ xs) = omega (arith, length-digits xs)

pub hex2char-digit : (x : ℕ) → x < 16 → hex2char x ≡ some (digit x)
unfolding hex2char
hex2char-digit x h = ground arith

pub char2hex-digit : (x : ℕ) → x < 16 → char2hex (digit x) ≡ some x
unfolding char2hex
char2hex-digit x h = ground arith

bin2hex_step :
    (x : ℕ) (xs : List ℕ) (i : ℕ) (hex : List ℕ) {a b : ℕ} {hex₁ hex₂ : List ℕ}
    → hex2char (x / 2 ^ 4) ≡ some a
    → poke hex (2 * i) a ≡ some hex₁
    → hex2char (x % 2 ^ 4) ≡ some b
    → poke hex₁ (2 * i + 1) b ≡ some hex₂
    → bin2hex_loop (x ∷ xs) i hex ≡ bin2hex_loop xs (i + 1) hex₂
unfolding bin2hex_loop
bin2hex_step x xs i hex e₁ e₂ e₃ e₄ =
    rw (e₁, bin2hex_loop)
      (rw (e₂, bin2hex_loop) (rw (e₃, bin2hex_loop) (rw (e₄, bin2hex_loop) refl)))

pub bin2hex_loop_lem :
    (buf : List ℕ) (i : ℕ) (done room rest : List ℕ)
    → IsBytes buf
    → 2 * i ≡ length done
    → length room ≡ 2 * length buf
    → bin2hex_loop buf i (done ++ (room ++ rest)) ≡ some (true, done ++ (digits buf ++ rest))
unfolding bin2hex_loop
bin2hex_loop_lem [] i done [] rest b e r = refl
bin2hex_loop_lem [] i done (_ ∷ _) rest b e r = absurd (omega arith)
bin2hex_loop_lem (x ∷ xs) i done [] rest b e r = absurd (omega arith)
bin2hex_loop_lem (x ∷ xs) i done (_ ∷ []) rest b e r = absurd (omega arith)
bin2hex_loop_lem (x ∷ xs) i done (y ∷ (z ∷ room)) rest b e r =
    let hi = digit (x / 2 ^ 4) in
    let lo = digit (x % 2 ^ 4) in
    let ih =
      bin2hex_loop_lem xs (i + 1) (done ++ (hi ∷ (lo ∷ []))) room rest b.1
        (omega (arith, length-append done (hi ∷ (lo ∷ [])))) (omega arith) in
    let at : poke (done ++ (hi ∷ (z ∷ (room ++ rest)))) (2 * i + 1) lo
        ≡ some (done ++ (hi ∷ (lo ∷ (room ++ rest)))) =
      rw
        (
          ← append_assoc done (hi ∷ []) (z ∷ (room ++ rest)),
          ← append_assoc done (hi ∷ []) (lo ∷ (room ++ rest)),
        )
        (poke_at (done ++ hi ∷ []) z (room ++ rest) (2 * i + 1) lo
          (omega (arith, length-append done (hi ∷ [])))) in
    bin2hex_step x xs i (done ++ (y ∷ (z ∷ (room ++ rest))))
      (hex2char-digit (x / 2 ^ 4) (omega (arith, b.0)))
      (poke_at done y (z ∷ (room ++ rest)) (2 * i) hi e) (hex2char-digit (x % 2 ^ 4) (omega arith))
      at
    ∙ (rw
        (
          append_assoc done (hi ∷ (lo ∷ [])) (room ++ rest),
          append_assoc done (hi ∷ (lo ∷ [])) (digits xs ++ rest),
        )
        at ih)

-- With room for the digits and the terminator `bin2hex` writes the digits of every byte, the higher
-- nibble first, and a 0, keeps what follows, and returns the number of digits.
pub bin2hex-digits :
    (buf room : List ℕ) (end : ℕ) (rest : List ℕ)
    → IsBytes buf
    → length room ≡ 2 * length buf
    → bin2hex buf (room ++ end ∷ rest) ≡ some (2 * length buf, digits buf ++ 0 ∷ rest)
unfolding bin2hex
bin2hex-digits buf room end rest b r =
    let fits : ltb (length (room ++ end ∷ rest) + 1) (length buf * 2) ≡ false =
      ground (arith, length-append room (end ∷ rest)) in
    rw (fits, bin2hex)
      (rw (bin2hex_loop_lem buf 0 [] room (end ∷ rest) b refl r, bin2hex)
        (rw (poke_at (digits buf) end rest (2 * length buf) 0 (sym (length-digits buf)), bin2hex)
          refl))

hex2bin_step :
    (c d : ℕ) (cs : List ℕ) (i : ℕ) (buf : List ℕ) {hi lo : ℕ} {buf₁ buf₂ : List ℕ}
    → char2hex c ≡ some hi
    → poke buf i (hi * 2 ^ 4 % 2 ^ 8) ≡ some buf₁
    → char2hex d ≡ some lo
    → poke buf₁ i ((get_or buf₁ i 0 + lo) % 2 ^ 8) ≡ some buf₂
    → hex2bin_loop (c ∷ (d ∷ cs)) i buf ≡ hex2bin_loop cs (i + 1) buf₂
unfolding hex2bin_loop
hex2bin_step c d cs i buf e₁ e₂ e₃ e₄ =
    rw (e₁, hex2bin_loop)
      (rw (e₂, hex2bin_loop) (rw (e₃, hex2bin_loop) (rw (e₄, hex2bin_loop) refl)))

hex2bin_loop_lem :
    (buf : List ℕ) (i : ℕ) (done room rest : List ℕ)
    → IsBytes buf
    → i ≡ length done
    → length room ≡ length buf
    → hex2bin_loop (digits buf) i (done ++ (room ++ rest)) ≡ some (true, done ++ (buf ++ rest))
unfolding hex2bin_loop
hex2bin_loop_lem [] i done [] rest b e r = refl
hex2bin_loop_lem [] i done (_ ∷ _) rest b e r = absurd (omega arith)
hex2bin_loop_lem (x ∷ xs) i done [] rest b e r = absurd (omega arith)
hex2bin_loop_lem (x ∷ xs) i done (y ∷ room) rest b e r =
    let high = x / 2 ^ 4 * 2 ^ 4 % 2 ^ 8 in
    let at₁ : poke (done ++ high ∷ (room ++ rest)) i
          ((get_or (done ++ high ∷ (room ++ rest)) i 0 + x % 2 ^ 4) % 2 ^ 8)
        ≡ some (done ++ x ∷ (room ++ rest)) =
      rw (get_or_at done high (room ++ rest) i 0 e) (
        poke_at done high (room ++ rest) i ((high + x % 2 ^ 4) % 2 ^ 8) e
        ∙ ap (λ v. some (done ++ v ∷ (room ++ rest))) (omega (arith, b.0))) in
    let ih =
      hex2bin_loop_lem xs (i + 1) (done ++ x ∷ []) room rest b.1
        (omega (arith, length-append done (x ∷ []))) (omega arith) in
    hex2bin_step (digit (x / 2 ^ 4)) (digit (x % 2 ^ 4)) (digits xs) i (done ++ y ∷ (room ++ rest))
      (char2hex-digit (x / 2 ^ 4) (omega (arith, b.0))) (poke_at done y (room ++ rest) i high e)
      (char2hex-digit (x % 2 ^ 4) (omega arith)) at₁
    ∙ (rw (append_assoc done (x ∷ []) (room ++ rest), append_assoc done (x ∷ []) (xs ++ rest)) at
        ih)

-- `hex2bin` on the digits that `bin2hex` writes for some bytes gives back those bytes and their
-- number, and keeps the rest of the array, if the array has room for them.
pub hex2bin-digits :
    (buf room rest : List ℕ)
    → IsBytes buf
    → length room ≡ length buf
    → hex2bin (digits buf) (room ++ rest) ≡ some (length buf, buf ++ rest)
unfolding hex2bin
hex2bin-digits buf room rest b r =
    let len = length-digits buf in
    let half : length (digits buf) / 2 ≡ length buf = omega (arith, len) in
    let even : (length (digits buf) % 2 == 1) ≡ false = ground (arith, len) in
    let fits : ltb (length (room ++ rest)) (length (digits buf) / 2 + length (digits buf) % 2)
        ≡ false =
      ground (arith, len, length-append room rest) in
    rw (fits, hex2bin)
      (rw (even, hex2bin) (rw (hex2bin_loop_lem buf 0 [] room rest b refl r) (rw half refl)))
