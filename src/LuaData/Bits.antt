-- ===== src/LuaData/Bits.antt =====
-- The value of a BIT column, src/lua/LuaQuery.cpp.
use Prim.Native.Nat.{max, digits, bit_or, bit_or-bitwise}
use my_sqloo.Base.{
  ℕ, zero, suc, ◌+◌, ◌-◌, ◌*◌, ◌/◌, ◌%◌, ◌^◌, ◌≤◌, ◌<◌, ◌≡◌, ◌∙◌, refl, ap, [], ◌∷◌, ◌++◌, length,
  arith, All,
}
use my_sqloo.Client.{Bytes}
use my_sqloo.ResultData.{take}
use my_sqloo.LuaData.{push_byte, bit_rounds, bit_value}

-- `k` with `w` zeros behind its binary digits.
abbrev shifted : ℕ → ℕ → ℕ
shifted zero k = k
shifted (suc w) k = 2 * shifted w k

or_digit : (x : ℕ) → max x 0 ≡ x
or_digit x = omega arith

-- An or with 0.
digits_zero : (n a : ℕ) → a ≤ n → digits (λ y. y) max n a 0 ≡ a
digits_zero zero zero p = refl
digits_zero zero (suc a) p = absurd (omega arith)
digits_zero (suc n) zero p = refl
digits_zero (suc n) (suc a) p =
    omega (arith, digits_zero n (suc a / 2) (omega arith), or_digit (suc a % 2))

-- Where the digits of two numbers do not overlap, the or of them is their sum.
digits_sum :
    (w n a b k : ℕ) → a ≤ n → a ≡ shifted w k → b < shifted w 1 → digits (λ y. y) max n a b ≡ a + b
digits_sum w zero zero b k p e q = omega arith
digits_sum w (suc n) zero b k p e q = omega arith
digits_sum w zero (suc a) b k p e q = absurd (omega arith)
digits_sum zero (suc n) (suc a) zero k p e q = omega (arith, digits_zero (suc n) (suc a) p)
digits_sum zero (suc n) (suc a) (suc b) k p e q = absurd (omega arith)
digits_sum (suc w) (suc n) (suc a) b k p e q =
    let rest = digits_sum w n (suc a / 2) (b / 2) k (omega arith) (omega arith) (omega arith) in
    let even : suc a % 2 ≡ 0 = omega arith in omega (arith, rest, ap (λ x. max x (b % 2)) even)

bit_or-sum : (value byte : ℕ) → byte < 256 → bit_or (256 * value) byte ≡ 256 * value + byte
bit_or-sum value byte h =
    simp bit_or-bitwise
      (digits_sum 8 (256 * value) (256 * value) byte value (omega arith) (omega arith) h)

push_byte-sum :
    (value byte : ℕ) → value < 2 ^ 56 → byte < 256 → push_byte value byte ≡ 256 * value + byte
unfolding push_byte
push_byte-sum value byte p q =
    let room : value * 256 % 2 ^ 64 ≡ 256 * value = omega arith in rw room (bit_or-sum value byte q)

-- One byte more, at the end.
bit_rounds-append :
    (rounds value : ℕ) (bytes : Bytes) (byte : ℕ)
    → length bytes < rounds
    → bit_rounds rounds value (bytes ++ (byte ∷ []))
      ≡ push_byte (bit_rounds rounds value bytes) byte
unfolding bit_rounds
bit_rounds-append zero value bytes byte p = absurd (omega arith)
bit_rounds-append (suc zero) value [] byte p = refl
bit_rounds-append (suc (suc rounds)) value [] byte p = refl
bit_rounds-append (suc rounds) value (b ∷ bytes) byte p =
    bit_rounds-append rounds (push_byte value b) bytes byte (omega arith)

-- A number in so many bytes, the high byte first, as the server sends a BIT column.
abbrev pub to_bytes : ℕ → ℕ → Bytes
to_bytes zero n = []
to_bytes (suc w) n = to_bytes w (n / 256) ++ (n % 256 ∷ [])

length-append : (xs : Bytes) (x : ℕ) → length (xs ++ (x ∷ [])) ≡ suc (length xs)
length-append [] x = refl
length-append (y ∷ xs) x = ap suc (length-append xs x)

length-to_bytes : (w n : ℕ) → length (to_bytes w n) ≡ w
length-to_bytes zero n = refl
length-to_bytes (suc w) n =
    length-append (to_bytes w (n / 256)) (n % 256) ∙ ap suc (length-to_bytes w (n / 256))

-- 256 ^ w
abbrev room : ℕ → ℕ
room zero = 1
room (suc w) = 256 * room w

pow-room : (w : ℕ) → 256 ^ w ≡ room w
pow-room zero = refl
pow-room (suc w) = omega (arith, pow-room w)

room_mono : (d w : ℕ) → room w ≤ room (d + w)
room_mono zero w = let same : 0 + w ≡ w = omega arith in omega (arith, ap room same)
room_mono (suc d) w =
    let next : suc d + w ≡ suc (d + w) = omega arith in omega (arith, room_mono d w, ap room next)

room-upper : (w : ℕ) → w ≤ 8 → room w ≤ 2 ^ 64
room-upper w h =
    let all : 8 - w + w ≡ 8 = omega arith in omega (arith, room_mono (8 - w) w, ap room all)

bit_value-room : (w n : ℕ) → w ≤ 8 → n < room w → bit_value (to_bytes w n) ≡ n
unfolding bit_value bit_rounds
bit_value-room zero n p q = omega arith
bit_value-room (suc w) n p q =
    let upper = bit_value-room w (n / 256) (omega arith) (omega arith) in
    let last =
      bit_rounds-append 8 0 (to_bytes w (n / 256)) (n % 256)
        (omega (arith, length-to_bytes w (n / 256))) in
    let fits : n / 256 < 2 ^ 56 = omega (arith, room-upper (suc w) p) in
    let pushed = push_byte-sum (n / 256) (n % 256) fits (omega arith) in
    omega (arith, last, ap (λ v. push_byte v (n % 256)) upper, pushed)

-- A number that fits `w` bytes, at most eight, and was written into them with the high byte first, is
-- read back.
pub bit_value-to_bytes : (w n : ℕ) → w ≤ 8 → n < 256 ^ w → bit_value (to_bytes w n) ≡ n
bit_value-to_bytes w n p q = bit_value-room w n p (omega (arith, pow-room w))

-- The value stays below 256 to the number of bytes that were read.
bit_rounds-room :
    (rounds read value : ℕ) (bytes : Bytes)
    → rounds + read ≡ 8
    → value < room read
    → All (λ b. b < 256) bytes
    → bit_rounds rounds value bytes < 2 ^ 64
unfolding bit_rounds
bit_rounds-room zero read value bytes e p q = omega (arith, room-upper read (omega arith))
bit_rounds-room (suc rounds) read value [] e p q = omega (arith, room-upper read (omega arith))
bit_rounds-room (suc rounds) read value (b ∷ bytes) e p (q, qs) =
    let pushed = push_byte-sum value b (omega (arith, room-upper (suc read) (omega arith))) q in
    bit_rounds-room rounds (suc read) (push_byte value b) bytes (omega arith)
      (omega (arith, pushed)) qs

bit_rounds-take :
    (rounds value : ℕ) (bytes : Bytes)
    → bit_rounds rounds value bytes ≡ bit_rounds rounds value (take rounds bytes)
unfolding bit_rounds
bit_rounds-take zero value bytes = refl
bit_rounds-take (suc rounds) value [] = refl
bit_rounds-take (suc rounds) value (b ∷ bytes) = bit_rounds-take rounds (push_byte value b) bytes

-- The value of any bytes is below 2 ^ 64, and it is the value of the first eight of them.
pub bit_value_fits :
    (bytes : Bytes)
    → All (λ b. b < 256) bytes
    → (bit_value bytes < 2 ^ 64) × (bit_value bytes ≡ bit_value (take 8 bytes))
unfolding bit_value
bit_value_fits bytes h =
    (bit_rounds-room 8 0 0 bytes refl (omega arith) h, bit_rounds-take 8 0 bytes)
