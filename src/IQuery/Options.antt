-- ===== src/IQuery/Options.antt =====
-- The option bits of a query, src/mysql/IQuery.cpp.
use Prim.Native.Nat.{bit_and, bit_or}
use my_sqloo.Base.{
  ℕ, ◌<◌, ◌≡◌, refl, Bool, true, false, not, ◌&&◌, arith, ◌==◌, ltb, if◌then◌else◌, zero, suc,
}
use my_sqloo.Objects.{IQuery}
use my_sqloo.Outcome.{done}
use my_sqloo.IQuery.{is_option, set_option, has_option, complement}

-- Whether a test holds of the numbers below a bound.
every : (ℕ → Bool) → ℕ → Bool
every check zero = true
every check (suc bound) = every check bound && check bound

every_holds :
    (check : ℕ → Bool) (bound m : ℕ) → m < bound → every check bound ≡ true → check m ≡ true
unfolding every
every_holds check zero m below all = absurd (omega arith)
every_holds check (suc bound) m below all = ground (arith, every_holds check bound m)

-- The bits after a write of one option.
written : ℕ → Bool → ℕ → ℕ
unfolding complement
written o b m = if b then bit_or m o else bit_and m (complement o)

set_bit : ℕ → ℕ → Bool
set_bit m p = not (bit_and m p == 0)

same : Bool → Bool → Bool
same true b = b
same false b = not b

holds_at : Bool → ℕ → ℕ → ℕ → Bool
holds_at b m o p =
    if is_option o && is_option p
    then ltb (written o b m) 16
      && same (set_bit (written o b m) p) (if p == o then b else set_bit m p)
    else true

holds_below : Bool → ℕ → Bool
unfolding every holds_at
holds_below b n = every (λ m. every (λ o. every (λ p. holds_at b m o p) n) n) n

holds_true : holds_below true 16 ≡ true
unfolding holds_below is_option written set_bit same
holds_true = refl

holds_false : holds_below false 16 ≡ true
unfolding holds_below is_option written set_bit same
holds_false = refl

holds_table : (b : Bool) → holds_below b 16 ≡ true
holds_table true = holds_true
holds_table false = holds_false

holds : (b : Bool) (m o p : ℕ) → m < 16 → o < 16 → p < 16 → holds_at b m o p ≡ true
unfolding holds_below
holds b m o p hm ho hp =
    let cell = λ (m' o' : ℕ). every (λ p'. holds_at b m' o' p') 16 in
    let row = λ (m' : ℕ). every (cell m') 16 in
    every_holds (holds_at b m o) 16 p hp
      (every_holds (cell m) 16 o ho (every_holds row 16 m hm (holds_table b)))

option_lt : (o : ℕ) → is_option o ≡ true → o < 16
unfolding is_option
option_lt o h = ground arith

written_lem :
    (b : Bool) (m o p : ℕ)
    → m < 16
    → is_option o ≡ true
    → is_option p ≡ true
    → (written o b m < 16) × (set_bit (written o b m) p ≡ (if p == o then b else set_bit m p))
unfolding holds_at same
written_lem b m o p hm ho hp = ground (arith, holds b m o p hm (option_lt o ho) (option_lt p hp))

-- On a query whose options are below 16, a call with one of the four options succeeds, keeps the
-- options below 16, and writes the flag into that option and no other.
pub set_option_lem :
    (o p : ℕ) (b : Bool) (q : IQuery)
    → q.options < 16
    → is_option o ≡ true
    → is_option p ≡ true
    → (q' : IQuery) × (set_option o b q ≡ done q')
      × (q'.options < 16)
      × (has_option q' p ≡ (if p == o then b else has_option q p))
unfolding set_option has_option written set_bit
set_option_lem o p b q h ho hp =
    let (bound, bit) = written_lem b q.options o p h ho hp in
    (record q { options = written o b q.options }, rw ho, bound, bit)
