-- ===== src/Examples/Machine.antt =====
-- A concrete runtime: amounts are numbers of cents, and an instant is the number that the digits of
-- its date spell.
use Prim.Native.Char.{code}
use Prim.Native.String.{[], ◌∷◌}
use mock_pontes.Base.{
  ℕ, zero, suc, ◌+◌, ◌-◌, ◌*◌, ◌/◌, ◌%◌, ◌≤◌, String, ◌++◌, ◌≡◌, refl, Bool, true, false, ◌&&◌,
  Option, none, some, arith, if◌then◌else◌, ltb, leb, nat_eq, truthy,
}
use mock_pontes.Base.Text.{decimal, pad_start}
use mock_pontes.Platform.{Platform, IsExact}

-- The number that the digits of a text spell, other characters left out.
digits_from : ℕ → String → ℕ
digits_from acc [] = acc
digits_from acc (c ∷ s) =
    let more = digits_from (acc * 10 + (code c - 48)) s in
    let rest = digits_from acc s in if leb 48 (code c) && leb (code c) 57 then more else rest

-- Nothing for an empty text.
unfoldable pub number_of : String → Option ℕ
unfolding digits_from
number_of s = if truthy s then some (digits_from 0 s) else none

-- Cents with two decimals.
unfoldable pub print_cents : ℕ → String
unfolding decimal pad_start
print_cents n = decimal (n / 100) ++ "." ++ pad_start 2 (decimal (n % 100))

finite : Option ℕ → Bool
finite none = false
finite (some a) = true

plus : Option ℕ → Option ℕ → Option ℕ
plus (some a) (some b) = some (a + b)
plus _ _ = none

-- Differences below nothing are left out.
unfoldable pub minus : Option ℕ → Option ℕ → Option ℕ
minus (some a) (some b) = if leb b a then some (a - b) else none
minus _ _ = none

times : Option ℕ → Option ℕ → Option ℕ
times (some a) (some b) = some (a * b)
times _ _ = none

-- No date lies after the last day of the year 9999.
date_text : Option ℕ → Option String
date_text none = none
date_text (some t) = if leb t 99991231 then some (decimal t) else none

less : Option ℕ → Option ℕ → Bool
less (some a) (some b) = ltb a b
less _ _ = false

unfoldable pub fixed : Option ℕ → String
unfolding print_cents
fixed none = "NaN"
fixed (some a) = print_cents a

instance unfoldable pub machine : Platform
unfolding number_of finite plus minus times date_text less fixed decimal
machine = record {
  Num = Option ℕ;
  parse_float = number_of;
  is_finite = finite;
  num_zero = some 0;
  add = plus;
  sub = minus;
  mul = times;
  num_of = λ n. some n;
  lt = less;
  to_fixed = fixed;
  date_ms = number_of;
  iso = decimal;
  time_of = λ t. some t;
  iso_time = date_text;
  trim = λ s. s;
}

is_number : Option ℕ → ℕ → Bool
is_number none n = false
is_number (some a) n = nat_eq a n

all_to : (ℕ → Bool) → ℕ → Bool
all_to p zero = p 0
all_to p (suc n) = p (suc n) && all_to p n

all_to_sound : (p : ℕ → Bool) (m n : ℕ) → all_to p m ≡ true → n ≤ m → p n ≡ true
unfolding all_to
all_to_sound p zero n h le = let e : n ≡ 0 = omega arith in rw e h
all_to_sound p (suc m) n h le = ground (arith, all_to_sound p m n)

-- That number of cents is read as it is printed.
reads : ℕ → Bool
unfolding number_of print_cents is_number
reads n = is_number (number_of (print_cents n)) n

reads_all : all_to reads 1000 ≡ true
unfolding all_to reads number_of print_cents is_number digits_from
reads_all = refl

is_number→≡ : (o : Option ℕ) (n : ℕ) → is_number o n ≡ true → o ≡ some n
unfolding is_number
is_number→≡ none n h = absurd (cc)
is_number→≡ (some a) n h = ground arith

pub reads-number : (n : ℕ) → n ≤ 1000 → number_of (print_cents n) ≡ some n
unfolding reads
reads-number n le =
    is_number→≡ (number_of (print_cents n)) n (all_to_sound reads 1000 n reads_all le)

pub fixed-minus :
    (a b : ℕ) → a ≤ 1000 → b ≤ a → fixed (minus (some a) (some b)) ≡ print_cents (a - b)
unfolding fixed minus
fixed-minus a b h le = ground arith

unfoldable pub exact : IsExact machine
unfolding machine number_of finite plus minus less fixed print_cents
exact = record {
  limit = 1000;
  cents = λ n. some n;
  text = print_cents;
  parse_text = reads-number;
  finite_cents = λ n h. refl;
  zero_cents = refl;
  lt_cents = λ a b h h'. refl;
  fixed_add = λ a b h. refl;
  fixed_sub = fixed-minus;
}
