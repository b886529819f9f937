-- ===== src/Anchor/Nvnm/Decoded.antt =====
-- zcastor/anchor/nvnm.py: the ids in a receipt are those that the chain wrote.
use mathlib.Core.Path.{subst}
use native.Mathlib.Nat.{pow-succ', mul_assoc}
use mathlib.Core.Option.{some-injective}
use zcastor_agent.Base.{ℕ, zero, suc, ◌+◌, ◌*◌, ◌/◌, ◌%◌, ◌^◌, ◌<◌, true, false, String}
use zcastor_agent.Base.{All, Option, none, some, List, [], ◌∷◌, ◌++◌, length, take, drop, ltb}
use zcastor_agent.Base.{◌≡◌, refl, sym, ap, ◌∙◌, arith, if◌then◌else◌, length-append}
use zcastor_agent.Base.Text.{codes}
use zcastor_agent.Anchor.Nvnm.Receipt.{
  Log, digit_of, step, and_then, read_hex, words_of, data_words,
}
use zcastor_agent.Anchor.Nvnm.Receipt.{is_event, log_words, record_added_topic, ids_of}
use zcastor_agent.Anchor.Nvnm.Receipt.{record_ids_from_receipt}

-- The code of a digit, and the digits of a number, as the chain writes them.
abbrev pub digit_code : ℕ → ℕ
digit_code d = if ltb d 10 then d + 48 else d + 87

abbrev pub hex : ℕ → ℕ → List ℕ
hex zero n = []
hex (suc k) n = hex k (n / 16) ++ digit_code (n % 16) ∷ []

digit_of-digit_code : (d : ℕ) → d < 16 → digit_of (digit_code d) ≡ some d
digit_of-digit_code d h = ground arith

read_hex-append :
    (n m : ℕ) (xs ys : List ℕ) → read_hex n xs ≡ some m → read_hex n (xs ++ ys) ≡ read_hex m ys
read_hex-append n m [] ys h = ap (λ k. read_hex k ys) (some-injective n m h)
read_hex-append n m (x ∷ xs) ys h = go (λ d. read_hex-append (16 * n + d) m xs ys) (digit_of x) h
  where
    go :
        ((d : ℕ)
          → read_hex (16 * n + d) xs ≡ some m
          → read_hex (16 * n + d) (xs ++ ys) ≡ read_hex m ys)
        → (d : Option ℕ) → and_then (step n d) (λ k. read_hex k xs) ≡ some m
        → and_then (step n d) (λ k. read_hex k (xs ++ ys)) ≡ read_hex m ys
    go f none h = cc
    go f (some d) h = f d h

length-hex : (k n : ℕ) → length (hex k n) ≡ k
length-hex zero n = refl
length-hex (suc k) n =
    length-append (hex k (n / 16)) (digit_code (n % 16) ∷ []) ∙ omega (arith, length-hex k (n / 16))

sixteen : (k : ℕ) → 16 ^ suc k ≡ 16 * 16 ^ k
sixteen k = pow-succ' 16 k

quotient-lt : (n p : ℕ) → n < 16 * p → n / 16 < p
quotient-lt n p h = omega (arith, h)

remainder-lt : (n : ℕ) → n % 16 < 16
remainder-lt n = omega arith

regroup : (q n : ℕ) → 16 * (q + n / 16) + n % 16 ≡ 16 * q + n
regroup q n = omega arith

rejoined : (p a n : ℕ) → 16 * (p * a + n / 16) + n % 16 ≡ 16 * p * a + n
rejoined p a n = regroup (p * a) n ∙ ap (λ q. q + n) (sym (mul_assoc 16 p a))

read_hex-hex : (k a n : ℕ) → n < 16 ^ k → read_hex a (hex k n) ≡ some (16 ^ k * a + n)
read_hex-hex zero a n h = ap some (omega (arith, h))
read_hex-hex (suc k) a n h =
    read_hex-append a (16 ^ k * a + n / 16) (hex k (n / 16)) (digit_code (n % 16) ∷ [])
      (read_hex-hex k a (n / 16) (quotient-lt n (16 ^ k) (subst (λ p. n < p) (sixteen k) h)))
    ∙ rw (digit_of-digit_code (n % 16) (remainder-lt n))
        (ap some (rejoined (16 ^ k) a n ∙ ap (λ p. p * a + n) (sym (sixteen k))))

take-append_of : (k : ℕ) (xs ys : List ℕ) → length xs ≡ k → take k (xs ++ ys) ≡ xs
take-append_of zero [] ys h = refl
take-append_of zero (x ∷ xs) ys h = ground arith
take-append_of (suc k) [] ys h = ground arith
take-append_of (suc k) (x ∷ xs) ys h = ap (λ t. x ∷ t) (take-append_of k xs ys (omega (arith, h)))

drop-append_of : (k : ℕ) (xs ys : List ℕ) → length xs ≡ k → drop k (xs ++ ys) ≡ ys
drop-append_of zero [] ys h = refl
drop-append_of zero (x ∷ xs) ys h = ground arith
drop-append_of (suc k) [] ys h = ground arith
drop-append_of (suc k) (x ∷ xs) ys h = drop-append_of k xs ys (omega (arith, h))

-- Numbers that fit, each in a word of its own.
abbrev pub words : ℕ → List ℕ → List ℕ
words k [] = []
words k (n ∷ ns) = hex k n ++ words k ns

length-words : (k : ℕ) (ns : List ℕ) → length (words k ns) ≡ length ns * k
length-words k [] = omega arith
length-words k (n ∷ ns) =
    length-append (hex k n) (words k ns) ∙ omega (arith, length-hex k n, length-words k ns)

zero_first : (p n : ℕ) → p * 0 + n ≡ n
zero_first p n = omega arith

words_of-words :
    (k : ℕ) (ns : List ℕ) → All (λ n. n < 16 ^ k) ns → words_of k (length ns) (words k ns) ≡ some ns
words_of-words k [] h = refl
words_of-words k (n ∷ ns) h = rw (take-append_of k (hex k n) (words k ns) (length-hex k n)) (
    rw (drop-append_of k (hex k n) (words k ns) (length-hex k n)) (
      rw (read_hex-hex k 0 n h.0)
        (rw (words_of-words k ns h.1) (ap (λ m. some (m ∷ ns)) (zero_first (16 ^ k) n)))))

whole : (n : ℕ) → n * 64 / 64 ≡ n
whole n = omega arith

data_words-words : (ns : List ℕ) → All (λ n. n < 16 ^ 64) ns → data_words (words 64 ns) ≡ some ns
data_words-words ns h =
    ap (λ n. words_of 64 n (words 64 ns))
      (ap (λ n. n / 64) (length-words 64 ns) ∙ whole (length ns))
    ∙ words_of-words 64 ns h

log_words-append :
    (topic : String) (pre ls : List Log)
    → All (λ l. is_event topic l.topics ≡ false) pre
    → log_words (pre ++ ls) topic ≡ log_words ls topic
unfolding log_words
log_words-append topic [] ls h = refl
log_words-append topic (l ∷ pre) ls h = rw h.0 (log_words-append topic pre ls h.1)

-- The ids that `addRecord` is answered with are read back from the first log of the event, whatever
-- other logs stand before it and after it, and whatever other words its data goes on with.
pub record_ids-words :
    (pre : List Log) (l : Log) (ls : List Log) (registry id index : ℕ) (more : List ℕ)
    → All (λ x. is_event record_added_topic x.topics ≡ false) pre
    → is_event record_added_topic l.topics ≡ true
    → codes l.log_data ≡ 48 ∷ 120 ∷ words 64 (registry ∷ id ∷ index ∷ more)
    → All (λ n. n < 16 ^ 64) (registry ∷ id ∷ index ∷ more)
    → record_ids_from_receipt (pre ++ l ∷ ls) ≡ some (id, index)
unfolding record_ids_from_receipt log_words
record_ids-words pre l ls registry id index more other e d h =
    rw (log_words-append record_added_topic pre (l ∷ ls) other, e)
      (rw d (
        ap (λ o. and_then o (λ ws. some (ids_of ws)))
          (data_words-words (registry ∷ id ∷ index ∷ more) h)))
