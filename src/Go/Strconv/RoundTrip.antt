-- ===== src/Go/Strconv/RoundTrip.antt =====
-- Reading back what `strconv.Itoa` prints.
use Prim.Native.Char.{code}
use Prim.Native.String
use text.Mathlib.TextLemmas.{nil-append, cons-append}
use ai_gateway_monitor.Common.{
  ℕ, ◌≢◌, Bool, Option, none, true, zero, suc, ◌+◌, ◌*◌, ◌/◌, ◌%◌, ◌<◌, ◌≤◌, ◌≡◌, refl, false,
  String, some, List, [], ◌∷◌, arith, ℤ, pos, negsuc, IsInt64, Bool-cases, inl, inr, ltb, ltb→lt,
  ap, ◌∙◌,
}
use ai_gateway_monitor.Go.Text.{codes, is_digit}
use ai_gateway_monitor.Go.Strconv.{
  digit_char, emit, itoa_ℕ, itoa, scan, scan_number, in_range, atoi_codes, atoi,
}

pub code-digit_char : (d : ℕ) → d < 10 → code (digit_char d) ≡ b'0' + d
code-digit_char zero h = refl
code-digit_char (suc zero) h = refl
code-digit_char (suc (suc zero)) h = refl
code-digit_char (suc (suc (suc zero))) h = refl
code-digit_char (suc (suc (suc (suc zero)))) h = refl
code-digit_char (suc (suc (suc (suc (suc zero))))) h = refl
code-digit_char (suc (suc (suc (suc (suc (suc zero)))))) h = refl
code-digit_char (suc (suc (suc (suc (suc (suc (suc zero))))))) h = refl
code-digit_char (suc (suc (suc (suc (suc (suc (suc (suc zero)))))))) h = refl
code-digit_char (suc (suc (suc (suc (suc (suc (suc (suc (suc zero))))))))) h = refl
code-digit_char (suc (suc (suc (suc (suc (suc (suc (suc (suc (suc n)))))))))) h =
    absurd (omega arith)

scan-digit : (d n : ℕ) (s : List ℕ) → d < 10 → scan ((b'0' + d) ∷ s) n ≡ scan s (n * 10 + d)
unfolding scan is_digit
scan-digit d n s h = ground arith

-- A reader that takes digits into an accumulator as long as that stays within a bound.
abbrev pub ReadsDigits {ℓ} : {A : Type ℓ} → (List ℕ → ℕ → A) → ℕ → Type ℓ
ReadsDigits f bound =
    (d x : ℕ) (s : List ℕ) → d < 10 → x * 10 + d ≤ bound → f ((b'0' + d) ∷ s) x ≡ f s (x * 10 + d)

module _ {ℓ} {A : Type ℓ} (f : List ℕ → ℕ → A) (bound : ℕ) (reads : ReadsDigits f bound) where
  reads_small :
      (n : ℕ) (out : String)
      → n < 10
      → n ≤ bound
      → f (codes (String.◌∷◌ (digit_char n) out)) 0 ≡ f (codes out) n
  reads_small n out h fits =
      rw (code-digit_char n h)
        (reads n 0 (codes out) h (omega arith) ∙ ap (f (codes out)) (omega arith))

  reads_large :
      (n : ℕ) (out : String)
      → n ≤ bound
      → f (codes (String.◌∷◌ (digit_char (n % 10)) out)) (n / 10) ≡ f (codes out) n
  reads_large n out fits = rw (code-digit_char (n % 10) (omega arith)) (
      reads (n % 10) (n / 10) (codes out) (omega arith) (omega arith)
      ∙ ap (f (codes out)) (omega arith))

  pub reads-emit :
      (fuel n : ℕ) (out : String)
      → n < fuel
      → n ≤ bound
      → f (codes (emit fuel n out)) 0 ≡ f (codes out) n
  unfolding emit
  reads-emit zero n out h fits = absurd (omega arith)
  reads-emit (suc fuel) n out h fits = elim (Bool-cases (ltb n 10)) [
    | inl small ↦ rw small (reads_small n out (ltb→lt n 10 small) fits)
    | inr large ↦ rw large (
        reads-emit fuel (n / 10) (String.◌∷◌ (digit_char (n % 10)) out) (ground arith) (omega arith)
        ∙ reads_large n out fits)
  ]

-- The text of a number begins with a digit.
pub starts_digit-emit :
    (fuel n : ℕ) (out : String)
    → n < fuel
    → (d : ℕ) × (s : List ℕ) × (d < 10) × (codes (emit fuel n out) ≡ (b'0' + d) ∷ s)
unfolding emit
starts_digit-emit zero n out h = absurd (omega arith)
starts_digit-emit (suc fuel) n out h = elim (Bool-cases (ltb n 10)) [
  | inl small ↦
      (n, codes out, ltb→lt n 10 small, rw small (rw (code-digit_char n (ltb→lt n 10 small))))
  | inr large ↦
      rw large
        (starts_digit-emit fuel (n / 10) (String.◌∷◌ (digit_char (n % 10)) out) (ground arith))
]

pub starts_digit-itoa :
    (n : ℕ) → (d : ℕ) × (s : List ℕ) × (d < 10) × (codes (itoa_ℕ n) ≡ (b'0' + d) ∷ s)
unfolding itoa_ℕ
starts_digit-itoa n = starts_digit-emit (suc n) n "" (omega arith)

scan-itoa : (n : ℕ) → scan (codes (itoa_ℕ n)) 0 ≡ some n
unfolding itoa_ℕ
scan-itoa n =
    reads-emit scan n (λ d x s h _. scan-digit d x s h) (suc n) n "" (omega arith) (omega arith)
    ∙ nothing_left n
  where
    nothing_left : (n : ℕ) → scan [] n ≡ some n
    nothing_left n = unfold scan in refl

pub scan_number-itoa : (n : ℕ) → scan_number (codes (itoa_ℕ n)) ≡ some n
unfolding scan_number
scan_number-itoa n = let (d, s, h, e) = starts_digit-itoa n in rw e (rw e at (scan-itoa n))

-- Neither sign is a digit.
atoi-digit :
    (d : ℕ) (s : List ℕ)
    → d < 10
    → atoi_codes ((b'0' + d) ∷ s) ≡ in_range false (scan_number ((b'0' + d) ∷ s))
unfolding atoi_codes
atoi-digit d s h = ground arith

atoi_codes-itoa :
    (n : ℕ) → atoi_codes (codes (itoa_ℕ n)) ≡ in_range false (scan_number (codes (itoa_ℕ n)))
atoi_codes-itoa n = let (d, s, h, e) = starts_digit-itoa n in rw e (atoi-digit d s h)

-- Every int that is printed is read back.
pub atoi-itoa : (a : ℤ) → IsInt64 a → atoi (itoa a) ≡ some a
unfolding atoi itoa
atoi-itoa (pos n) h = rw (atoi_codes-itoa n, scan_number-itoa n) (unfold in_range in ground arith)
atoi-itoa (negsuc n) h = rw (scan_number-itoa (suc n)) (unfold in_range in ground arith)

emit-append :
    (fuel n : ℕ) (out t : String)
    → String.◌++◌ (emit fuel n out) t ≡ emit fuel n (String.◌++◌ out t)
unfolding emit
emit-append zero n out t = refl
emit-append (suc fuel) n out t = elim (Bool-cases (ltb n 10)) [
  | inl small ↦ rw small (cons-append (digit_char n) out t)
  | inr large ↦ rw large (
      emit-append fuel (n / 10) (String.◌∷◌ (digit_char (n % 10)) out) t
      ∙ ap (emit fuel (n / 10)) (cons-append (digit_char (n % 10)) out t))
]

-- A number followed by a text is printed in one go.
pub append-itoa : (n : ℕ) (t : String) → String.◌++◌ (itoa_ℕ n) t ≡ emit (suc n) n t
unfolding itoa_ℕ
append-itoa n t = emit-append (suc n) n "" t ∙ ap (emit (suc n) n) (nil-append t)

-- No number is printed as the empty text, whatever follows it.
pub append-itoa-ne-nil : (n : ℕ) (t : String) → String.◌++◌ (itoa_ℕ n) t ≢ ""
append-itoa-ne-nil n t e =
    let (d, s, h, shape) = starts_digit-emit (suc n) n t (omega arith) in
    cc (shape, append-itoa n t)

pub itoa-ne-nil : (a : ℤ) → itoa a ≢ ""
unfolding itoa
itoa-ne-nil (pos n) e = let (d, s, h, shape) = starts_digit-itoa n in cc (shape)
itoa-ne-nil (negsuc n) e = cc

in_range-IsInt64 :
    (negative : Bool) (o : Option ℕ) (a : ℤ) → in_range negative o ≡ some a → IsInt64 a
unfolding in_range
in_range-IsInt64 true (some zero) a e = ground arith
in_range-IsInt64 true (some (suc n)) a e = ground arith
in_range-IsInt64 false (some n) a e = ground arith
in_range-IsInt64 negative none a e = ground arith

pub atoi-IsInt64 : (s : String) (a : ℤ) → atoi s ≡ some a → IsInt64 a
unfolding atoi
atoi-IsInt64 s a e = codes_range (codes s) e
  where
    codes_range : (s : List ℕ) → atoi_codes s ≡ some a → IsInt64 a
    codes_range [] e = unfold atoi_codes in ground arith
    codes_range (c ∷ s) e =
        unfold atoi_codes in
        ground (
          arith,
          in_range-IsInt64 true (scan_number s) a,
          in_range-IsInt64 false (scan_number s) a,
          in_range-IsInt64 false (scan_number (c ∷ s)) a,
        )
