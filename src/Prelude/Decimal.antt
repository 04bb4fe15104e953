-- ===== src/Prelude/Decimal.antt =====
-- The number that a text of digits is read as, which undoes `decimal`.
use Prim.Native.Nat.{ℕ, zero, suc, ◌+◌, ◌-◌, ◌*◌, ◌<◌, ◌/◌, ◌%◌}
use Prim.Native.String.{String}
use Prim.Native.Char.{code}
use mathlib.Core.Path.{◌≡◌, refl, ap, ◌∙◌}
use mathlib.Core.Logic.{inl, inr}
use mathlib.Core.Bool.{◌&&◌}
use mathlib.Core.Option.{Option, none, some}
use native.Mathlib.Omega.{arith}
use text.Mathlib.TextLemmas.{nil-append, cons-append}
use helpdesktool.Prelude.Tests.{ltb, leb, ltb→lt, ltb→le, Bool-cases, if◌then◌else◌}
use helpdesktool.Prelude.Text.{◌++◌, digit, digits, decimal}

-- the digits of a text after those that were read
unfoldable pub read : ℕ → String → Option ℕ
read n String.[] = some n
read n (String.◌∷◌ c s) =
    let rest = read (n * 10 + (code c - 48)) s in
    if leb 48 (code c) && ltb (code c) 58 then rest else none

abbrev pub read_decimal : String → Option ℕ
read_decimal s = read 0 s

abbrev and_read : Option ℕ → String → Option ℕ
and_read none t = none
and_read (some n) t = read n t

read-append : (n : ℕ) (s t : String) → read n (s ++ t) ≡ and_read (read n s) t
unfolding read
read-append n String.[] t = rw (nil-append t)
read-append n (String.◌∷◌ c s) t =
    rw (cons-append c s t) (ground (arith, read-append (n * 10 + (code c - 48)) s t))

read-digit : (n d : ℕ) → d < 10 → read n (digit d) ≡ some (n * 10 + d)
unfolding read
read-digit n zero h = refl
read-digit n (suc zero) h = refl
read-digit n (suc (suc zero)) h = refl
read-digit n (suc (suc (suc zero))) h = refl
read-digit n (suc (suc (suc (suc zero)))) h = refl
read-digit n (suc (suc (suc (suc (suc zero))))) h = refl
read-digit n (suc (suc (suc (suc (suc (suc zero)))))) h = refl
read-digit n (suc (suc (suc (suc (suc (suc (suc zero))))))) h = refl
read-digit n (suc (suc (suc (suc (suc (suc (suc (suc zero)))))))) h = refl
read-digit n (suc (suc (suc (suc (suc (suc (suc (suc (suc zero))))))))) h = refl
read-digit n (suc (suc (suc (suc (suc (suc (suc (suc (suc (suc d)))))))))) h =
    let f : ⊥ = omega (arith, h) in absurd f

read-digits : (fuel n : ℕ) → n < fuel → read 0 (digits fuel n) ≡ some n
unfolding digits
read-digits zero n h = ground arith
read-digits (suc fuel) n h = elim (Bool-cases (ltb n 10)) [
  | inl small ↦ rw small (read-digit 0 n (ltb→lt n 10 small) ∙ ap some (omega arith))
  | inr large ↦
      let rest : read 0 (digits fuel (n / 10)) ≡ some (n / 10) =
        read-digits fuel (n / 10) (omega (arith, ltb→le n 10 large)) in
      rw large (
        read-append 0 (digits fuel (n / 10)) (digit (n % 10))
        ∙ (ap (λ o. and_read o (digit (n % 10))) rest
            ∙ (read-digit (n / 10) (n % 10) (omega arith) ∙ ap some (omega arith))))
]

pub read_decimal-decimal : (n : ℕ) → read_decimal (decimal n) ≡ some n
unfolding decimal
read_decimal-decimal n = read-digits (suc n) n (omega arith)
