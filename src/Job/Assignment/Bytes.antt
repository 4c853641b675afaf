-- ===== src/Job/Assignment/Bytes.antt =====
-- Decimal gigabytes against whole bytes: the scaling of `_memory_bytes` keeps a lower bound.
use native.Mathlib.Nat.{
  pow-zero, pow-suc, add-zero, add-suc, mul_assoc, le-div_iff_mul-le, mul-le-mul_right,
}
use runpod_sageattention.Base.{
  ℕ, zero, suc, ◌+◌, ◌-◌, ◌*◌, ◌/◌, ◌^◌, ◌≤◌, ◌≡◌, sym, ◌∙◌, inl, inr, true, false, Option, none,
  some, arith, leb, ltb, ap, Bool-cases, ◌<◌, String,
}
use runpod_sageattention.Base.Int.{ℤ, pos, negsuc}
use runpod_sageattention.Json.{Fields, get}
use runpod_sageattention.Job.Assignment.Numbers.{
  Decimal, whole, finite_decimal, positive_bytes, is_less, plus_nine, is_below, memory_bytes,
}

pow-add : (a m n : ℕ) → a ^ (m + n) ≡ a ^ m * a ^ n
pow-add a m zero = rw (add-zero, pow-zero) (omega arith)
pow-add a m (suc n) = rw (add-suc, pow-suc, pow-suc, pow-add a m n) (mul_assoc (a ^ m) (a ^ n) a)

ten_pow_pos : (n : ℕ) → 0 < 10 ^ n
ten_pow_pos zero = omega arith
ten_pow_pos (suc n) = rw pow-suc (omega (arith, ten_pow_pos n))

ge_of_not_ltb : (a b : ℕ) → ltb a b ≡ false → b ≤ a
ge_of_not_ltb a b h = ground arith

le_split : (e : ℕ) → leb e 8 ≡ true → suc e + (8 - e) ≡ 9
le_split e h = ground arith

split_nine : (e : ℕ) → leb e 8 ≡ true → 10 ^ 9 ≡ 10 ^ suc e * 10 ^ (8 - e)
split_nine e h = ap (λ (t : ℕ). 10 ^ t) (sym (le_split e h)) ∙ pow-add 10 (suc e) (8 - e)

nine_more : (e : ℕ) → leb e 8 ≡ false → 9 + suc (e - 9) ≡ suc e
nine_more e h = ground arith

-- Nine more in the exponent of at least `k` is at least `k` times a billion.
whole_scaled :
    (n k b : ℕ) (e : ℤ) → whole n (plus_nine e) ≡ some b → is_less n e k ≡ false → k * 10 ^ 9 ≤ b
unfolding whole is_less
whole_scaled n k b (pos e) h below =
    let q : n * 10 ^ (e + 9) ≡ b = ground arith in
    rw (← q, pow-add 10 e 9, ← mul_assoc n (10 ^ e) (10 ^ 9))
      (mul-le-mul_right (10 ^ 9) (ge_of_not_ltb (n * 10 ^ e) k below))
whole_scaled n k b (negsuc e) h below = elim (Bool-cases (leb e 8)) [
  | inl small ↦
      let q : n * 10 ^ (8 - e) ≡ b = ground arith in
      rw (← q, split_nine e small, ← mul_assoc k (10 ^ suc e) (10 ^ (8 - e)))
        (mul-le-mul_right (10 ^ (8 - e)) (ge_of_not_ltb n (k * 10 ^ suc e) below))
  | inr large ↦
      let d : ℕ = 10 ^ suc (e - 9) in
      let q : n / d ≡ b = ground arith in
      rw (← q) (
        (le-div_iff_mul-le (ten_pow_pos (suc (e - 9)))).1 (
          rw (mul_assoc k (10 ^ 9) d, ← pow-add 10 9 (suc (e - 9)), nine_more e large)
            (ge_of_not_ltb n (k * 10 ^ suc e) below)))
]

positive_bytes-whole :
    (o : Option Decimal) (gb : Decimal) (bytes : ℕ)
    → positive_bytes o ≡ some (gb, bytes)
    → whole gb.digits (plus_nine gb.exponent) ≡ some bytes
positive_bytes-whole none gb bytes h = cc
positive_bytes-whole (some d) gb bytes h = ground arith

-- If `_memory_bytes` reads a memory that is not below `k` gigabytes, the bytes that it returns are
-- at least `k` times a billion.
pub memory_bytes-enough :
    (details : Fields) (name : String) (gb : Decimal) (bytes k : ℕ)
    → memory_bytes details name ≡ some (gb, bytes)
    → is_below gb (pos k) ≡ false
    → k * 10 ^ 9 ≤ bytes
unfolding memory_bytes is_below
memory_bytes-enough details name gb bytes k h enough =
    whole_scaled gb.digits k bytes gb.exponent
      (positive_bytes-whole (finite_decimal (get name details)) gb bytes h) enough
