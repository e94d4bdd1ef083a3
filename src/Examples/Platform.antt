-- ===== src/Examples/Platform.antt =====
-- Instances of the interfaces: floats as thousandths, and patterns that match a whole line.
use logdrain.Common.{
  ℕ, ◌*◌, ◌/◌, ◌≤◌, ◌<◌, ◌≡◌, true, not, Text, codes, ok, err, leb, ltb, is_empty, list_eq, nat_eq,
  ◌==◌, if◌then◌else◌, arith,
}
use native.Mathlib.Nat.{le_trans, le-div_iff_mul-le, div-mul-le_self, mul-div_cancel}
use logdrain.Extern.{Float, IsIeee, borrowed, owned, RegexEngine, IsReplacing, ratio, one}

instance abbrev pub milli : Float ℕ
milli = record {
  from_ℕ = λ n. n * 1000;
  div = λ a b. (1000 * a) / b;
  flt = ltb;
  fle = leb;
  as_secs_f64 = λ ns. ns / 1000000;
  two_fifths = 400;
  display = λ n. codes "float";
}

instance abbrev pub whole_line : RegexEngine Text
whole_line = record {
  compile = λ p. if is_empty p then err (codes "empty pattern") else ok p;
  replace_all = λ p s r. if s == p then owned r else borrowed s;
}

div_mono : (a b k : ℕ) → 0 < k → a ≤ b → a / k ≤ b / k
div_mono a b k h p = (le-div_iff_mul-le h).1 (le_trans (div-mul-le_self a k) p)

fle_trans : (a b c : ℕ) → leb a b ≡ true → leb b c ≡ true → leb a c ≡ true
fle_trans a b c p q = ground arith

flt_ratio : (i j n : ℕ) → 0 < n → ltb (ratio i n) (ratio j n) ≡ not (leb (ratio j n) (ratio i n))
flt_ratio i j n h = ground arith

ratio_mono : (i j n : ℕ) → 0 < n → i ≤ j → leb (ratio {F = ℕ} i n) (ratio {F = ℕ} j n) ≡ true
ratio_mono i j n h k = ground (arith, div_mono (1000 * (i * 1000)) (1000 * (j * 1000)) (n * 1000))

ratio_self : (n : ℕ) → 0 < n → ratio {F = ℕ} n n ≡ one {F = ℕ}
ratio_self n h = mul-div_cancel 1000 (omega arith)

pub milli-IsIeee : IsIeee milli
milli-IsIeee = record {
  fle_trans = fle_trans;
  flt_ratio = flt_ratio;
  ratio_mono = ratio_mono;
  ratio_self = ratio_self;
}

pub whole_line-IsReplacing : IsReplacing whole_line
whole_line-IsReplacing = record { borrowed_haystack = λ p s r t h. ground arith }
