-- ===== src/StreamArgs/Bitrate.antt =====
-- core/stream_args.cpp: doubleBitrate.
use mathlib.Core.List.{append-nil}
use weblinked.Base.{
  ℕ, suc, ◌*◌, ◌≤◌, ◌<◌, min, ◌≡◌, refl, sym, ap, ◌∙◌, true, false, not, ◌||◌, ◌==◌, if◌then◌else◌,
  [], ◌∷◌, ◌++◌, length, arith,
}
use weblinked.Base.Text.{
  Text, is_digit, AllDigits, read_from, decimal, decimal-AllDigits, decimal_pos, read_from-decimal,
}
use weblinked.StreamArgs.{
  is_empty, is_suffix, all_digits, join_split, split_suffix, long_max, double_parts, double_bitrate,
}

-- A suffix, or none.
abbrev pub IsSuffix : Text → Type 0
IsSuffix [] = Unit {0}
IsSuffix (c ∷ cs) = (is_suffix c ≡ true) × (cs ≡ [])

all_digits-true : (t : Text) → AllDigits t → all_digits t ≡ true
unfolding all_digits
all_digits-true [] h = refl
all_digits-true (c ∷ cs) h = ground (arith, h.0, all_digits-true cs h.1)

digit_is_no_suffix : (c : ℕ) → is_digit c ≡ true → is_suffix c ≡ false
digit_is_no_suffix c h = ground arith

split_digits : (t : Text) → AllDigits t → split_suffix t ≡ (t, [])
unfolding split_suffix
split_digits [] h = refl
split_digits (c ∷ []) h =
    ap (λ b. if b then ([], c ∷ []) else (c ∷ [], [])) (digit_is_no_suffix c h.0)
split_digits (c ∷ d ∷ ds) h = ap (join_split c) (split_digits (d ∷ ds) h.1)

split_one : (t : Text) (c : ℕ) → is_suffix c ≡ true → split_suffix (t ++ (c ∷ [])) ≡ (t, c ∷ [])
unfolding split_suffix
split_one [] c h = ap (λ b. if b then ([], c ∷ []) else (c ∷ [], [])) h
split_one (d ∷ []) c h = ap (join_split d) (split_one [] c h)
split_one (d ∷ e ∷ es) c h = ap (join_split d) (split_one (e ∷ es) c h)

split_both :
    (t suffix : Text) → AllDigits t → IsSuffix suffix → split_suffix (t ++ suffix) ≡ (t, suffix)
split_both t [] h k = ap split_suffix (append-nil t) ∙ split_digits t h
split_both t (c ∷ cs) h k =
    ap (λ (s : Text). split_suffix (t ++ (c ∷ s))) k.1
    ∙ (split_one t c k.0 ∙ ap (λ (s : Text). (t, c ∷ s)) (sym k.1))

not_empty : (t suffix : Text) → 0 < length t → is_empty (t ++ suffix) ≡ false
not_empty [] suffix h = absurd (omega arith)
not_empty (c ∷ cs) suffix h = refl

is_number : (t : Text) → 0 < length t → AllDigits t → (is_empty t || not (all_digits t)) ≡ false
is_number [] h k = absurd (omega arith)
is_number (c ∷ cs) h k = ap not (all_digits-true (c ∷ cs) k)

suc_not_zero : (n : ℕ) → (suc n == 0) ≡ false
suc_not_zero n = ground arith

double_digits :
    (t suffix : Text) (n : ℕ)
    → AllDigits t
    → 0 < length t
    → min (read_from 0 t) long_max ≡ suc n
    → IsSuffix suffix
    → double_bitrate (t ++ suffix) ≡ decimal (suc n * 2) ++ suffix
unfolding double_bitrate
double_digits t suffix n h k e l =
    let url = t ++ suffix in
    ap (λ b. if b then url else double_parts url (split_suffix url)) (not_empty t suffix k)
    ∙ (ap (double_parts url) (split_both t suffix h l)
        ∙ (ap
              (λ b.
                if b
                then url
                else if min (read_from 0 t) long_max == 0
                then url
                else decimal (min (read_from 0 t) long_max * 2) ++ suffix)
              (is_number t k h)
            ∙ (ap (λ (v : ℕ). if v == 0 then url else decimal (v * 2) ++ suffix) e
                ∙ ap (λ b. if b then url else decimal (suc n * 2) ++ suffix) (suc_not_zero n))))

-- A positive bitrate that fits in a long, written in decimal with or without a suffix, comes back doubled with
-- the same suffix.
pub double_bitrate-decimal :
    (n : ℕ) (suffix : Text)
    → suc n ≤ long_max
    → IsSuffix suffix
    → double_bitrate (decimal (suc n) ++ suffix) ≡ decimal (suc n * 2) ++ suffix
double_bitrate-decimal n suffix h k =
    double_digits (decimal (suc n)) suffix n (decimal-AllDigits (suc n)) (decimal_pos (suc n))
      (omega (arith, h, read_from-decimal (suc n))) k
