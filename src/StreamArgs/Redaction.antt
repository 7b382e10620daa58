-- ===== src/StreamArgs/Redaction.antt =====
-- core/stream_args.cpp: redactStreamUrl.
use mathlib.Core.List.{append_assoc}
use weblinked.Base.{
  ℕ, zero, suc, ◌+◌, ◌≤◌, ◌<◌, ◌≡◌, refl, sym, ap, ap₂, ◌∙◌, Bool, true, false, Bool-cases, inl,
  inr, leb, ◌==◌, ◌&&◌, if◌then◌else◌, Option, Option-cases, none, some, [], ◌∷◌, ◌++◌, length,
  take, drop, arith,
}
use weblinked.Base.Text.{Text, codes}
use weblinked.StreamArgs.{
  starts_with, is_empty, one_on, or_here, find_scheme, find_slash, find_last_slash, path_from,
  find_path, redact_at, redact_stream_url,
}

starts_with-append : (t p u : Text) → length p ≤ length t → starts_with (t ++ u) p ≡ starts_with t p
unfolding starts_with
starts_with-append t [] u h = refl
starts_with-append [] (p ∷ ps) u h = absurd (omega arith)
starts_with-append (c ∷ cs) (p ∷ ps) u h =
    ap (λ b. c == p && b) (starts_with-append cs ps u (omega arith))

starts_with-length : (t p : Text) → starts_with t p ≡ true → length p ≤ length t
unfolding starts_with
starts_with-length t [] h = omega arith
starts_with-length [] (p ∷ ps) h = absurd (ground arith)
starts_with-length (c ∷ cs) (p ∷ ps) h = ground (arith, starts_with-length cs ps)

-- A place that is found again one further on.
one_further :
    (o more : Option ℕ) (k n : ℕ)
    → one_on o ≡ some n
    → ((m : ℕ) → o ≡ some m → (more ≡ some m) × (m < k))
    → (one_on more ≡ some n) × (n < suc k)
one_further none more k n h f = absurd (ground arith)
one_further (some m) more k n h f =
    let found = f m refl in (ap one_on found.0 ∙ h, ground (arith, found.1))

find_slash-append :
    (t u : Text) (start n : ℕ)
    → find_slash t start ≡ some n
    → (find_slash (t ++ u) start ≡ some n) × (n < length t)
unfolding find_slash
find_slash-append [] u start n h = absurd (ground arith)
find_slash-append (c ∷ cs) u (suc start) n h =
    one_further (find_slash cs start) (find_slash (cs ++ u) start) (length cs) n h
      λ m e. find_slash-append cs u start m e
find_slash-append (c ∷ cs) u zero n h = elim (Bool-cases (c == b'/')) [
  | inl e ↦ ground (arith, e)
  | inr e ↦
      let further : one_on (find_slash cs 0) ≡ some n = ground (arith, e) in
      let found =
        one_further (find_slash cs 0) (find_slash (cs ++ u) 0) (length cs) n further
          λ m k. find_slash-append cs u 0 m k in
      (ap (λ b. if b then some 0 else one_on (find_slash (cs ++ u) 0)) e ∙ found.0, found.1)
]

find_scheme-length : (t : Text) (n : ℕ) → find_scheme t ≡ some n → 3 ≤ length t
unfolding find_scheme
find_scheme-length [] n h = absurd (ground arith)
find_scheme-length (c ∷ cs) n h = elim (Bool-cases (starts_with (c ∷ cs) (codes "://"))) [
  | inl e ↦ starts_with-length (c ∷ cs) (codes "://") e
  | inr e ↦
      let further : one_on (find_scheme cs) ≡ some n =
        sym (ap (λ b. if b then some 0 else one_on (find_scheme cs)) e) ∙ h in
      elim (Option-cases (find_scheme cs)) [
        | inl e ↦ absurd (ground (arith, e, further))
        | inr (m, e) ↦ omega (arith, find_scheme-length cs m e)
      ]
]

found_later :
    (b : Bool) (o more : Option ℕ) (n : ℕ)
    → ((m : ℕ) → o ≡ some m → more ≡ some m)
    → (if b then some 0 else one_on o) ≡ some n
    → (if b then some 0 else one_on more) ≡ some n
found_later true o more n f h = h
found_later false none more n f h = absurd (ground arith)
found_later false (some m) more n f h = ap one_on (f m refl) ∙ h

find_scheme-append : (t u : Text) (n : ℕ) → find_scheme t ≡ some n → find_scheme (t ++ u) ≡ some n
unfolding find_scheme
find_scheme-append [] u n h = absurd (ground arith)
find_scheme-append (c ∷ cs) u n h =
    let same = starts_with-append (c ∷ cs) (codes "://") u (find_scheme-length (c ∷ cs) n h) in
    ap (λ b. if b then some 0 else one_on (find_scheme (cs ++ u))) same
    ∙ found_later (starts_with (c ∷ cs) (codes "://")) (find_scheme cs) (find_scheme (cs ++ u)) n
        (λ m e. find_scheme-append cs u m e) h

-- A text without a slash.
abbrev pub IsSegment : Text → Type 0
IsSegment key = find_slash key 0 ≡ none

IsSegment-rest : (c : ℕ) (cs : Text) → IsSegment (c ∷ cs) → ((c == b'/') ≡ false) × IsSegment cs
unfolding find_slash
IsSegment-rest c cs h = elim (Option-cases (find_slash cs 0)) [
  | inl e ↦ ground (arith, e)
  | inr e ↦ ground (arith, e)
]

find_last_slash-none : (key : Text) → IsSegment key → find_last_slash key ≡ none
unfolding find_last_slash
find_last_slash-none [] h = refl
find_last_slash-none (c ∷ cs) h =
    let rest = IsSegment-rest c cs h in
    ap (or_here c) (find_last_slash-none cs rest.1) ∙ ap (λ b. if b then some 0 else none) rest.0

find_last_slash-append :
    (t key : Text) → IsSegment key → find_last_slash (t ++ (b'/' ∷ key)) ≡ some (length t)
unfolding find_last_slash
find_last_slash-append [] key h = ap (or_here b'/') (find_last_slash-none key h)
find_last_slash-append (c ∷ cs) key h = ap (or_here c) (find_last_slash-append cs key h)

take_front : (t key : Text) → take (suc (length t)) (t ++ (b'/' ∷ key)) ≡ t ++ (b'/' ∷ [])
take_front [] key = refl
take_front (c ∷ cs) key = ap (λ ys. c ∷ ys) (take_front cs key)

drop_front : (t key : Text) → drop (suc (length t)) (t ++ (b'/' ∷ key)) ≡ key
drop_front [] key = refl
drop_front (c ∷ cs) key = drop_front cs key

find_path-append :
    (t u : Text) (scheme path : ℕ)
    → find_scheme t ≡ some scheme
    → find_path t ≡ some path
    → (find_path (t ++ u) ≡ some path) × (path < length t)
unfolding find_path
find_path-append t u scheme path h k =
    let start : path_from (find_scheme t) ≡ scheme + 3 = ap path_from h in
    let inside = find_slash-append t u (scheme + 3) path (ap (find_slash t) (sym start) ∙ k) in
    (
      ap (λ o. find_slash (t ++ u) (path_from o)) (find_scheme-append t u scheme h) ∙ inside.0,
      inside.1,
    )

-- For a URL with a scheme whose path has a slash in front of the last one, nothing of the text behind the last
-- slash is left, whatever it is, provided that it holds no slash itself and is not empty.
pub redact_hides :
    (front key : Text) (scheme path : ℕ)
    → find_scheme front ≡ some scheme
    → find_path front ≡ some path
    → IsSegment key
    → is_empty key ≡ false
    → redact_stream_url (front ++ (b'/' ∷ key)) ≡ front ++ (b'/' ∷ codes "<key>")
unfolding redact_stream_url
redact_hides front key scheme path h k l e =
    let url = front ++ (b'/' ∷ key) in
    let found = find_path-append front (b'/' ∷ key) scheme path h k in
    let late : leb (length front) path ≡ false = ground (arith, found.1) in
    let kept : is_empty (drop (suc (length front)) url) ≡ false =
      ap is_empty (drop_front front key) ∙ e in
    ap₂ (redact_at url) found.0 (find_last_slash-append front key l)
    ∙ (ap
          (λ b.
            if b
            then url
            else if is_empty (drop (suc (length front)) url)
            then url
            else take (suc (length front)) url ++ codes "<key>")
          late
        ∙ (ap (λ b. if b then url else take (suc (length front)) url ++ codes "<key>") kept
            ∙ (ap (λ (t : Text). t ++ codes "<key>") (take_front front key)
                ∙ append_assoc front (b'/' ∷ []) (codes "<key>"))))
