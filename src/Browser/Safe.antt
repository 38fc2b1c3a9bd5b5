-- ===== src/Browser/Safe.antt =====
-- What an address that is opened can be (`normalizeHttpUrl` of
-- entry/src/main/ets/model/browser/BrowserLauncher.ets).
use harmotty.Prelude.{
  ℕ, zero, suc, ◌+◌, ◌≤◌, ◌≡◌, ◌⊎◌, inl, inr, refl, ap, ◌∙◌, Bool, true, not, ◌||◌, none, some, [],
  ◌∷◌, ◌++◌, map, arith, Text, codes, eq_text, eq_text→eq, starts_with, substring, substring-suffix,
  substring-prefix, trim, ltb, ◌==◌, length, drop, take, length-drop, length-take, length-append,
  all, Bool-cases, Option-cases,
}
use mathlib.Core.Option
use native.Mathlib.Numerals.{unary_clauses}
use harmotty.Guide.Policy.{to_lower, is_visible}
use harmotty.Browser.Address.{
  index_of_text, authority_of, is_allowed, accepts_authority, normalize_at, normalize_http_url,
}

-- An address of http or https whose authority is not empty and has no user, quote or backslash.
pub record IsSafeUrl (url : Text) : Type 0 where
  pub scheme : Text
  pub rest : Text
  pub is_http : (scheme ≡ codes "http") ⊎ (scheme ≡ codes "https")
  pub parts : url ≡ scheme ++ (codes "://" ++ rest)
  pub has_authority : 1 ≤ length (authority_of rest)
  pub no_user : all is_allowed (authority_of rest) ≡ true
  pub visible : all is_visible url ≡ true
  pub short : length url ≤ 4096

starts_with→eq : (s p : Text) → starts_with s p ≡ true → s ≡ p ++ drop (length p) s
unfolding starts_with
starts_with→eq s [] h = refl
starts_with→eq [] (c ∷ p) h = cc
starts_with→eq (a ∷ s) (c ∷ p) h = ground (arith, starts_with→eq s p)

some_inj : {A : Type 0} → (a b : A) → some a ≡ some b → a ≡ b
some_inj a b h = ap (λ o. Option.get_or o a) h

index_of_text-found :
    (part s : Text) (i : ℕ)
    → index_of_text part s ≡ some i
    → (i ≤ length s) × (starts_with (drop i s) part ≡ true)
unfolding index_of_text
index_of_text-found part [] i h = elim (Bool-cases (starts_with [] part)) [
  | inl e ↦ let at_0 : 0 ≡ i = some_inj 0 i (rw e at h) in rw (← at_0) (omega arith, e)
  | inr e ↦ absurd (let g = rw e at h in cc)
]
index_of_text-found part (c ∷ s) i h = elim (Bool-cases (starts_with (c ∷ s) part)) [
  | inl e ↦ let at_0 : 0 ≡ i = some_inj 0 i (rw e at h) in rw (← at_0) (omega arith, e)
  | inr e ↦ elim (Option-cases (index_of_text part s)) [
    | inl f ↦ absurd (let g = rw (e, f) at h in cc)
    | inr (j, f) ↦
        let at_j : suc j ≡ i = some_inj (suc j) i (rw (e, f) at h) in
        let (low, starts) = index_of_text-found part s j f in
        rw (← at_j) (omega (arith, low), starts)
  ]
]

all-drop : (p : ℕ → Bool) (n : ℕ) (s : Text) → all p s ≡ true → all p (drop n s) ≡ true
all-drop p zero s h = h
all-drop p (suc n) [] h = refl
all-drop p (suc n) (c ∷ s) h = all-drop p n s (ground arith)

all-append : (p : ℕ → Bool) (s t : Text) → all p s ≡ true → all p t ≡ true → all p (s ++ t) ≡ true
all-append p [] t h k = k
all-append p (c ∷ s) t h k = ground (arith, all-append p s t)

length-map_lower : (s : Text) → length (map to_lower s) ≡ length s
length-map_lower [] = refl
length-map_lower (c ∷ s) = omega (arith, length-map_lower s)

drop-drop_3 : (i : ℕ) (s : Text) → drop 3 (drop i s) ≡ drop (3 + i) s
drop-drop_3 zero s = refl
drop-drop_3 (suc i) [] = simp unary_clauses refl
drop-drop_3 (suc i) (c ∷ s) = simp unary_clauses (drop-drop_3 i s)

-- The rest of an address from `://` on.
tail_at :
    (raw : Text) (i : ℕ)
    → index_of_text (codes "://") raw ≡ some i
    → substring raw i (length raw) ≡ codes "://" ++ substring raw (i + 3) (length raw)
tail_at raw i found =
    let (low, starts) = index_of_text-found (codes "://") raw i found in
    let cut : drop i raw ≡ codes "://" ++ drop 3 (drop i raw) =
      starts_with→eq (drop i raw) (codes "://") starts in
    let size : length (drop i raw) ≡ suc (suc (suc (length (drop 3 (drop i raw))))) =
      ap length cut in
    let high : i + 3 ≤ length raw = omega (arith, length-drop i raw) in
    let turn : i + 3 ≡ 3 + i = omega arith in
    rw (substring-suffix raw i low, substring-suffix raw (i + 3) high, turn)
      (cut ∙ ap (λ r. codes "://" ++ r) (drop-drop_3 i raw))

accepts_authority-allowed :
    (a : Text) → accepts_authority a ≡ true → (1 ≤ length a) × (all is_allowed a ≡ true)
unfolding accepts_authority
accepts_authority-allowed a h = elim (Bool-cases (length a == 0)) [
  | inl e ↦ absurd (let g = rw e at h in cc)
  | inr e ↦ elim (Bool-cases (all is_allowed a)) [
    | inl f ↦ (ground arith, f)
    | inr f ↦ absurd (let g = rw (e, f) at h in cc)
  ]
]

is_http_of :
    (t : Text)
    → (eq_text t (codes "http") || eq_text t (codes "https")) ≡ true
    → (t ≡ codes "http") ⊎ (t ≡ codes "https")
is_http_of t h = elim (Bool-cases (eq_text t (codes "http"))) [
  | inl e ↦ inl (eq_text→eq t (codes "http") e)
  | inr e ↦ inr (eq_text→eq t (codes "https") (rw e at h))
]

all-is_http : (t : Text) → (t ≡ codes "http") ⊎ (t ≡ codes "https") → all is_visible t ≡ true
all-is_http t (inl e) = rw e refl
all-is_http t (inr e) = rw e refl

safe :
    (raw : Text) (i : ℕ)
    → length raw ≤ 4096
    → all is_visible raw ≡ true
    → index_of_text (codes "://") raw ≡ some i
    → (map to_lower (substring raw 0 i) ≡ codes "http")
      ⊎ (map to_lower (substring raw 0 i) ≡ codes "https")
    → (1 ≤ length (authority_of (substring raw (i + 3) (length raw))))
      × (all is_allowed (authority_of (substring raw (i + 3) (length raw))) ≡ true)
    → IsSafeUrl (map to_lower (substring raw 0 i) ++ substring raw i (length raw))
safe raw i short visible found http authority =
    let scheme = map to_lower (substring raw 0 i) in
    let (low, starts) = index_of_text-found (codes "://") raw i found in
    let tail : substring raw i (length raw) ≡ drop i raw = substring-suffix raw i low in
    let head : length scheme ≡ length (take i raw) =
      length-map_lower (substring raw 0 i) ∙ ap (λ t. length t) (substring-prefix raw i) in
    record {
      scheme = scheme;
      rest = substring raw (i + 3) (length raw);
      is_http = http;
      parts = ap (λ t. scheme ++ t) (tail_at raw i found);
      has_authority = authority.0;
      no_user = authority.1;
      visible =
          all-append is_visible scheme (substring raw i (length raw)) (all-is_http scheme http)
            (rw tail (all-drop is_visible i raw visible));
      short = rw tail (
          omega (
            arith,
            length-append {0} scheme (drop i raw),
            head,
            length-take i raw,
            length-drop i raw,
          ));
    }

normalize_at-none : (raw url : Text) → normalize_at raw none ≡ some url → ⊥
unfolding normalize_at
normalize_at-none raw url h = cc

normalize_at_sound :
    (raw url : Text) (i : ℕ)
    → length raw ≤ 4096
    → all is_visible raw ≡ true
    → index_of_text (codes "://") raw ≡ some i
    → normalize_at raw (some i) ≡ some url
    → IsSafeUrl url
unfolding normalize_at
normalize_at_sound raw url i short visible found h =
    let scheme = map to_lower (substring raw 0 i) in
    let rest = substring raw (i + 3) (length raw) in
    elim (Bool-cases (eq_text scheme (codes "http") || eq_text scheme (codes "https"))) [
      | inr e ↦ absurd (let g = rw e at h in cc)
      | inl e ↦ elim (Bool-cases (accepts_authority (authority_of rest))) [
        | inr f ↦ absurd (let g = rw (e, f) at h in cc)
        | inl f ↦
            let same : scheme ++ substring raw i (length raw) ≡ url =
              some_inj (scheme ++ substring raw i (length raw)) url (rw (e, f) at h) in
            rw (← same) (
              safe raw i short visible found (is_http_of scheme e)
                (accepts_authority-allowed (authority_of rest) f))
      ]
    ]

-- An address that is opened has the scheme http or https in small letters; its authority, up to the
-- first `/`, `?` or `#`, is not empty and has no `@`, backslash, quote or angle bracket; the whole
-- has no unit up to 32, which are the space and the control units of ASCII, and not the unit 127, and
-- at most 4096 units.
pub normalize_http_url_sound : (raw url : Text) → normalize_http_url raw ≡ some url → IsSafeUrl url
unfolding normalize_http_url
normalize_http_url_sound raw url h =
    elim (Bool-cases (length raw == 0 || ltb 4096 (length raw) || not (eq_text (trim raw) raw))) [
      | inl e ↦ absurd (let g = rw e at h in cc)
      | inr e ↦ elim (Bool-cases (all is_visible raw)) [
        | inr v ↦ absurd (let g = rw (e, v) at h in cc)
        | inl v ↦ elim (Option-cases (index_of_text (codes "://") raw)) [
          | inl none_found ↦ absurd (normalize_at-none raw url (rw (e, v, none_found) at h))
          | inr (i, found) ↦
              normalize_at_sound raw url i (ground arith) v found (rw (e, v, found) at h)
        ]
      ]
    ]
