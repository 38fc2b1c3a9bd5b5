-- ===== src/Guide/Marker.antt =====
-- When the guide that is there may be replaced.
use harmotty.Prelude.{
  ℕ, zero, suc, ◌+◌, ◌-◌, ◌≤◌, ◌≡◌, ◌≢◌, ◌↔◌, inl, inr, refl, ap, ◌∙◌, true, false, some, [], ◌∷◌,
  ◌++◌, append_assoc, arith, Text, eq_text, eq_text_ne, eq_text_refl, starts_with, ltb, length,
  length-append, min, Bool-cases,
}
use harmotty.Guide.Policy.{
  replace_owned, ownership_marker, find_marker, has_ownership_marker, decide,
}

starts_with-split : (s p : Text) → starts_with s p ≡ true → (rest : Text) × (s ≡ p ++ rest)
unfolding starts_with
starts_with-split s [] h = (s, refl)
starts_with-split [] (c ∷ p) h = absurd (cc)
starts_with-split (a ∷ s) (c ∷ p) h =
    let same : a ≡ c = ground arith in
    let (rest, tail) = starts_with-split s p (ground arith) in (rest, λ i. same i ∷ tail i)

starts_with-append : (p rest : Text) → starts_with (p ++ rest) p ≡ true
unfolding starts_with
starts_with-append [] rest = refl
starts_with-append (c ∷ p) rest = ground (arith, starts_with-append p rest)

-- The marker stands in a text behind at most so many units.
pub record Marked (content : Text) (limit : ℕ) : Type 0 where
  pub before : Text
  pub behind : Text
  pub placed : content ≡ before ++ ownership_marker ++ behind
  pub near : length before ≤ limit

Marked-here :
    (k : ℕ) (content : Text) → starts_with content ownership_marker ≡ true → Marked content k
Marked-here k content e =
    let (rest, split) = starts_with-split content ownership_marker e in
    record { before = []; behind = rest; placed = split; near = omega arith }

Marked-later : (k c : ℕ) (content : Text) → Marked content k → Marked (c ∷ content) (suc k)
Marked-later k c content m = record {
  before = c ∷ m.before;
  behind = m.behind;
  placed = ap (λ s. c ∷ s) m.placed;
  near = omega (arith, m.near);
}

Marked-further : (k : ℕ) (content : Text) → Marked content k → Marked content (suc k)
Marked-further k content m = record {
  before = m.before;
  behind = m.behind;
  placed = m.placed;
  near = omega (arith, m.near);
}

no_marker_in_nil : starts_with [] ownership_marker ≡ false
unfolding starts_with
no_marker_in_nil = refl

find_marker-nil : (k : ℕ) → find_marker k [] ≡ false
unfolding find_marker
find_marker-nil zero = refl
find_marker-nil (suc k) = rw (no_marker_in_nil, find_marker-nil k) refl

find_marker-Marked :
    (k : ℕ) (content : Text) → find_marker (suc k) content ≡ true → Marked content k
unfolding find_marker
find_marker-Marked zero content h = Marked-here 0 content (ground arith)
find_marker-Marked (suc k) [] h = absurd (let f = find_marker-nil (suc (suc k)) in cc)
find_marker-Marked (suc k) (c ∷ s) h = elim (Bool-cases (starts_with (c ∷ s) ownership_marker)) [
  | inl e ↦ Marked-here (suc k) (c ∷ s) e
  | inr e ↦ Marked-later k c s (find_marker-Marked k s (rw e at h))
]

find_marker-at :
    (k : ℕ) (before behind : Text)
    → length before ≤ k
    → find_marker (suc k) (before ++ (ownership_marker ++ behind)) ≡ true
unfolding find_marker
find_marker-at k [] behind h = rw (starts_with-append ownership_marker behind) refl
find_marker-at zero (c ∷ before) behind h = absurd (omega arith)
find_marker-at (suc k) (c ∷ before) behind h =
    rw (find_marker-at k before behind (omega arith)) (ground arith)

Marked-find_marker :
    (k : ℕ) (content : Text) → Marked content k → find_marker (suc k) content ≡ true
Marked-find_marker k content m =
    rw (m.placed, append_assoc m.before ownership_marker m.behind)
      (find_marker-at k m.before m.behind m.near)

abbrev last_position : Text → ℕ
last_position content = min (length content - length ownership_marker) 4096

has_ownership_marker-Marked :
    (content : Text) → has_ownership_marker content ≡ true → Marked content 4096
unfolding has_ownership_marker
has_ownership_marker-Marked content h = elim (Bool-cases (ltb (length content) 33)) [
  | inl e ↦ absurd (let f = rw e at h in cc)
  | inr e ↦
      let m = find_marker-Marked (last_position content) content (rw e at h) in
      record {
        before = m.before;
        behind = m.behind;
        placed = m.placed;
        near = omega (arith, m.near);
      }
]

length-Marked :
    (content : Text) (m : Marked content 4096)
    → length content ≡ length m.before + 33 + length m.behind
length-Marked content m =
    ap length m.placed
    ∙ omega (
      arith,
      length-append {0} (m.before ++ ownership_marker) m.behind,
      length-append {0} m.before ownership_marker,
    )

Marked-has_ownership_marker :
    (content : Text) → Marked content 4096 → has_ownership_marker content ≡ true
unfolding has_ownership_marker
Marked-has_ownership_marker content m =
    let size = length-Marked content m in
    let long : ltb (length content) 33 ≡ false = ground (arith, size) in
    let close : Marked content (last_position content) = record {
      before = m.before;
      behind = m.behind;
      placed = m.placed;
      near = omega (arith, size, m.near);
    } in
    rw long (Marked-find_marker (last_position content) content close)

replaced :
    (existing packaged : Text)
    → decide (some existing) packaged ≡ replace_owned
    → (existing ≢ packaged) × (has_ownership_marker existing ≡ true)
unfolding decide
replaced existing packaged h = elim (Bool-cases (eq_text existing packaged)) [
  | inl e ↦ absurd (let f = rw e at h in cc)
  | inr e ↦
      (λ same. absurd (let f = eq_text_refl packaged in let g = rw same at e in cc), ground arith)
]

owned :
    (existing packaged : Text)
    → existing ≢ packaged
    → has_ownership_marker existing ≡ true
    → decide (some existing) packaged ≡ replace_owned
unfolding decide
owned existing packaged ne h = rw (eq_text_ne existing packaged ne, h) refl

-- The file that is there is replaced only if it differs from the packaged guide and the marker of
-- the application begins in it behind at most 4096 units, and then it always is.
pub decide_replace_iff :
    (existing packaged : Text)
    → (decide (some existing) packaged ≡ replace_owned)
      ↔ ((existing ≢ packaged) × Marked existing 4096)
decide_replace_iff existing packaged = (
  λ h.
      let (ne, marked) = replaced existing packaged h in
      (ne, has_ownership_marker-Marked existing marked),
  λ x. owned existing packaged x.0 (Marked-has_ownership_marker existing x.1),
)
