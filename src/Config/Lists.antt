-- ===== src/Config/Lists.antt =====
-- The lists of names of entry/src/main/ets/model/ssh/SshConfig.ets.
use harmotty.Prelude.{
  ◌≡◌, refl, inl, inr, false, ◌||◌, List, [], ◌∷◌, ◌++◌, arith, Text, eq_text, eq_text→eq,
  eq_text_refl, eq_text_ne, Bool-cases,
}
use harmotty.Config.Names.{has, add_pending, remove_pending}

-- Every name stands once.
abbrev pub IsDistinct : List Text → Type 0
IsDistinct [] = Unit
IsDistinct (item ∷ items) = (has items item ≡ false) × IsDistinct items

pub has-append :
    (items more : List Text) (alias : Text)
    → has (items ++ more) alias ≡ (has items alias || has more alias)
unfolding has
has-append [] more alias = refl
has-append (item ∷ items) more alias = rw (has-append items more alias) (ground arith)

pub has-add_pending :
    (items : List Text) (alias other : Text)
    → has (add_pending items alias) other ≡ (eq_text alias other || has items other)
unfolding has add_pending
has-add_pending items alias other = elim (Bool-cases (has items alias)) [
  | inl e ↦ rw e (elim (Bool-cases (eq_text alias other)) [
    | inl f ↦ let same : alias ≡ other = eq_text→eq alias other f in rw f (rw same at e)
    | inr f ↦ rw f refl
  ])
  | inr e ↦ rw (e, has-append items (alias ∷ []) other) (ground arith)
]

pub has-remove_pending :
    (items : List Text) (alias other : Text)
    → eq_text alias other ≡ false
    → has (remove_pending items alias) other ≡ has items other
unfolding has remove_pending
has-remove_pending [] alias other h = refl
has-remove_pending (item ∷ items) alias other h = elim (Bool-cases (eq_text item alias)) [
  | inl e ↦ let same : item ≡ alias = eq_text→eq item alias e in rw (e, same, h) refl
  | inr e ↦ rw (e, has-remove_pending items alias other h) refl
]

pub remove_pending-gone :
    (items : List Text) (alias : Text)
    → IsDistinct items
    → has (remove_pending items alias) alias ≡ false
unfolding has remove_pending
remove_pending-gone [] alias h = refl
remove_pending-gone (item ∷ items) alias (h, rest) = elim (Bool-cases (eq_text item alias)) [
  | inl e ↦ let same : item ≡ alias = eq_text→eq item alias e in rw e (rw same at h)
  | inr e ↦ rw (e, remove_pending-gone items alias rest, e) refl
]

pub eq_text_sym : (s t : Text) → eq_text s t ≡ false → eq_text t s ≡ false
eq_text_sym s t h = eq_text_ne t s (λ e. absurd (let f = rw e at h in let g = eq_text_refl s in cc))

-- A name that was not there is added.
pub IsDistinct-append :
    (items : List Text) (alias : Text)
    → IsDistinct items
    → has items alias ≡ false
    → IsDistinct (items ++ alias ∷ [])
unfolding has
IsDistinct-append [] alias h e = (refl, tt)
IsDistinct-append (item ∷ items) alias (h, rest) e =
    let differs : eq_text alias item ≡ false = eq_text_sym item alias (ground arith) in
    (
      rw (has-append items (alias ∷ []) item) (ground arith),
      IsDistinct-append items alias rest (ground arith),
    )

pub add_pending-IsDistinct :
    (items : List Text) (alias : Text) → IsDistinct items → IsDistinct (add_pending items alias)
unfolding add_pending
add_pending-IsDistinct items alias h = elim (Bool-cases (has items alias)) [
  | inl e ↦ rw e h
  | inr e ↦ rw e (IsDistinct-append items alias h e)
]

remove_pending-fewer :
    (items : List Text) (alias other : Text)
    → has items other ≡ false
    → has (remove_pending items alias) other ≡ false
unfolding has remove_pending
remove_pending-fewer [] alias other h = refl
remove_pending-fewer (item ∷ items) alias other h = elim (Bool-cases (eq_text item alias)) [
  | inl e ↦ rw e (ground arith)
  | inr e ↦ rw (e, remove_pending-fewer items alias other (ground arith)) (ground arith)
]

pub remove_pending-IsDistinct :
    (items : List Text) (alias : Text) → IsDistinct items → IsDistinct (remove_pending items alias)
unfolding remove_pending
remove_pending-IsDistinct [] alias h = tt
remove_pending-IsDistinct (item ∷ items) alias (h, rest) = elim (Bool-cases (eq_text item alias)) [
  | inl e ↦ rw e rest
  | inr e ↦
      rw e (remove_pending-fewer items alias item h, remove_pending-IsDistinct items alias rest)
]
