-- ===== src/Terminal/LineEditing.antt =====
-- `LocalCommandLine` as a line cut at the cursor: the units before it, nearest first, and those after.
use harmotty.Prelude.{
  ℕ, suc, ◌+◌, ◌-◌, ◌≤◌, ◌≡◌, refl, sym, ◌∙◌, true, false, List, [], ◌∷◌, ◌++◌, arith, Text, ◌==◌,
  length, substring, substring-prefix, substring-suffix, take, drop, take-append, drop-append,
  append_assoc, append-nil,
}
use harmotty.Terminal.CommandLine.{
  LocalCommandLine, new, set_text, clear, insert, backspace, move_left, move_right, EditOperation,
  put, assign, erase, left, right, reset, perform, run,
}

pub record Cut : Type 0 where
  pub before : Text
  pub after : Text

-- The units onto a line, from the nearest outwards.
unfoldable pub reverse_onto : Text → Text → Text
reverse_onto [] after = after
reverse_onto (c ∷ before) after = reverse_onto before (c ∷ after)

unfoldable pub line_of : Cut → LocalCommandLine
line_of cut = record { text = reverse_onto cut.before cut.after; cursor = length cut.before }

unfoldable pub type_in : Text → Cut → Cut
type_in text cut = record { before = reverse_onto text cut.before; after = cut.after }

unfoldable pub rub_out : Cut → Cut
rub_out cut = elim cut.before [
  | [] ↦ cut
  | c ∷ before ↦ record { before = before; after = cut.after }
]

unfoldable pub go_left : Cut → Cut
go_left cut = elim cut.before [
  | [] ↦ cut
  | c ∷ before ↦ record { before = before; after = c ∷ cut.after }
]

unfoldable pub go_right : Cut → Cut
go_right cut = elim cut.after [
  | [] ↦ cut
  | c ∷ after ↦ record { before = c ∷ cut.before; after = after }
]

unfoldable pub edit : Cut → EditOperation → Cut
edit cut (put text) = type_in text cut
edit cut (assign text) = record { before = reverse_onto text []; after = [] }
edit cut erase = rub_out cut
edit cut left = go_left cut
edit cut right = go_right cut
edit cut reset = record { before = []; after = [] }

unfoldable pub edit_all : Cut → List EditOperation → Cut
edit_all cut [] = cut
edit_all cut (o ∷ os) = edit_all (edit cut o) os

reverse_onto-append : (b a : Text) → reverse_onto b a ≡ reverse_onto b [] ++ a
unfolding reverse_onto
reverse_onto-append [] a = refl
reverse_onto-append (c ∷ b) a =
    rw (reverse_onto-append b (c ∷ a), reverse_onto-append b (c ∷ []))
      (sym (append_assoc (reverse_onto b []) (c ∷ []) a))

length-reverse_onto : (b a : Text) → length (reverse_onto b a) ≡ length b + length a
unfolding reverse_onto
length-reverse_onto [] a = omega arith
length-reverse_onto (c ∷ b) a = omega (arith, length-reverse_onto b (c ∷ a))

take-reverse_onto : (b a : Text) → take (length b) (reverse_onto b a) ≡ reverse_onto b []
take-reverse_onto b a =
    let size : length b ≡ length (reverse_onto b []) = omega (arith, length-reverse_onto b []) in
    rw (reverse_onto-append b a, size) (take-append (reverse_onto b []) a)

drop-reverse_onto : (b a : Text) → drop (length b) (reverse_onto b a) ≡ a
drop-reverse_onto b a =
    let size : length b ≡ length (reverse_onto b []) = omega (arith, length-reverse_onto b []) in
    rw (reverse_onto-append b a, size) (drop-append (reverse_onto b []) a)

reverse_onto-twice : (t b a : Text) → reverse_onto (reverse_onto t b) a ≡ reverse_onto b (t ++ a)
unfolding reverse_onto
reverse_onto-twice [] b a = refl
reverse_onto-twice (c ∷ t) b a = reverse_onto-twice t (c ∷ b) a

suffix_lem : (b a : Text) → substring (reverse_onto b a) (length b) (length (reverse_onto b a)) ≡ a
suffix_lem b a =
    substring-suffix (reverse_onto b a) (length b) (omega (arith, length-reverse_onto b a))
    ∙ drop-reverse_onto b a

prefix_lem : (b a : Text) → substring (reverse_onto b a) 0 (length b) ≡ reverse_onto b []
prefix_lem b a = substring-prefix (reverse_onto b a) (length b) ∙ take-reverse_onto b a

insert-edit : (cut : Cut) (text : Text) → (insert (line_of cut) text).1 ≡ line_of (type_in text cut)
unfolding insert line_of type_in
insert-edit cut text =
    let inserted : (reverse_onto cut.before [] ++ text) ++ cut.after
        ≡ reverse_onto (reverse_onto text cut.before) cut.after =
      append_assoc (reverse_onto cut.before []) text cut.after
      ∙ sym (reverse_onto-append cut.before (text ++ cut.after))
      ∙ sym (reverse_onto-twice text cut.before cut.after) in
    let moved : length cut.before + length text ≡ length (reverse_onto text cut.before) =
      omega (arith, length-reverse_onto text cut.before) in
    rw (suffix_lem cut.before cut.after, prefix_lem cut.before cut.after)
      (λ i. record { text = inserted i; cursor = moved i })

erased_lem :
    (b a : Text) (c : ℕ)
    → substring (reverse_onto b (c ∷ a)) 0 (suc (length b) - 1) ≡ reverse_onto b []
erased_lem b a c =
    let one : suc (length b) - 1 ≡ length b = omega arith in rw one (prefix_lem b (c ∷ a))

backspace-edit :
    (b a : Text)
    → (backspace (line_of (record { before = b; after = a }))).1
      ≡ line_of (rub_out (record { before = b; after = a }))
unfolding backspace line_of rub_out reverse_onto
backspace-edit [] a = refl
backspace-edit (c ∷ b) a =
    let some_left : (suc (length b) == 0) ≡ false = ground arith in
    let one : suc (length b) - 1 ≡ length b = omega arith in
    rw (some_left, suffix_lem (c ∷ b) a, erased_lem b a c)
      (λ i. record { text = sym (reverse_onto-append b a) i; cursor = one i })

left-edit :
    (b a : Text)
    → (move_left (line_of (record { before = b; after = a }))).1
      ≡ line_of (go_left (record { before = b; after = a }))
unfolding move_left line_of go_left reverse_onto
left-edit [] a = refl
left-edit (c ∷ b) a =
    let some_left : (suc (length b) == 0) ≡ false = ground arith in
    let one : suc (length b) - 1 ≡ length b = omega arith in
    rw some_left (λ i. record { text = reverse_onto b (c ∷ a); cursor = one i })

right-edit :
    (b a : Text)
    → (move_right (line_of (record { before = b; after = a }))).1
      ≡ line_of (go_right (record { before = b; after = a }))
unfolding move_right line_of go_right reverse_onto
right-edit b [] =
    let at_end : (length b == length (reverse_onto b [])) ≡ true =
      ground (arith, length-reverse_onto b []) in
    rw at_end refl
right-edit b (c ∷ a) =
    let more : (length b == length (reverse_onto b (c ∷ a))) ≡ false =
      ground (arith, length-reverse_onto b (c ∷ a)) in
    let one : length b + 1 ≡ suc (length b) = omega arith in
    rw more (λ i. record { text = reverse_onto b (c ∷ a); cursor = one i })

assign-edit :
    (cut : Cut) (text : Text) → set_text (line_of cut) text ≡ line_of (edit cut (assign text))
unfolding set_text line_of edit reverse_onto
assign-edit cut text =
    let same : text ≡ reverse_onto (reverse_onto text []) [] =
      sym (append-nil text) ∙ sym (reverse_onto-twice text [] []) in
    let size : length text ≡ length (reverse_onto text []) =
      omega (arith, length-reverse_onto text []) in
    λ i. record { text = same i; cursor = size i }

perform-edit : (cut : Cut) (o : EditOperation) → perform (line_of cut) o ≡ line_of (edit cut o)
unfolding perform edit clear line_of reverse_onto
perform-edit cut (put text) = insert-edit cut text
perform-edit cut (assign text) = assign-edit cut text
perform-edit cut erase = backspace-edit cut.before cut.after
perform-edit cut left = left-edit cut.before cut.after
perform-edit cut right = right-edit cut.before cut.after
perform-edit cut reset = refl

edit-all : (os : List EditOperation) (cut : Cut) → run (line_of cut) os ≡ line_of (edit_all cut os)
unfolding run edit_all
edit-all [] cut = refl
edit-all (o ∷ os) cut = rw (perform-edit cut o) (edit-all os (edit cut o))

abbrev pub empty : Cut
empty = record { before = []; after = [] }

-- Any sequence of edits of a new line does what the same edits do to a line cut at the cursor.
pub run-refines : (os : List EditOperation) → run new os ≡ line_of (edit_all empty os)
unfolding line_of reverse_onto
run-refines os = edit-all os empty

inside_lem : (cut : Cut) → (line_of cut).cursor ≤ length (line_of cut).text
unfolding line_of
inside_lem cut = omega (arith, length-reverse_onto cut.before cut.after)

-- After any sequence of edits of a new line the cursor stays inside the text.
pub run-cursor_bounds : (os : List EditOperation) → (run new os).cursor ≤ length (run new os).text
run-cursor_bounds os = rw (run-refines os) (inside_lem (edit_all empty os))
