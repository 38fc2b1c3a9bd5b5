-- ===== src/Prompt/CommandBar.antt =====
-- `CommandBarViewModel` (entry/src/main/ets/viewmodel/CommandBarViewModel.ets): the history of
-- commands and the completion of a command or of a host. The aliases that the configuration of SSH
-- has are the argument `aliases`.
use harmotty.Prelude.{
  ℕ, zero, suc, ◌-◌, Bool, false, List, [], ◌∷◌, ◌++◌, Text, codes, eq_text, starts_with, substring,
  trim, ltb, leb, ◌==◌, if◌then◌else◌, length, get_elem?, take,
}
use mathlib.Core.Option
use harmotty.Prelude.Int.{ℤ, pos, negsuc, minus_one}

pub record CommandBar : Type 0 where
  pub input_text : Text
  pub history : List Text
  pub history_index : ℤ
  pub completions : List Text

abbrev pub new : CommandBar
new = record { input_text = []; history = []; history_index = minus_one; completions = [] }

abbrev pub max_history : ℕ
max_history = 100

unfoldable pub set_input_text : CommandBar → Text → CommandBar
set_input_text s text = record s { input_text = text }

-- The prefix of a command that takes a host, the longer one first.
unfoldable pub host_prefix : Text → Text
host_prefix input =
    if starts_with input (codes "ssh -G ")
    then codes "ssh -G "
    else if starts_with input (codes "ssh ")
    then codes "ssh "
    else if starts_with input (codes "host set ")
    then codes "host set "
    else if starts_with input (codes "host rm ")
    then codes "host rm "
    else []

abbrev pub commands : List Text
commands =
    codes "help"
    ∷ codes "ssh"
    ∷ codes "ssh-keygen"
    ∷ codes "ssh-copy-id"
    ∷ codes "key list"
    ∷ codes "key import"
    ∷ codes "key export"
    ∷ codes "key rm"
    ∷ codes "host list"
    ∷ codes "host add"
    ∷ codes "host set"
    ∷ codes "host rm"
    ∷ codes "exit"
    ∷ []

-- The texts with a prefix, each after what stands before it.
unfoldable pub matches : Text → Text → List Text → List Text
matches before partial [] = []
matches before partial (name ∷ names) =
    let rest = matches before partial names in
    if starts_with name partial then (before ++ name) ∷ rest else rest

unfoldable pub find_completions : List Text → Text → List Text
find_completions aliases input =
    let prefix = host_prefix input in
    if ltb 0 (length prefix)
    then matches prefix (trim (substring input (length prefix) (length input))) aliases
    else matches [] (trim input) commands

unfoldable pub try_tab_complete : List Text → CommandBar → List Text × CommandBar
try_tab_complete aliases s =
    let found = find_completions aliases s.input_text in (found, record s { completions = found })

unfoldable pub apply_completion : CommandBar → Text → Text × CommandBar
apply_completion s completion =
    let text = completion ++ codes " " in (text, record s { input_text = text; completions = [] })

abbrev pub older : ℤ → ℤ
older (pos i) = pos (suc i)
older (negsuc zero) = pos 0
older (negsuc (suc n)) = negsuc n

abbrev pub newer : ℤ → ℤ
newer (pos (suc i)) = pos i
newer (pos zero) = negsuc 0
newer (negsuc n) = negsuc (suc n)

-- The two bounds of the new index.
abbrev pub clamp_index : ℤ → ℕ → ℤ
clamp_index (negsuc n) size = minus_one
clamp_index (pos i) size = if leb size i then pos (size - 1) else pos i

abbrev pub recalled : List Text → ℤ → Text
recalled history (negsuc n) = []
recalled history (pos i) = Option.get_or (get_elem? history i) []

unfoldable pub navigate_history : CommandBar → ℤ → Text × CommandBar
navigate_history s direction = elim s.history [
  | [] ↦ (s.input_text, s)
  | _ ↦
      let index =
        clamp_index
          (elim direction [ negsuc n ↦ older s.history_index | pos n ↦ newer s.history_index ])
          (length s.history) in
      (
        recalled s.history index,
        record s { history_index = index; input_text = recalled s.history index },
      )
]

abbrev pub repeats : List Text → Text → Bool
repeats [] command = false
repeats (first ∷ rest) command = eq_text first command

abbrev pub pop : List Text → List Text
pop history =
    if ltb max_history (length history) then take (length history - 1) history else history

unfoldable pub add_to_history : CommandBar → Text → CommandBar
add_to_history s command =
    if length (trim command) == 0
    then s
    else if repeats s.history command
    then s
    else record s { history = pop (command ∷ s.history); history_index = minus_one }

-- The public methods that change the state.
pub data BarOperation : Type 0 where
  input : Text → BarOperation
  complete : List Text → BarOperation
  apply : Text → BarOperation
  navigate : ℤ → BarOperation
  remember : Text → BarOperation

unfoldable pub perform : CommandBar → BarOperation → CommandBar
perform s (input text) = set_input_text s text
perform s (complete aliases) = (try_tab_complete aliases s).1
perform s (apply completion) = (apply_completion s completion).1
perform s (navigate direction) = (navigate_history s direction).1
perform s (remember command) = add_to_history s command

unfoldable pub run : CommandBar → List BarOperation → CommandBar
run s [] = s
run s (o ∷ os) = run (perform s o) os
