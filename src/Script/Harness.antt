-- ===== src/Script/Harness.antt =====
-- The harness of tools/web-terminal/test-terminal-search.mjs: a terminal and a search addon of xterm
-- whose selection the script keeps itself.
use harmotty.Prelude.{
  ℕ, ◌+◌, ◌*◌, ◌/◌, ◌%◌, ◌<◌, ◌≡◌, Bool, true, false, Option, none, some, List, [], ◌∷◌, arith,
  Text, codes,
}
use harmotty.Prelude.Int.{ℤ, negsuc}
use harmotty.Script.Waiting.{met, timed_out, wait_loop}

pub record SearchOptions : Type 0 where
  pub regex : Bool
  pub whole_word : Bool
  pub case_sensitive : Bool
  pub match_background : Text
  pub match_border : Text
  pub match_overview_ruler : Text
  pub active_match_background : Text
  pub active_match_border : Text
  pub active_match_color_overview_ruler : Text

abbrev pub search_options : SearchOptions
search_options = record {
  regex = false;
  whole_word = false;
  case_sensitive = false;
  match_background = codes "#45475A";
  match_border = codes "#585B70";
  match_overview_ruler = codes "#89B4FA";
  active_match_background = codes "#585B70";
  active_match_border = codes "#89B4FA";
  active_match_color_overview_ruler = codes "#89B4FA";
}

pub record Position : Type 0 where
  pub x : ℕ
  pub y : ℕ

pub record Selection : Type 0 where
  pub start : Position
  pub end : Position

pub record Results : Type 0 where
  pub result_index : ℤ
  pub result_count : ℕ

-- What the addon does to the terminal and to its listener in one call.
pub data Effect : Type 0 where
  select : ℕ → ℕ → ℕ → Effect
  clear_selection : Effect
  change_results : Results → Effect

-- xterm and its addon, as far as the script uses them: each operation is the terminal after it, and
-- the effects of the addon. A write is over when it is parsed; `wait` is what happens while the script
-- sleeps for ten milliseconds, and by how many milliseconds the sleep is late.
pub record SearchLibrary : Type 1 where
  pub Terminal : Type 0
  pub create : ℕ → ℕ → ℕ → Terminal
  pub write : Text → Terminal → Terminal × List Effect
  pub wait : Terminal → ℕ × Terminal × List Effect
  pub clear_decorations : Terminal → Terminal × List Effect
  pub find_next : Text → SearchOptions → Terminal → Terminal × List Effect × Bool
  pub find_previous : Text → SearchOptions → Terminal → Terminal × List Effect × Bool
  pub is_alternate : Terminal → Bool
  pub base_y : Terminal → ℕ

-- The selection that `terminal.select` of the harness keeps.
unfoldable pub selection_at : ℕ → ℕ → ℕ → ℕ → Selection
selection_at cols column row size =
    let end_offset = column + size in
    record {
      start = record { x = column; y = row };
      end = record { x = end_offset % cols; y = row + end_offset / cols };
    }

-- A selection of so many cells ends so many cells after its start, in a column of the terminal.
pub selection_at-end :
    (cols column row size : ℕ)
    → 0 < cols
    → ((selection_at cols column row size).end.y * cols + (selection_at cols column row size).end.x
        ≡ row * cols + column + size)
      × ((selection_at cols column row size).end.x < cols)
unfolding selection_at
selection_at-end cols column row size h = grind arith

-- A script changes a state, or fails by an assertion.
abbrev pub Script : Type 0 → Type 0 → Type 0
Script H A = H → Option (A × H)

module _ {H : Type 0} where
  infixl 5 ◌>>=◌ ◌>>◌
  abbrev pub ◌>>=◌ : {A B : Type 0} → Script H A → (A → Script H B) → Script H B
  ◌>>=◌ first next h = elim (first h) [ none ↦ none | some (a, after) ↦ next a after ]

  abbrev pub ◌>>◌ : {B : Type 0} → Script H (Unit {0}) → Script H B → Script H B
  first >> next = first >>= λ _. next

  abbrev pub assert : Bool → Script H (Unit {0})
  assert true h = some (tt, h)
  assert false h = none

module _ (L : SearchLibrary) where
  open L use {
    Terminal, create, write, wait, clear_decorations, find_next, find_previous, is_alternate,
    base_y,
  }

  pub record Harness : Type 0 where
    pub terminal : Terminal
    pub cols : ℕ
    pub selection : Option Selection
    pub results : Results
    pub clock : ℕ

  unfoldable pub create_harness : ℕ → ℕ → ℕ → Harness
  create_harness cols rows scrollback = record {
    terminal = create cols rows scrollback;
    cols = cols;
    selection = none;
    results = record { result_index = negsuc 0; result_count = 0 };
    clock = 0;
  }

  abbrev pub take_effect : Effect → Harness → Harness
  take_effect (select column row size) h = record h {
    selection = some (selection_at h.cols column row size);
  }
  take_effect clear_selection h = record h { selection = none }
  take_effect (change_results event) h = record h { results = event }

  abbrev pub take_effects : List Effect → Harness → Harness
  take_effects [] h = h
  take_effects (effect ∷ effects) h = take_effects effects (take_effect effect h)

  abbrev pub the_selection : Script Harness (Option Selection)
  the_selection h = some (h.selection, h)

  abbrev pub the_results : Script Harness Results
  the_results h = some (h.results, h)

  abbrev pub the_terminal : Script Harness Terminal
  the_terminal h = some (h.terminal, h)

  abbrev pub write_text : Text → Script Harness (Unit {0})
  write_text text h =
      let (terminal, effects) = write text h.terminal in
      some (tt, take_effects effects (record h { terminal = terminal }))

  abbrev pub search_next : Text → SearchOptions → Script Harness Bool
  search_next query options h =
      let (terminal, effects, found) = find_next query options h.terminal in
      some (found, take_effects effects (record h { terminal = terminal }))

  abbrev pub search_previous : Text → SearchOptions → Script Harness Bool
  search_previous query options h =
      let (terminal, effects, found) = find_previous query options h.terminal in
      some (found, take_effects effects (record h { terminal = terminal }))

  abbrev pub clear_highlights : Script Harness (Unit {0})
  clear_highlights h =
      let (terminal, effects) = clear_decorations h.terminal in
      some (tt, take_effects effects (record h { terminal = terminal }))

  abbrev pub call : Effect → Script Harness (Unit {0})
  call effect h = some (tt, take_effect effect h)

  unfoldable pub restart_search : Text → SearchOptions → Script Harness Bool
  restart_search query options = do
    clear_highlights
    call clear_selection
    search_next query options

  abbrev pub sleep : Harness → Harness
  sleep h =
      let (late, terminal, effects) = wait h.terminal in
      take_effects effects (record h { terminal = terminal; clock = h.clock + 10 + late })

  -- `waitFor`, with 1500 milliseconds; 151 looks are enough.
  unfoldable pub wait_for : (Harness → Bool) → Script Harness (Unit {0})
  wait_for predicate h = elim (wait_loop predicate (λ s. s.clock) sleep (h.clock + 1500) 151 h) [
    | none ↦ none
    | some (timed_out s) ↦ none
    | some (met s) ↦ some (tt, s)
  ]
