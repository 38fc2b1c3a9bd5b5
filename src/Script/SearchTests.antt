-- ===== src/Script/SearchTests.antt =====
-- The tests of tools/web-terminal/test-terminal-search.mjs, over a library that has the operations of
-- xterm and its search addon; each is whether its assertions hold.
use harmotty.Prelude.{
  ℕ, zero, suc, ◌+◌, ◌-◌, ◌%◌, ◌||◌, Bool, true, false, not, ◌&&◌, Option, none, some, List, [],
  ◌∷◌, ◌++◌, Text, codes, eq_text, ltb, leb, ◌==◌, if◌then◌else◌, get_elem?, length,
}
use harmotty.Prelude.Int.{ℤ, pos, negsuc}
use harmotty.Prelude.Decimal.{to_text}
use harmotty.Script.Policies.{repeat}
use harmotty.Script.Harness.{
  SearchOptions, search_options, Selection, Results, select, SearchLibrary, Harness, create_harness,
  Script, ◌>>=◌, ◌>>◌, assert, the_selection, the_results, the_terminal, write_text, search_next,
  search_previous, call, restart_search, wait_for,
}

abbrev pub starts_at : Option Selection → ℕ → ℕ → Bool
starts_at none x y = false
starts_at (some s) x y = s.start.x == x && s.start.y == y

abbrev pub ends_at : Option Selection → ℕ → ℕ → Bool
ends_at none x y = false
ends_at (some s) x y = s.end.x == x && s.end.y == y

abbrev pub starts_in : Option Selection → ℕ → Bool
starts_in none y = false
starts_in (some s) y = s.start.y == y

abbrev pub is_several_rows : Option Selection → Bool
is_several_rows none = false
is_several_rows (some s) = ltb s.start.y s.end.y

abbrev pub is_none : Option Selection → Bool
is_none none = true
is_none (some s) = false

abbrev pub row_of : Option Selection → Option ℕ
row_of none = none
row_of (some s) = some s.start.y

-- A selection that starts more than 1900 rows below another; both have to be there.
abbrev pub is_far_below : Option ℕ → Option Selection → Bool
is_far_below (some row) (some s) = ltb (row + 1900) s.start.y
is_far_below _ _ = false

abbrev pub same_index : ℤ → ℤ → Bool
same_index (pos a) (pos b) = a == b
same_index (negsuc a) (negsuc b) = a == b
same_index _ _ = false

abbrev pub is_results : Results → ℤ → ℕ → Bool
is_results r index count = same_index r.result_index index && r.result_count == count

abbrev pub case_sensitive : SearchOptions
case_sensitive = record search_options { case_sensitive = true }

abbrev pub cjk : Text
cjk = 0x4e2d ∷ 0x6587 ∷ []

-- `index.toString().padStart(4, '0')`.
unfoldable pub pad_four : ℕ → Text
pad_four index = let digits = to_text index in repeat (4 - length digits) b'0' ++ digits

unfoldable pub line : ℕ → Text
line index =
    codes "line-"
    ++ pad_four index
    ++ (if index == 7 || index == 1997 then codes " scrollback-target" else [])

-- The lines from an index on, joined by line ends.
unfoldable pub lines_from : ℕ → ℕ → Text
lines_from zero index = []
lines_from (suc zero) index = line index
lines_from (suc (suc left)) index = line index ++ (13 ∷ 10 ∷ lines_from (suc left) (index + 1))

abbrev pub queries : List Text
queries =
    codes "a"
    ∷ codes "al"
    ∷ codes "alp"
    ∷ codes "alpha"
    ∷ codes "missing"
    ∷ cjk
    ∷ codes "beta"
    ∷ codes "alpha"
    ∷ []

abbrev pub query_at : ℕ → Text
query_at iteration = elim (get_elem? queries (iteration % 8)) [ some query ↦ query | none ↦ [] ]

abbrev pub same_bool : Bool → Bool → Bool
same_bool true b = b
same_bool false b = not b

module _ (L : SearchLibrary) where
  open L use {is_alternate, base_y}

  abbrev pub passes : Script (Harness L) (Unit {0}) → Harness L → Bool
  passes script h = elim (script h) [ none ↦ false | some done ↦ true ]

  -- A search that has to find, or not to find.
  abbrev pub restart : Text → SearchOptions → Bool → Script (Harness L) (Unit {0})
  restart query options expected = do
    found ← restart_search L query options
    assert (same_bool found expected)

  abbrev pub next : Text → Bool → Script (Harness L) (Unit {0})
  next query expected = do
    found ← search_next L query search_options
    assert (same_bool found expected)

  abbrev pub previous : Text → Bool → Script (Harness L) (Unit {0})
  previous query expected = do
    found ← search_previous L query search_options
    assert (same_bool found expected)

  abbrev pub expect_start : ℕ → ℕ → Script (Harness L) (Unit {0})
  expect_start x y = do selection ← the_selection L; assert (starts_at selection x y)

  abbrev pub expect_end : ℕ → ℕ → Script (Harness L) (Unit {0})
  expect_end x y = do selection ← the_selection L; assert (ends_at selection x y)

  abbrev pub expect_no_selection : Script (Harness L) (Unit {0})
  expect_no_selection = do selection ← the_selection L; assert (is_none selection)

  abbrev pub expect_results : ℤ → ℕ → Script (Harness L) (Unit {0})
  expect_results index count = do results ← the_results L; assert (is_results results index count)

  abbrev pub expect_alternate : Bool → Script (Harness L) (Unit {0})
  expect_alternate expected = do
    terminal ← the_terminal L
    assert (same_bool (is_alternate terminal) expected)

  unfoldable pub ordinary_script : Script (Harness L) (Unit {0})
  ordinary_script = do
    write_text L
        (codes "Alpha beta" ++ (13 ∷ 10 ∷ (codes "alpha gamma" ++ (13 ∷ 10 ∷ codes "beta alpha"))))
    restart (codes "alpha") search_options true
    expect_start 0 0
    expect_results (pos 0) 3
    next (codes "alpha") true
    expect_start 0 1
    expect_results (pos 1) 3
    next (codes "alpha") true
    expect_start 5 2
    expect_results (pos 2) 3
    next (codes "alpha") true
    expect_start 0 0
    previous (codes "alpha") true
    expect_start 5 2
    restart (codes "Alpha") case_sensitive true
    expect_results (pos 0) 1
    restart (codes "ALPHA") case_sensitive false
    expect_no_selection
    expect_results (negsuc 0) 0
    call L (select 3 1 2)
    next [] false
    expect_no_selection

  unfoldable pub test_ordinary_text_and_navigation : Bool
  test_ordinary_text_and_navigation = passes ordinary_script (create_harness L 24 4 100)

  unfoldable pub wide_script : Script (Harness L) (Unit {0})
  wide_script = do
    write_text L (
        0x524d
        ∷ 0x7f00
        ∷ 0x4e2d
        ∷ 0x6587
        ∷ 0x540e
        ∷ 0x7f00
        ∷ 13
        ∷ 10
        ∷ (codes "emoji "
            ++ (0xd83d
                ∷ 0xde80
                ∷ (codes " done" ++ (13 ∷ 10 ∷ (codes "wrap-" ++ (cjk ++ codes "-tail")))))))
    restart cjk search_options true
    expect_start 4 0
    expect_end 8 0
    restart (0xd83d ∷ 0xde80 ∷ []) search_options true
    expect_start 6 1
    expect_end 7 1
    restart (cjk ++ codes "-tail") search_options true
    selection ← the_selection L
    assert (starts_in selection 2)
    assert (is_several_rows selection)

  unfoldable pub test_unicode_wide_and_wrapped_text : Bool
  test_unicode_wide_and_wrapped_text = passes wide_script (create_harness L 12 5 100)

  unfoldable pub buffers_script : Script (Harness L) (Unit {0})
  buffers_script = do
    write_text L (codes "normal-target")
    write_text L (0x1b ∷ codes "[?1049h")
    write_text L (codes "alternate-target")
    expect_alternate true
    restart (codes "normal-target") search_options false
    restart (codes "alternate-target") search_options true
    write_text L (0x1b ∷ codes "[?1049l")
    expect_alternate false
    restart (codes "alternate-target") search_options false
    restart (codes "normal-target") search_options true

  unfoldable pub test_normal_and_alternate_buffers : Bool
  test_normal_and_alternate_buffers = passes buffers_script (create_harness L 24 4 100)

  unfoldable pub scrollback_script : Script (Harness L) (Unit {0})
  scrollback_script = do
    write_text L (lines_from 2000 0)
    terminal ← the_terminal L
    assert (ltb 1900 (base_y terminal))
    restart (codes "scrollback-target") search_options true
    results ← the_results L
    assert (results.result_count == 2)
    first ← the_selection L
    next (codes "scrollback-target") true
    second ← the_selection L
    assert (is_far_below (row_of first) second)

  unfoldable pub test_large_scrollback : Bool
  test_large_scrollback = passes scrollback_script (create_harness L 40 4 10000)

  -- The rapid queries, from an iteration on.
  unfoldable pub rapid_queries : ℕ → ℕ → Script (Harness L) (Unit {0})
  rapid_queries zero iteration h = some (tt, h)
  rapid_queries (suc left) iteration h =
      (restart (query_at iteration) search_options
            (not (eq_text (query_at iteration) (codes "missing")))
          >> λ after. rapid_queries left (iteration + 1) after)
        h

  unfoldable pub ongoing_script : Script (Harness L) (Unit {0})
  ongoing_script = do
    write_text L (codes "steady output")
    restart (codes "arrived") search_options false
    write_text L (13 ∷ 10 ∷ (codes "arrived-one" ++ (13 ∷ 10 ∷ codes "arrived-two")))
    wait_for L (λ h. h.results.result_count == 2)
    results ← the_results L
    assert (results.result_count == 2)
    write_text L (13 ∷ 10 ∷ (codes "alpha alphabet beta " ++ (cjk ++ codes " alpha")))
    rapid_queries 80 0
    restart (codes "alpha") search_options true
    last ← the_results L
    assert (leb 3 last.result_count)

  unfoldable pub test_ongoing_output_and_rapid_queries : Bool
  test_ongoing_output_and_rapid_queries = passes ongoing_script (create_harness L 32 6 100)

  unfoldable pub run_terminal_search_tests : Bool
  run_terminal_search_tests =
      test_ordinary_text_and_navigation && test_unicode_wide_and_wrapped_text
      && test_normal_and_alternate_buffers && test_large_scrollback
      && test_ongoing_output_and_rapid_queries
