-- ===== src/Browser/Address.antt =====
-- `BrowserLauncher.normalizeHttpUrl` (entry/src/main/ets/model/browser/BrowserLauncher.ets); `null`
-- is `none`.
use harmotty.Prelude.{
  ℕ, suc, ◌+◌, ◌-◌, Bool, false, not, ◌&&◌, ◌||◌, Option, none, some, [], ◌∷◌, ◌++◌, map, Text,
  codes, eq_text, starts_with, substring, trim, index_of, last_index_of, ltb, leb, ◌==◌,
  if◌then◌else◌, length, all,
}
use mathlib.Core.Option
use harmotty.Prelude.Decimal.{is_digit, digits_value}
use harmotty.Guide.Policy.{to_lower, is_visible}

abbrev pub max_url_length : ℕ
max_url_length = 4096

-- `indexOf` of a text.
unfoldable pub index_of_text : Text → Text → Option ℕ
index_of_text part [] = if starts_with [] part then some 0 else none
index_of_text part (c ∷ s) =
    if starts_with (c ∷ s) part then some 0 else Option.map suc (index_of_text part s)

abbrev pub ends_authority : ℕ → Bool
ends_authority c = c == b'/' || c == b'?' || c == b'#'

-- The authority: what stands before the first `/`, `?` or `#`.
unfoldable pub authority_of : Text → Text
authority_of [] = []
authority_of (c ∷ s) = if ends_authority c then [] else c ∷ authority_of s

-- The units that an authority may not have: `@`, `\`, quotes and angle brackets.
abbrev pub is_allowed : ℕ → Bool
is_allowed c = not (c == b'@' || c == 92 || c == b'"' || c == 39 || c == b'<' || c == b'>')

abbrev pub is_bracket : ℕ → Bool
is_bracket c = c == b'[' || c == b']'

unfoldable pub bracketed_host : Text → Text → Option (Text × Text)
bracketed_host host [] = some (host, [])
bracketed_host host (c ∷ port) = if c == b':' then some (host, port) else none

unfoldable pub cut_bracketed : Text → Option ℕ → Option (Text × Text)
cut_bracketed authority none = none
cut_bracketed authority (some bracket_end) =
    if leb bracket_end 1
    then none
    else bracketed_host (substring authority 0 (bracket_end + 1))
        (substring authority (bracket_end + 1) (length authority))

unfoldable pub cut_plain : Text → Option ℕ → Option ℕ → Option (Text × Text)
cut_plain authority (some first_colon) (some last_colon) =
    if first_colon == last_colon
    then some (
      substring authority 0 first_colon,
      substring authority (first_colon + 1) (length authority),
    )
    else none
cut_plain authority _ _ = some (authority, [])

-- The host and the text of the port.
unfoldable pub cut_authority : Text → Option (Text × Text)
cut_authority authority =
    if starts_with authority (codes "[")
    then cut_bracketed authority (index_of b']' authority)
    else if not (all (λ c. not (is_bracket c)) authority)
    then none
    else cut_plain authority (index_of b':' authority) (last_index_of b':' authority)

unfoldable pub accepts_port : Text → Text → Bool
accepts_port authority [] =
    not (eq_text (substring authority (length authority - 1) (length authority)) (codes ":"))
accepts_port authority (c ∷ port) =
    let port_number = digits_value 0 (c ∷ port) in
    all is_digit (c ∷ port) && leb 1 port_number && leb port_number 65535

unfoldable pub accepts_authority : Text → Bool
accepts_authority authority =
    not (length authority == 0) && all is_allowed authority && elim (cut_authority authority) [
      | none ↦ false
      | some (host, port) ↦ not (length host == 0) && accepts_port authority port
    ]

unfoldable pub normalize_at : Text → Option ℕ → Option Text
normalize_at raw none = none
normalize_at raw (some scheme_end) =
    let scheme = map to_lower (substring raw 0 scheme_end) in
    if not (eq_text scheme (codes "http") || eq_text scheme (codes "https"))
    then none
    else if accepts_authority (authority_of (substring raw (scheme_end + 3) (length raw)))
    then some (scheme ++ substring raw scheme_end (length raw))
    else none

unfoldable pub normalize_http_url : Text → Option Text
normalize_http_url raw =
    if length raw == 0 || ltb max_url_length (length raw) || not (eq_text (trim raw) raw)
    then none
    else if not (all is_visible raw)
    then none
    else normalize_at raw (index_of_text (codes "://") raw)
