-- ===== src/Tests/Addresses.antt =====
-- Runs of the check of an address.
use harmotty.Prelude.{
  ◌≡◌, refl, some, none, codes, starts_with, substring, trim, trim_start, trim_end, is_space,
  index_of, last_index_of,
}
use harmotty.Prelude.Decimal.{is_digit, digits_value}
use harmotty.Browser.Address.{
  index_of_text, authority_of, bracketed_host, cut_bracketed, cut_plain, cut_authority,
  accepts_port, accepts_authority, normalize_at, normalize_http_url,
}
use harmotty.Browser.Safe.{IsSafeUrl, normalize_http_url_sound}

capitals_run : normalize_http_url (codes "HTTPS://[::1]:80/a") ≡ some (codes "https://[::1]:80/a")
unfolding normalize_http_url normalize_at accepts_authority accepts_port cut_authority cut_plain
    cut_bracketed bracketed_host authority_of index_of_text starts_with substring trim trim_start
    trim_end is_space index_of last_index_of is_digit digits_value
capitals_run = refl

user_run : normalize_http_url (codes "http://a@b.org/") ≡ none
unfolding normalize_http_url normalize_at accepts_authority accepts_port cut_authority cut_plain
    cut_bracketed bracketed_host authority_of index_of_text starts_with substring trim trim_start
    trim_end is_space index_of last_index_of is_digit digits_value
user_run = refl

port_run : normalize_http_url (codes "http://b.org:70000") ≡ none
unfolding normalize_http_url normalize_at accepts_authority accepts_port cut_authority cut_plain
    cut_bracketed bracketed_host authority_of index_of_text starts_with substring trim trim_start
    trim_end is_space index_of last_index_of is_digit digits_value
port_run = refl

open_port_run : normalize_http_url (codes "http://b.org:?q") ≡ none
unfolding normalize_http_url normalize_at accepts_authority accepts_port cut_authority cut_plain
    cut_bracketed bracketed_host authority_of index_of_text starts_with substring trim trim_start
    trim_end is_space index_of last_index_of is_digit digits_value
open_port_run = refl

normalize_http_url_sound_example : IsSafeUrl (codes "https://[::1]:80/a")
normalize_http_url_sound_example =
    normalize_http_url_sound (codes "HTTPS://[::1]:80/a") (codes "https://[::1]:80/a") capitals_run
