-- ===== src/Bridge/RoundTrip.antt =====
-- `BridgeProtocol.parse` and `BridgeMessage.serialize` undo each other.
use harmotty.Prelude.{
  ℕ, suc, ◌+◌, ◌≡◌, refl, ◌∙◌, none, some, [], ◌∷◌, ◌++◌, append_assoc, arith, Text, length,
  length-append, index_of, index_from, index_from-field, substring, substring-field,
  substring-suffix, drop-append,
}
use harmotty.Bridge.Protocol.{
  BridgeMessage, bar, version, serialize, accept, cut_fields, find_fields, parse,
}

-- The fields of a message with what stands before and after each.
abbrev pub laid_out : Text → Text → Text → Text → Text
laid_out d c k p = version ++ bar ∷ (d ++ bar ∷ (c ++ bar ∷ (k ++ bar ∷ p)))

pub serialize-laid_out :
    (m : BridgeMessage) → serialize m ≡ laid_out m.direction m.channel m.kind m.payload
unfolding serialize
serialize-laid_out m = simp append_assoc refl

field_at :
    (s p f r : Text) (i : ℕ)
    → s ≡ p ++ f ++ bar ∷ r
    → i ≡ length p
    → index_of bar f ≡ none
    → (index_from bar s i ≡ some (length p + length f)) × (substring s i (length p + length f) ≡ f)
field_at s p f r i e at no_bar =
    rw (e, at) (index_from-field bar p f r no_bar, substring-field p f (bar ∷ r))

abbrev before_direction : Text
before_direction = version ++ bar ∷ []

abbrev before_channel : Text → Text
before_channel d = before_direction ++ d ++ bar ∷ []

abbrev before_kind : Text → Text → Text
before_kind d c = before_channel d ++ c ++ bar ∷ []

abbrev before_payload : Text → Text → Text → Text
before_payload d c k = before_kind d c ++ k ++ bar ∷ []

length_field : (p f : Text) → suc (length p + length f) ≡ length (p ++ f ++ bar ∷ [])
length_field p f = omega (arith, length-append {0} (p ++ f) (bar ∷ []), length-append {0} p f)

payload_at : (s p f : Text) (i : ℕ) → s ≡ p ++ f → i ≡ length p → substring s i (length s) ≡ f
payload_at s p f i e at =
    rw (e, at)
      (substring-suffix (p ++ f) (length p) (omega (arith, length-append {0} p f))
        ∙ drop-append p f)

module _ (d c k p : Text) (no_d : index_of bar d ≡ none) (no_c : index_of bar c ≡ none)
    (no_k : index_of bar k ≡ none) where
  fields_of : find_fields (laid_out d c k p) 2 ≡ accept d c k p
  unfolding find_fields cut_fields
  fields_of =
      let direction_field =
        field_at (laid_out d c k p) before_direction d (c ++ bar ∷ (k ++ bar ∷ p)) 3
          (simp append_assoc refl) refl no_d in
      let channel_field =
        field_at (laid_out d c k p) (before_channel d) c (k ++ bar ∷ p)
          (suc (length before_direction + length d)) (simp append_assoc refl)
          (length_field before_direction d) no_c in
      let kind_field =
        field_at (laid_out d c k p) (before_kind d c) k p
          (suc (length (before_channel d) + length c)) (simp append_assoc refl)
          (length_field (before_channel d) c) no_k in
      let payload_field =
        payload_at (laid_out d c k p) (before_payload d c k) p
          (suc (length (before_kind d c) + length k)) (simp append_assoc refl)
          (length_field (before_kind d c) k) in
      rw
        (
          direction_field.0, channel_field.0, kind_field.0, direction_field.1, channel_field.1,
          kind_field.1, payload_field,
        )
        refl

  parse-laid_out : parse (laid_out d c k p) ≡ accept d c k p
  unfolding parse index_of substring
  parse-laid_out = fields_of

-- A message whose fields have no separator is read back field by field.
pub parse-serialize :
    (m : BridgeMessage)
    → index_of bar m.direction ≡ none
    → index_of bar m.channel ≡ none
    → index_of bar m.kind ≡ none
    → parse (serialize m) ≡ accept m.direction m.channel m.kind m.payload
parse-serialize m no_d no_c no_k =
    rw (serialize-laid_out m) (parse-laid_out m.direction m.channel m.kind m.payload no_d no_c no_k)
