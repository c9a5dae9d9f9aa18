-- ===== src/Http/JsonKeys/Members.antt =====
-- What `json_keys_snake_to_camel` makes of the members of an object.
use asio_owen.Prelude.{
  ℕ, ◌==◌, Bool, true, false, ◌&&◌, List, [], ◌∷◌, ◌++◌, append_assoc, append-nil, if◌then◌else◌,
  Bytes, has_byte, split_from, split_on, ◌≡◌, refl, sym, ap, ◌∙◌, arith, inl, inr, Bool-cases,
}
use asio_owen.Http.JsonKeys.{
  object, Scope, KeyScan, to_upper_byte, current_object_expects_key, set_expect_key, string_step,
  scopes_after, outer_step, byte_step, rename_keys,
}

rename_keys_step :
    (st : KeyScan) (c : ℕ) (rest : Bytes)
    → (st.in_string && c == 92) ≡ false
    → rename_keys st (c ∷ rest) ≡ (byte_step st c).0 ++ rename_keys (byte_step st c).1 rest
unfolding rename_keys
rename_keys_step st c [] h = sym (append-nil (byte_step st c).0)
rename_keys_step st c (d ∷ rest) h = rw (rename_keys, h) refl

-- A word with a capital first letter.
unfoldable capital : Bytes → Bytes
unfolding to_upper_byte
capital [] = []
capital (c ∷ word) = to_upper_byte c ∷ word

unfoldable capitals : List Bytes → Bytes
unfolding capital
capitals [] = []
capitals (word ∷ words) = capital word ++ capitals words

unfoldable camel_words : List Bytes → Bytes
unfolding capitals
camel_words [] = []
camel_words (word ∷ words) = word ++ capitals words

-- The words of a snake case name, with capitals from the second on.
unfoldable pub camel : Bytes → Bytes
unfolding camel_words
camel key = camel_words (split_on b'_' key)

-- The same byte by byte, with whether the next one is a capital.
unfoldable camel_from : Bool → Bytes → Bytes
unfolding to_upper_byte
camel_from up [] = []
camel_from up (c ∷ key) =
    let plain = camel_from false key in
    let next = camel_from true key in
    if c == b'_' then next else (if up then to_upper_byte c else c) ∷ plain

capitals-split_from :
    (c : ℕ) (word key : Bytes)
    → (capitals (split_from b'_' [] key) ≡ camel_from true key)
      × (capitals (split_from b'_' (c ∷ word) key) ≡ capital (c ∷ word) ++ camel_from false key)
unfolding capitals capital split_from camel_from
capitals-split_from c word [] = (refl, refl)
capitals-split_from c word (d ∷ key) = elim (Bool-cases (d == b'_')) [
  | inl e ↦ rw e (
    (capitals-split_from c word key).0,
    ap (λ t. to_upper_byte c ∷ (word ++ t)) (capitals-split_from c word key).0,
  )
  | inr e ↦ rw e (
    (capitals-split_from d [] key).1,
    (capitals-split_from c (word ++ d ∷ []) key).1
        ∙ ap (λ t. to_upper_byte c ∷ t) (append_assoc word (d ∷ []) (camel_from false key)),
  )
]

split_from-camel :
    (word key : Bytes) → camel_words (split_from b'_' word key) ≡ word ++ camel_from false key
unfolding camel_words split_from camel_from
split_from-camel word [] = refl
split_from-camel word (c ∷ key) = elim (Bool-cases (c == b'_')) [
  | inl e ↦ rw e (ap (λ t. word ++ t) (capitals-split_from 0 [] key).0)
  | inr e ↦
      rw e
        (split_from-camel (word ++ c ∷ []) key ∙ append_assoc word (c ∷ []) (camel_from false key))
]

abbrev in_key_of : List Scope → Bool → KeyScan
in_key_of scopes up = record { scopes = scopes; in_string = true; in_key = true; next_upper = up }

abbrev in_value_of : List Scope → KeyScan
in_value_of scopes = record {
  scopes = scopes;
  in_string = true;
  in_key = false;
  next_upper = false;
}

abbrev pub outside : List Scope → KeyScan
outside scopes = record { scopes = scopes; in_string = false; in_key = false; next_upper = false }

none_of :
    (c : ℕ) (key : Bytes) (q : ℕ)
    → has_byte q (c ∷ key) ≡ false
    → ((c == q) ≡ false) × (has_byte q key ≡ false)
unfolding has_byte
none_of c key q h = ground arith

rename_keys-key :
    (scopes : List Scope) (up : Bool) (key rest : Bytes)
    → has_byte 34 key ≡ false
    → has_byte 92 key ≡ false
    → rename_keys (in_key_of scopes up) (key ++ 34 ∷ rest)
      ≡ camel_from up key ++ 34 ∷ rename_keys (outside (set_expect_key false scopes)) rest
unfolding has_byte camel_from byte_step string_step
rename_keys-key scopes up [] rest no_quote no_backslash =
    rename_keys_step (in_key_of scopes up) 34 rest refl
rename_keys-key scopes up (c ∷ key) rest no_quote no_backslash =
    let quote : (c == 34) ≡ false = (none_of c key 34 no_quote).0 in
    let backslash : (c == 92) ≡ false = (none_of c key 92 no_backslash).0 in
    let later : (next : Bool)
        → rename_keys (in_key_of scopes next) (key ++ 34 ∷ rest)
          ≡ camel_from next key ++ 34 ∷ rename_keys (outside (set_expect_key false scopes)) rest =
      λ next.
        rename_keys-key scopes next key rest (none_of c key 34 no_quote).1
          (none_of c key 92 no_backslash).1 in
    rename_keys_step (in_key_of scopes up) c (key ++ 34 ∷ rest) backslash
    ∙ elim (Bool-cases (c == b'_')) [
      | inl e ↦ rw quote (rw e (later true))
      | inr e ↦ elim (Bool-cases up) [
        | inl capital_next ↦
            rw quote (rw e (rw capital_next (ap (λ t. to_upper_byte c ∷ t) (later false))))
        | inr same_next ↦ rw quote (rw e (rw same_next (ap (λ t. c ∷ t) (later false))))
      ]
    ]

-- The inside of a string literal: bytes that are neither quotes nor backslashes, and pairs of a
-- backslash and any byte.
pub data IsLiteral : Bytes → Type 0 where
  done : IsLiteral []
  plain :
      {c : ℕ} {text : Bytes}
      → (c == 34) ≡ false
      → (c == 92) ≡ false
      → IsLiteral text
      → IsLiteral (c ∷ text)
  pair : {d : ℕ} {text : Bytes} → IsLiteral text → IsLiteral (92 ∷ d ∷ text)

rename_keys-value :
    (scopes : List Scope) (text rest : Bytes)
    → IsLiteral text
    → rename_keys (in_value_of scopes) (text ++ 34 ∷ rest)
      ≡ text ++ 34 ∷ rename_keys (outside scopes) rest
unfolding byte_step string_step rename_keys
rename_keys-value scopes _ rest done = rename_keys_step (in_value_of scopes) 34 rest refl
rename_keys-value scopes _ rest (plain {c} {text} quote backslash literal) =
    rename_keys_step (in_value_of scopes) c (text ++ 34 ∷ rest) backslash
    ∙ rw quote (ap (λ t. c ∷ t) (rename_keys-value scopes text rest literal))
rename_keys-value scopes _ rest (pair {d} {text} literal) =
    ap (λ t. 92 ∷ d ∷ t) (rename_keys-value scopes text rest literal)

-- A member of an object whose value is a string, and the text behind it.
unfoldable pub member : Bytes → Bytes → Bytes → Bytes
member key text rest = 34 ∷ (key ++ 34 ∷ b':' ∷ 34 ∷ (text ++ 34 ∷ rest))

-- Where an object expects a member whose value is a string, the key comes out in camel case, its
-- words being what the underscores separate, the value comes out as it was, and the text behind
-- goes on with the same scopes, no key being expected. The key may hold no quote and no backslash;
-- the value may be any literal.
pub rename_keys-member :
    (scopes : List Scope) (key text rest : Bytes)
    → has_byte 34 key ≡ false
    → has_byte 92 key ≡ false
    → IsLiteral text
    → rename_keys
        (outside (record { kind = object; expect_key = true } ∷ scopes))
        (member key text rest)
      ≡ member
          (camel key)
          text
          (rename_keys (outside (record { kind = object; expect_key = false } ∷ scopes)) rest)
unfolding member camel byte_step outer_step current_object_expects_key scopes_after set_expect_key
rename_keys-member scopes key text rest no_quote no_backslash literal =
    let before = record { kind = object; expect_key = true } ∷ scopes in
    let after = record { kind = object; expect_key = false } ∷ scopes in
    rename_keys_step (outside before) 34 _ refl
    ∙ ap (λ t. 34 ∷ t)
        (rename_keys-key before false key (b':' ∷ 34 ∷ (text ++ 34 ∷ rest)) no_quote no_backslash
          ∙ ap (λ t. t ++ 34 ∷ rename_keys (outside after) (b':' ∷ 34 ∷ (text ++ 34 ∷ rest)))
              (sym (split_from-camel [] key))
          ∙ ap (λ t. camel key ++ 34 ∷ t)
              (rename_keys_step (outside after) b':' (34 ∷ (text ++ 34 ∷ rest)) refl
                ∙ ap (λ t. b':' ∷ t)
                    (rename_keys_step (outside after) 34 (text ++ 34 ∷ rest) refl
                      ∙ ap (λ t. 34 ∷ t) (rename_keys-value after text rest literal))))
