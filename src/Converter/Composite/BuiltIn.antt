-- ===== src/Converter/Composite/BuiltIn.antt =====
-- The program's own converters, and the payloads that they make.
use sdk_elixir.Base.{ℕ, ◌≤◌, ◌≡◌, sym, ◌⊎◌, inl, inr, subst, [], String, true, false, Bool, ok}
use sdk_elixir.Base.Utf8.{Bytes}
use sdk_elixir.Json.{Value}
use sdk_elixir.Json.Depth.{depth}
use sdk_elixir.Converter.{Payload, Codecs, PayloadConverter}
use sdk_elixir.Converter.Basic.{plain_metadata}
use sdk_elixir.Converter.NilConverter
use sdk_elixir.Converter.BinaryConverter
use sdk_elixir.Converter.JsonConverter
use sdk_elixir.Converter.JsonConverter.{JsonConverter, json_metadata}
use sdk_elixir.Converter.JsonConverter.Normal.{CollectsInOrder, IsCanonical}
use sdk_elixir.Converter.JsonConverter.Numbers.{AllNumbers}

-- What is relied on of `serde_json` and `base64`. JSON text is read back as the value that was
-- written if the value nests within serde_json's own recursion limit, has its entries in the order
-- in which its maps iterate, and has no floating-point number (without the feature
-- `float_roundtrip` such a number may come back changed). Base64 is decoded strictly, so that a text
-- that decodes is the encoding of its bytes.
pub record IsLawful (C : Codecs) : Type 0 where
  pub is_f64 : C.Number → Bool
  pub collects : CollectsInOrder C
  pub reads_json :
      (v : Value C.Number) (b : Bytes)
      → IsCanonical v
      → AllNumbers (λ n. is_f64 n ≡ false) v
      → depth v ≤ 127
      → C.to_vec v ≡ ok b
      → C.from_slice b ≡ ok v
  pub reads_base64 : (s : String) (b : Bytes) → C.base64_decode s ≡ ok b → C.base64_encode b ≡ s

module _ (C : Codecs) where
  -- A converter of the program: the JSON converter with sorted keys and at most 127 levels.
  abbrev pub IsBuiltIn : PayloadConverter C.Number → Type 0
  IsBuiltIn c =
      (c ≡ NilConverter.converter)
      ⊎ ((m : ℕ) × (c ≡ BinaryConverter.converter C m))
      ⊎ ((d : ℕ) × (d ≤ 127)
          × (c ≡ JsonConverter.converter C (record { max_depth = d; sort_keys = true })))

  unfoldable pub nil_payload : Payload
  unfolding plain_metadata
  nil_payload = record { metadata = plain_metadata "binary/null"; contents = [] }

  unfoldable pub binary_payload : Bytes → Payload
  unfolding plain_metadata
  binary_payload b = record { metadata = plain_metadata "binary/plain"; contents = b }

  unfoldable pub json_payload : Bytes → Payload
  unfolding json_metadata
  json_payload b = record { metadata = json_metadata; contents = b }

  -- A property of the three kinds of converters holds of every built-in one.
  pub built_in :
      (P : PayloadConverter C.Number → Type 0)
      → P NilConverter.converter
      → ((m : ℕ) → P (BinaryConverter.converter C m))
      → ((d : ℕ)
          → d ≤ 127
          → P (JsonConverter.converter C (record { max_depth = d; sort_keys = true })))
      → (c : PayloadConverter C.Number) → IsBuiltIn c
      → P c
  built_in P n b j c (inl e) = subst P (sym e) n
  built_in P n b j c (inr (inl (m, e))) = subst P (sym e) (b m)
  built_in P n b j c (inr (inr (d, h, e))) = subst P (sym e) (j d h)
