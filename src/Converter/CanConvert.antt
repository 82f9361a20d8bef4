-- ===== src/Converter/CanConvert.antt =====
-- `can_convert` of the three converters, and what they refuse.
use sdk_elixir.Base.{ℕ, ◌≡◌, ◌↔◌, refl, true, false, none, ok, arith}
use sdk_elixir.Json.{Value, is_null}
use sdk_elixir.Converter.{Codecs}
use sdk_elixir.Converter.NilConverter
use sdk_elixir.Converter.BinaryConverter
use sdk_elixir.Converter.JsonConverter
use sdk_elixir.Converter.JsonConverter.{JsonConverter}

module _ (C : Codecs) where
  nil_refuses :
      (v : Value C.Number)
      → (NilConverter.converter.can_convert v ≡ false) ↔ (NilConverter.to_payload v ≡ ok none)
  unfolding NilConverter.to_payload
  nil_refuses v = ground arith

  binary_refuses :
      (m : ℕ) (v : Value C.Number)
      → (BinaryConverter.can_convert C v ≡ false) ↔ (BinaryConverter.to_payload C m v ≡ ok none)
  unfolding BinaryConverter.to_payload BinaryConverter.can_convert BinaryConverter.pack
  binary_refuses m v = ground arith

  json_refuses :
      (j : JsonConverter) (v : Value C.Number)
      → (JsonConverter.to_payload C j v ≡ ok none) ↔ (is_null v ≡ true)
  unfolding JsonConverter.to_payload
  json_refuses j v = ground arith

  -- The nil converter and the binary converter refuse a value, which is not an error, exactly if their
  -- `can_convert` denies it; the JSON converter refuses exactly null, for which its `can_convert`, as
  -- for every value, is true.
  pub can_convert-refuses :
      (v : Value C.Number)
      → ((NilConverter.converter.can_convert v ≡ false) ↔ (NilConverter.to_payload v ≡ ok none))
        × ((m : ℕ)
            → ((BinaryConverter.converter C m).can_convert v ≡ false)
              ↔ ((BinaryConverter.converter C m).to_payload v ≡ ok none))
        × ((j : JsonConverter)
            → ((JsonConverter.converter C j).can_convert v ≡ true)
              × (((JsonConverter.converter C j).to_payload v ≡ ok none) ↔ (is_null v ≡ true)))
  can_convert-refuses v = (nil_refuses v, λ m. binary_refuses m v, λ j. (refl, json_refuses j v))
