-- ===== src/Elixir/PayloadConverter/BinaryConverter.antt =====
-- lib/temporal/payload_converter/binary_converter.ex
use sdk_elixir.Base.{ℕ, leb, if◌then◌else◌, Bool, false, length, ok, [], ◌∷◌}
use sdk_elixir.Base.Utf8.{Bytes, bytes}
use sdk_elixir.Converter.{Payload}
use sdk_elixir.Elixir.Term.{Term, binary}
use sdk_elixir.Elixir.PayloadConverter.{
  PayloadConverter, Raises, Outcome, made, failed, skip, binary_too_large, has_encoding,
}

unfoldable pub plain_payload : Bytes → Payload
unfolding bytes
plain_payload b = record { metadata = ("encoding", bytes "binary/plain") ∷ []; contents = b }

module _ {F : Type 0} where
  unfoldable pub to_payload : ℕ → Term F → Raises (Outcome Payload)
  unfolding plain_payload
  to_payload max_size (binary b) =
      if leb (length b) max_size
      then ok (made (plain_payload b))
      else ok (failed (binary_too_large (length b) max_size))
  to_payload max_size _ = ok skip

  -- The data of a payload is always a binary.
  unfoldable pub from_payload : Payload → Raises (Outcome (Term F))
  unfolding has_encoding
  from_payload p = if has_encoding "binary/plain" p then ok (made (binary p.contents)) else ok skip

  unfoldable pub can_convert : ℕ → Term F → Bool
  can_convert max_size (binary b) = leb (length b) max_size
  can_convert max_size _ = false

  unfoldable pub converter : ℕ → PayloadConverter F
  unfolding to_payload from_payload can_convert
  converter max_size = record {
    to_payload = to_payload max_size;
    from_payload = from_payload;
    encoding = bytes "binary/plain";
    priority = 20;
    can_convert = can_convert max_size;
  }
