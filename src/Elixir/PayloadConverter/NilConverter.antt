-- ===== src/Elixir/PayloadConverter/NilConverter.antt =====
-- lib/temporal/payload_converter/nil_converter.ex
use sdk_elixir.Base.{◌==◌, if◌then◌else◌, Bool, false, ok, [], ◌∷◌}
use sdk_elixir.Base.Utf8.{bytes}
use sdk_elixir.Converter.{Payload}
use sdk_elixir.Elixir.Term.{Term, atom}
use sdk_elixir.Elixir.PayloadConverter.{PayloadConverter, Raises, Outcome, made, skip, has_encoding}

unfoldable pub nil_payload : Payload
unfolding bytes
nil_payload = record { metadata = ("encoding", bytes "binary/null") ∷ []; contents = [] }

module _ {F : Type 0} where
  unfoldable pub can_convert : Term F → Bool
  can_convert (atom s) = s == "nil"
  can_convert _ = false

  unfoldable pub to_payload : Term F → Raises (Outcome Payload)
  unfolding nil_payload
  to_payload (atom s) = if s == "nil" then ok (made nil_payload) else ok skip
  to_payload _ = ok skip

  unfoldable pub from_payload : Payload → Raises (Outcome (Term F))
  unfolding has_encoding
  from_payload p = if has_encoding "binary/null" p then ok (made (atom "nil")) else ok skip

  unfoldable pub converter : PayloadConverter F
  unfolding to_payload from_payload can_convert
  converter = record {
    to_payload = to_payload;
    from_payload = from_payload;
    encoding = bytes "binary/null";
    priority = 10;
    can_convert = can_convert;
  }
