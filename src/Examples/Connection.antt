-- ===== src/Examples/Connection.antt =====
-- The theorems on the connection, at a concrete configuration.
use sdk_elixir.Base.{◌≤◌, none, some, ok, [], ◌∷◌, ◌≡◌, refl, arith, contains}
use sdk_elixir.Base.Dict
use sdk_elixir.Base.Dict.{Dict}
use sdk_elixir.Converter.Composite
use sdk_elixir.Converter.Composite.{default}
use sdk_elixir.Converter.JsonConverter
use sdk_elixir.Converter.JsonConverter.Canonical.{canonical}
use sdk_elixir.Client.{ClientTlsConfig}
use sdk_elixir.Client.Connect.{connect, builder_options, read_tls}
use sdk_elixir.Client.Connect.Paths.{Contained, connect-Contained}
use sdk_elixir.Nif.Connect.{connected, client_options, configured_converter, option_or}
use sdk_elixir.Nif.Connect.Configured.{json_depth, connected-reads_back}
use sdk_elixir.Examples.Codec.{codec, codec-IsLawful}
use sdk_elixir.Examples.Conversions.{
  unsorted, sorted_payload, unsorted-IsProper, unsorted-AllNumbers,
}
use sdk_elixir.Examples.Terms.{Term, text, terms}
use sdk_elixir.Converter.NilConverter
use sdk_elixir.Converter.BinaryConverter
use sdk_elixir.Json.Keys.{sort_by_key}
use sdk_elixir.Converter.Composite.BuiltIn.{json_payload}
use sdk_elixir.Examples.Server.{server}

-- A connection with a CA certificate.
abbrev tls : ClientTlsConfig
tls = record { client_cert_path = none; client_key_path = none; ca_cert_path = some "/etc/ca.pem" }

abbrev connection : Dict Term
connection = ("target_host", text "localhost:7233") ∷ []

was_connected :
    connected terms codec server "localhost:7233" "default" (some tls) connection
    ≡ ok (record { inner = "default"; converter = configured_converter terms codec connection })
unfolding connected connect builder_options read_tls contains
was_connected = refl

made_by_default :
    Composite.to_payload (configured_converter terms codec connection) unsorted ≡ ok sorted_payload
unfolding configured_converter Composite.to_payload NilConverter.to_payload
    BinaryConverter.to_payload JsonConverter.to_payload JsonConverter.validate_depth
    JsonConverter.to_deterministic_json JsonConverter.canonicalize_value sort_by_key json_payload
made_by_default = refl

depth_by_default : json_depth terms codec connection ≤ 127
unfolding option_or Dict.get
depth_by_default = omega arith

connected-reads_back_example :
    Composite.from_payload (configured_converter terms codec connection) sorted_payload
    ≡ ok (canonical codec unsorted)
connected-reads_back_example =
    connected-reads_back terms codec server codec-IsLawful "localhost:7233" "default" (some tls)
      connection
      (record { inner = "default"; converter = configured_converter terms codec connection })
      unsorted sorted_payload depth_by_default was_connected unsorted-IsProper unsorted-AllNumbers
      made_by_default

was_connected_plainly :
    connect server codec "localhost:7233" "default" (client_options terms (some tls) connection)
    ≡ ok (record { inner = "default"; converter = default codec })
unfolding connect builder_options read_tls contains client_options
was_connected_plainly = refl

connect-Contained_example : Contained tls
unfolding client_options
connect-Contained_example =
    connect-Contained server codec "localhost:7233" "default"
      (client_options terms (some tls) connection)
      (record { inner = "default"; converter = default codec }) tls was_connected_plainly refl
