-- ===== src/Examples/Payloads.antt =====
-- The theorem on payload maps with atom keys, at a concrete map.
use mathlib.Core.Option
use sdk_elixir.Base.{◌≡◌, refl, Option, none, some, ok, [], ◌∷◌}
use sdk_elixir.Base.Dict
use sdk_elixir.Base.Dict.{Dict}
use sdk_elixir.Base.Utf8.{bytes}
use sdk_elixir.Nif.{Rustler}
use sdk_elixir.Nif.Payload.{term_to_payload}
use sdk_elixir.Examples.Terms.{Term, Entries, text, map, end, entry, to_dict, terms}

abbrev as_atom_map : Term → Option (Dict Term)
as_atom_map (map es) = some (to_dict es)
as_atom_map _ = none

-- Every map has atoms as its keys.
abbrev atom_terms : Rustler
atom_terms = record terms { decode_atom_map = as_atom_map }

-- The same map by the names of its atoms, and by their debug texts, of which one has a colon.
abbrev named_entries : Entries
named_entries = entry "data" (text "1") (
    entry "metadata" (map (entry "encoding" (text "json/plain") end))
      (entry "other" (text "x") end))

abbrev payload_entries : Entries
payload_entries = entry "data" (text "1") (
    entry ":metadata" (map (entry "encoding" (text "json/plain") end))
      (entry "other" (text "x") end))

read_payload :
    term_to_payload atom_terms (map payload_entries)
    ≡ ok (record { metadata = ("encoding", bytes "json/plain") ∷ []; contents = bytes "1" })
unfolding term_to_payload
read_payload = refl
