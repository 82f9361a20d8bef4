-- ===== src/Nif.antt =====
-- native/temporal_nif/src/lib.rs: what the functions call of rustler, and the steps that they share.
pub mod Payload
pub mod Json
pub mod Workflow
pub mod Tls
pub mod Connect
pub mod Worker
use sdk_elixir.Base.{
  ℕ, String, ◌<>◌, Bool, Option, none, some, Result, ok, err, List, [], ◌∷◌, and_then, unwrap_or,
}
use sdk_elixir.Base.Dict
use sdk_elixir.Base.Dict.{Dict}
use sdk_elixir.Base.Int.{ℤ}
use sdk_elixir.Base.Utf8.{Bytes}

-- Terms of the Erlang machine: `Term::decode` at each type that the code asks for, and `encode`.
-- A map is the list of its entries; a map with atom keys has the atoms' debug texts as keys.
pub record Rustler : Type 1 where
  pub Term : Type 0
  pub Float : Type 0
  pub decode_map : Term → Option (Dict Term)
  pub decode_atom_map : Term → Option (Dict Term)
  pub decode_bytes_map : Term → Option (List (Bytes × Bytes))
  pub decode_string_bytes_map : Term → Option (Dict Bytes)
  pub decode_string_map : Term → Option (Dict String)
  pub decode_list : Term → Option (List Term)
  pub decode_string : Term → Option String
  pub decode_binary : Term → Option Bytes
  pub decode_bytes : Term → Option Bytes
  pub decode_u64 : Term → Option ℕ
  pub decode_u32 : Term → Option ℕ
  pub decode_usize : Term → Option ℕ
  pub decode_bool : Term → Option Bool
  pub atom : String → Term
  pub text : String → Term
  pub boolean : Bool → Term
  pub integer : ℤ → Term
  pub float : Float → Term
  pub list : List Term → Term
  pub map : Dict Term → Term
  pub pair : Term → Term → Term

module _ (R : Rustler) where
  -- `(rustler::types::atom::error(), message).encode(env)` and its counterpart for success.
  abbrev pub error_reply : String → R.Term
  error_reply message = R.pair (R.atom "error") (R.text message)

  abbrev pub ok_reply : R.Term → R.Term
  ok_reply value = R.pair (R.atom "ok") value

  -- A map of parameters, or the error that is given.
  unfoldable pub params_map : String → R.Term → Result (Dict R.Term) String
  params_map message t = elim (R.decode_map t) [ some m ↦ ok m | none ↦ err message ]

  -- `match map.get(key) { Some(term) => match term.decode::<String>() … }`
  unfoldable pub required : String → Dict R.Term → Result String String
  unfolding Dict.get
  required key m = elim (Dict.get key m) [
    | none ↦ err (key <> " is required")
    | some t ↦ elim (R.decode_string t) [ some s ↦ ok s | none ↦ err (key <> " must be a string") ]
  ]

  -- `map.get(key).and_then(|term| term.decode::<T>().ok())`
  unfoldable pub optional : {A : Type 0} → (R.Term → Option A) → String → Dict R.Term → Option A
  unfolding Dict.get
  optional decode key m = and_then (Dict.get key m) decode
